-- ===== src/Relay/Paths.antt =====
-- server/httprelay.go and httprelay_v2.go: the paths of the relay, and the handler that a path and a
-- method lead to.
use nvda_remote_go.Prelude.{
  ℕ, Bytes, Bool, List, [], ◌∷◌, ◌++◌, codes, length, drop, has_prefix, is_empty, not, ◌&&◌, ltb,
  bytes_eq, if◌then◌else◌, trim_left, trim_right, split_on,
}
use nvda_remote_go.Session.State.{Session}
use nvda_remote_go.Manager.Table.{Manager, Platform}
use nvda_remote_go.Relay.Request.{Http, Request, Reply, failed}
use nvda_remote_go.Relay.Routes.{handle_http_session_delete, handle_http_session_messages}
use nvda_remote_go.Relay.Stream.{Sse, Round, StreamReply, refused, handle_http_session_stream_route}

abbrev pub slash : ℕ
slash = 47

abbrev without_end : Bytes → Bytes
without_end path = if ltb 1 (length path) then trim_right slash path else path

module _ (http : Http) where
  abbrev normalized : Bytes → Bytes
  normalized path = without_end (slash ∷ trim_left slash path)

  unfoldable pub normalize_http_relay_path : Bytes → Bytes
  unfolding trim_left trim_right
  normalize_http_relay_path path =
      if is_empty (http.trim_space path)
      then codes "/remote/http/v1"
      else normalized (http.trim_space path)

  unfoldable pub normalize_http_relay_v2_path : Bytes → Bytes
  unfolding normalize_http_relay_path
  normalize_http_relay_v2_path path =
      if is_empty (http.trim_space path)
      then codes "/remote/http/v2"
      else normalize_http_relay_path (http.trim_space path)

-- What the path and the method of a request below `sessions/` ask for.
pub data Target : Type 0 where
  elsewhere wrong_method : Target
  deletes messages streams : Bytes → Target

-- The cases of `handleHTTPSession`, on the parts of the path.
abbrev pub target_v1 : Bytes → List Bytes → Target
target_v1 method (id ∷ []) =
    if not (is_empty id) && bytes_eq method (codes "DELETE") then deletes id else wrong_method
target_v1 method (id ∷ what ∷ []) =
    if not (is_empty id) && bytes_eq what (codes "messages") then messages id else wrong_method
target_v1 method _ = wrong_method

-- The cases of `handleHTTPSessionV2`.
abbrev pub target_v2 : Bytes → List Bytes → Target
target_v2 method (id ∷ []) =
    if not (is_empty id) && bytes_eq method (codes "DELETE") then deletes id else wrong_method
target_v2 method (id ∷ what ∷ []) =
    if not (is_empty id) && bytes_eq what (codes "messages")
    then messages id
    else if not (is_empty id) && bytes_eq what (codes "stream")
    then streams id
    else wrong_method
target_v2 method _ = wrong_method

abbrev pub sessions_prefix : Bytes → Bytes
sessions_prefix base = base ++ codes "/sessions/"

unfoldable pub target_of : (Bytes → List Bytes → Target) → Bytes → Bytes → Bytes → Target
unfolding split_on
target_of cases base method path =
    if has_prefix (sessions_prefix base) path
    then cases method (split_on slash (drop (length (sessions_prefix base)) path))
    else elsewhere

module _ (http : Http) (platform : Platform) where
  abbrev pub serve_v1 : ℕ → Request → (Session → Session) → Target → Manager → Manager × Reply
  serve_v1 now r others (deletes id) m = handle_http_session_delete http platform now r id m
  serve_v1 now r others (messages id) m =
      handle_http_session_messages http platform now r others id m
  serve_v1 now r others elsewhere m = (m, failed 404 (codes "not_found"))
  serve_v1 now r others _ m = (m, failed 405 (codes "method_not_allowed"))

  -- `relay_path` is the server's `httpRelayPath`.
  unfoldable pub handle_http_session :
      ℕ → Bytes → Bytes → Request → (Session → Session) → Manager → Manager × Reply
  unfolding target_of normalize_http_relay_path
  handle_http_session now relay_path path r others m =
      serve_v1 now r others
        (target_of target_v1 (normalize_http_relay_path http relay_path) r.method path) m

  abbrev pub plain : Manager × Reply → Manager × StreamReply
  plain (m, reply) = (m, refused reply)

  module _ (sse : Sse) where
    abbrev pub serve_v2 :
        ℕ
        → Bool
        → Bool
        → Request
        → (Session → Session)
        → List Round
        → Target
        → Manager
        → Manager × StreamReply
    serve_v2 now can_flush writable r others rounds (deletes id) m =
        plain (handle_http_session_delete http platform now r id m)
    serve_v2 now can_flush writable r others rounds (messages id) m =
        plain (handle_http_session_messages http platform now r others id m)
    serve_v2 now can_flush writable r others rounds (streams id) m =
        handle_http_session_stream_route sse http platform now can_flush writable r rounds id m
    serve_v2 now can_flush writable r others rounds elsewhere m =
        (m, refused (failed 404 (codes "not_found")))
    serve_v2 now can_flush writable r others rounds wrong_method m =
        (m, refused (failed 405 (codes "method_not_allowed")))

    unfoldable pub handle_http_session_v2 :
        ℕ
        → Bytes
        → Bool
        → Bool
        → Bytes
        → Request
        → (Session → Session)
        → List Round
        → Manager
        → Manager × StreamReply
    unfolding target_of normalize_http_relay_v2_path
    handle_http_session_v2 now relay_path can_flush writable path r others rounds m =
        serve_v2 now can_flush writable r others rounds
          (target_of target_v2 (normalize_http_relay_v2_path http relay_path) r.method path) m
