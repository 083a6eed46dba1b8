-- ===== src/Relay/Routes.antt =====
-- server/httprelay.go `handleHTTPSessionMessages` and `handleHTTPSessionDelete`: the session that a
-- request is for, and its token.
use nvda_remote_go.Prelude.{
  ℕ, Bytes, Bool, false, Option, none, some, codes, bytes_eq, if◌then◌else◌, map,
}
use nvda_remote_go.Session.State.{Session}
use nvda_remote_go.Manager.Table.{Manager, Platform, get, close}
use nvda_remote_go.Relay.Request.{
  Http, Request, Reply, no_content, failed, require_bearer_token, token_matches,
}
use nvda_remote_go.Relay.Post.{handle_http_session_post}
use nvda_remote_go.Relay.Poll.{handle_http_session_poll}

-- The session of the table that a handler has changed.
abbrev pub put_session : Session → Manager → Manager
put_session s m = record m { sessions = map (λ x. if bytes_eq x.id s.id then s else x) m.sessions }

abbrev pub stored_session : Manager → Session × Reply → Manager × Reply
stored_session m (s, r) = (put_session s m, r)

module _ (http : Http) (platform : Platform) where
  abbrev pub token_is_valid : Session → Option Bytes → Bool
  token_is_valid s none = false
  token_is_valid s (some token) = token_matches platform s token

  abbrev pub is_authorized : Request → Session → Bool
  is_authorized r s = token_is_valid s (require_bearer_token http r)

  abbrev pub delete_found : Request → Manager × Option Session → Manager × Reply
  delete_found r (m, none) = (m, no_content)
  delete_found r (m, some s) =
      if is_authorized r s then (close s m, no_content) else (m, failed 401 (codes "unauthorized"))

  unfoldable pub handle_http_session_delete : ℕ → Request → Bytes → Manager → Manager × Reply
  handle_http_session_delete now r id m = delete_found r (get now id m)

  abbrev pub dispatch : ℕ → Request → (Session → Session) → Session → Manager → Manager × Reply
  dispatch now r others s m =
      if bytes_eq r.method (codes "POST")
      then stored_session m (handle_http_session_post http now r s)
      else if bytes_eq r.method (codes "GET")
      then stored_session m (handle_http_session_poll http now r others s)
      else (m, failed 405 (codes "method_not_allowed"))

  abbrev pub messages_found :
      ℕ → Request → (Session → Session) → Manager × Option Session → Manager × Reply
  messages_found now r others (m, none) = (m, failed 404 (codes "not_found"))
  messages_found now r others (m, some s) =
      if is_authorized r s
      then dispatch now r others s m
      else (m, failed 401 (codes "unauthorized"))

  unfoldable pub handle_http_session_messages :
      ℕ → Request → (Session → Session) → Bytes → Manager → Manager × Reply
  handle_http_session_messages now r others id m = messages_found now r others (get now id m)
