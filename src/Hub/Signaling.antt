-- ===== src/Hub/Signaling.antt =====
-- server/screenshare.go: capabilities, the types of signaling messages, and the ICE servers. The
-- HMAC and the decimal printing of numbers are parameters.
use nvda_remote_go.Prelude.{
  ℕ, ◌+◌, ◌/◌, Bytes, Bool, false, List, [], ◌∷◌, ◌++◌, codes, bytes_eq, has_prefix, index, not,
  ◌&&◌, ◌||◌, ◌==◌, if◌then◌else◌, length, filter, ltb, ◌*◌,
}
use nvda_remote_go.Session.State.{second}
use nvda_remote_go.Hub.State.{Hub, IceServer, master, slave, other, role, Client}
use nvda_remote_go.Hub.Client.{mentions}
use nvda_remote_go.Hub.Commands.{is_some}

abbrev pub cap_screen_share : Bytes
cap_screen_share = codes "screen_share/1"

abbrev pub cap_input_control : Bytes
cap_input_control = codes "input_control/1"

abbrev pub max_capabilities : ℕ
max_capabilities = 8

unfoldable pub is_known_capability : Bytes → Bool
is_known_capability v = bytes_eq v cap_screen_share || bytes_eq v cap_input_control

-- The loop of `filterCapabilities`, over what it has kept so far.
unfoldable pub filter_from : List Bytes → List Bytes → List Bytes
filter_from kept [] = kept
filter_from kept (v ∷ vs) =
    let skipped = filter_from kept vs in
    let extended = kept ++ v ∷ [] in
    let rest = filter_from extended vs in
    if not (is_known_capability v) || mentions v kept
    then skipped
    else if length extended == max_capabilities
    then extended
    else rest

unfoldable pub filter_capabilities : List Bytes → List Bytes
filter_capabilities cs = filter_from [] cs

abbrev pub contains_text : Bytes → Bytes → Bool
contains_text pat msg = is_some (index pat msg)

unfoldable pub maybe_screen_share : Bytes → Bool
maybe_screen_share msg =
    contains_text (codes "webrtc_") msg
    || contains_text (codes "screen_share") msg
    || contains_text (codes "turn_credentials") msg
    || contains_text (codes "capabilities") msg

unfoldable pub is_signaling_type : Bytes → Bool
is_signaling_type t =
    bytes_eq t (codes "screen_share_request")
    || bytes_eq t (codes "screen_share_response")
    || bytes_eq t (codes "screen_share_stop")
    || bytes_eq t (codes "webrtc_offer")
    || bytes_eq t (codes "webrtc_answer")
    || bytes_eq t (codes "webrtc_candidate")

-- A master that may not control anything.
unfoldable pub is_unauthorized_master : Client → Bool
is_unauthorized_master c = elim (role c.connection_type) [
  | master ↦ not c.authorized
  | slave ↦ false
  | other ↦ false
]

unfoldable pub turn_url_valid : Bytes → Bool
turn_url_valid v =
    names_host (codes "stun:")
    || names_host (codes "stuns:")
    || names_host (codes "turn:")
    || names_host (codes "turns:")
  where
    names_host : Bytes → Bool
    names_host scheme = has_prefix scheme v && ltb (length scheme) (length v)

unfoldable pub is_turn : Bytes → Bool
is_turn v = has_prefix (codes "turn:") v || has_prefix (codes "turns:") v

unfoldable pub turn_needs_secret : List Bytes → Bool
turn_needs_secret [] = false
turn_needs_secret (v ∷ vs) = is_turn v || turn_needs_secret vs

unfoldable pub is_stun : Bytes → Bool
is_stun v = has_prefix (codes "stun:") v || has_prefix (codes "stuns:") v

-- `crypto/hmac` with SHA-1 and base64, and `strconv`.
pub record TurnPlatform : Type 0 where
  pub sign : Bytes → Bytes → Bytes
  pub itoa : ℕ → Bytes

abbrev pub default_turn_ttl : ℕ
default_turn_ttl = 3600

abbrev pub effective_ttl : ℕ → ℕ
effective_ttl ttl = if ttl == 0 then default_turn_ttl else ttl

module _ (platform : TurnPlatform) where
  abbrev pub expiry_username : ℕ → ℕ → ℕ → Bytes
  expiry_username now ttl id =
      platform.itoa ((now + ttl * second) / second) ++ b':' ∷ platform.itoa id

  -- The username, the credential and the lifetime.
  unfoldable pub turn_credentials : ℕ → Bytes → ℕ → ℕ → Bytes × Bytes × ℕ
  turn_credentials id secret ttl now =
      let ttl' = effective_ttl ttl in
      let username = expiry_username now ttl' id in (username, platform.sign secret username, ttl')

  abbrev pub stun_server : List Bytes → List IceServer
  stun_server [] = []
  stun_server (u ∷ us) = record { urls = u ∷ us; username = []; credential = [] } ∷ []

  abbrev pub relay_server : List Bytes → Bytes × Bytes × ℕ → IceServer
  relay_server urls (username, credential, ttl) = record {
    urls = urls;
    username = username;
    credential = credential;
  }

  abbrev pub with_relay :
      List IceServer → List Bytes → Bytes → Bytes × Bytes × ℕ → List IceServer × ℕ
  with_relay servers [] secret creds = (servers, 0)
  with_relay servers (u ∷ us) [] creds = (servers, 0)
  with_relay servers (u ∷ us) (c ∷ cs) creds =
      (servers ++ relay_server (u ∷ us) creds ∷ [], creds.2)

  unfoldable pub ice_servers : ℕ → ℕ → Hub → List IceServer × ℕ
  ice_servers now id h =
      let urls = h.settings.turn_urls in
      with_relay (stun_server (filter is_stun urls)) (filter (λ v. not (is_stun v)) urls)
        h.settings.turn_secret (turn_credentials id h.settings.turn_secret h.settings.turn_ttl now)
