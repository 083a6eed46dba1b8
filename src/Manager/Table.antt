-- ===== src/Manager/Table.antt =====
-- server/httpconn.go: the table of sessions and its operations. `net.SplitHostPort`, the random
-- source, base64 and SHA-256 are parameters.
use nvda_remote_go.Prelude.{
  ℕ, zero, suc, ◌+◌, Bytes, Bool, true, false, Option, none, some, List, [], ◌∷◌, ◌&&◌, ltb, leb,
  not, if◌then◌else◌, length, filter, bytes_eq,
}
use nvda_remote_go.Session.State.{Session, RelayConfig, new_http_session}

pub record Manager : Type 0 where
  pub sessions : List Session
  pub config : RelayConfig
  -- The background sweep: whether `start` has run, and whether its context is still live.
  pub sweep_started : Bool
  pub sweeping : Bool

unfoldable pub new_http_relay_manager : RelayConfig → Manager
new_http_relay_manager c = record {
  sessions = [];
  config = c;
  sweep_started = false;
  sweeping = false;
}

unfoldable pub find_session : Bytes → List Session → Option Session
find_session id [] = none
find_session id (s ∷ ss) = if bytes_eq s.id id then some s else find_session id ss

-- `remove`, for a session of the table.
unfoldable pub remove : Bytes → Manager → Manager
remove id m = record m { sessions = filter (λ s. not (bytes_eq s.id id)) m.sessions }

-- `close` of a session of the table: what is left of the session is closed, and it is removed.
unfoldable pub close : Session → Manager → Manager
unfolding remove
close s m = remove s.id m

unfoldable pub close_each : List Session → Manager → Manager
unfolding close
close_each [] m = m
close_each (s ∷ ss) m = close_each ss (close s m)

-- `!closed && lastActivity.Before(cutoff)`, where the cutoff is `now - ttl`.
unfoldable pub is_expired : ℕ → ℕ → Session → Bool
is_expired ttl now s = not s.closed && ltb (s.last_activity + ttl) now

unfoldable pub expire_inactive : ℕ → Manager → Manager
unfolding close_each is_expired
expire_inactive now m =
    if leb m.config.session_ttl 0
    then m
    else close_each (filter (is_expired m.config.session_ttl now) m.sessions) m

unfoldable pub get : ℕ → Bytes → Manager → Manager × Option Session
unfolding expire_inactive find_session
get now id m = let m' = expire_inactive now m in (m', find_session id m'.sessions)

-- `start`, once; the ticker of its goroutine calls `expireInactive` until the context is cancelled.
unfoldable pub start : Manager → Manager
start m = if m.sweep_started then m else record m { sweep_started = true; sweeping = true }

unfoldable pub sweep : ℕ → Manager → Manager
unfolding expire_inactive
sweep now m = if m.sweeping then expire_inactive now m else m

unfoldable pub close_all : Manager → Manager
unfolding close_each
close_all m = close_each m.sessions (record m { sweeping = false })

pub data CreateError : Type 0 where
  session_limit per_ip_limit random_failure no_identifier : CreateError

pub data Created : Type 0 where
  created : Session → Bytes → Created
  refused : CreateError → Created

-- What `rand.Read` gives in one attempt: sixteen bytes and thirty-two, or an error.
pub record Draw : Type 0 where
  pub id_bytes : Option Bytes
  pub token_bytes : Option Bytes

-- The functions of the standard library that the table calls.
pub record Platform : Type 0 where
  pub split_host_port : Bytes → Option (Bytes × Bytes)
  pub encode64 : Bytes → Bytes
  pub decode64 : Bytes → Option Bytes
  pub sha256 : Bytes → Bytes

abbrev host_or_empty : Option (Bytes × Bytes) → Bytes
host_or_empty none = []
host_or_empty (some (host, port)) = host

module _ (platform : Platform) where
  -- server/websocket.go
  unfoldable pub get_ip_from_addr : Bytes → Bytes
  get_ip_from_addr addr = host_or_empty (platform.split_host_port addr)

  unfoldable pub count_ip : Bytes → List Session → ℕ
  count_ip ip [] = 0
  count_ip ip (s ∷ ss) =
      let rest = count_ip ip ss in
      if bytes_eq (get_ip_from_addr s.remote_addr) ip then suc rest else rest

  abbrev pub insert : ℕ → Bytes → Bytes → Bytes → Manager → Manager × Created
  insert now id token addr m =
      let s = new_http_session id (platform.sha256 token) addr (some m.config) now in
      (record m { sessions = s ∷ m.sessions }, created s (platform.encode64 token))

  abbrev pub try_draw :
      ℕ → Option Bytes → Option Bytes → Bytes → Manager → Manager × Created → Manager × Created
  try_draw now none token addr m again = (m, refused random_failure)
  try_draw now (some id) none addr m again = (m, refused random_failure)
  try_draw now (some id) (some token) addr m again =
      elim (find_session (platform.encode64 id) m.sessions) [
        | none ↦ insert now (platform.encode64 id) token addr m
        | some other ↦ again
      ]

  -- The loop over the attempts.
  unfoldable pub allocate : ℕ → ℕ → (ℕ → Draw) → Bytes → Manager → Manager × Created
  unfolding find_session new_http_session
  allocate zero now draws addr m = (m, refused no_identifier)
  allocate (suc attempts) now draws addr m =
      let again = allocate attempts now draws addr m in
      try_draw now (draws attempts).id_bytes (draws attempts).token_bytes addr m again

  abbrev pub over_session_limit : Manager → Bool
  over_session_limit m =
      ltb 0 m.config.max_sessions && leb m.config.max_sessions (length m.sessions)

  abbrev pub over_ip_limit : Bytes → Manager → Bool
  over_ip_limit addr m =
      ltb 0 m.config.max_sessions_per_ip
      && leb m.config.max_sessions_per_ip (count_ip (get_ip_from_addr addr) m.sessions)

  abbrev admit : ℕ → (ℕ → Draw) → Bytes → Manager → Manager × Created
  admit now draws addr m =
      if over_session_limit m
      then (m, refused session_limit)
      else if over_ip_limit addr m
      then (m, refused per_ip_limit)
      else allocate 3 now draws addr m

  unfoldable pub create : ℕ → (ℕ → Draw) → Bytes → Manager → Manager × Created
  unfolding expire_inactive allocate count_ip get_ip_from_addr
  create now draws addr m = admit now draws addr (expire_inactive now m)
