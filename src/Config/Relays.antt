-- ===== src/Config/Relays.antt =====
-- server/configure.go and addresses.go: the parameters that are checked before the server starts. The
-- network package is a parameter.
use nvda_remote_go.Prelude.{
  ℕ, suc, ◌-◌, ◌*◌, ◌/◌, ◌%◌, Bytes, Bool, true, false, Option, none, some, List, [], ◌∷◌, ◌++◌,
  codes, ℤ, pos, negsuc, not, ◌&&◌, ◌||◌, ltb, leb, is_empty, bytes_eq, has_prefix, contains_any,
  if◌then◌else◌,
}
use nvda_remote_go.Session.State.{RelayConfig, u64_mod, second}
use nvda_remote_go.Relay.Request.{Http}
use nvda_remote_go.Relay.Paths.{normalize_http_relay_path}

-- `net.SplitHostPort`, whether `net.ParseIP` reads an address, and `strconv.Atoi`.
pub record Net : Type 0 where
  pub split_host_port : Bytes → Option (Bytes × Bytes)
  pub is_ip : Bytes → Bool
  pub atoi : Bytes → Option ℤ

abbrev pub port_in_range : Option ℤ → Bool
port_in_range none = false
port_in_range (some (negsuc n)) = false
port_in_range (some (pos n)) = not (ltb n 1) && not (ltb 65536 n)

module _ (net : Net) where
  abbrev pub host_port_valid : Option (Bytes × Bytes) → Bool
  host_port_valid none = false
  host_port_valid (some (ip, port)) =
      if not (is_empty ip) && not (net.is_ip ip)
      then false
      else if is_empty port
      then false
      else port_in_range (net.atoi port)

  unfoldable pub address_valid : Bytes → Bool
  address_valid v = host_port_valid (net.split_host_port v)

  -- `AddressList.Set`: the list afterwards, and whether the address was taken.
  unfoldable pub set_address : Bytes → List Bytes → List Bytes × Bool
  unfolding address_valid
  set_address v as' = if address_valid v then (as' ++ v ∷ [], true) else (as', false)

-- `AddressList.String`
unfoldable pub addresses_text : List Bytes → Bytes
addresses_text [] = []
addresses_text (v ∷ vs) =
    let rest = addresses_text vs in if is_empty v then rest else v ++ 10 ∷ rest

-- The `int` parameters of the relay, which may be negative.
pub record RelayFlags : Type 0 where
  pub poll_wait : ℤ
  pub session_ttl : ℤ
  pub max_sessions : ℤ
  pub max_sessions_per_ip : ℤ
  pub max_message_bytes : ℤ
  pub max_batch_messages : ℤ
  pub max_outbound_backlog : ℤ
  pub max_pending_bytes : ℤ
  pub stream_keepalive : ℤ

-- A number of 64 bits read as a signed one.
abbrev pub signed : ℕ → ℤ
signed n = if ltb n (u64_mod / 2) then pos n else negsuc (u64_mod - 1 - n)

-- `time.Duration(n) * time.Second`, whose product wraps.
unfoldable pub seconds : ℤ → ℤ
seconds (pos n) = signed (n * second % u64_mod)
seconds (negsuc n) = signed ((u64_mod - suc n * second % u64_mod) % u64_mod)

unfoldable pub http_relay_config_from_flags : RelayFlags → RelayFlags
unfolding seconds
http_relay_config_from_flags f = record f {
  poll_wait = seconds f.poll_wait;
  session_ttl = seconds f.session_ttl;
  stream_keepalive = seconds f.stream_keepalive;
}

-- A limit that is not positive is 0.
abbrev pub limit : ℤ → ℕ
limit (pos n) = n
limit (negsuc n) = 0

-- The configuration as the sessions read it.
abbrev pub as_config : RelayFlags → RelayConfig
as_config c = record {
  poll_wait = limit c.poll_wait;
  session_ttl = limit c.session_ttl;
  max_sessions = limit c.max_sessions;
  max_sessions_per_ip = limit c.max_sessions_per_ip;
  max_message_bytes = limit c.max_message_bytes;
  max_batch_messages = limit c.max_batch_messages;
  max_outbound_backlog = limit c.max_outbound_backlog;
  max_pending_bytes = limit c.max_pending_bytes;
  stream_keepalive = limit c.stream_keepalive;
}

abbrev pub is_positive : ℤ → Bool
is_positive z = ltb 0 (limit z)

-- `<` on signed numbers
abbrev pub less : ℤ → ℤ → Bool
less (pos a) (pos b) = ltb a b
less (pos a) (negsuc b) = false
less (negsuc a) (pos b) = true
less (negsuc a) (negsuc b) = ltb b a

pub data Problem : Type 0 where
  path_relative path_with_query v2_path_relative v2_path_with_query path_is_admin v2_is_path :
      Problem
  v2_is_admin v2_without_relay bad_times bad_limits small_backlog no_listener : Problem

abbrev query_or_fragment : Bytes
query_or_fragment = codes "?#"

abbrev pub times_bad : RelayFlags → Bool
times_bad c =
    not (is_positive c.poll_wait)
    || not (is_positive c.session_ttl)
    || not (less c.poll_wait c.session_ttl)

abbrev pub limits_bad : RelayFlags → Bool
limits_bad c =
    not (is_positive c.max_sessions)
    || not (is_positive c.max_sessions_per_ip)
    || not (is_positive c.max_message_bytes)
    || not (is_positive c.max_batch_messages)
    || not (is_positive c.max_outbound_backlog)
    || not (is_positive c.max_pending_bytes)

-- The first check that finds a problem, if there is one.
abbrev pub first_problem : List (Bool × Problem) → Option Problem
first_problem [] = none
first_problem ((bad, p) ∷ checks) = if bad then some p else first_problem checks

module _ (http : Http) where
  -- The checks of `validateHTTPRelayConfiguration`, in order.
  abbrev pub relay_checks :
      Bool → Bytes → Bool → Bytes → Bytes → ℕ → RelayFlags → List (Bool × Problem)
  relay_checks enabled path v2_enabled v2_path admin_path listeners c =
      let normal = normalize_http_relay_path http path in
      let normal_v2 = normalize_http_relay_path http v2_path in
      let normal_admin = normalize_http_relay_path http admin_path in
      (not (has_prefix (codes "/") path), path_relative)
      ∷ (contains_any query_or_fragment path, path_with_query)
      ∷ (not (has_prefix (codes "/") v2_path), v2_path_relative)
      ∷ (contains_any query_or_fragment v2_path, v2_path_with_query)
      ∷ (bytes_eq normal normal_admin, path_is_admin)
      ∷ (bytes_eq normal_v2 normal, v2_is_path)
      ∷ (bytes_eq normal_v2 normal_admin, v2_is_admin)
      ∷ (v2_enabled && not enabled, v2_without_relay)
      ∷ (times_bad c, bad_times)
      ∷ (limits_bad c, bad_limits)
      ∷ (less c.max_outbound_backlog c.max_batch_messages, small_backlog)
      ∷ (enabled && leb listeners 0, no_listener)
      ∷ []

  unfoldable pub validate_http_relay_configuration :
      Bool → Bytes → Bool → Bytes → Bytes → ℕ → RelayFlags → Option Problem
  validate_http_relay_configuration enabled path v2_enabled v2_path admin_path listeners c =
      first_problem (relay_checks enabled path v2_enabled v2_path admin_path listeners c)

-- `validateAdminConfiguration`: whether the dashboard is on and can be reached.
unfoldable pub validate_admin_configuration : Bool → ℕ → Bool
validate_admin_configuration enabled listeners = enabled && not (leb listeners 0)
