-- ===== src/Config/Checked.antt =====
-- server/configure.go and addresses.go: what holds of the parameters that pass the checks.
use nvda_remote_go.Prelude.{
  ℕ, ◌≤◌, ◌<◌, ◌≡◌, refl, Bytes, Bool, true, false, none, List, [], ◌∷◌, ◌++◌, filter, bytes_eq,
  arith, Bool-cases, inl, inr, ℤ, pos, negsuc, append_assoc, append-nil,
}
use nvda_remote_go.Session.State.{RelayConfig, outbound_backlog_limit}
use nvda_remote_go.Relay.Request.{Http}
use nvda_remote_go.Relay.Paths.{normalize_http_relay_path}
use nvda_remote_go.Config.Relays.{
  Net, address_valid, set_address, RelayFlags, as_config, less, limit, Problem, first_problem,
  relay_checks, times_bad, limits_bad, http_relay_config_from_flags,
  validate_http_relay_configuration,
}

-- A configuration that the sessions can work with.
pub record IsFit (c : RelayConfig) : Type 0 where
  pub waits : 0 < c.poll_wait
  pub outlives : c.poll_wait < c.session_ttl
  pub sessions : 0 < c.max_sessions
  pub sessions_per_ip : 0 < c.max_sessions_per_ip
  pub message_bytes : 0 < c.max_message_bytes
  pub batches : 0 < c.max_batch_messages
  pub pending_bytes : 0 < c.max_pending_bytes
  pub backlog : c.max_batch_messages ≤ c.max_outbound_backlog
  pub backlog_limit : outbound_backlog_limit c ≡ c.max_outbound_backlog

-- No check finds a problem.
abbrev NoneBad : List (Bool × Problem) → Type 0
NoneBad [] = Unit {0}
NoneBad ((bad, p) ∷ checks) = (bad ≡ false) × NoneBad checks

first_problem-none : (checks : List (Bool × Problem)) → first_problem checks ≡ none → NoneBad checks
first_problem-none [] h = tt
first_problem-none ((true, p) ∷ checks) h = absurd cc
first_problem-none ((false, p) ∷ checks) h = (refl, first_problem-none checks h)

less-limit : (a b : ℤ) → 0 < limit a → less a b ≡ true → limit a < limit b
less-limit (pos a) (pos b) p h = ground arith
less-limit (pos a) (negsuc b) p h = cc
less-limit (negsuc a) b p h = absurd (omega arith)

not_less-limit : (a b : ℤ) → less a b ≡ false → limit b ≤ limit a
not_less-limit (pos a) (pos b) h = ground arith
not_less-limit (pos a) (negsuc b) h = omega arith
not_less-limit (negsuc a) (pos b) h = cc
not_less-limit (negsuc a) (negsuc b) h = omega arith

IsFit-checked :
    (c : RelayFlags)
    → times_bad c ≡ false
    → limits_bad c ≡ false
    → less c.max_outbound_backlog c.max_batch_messages ≡ false
    → IsFit (as_config c)
unfolding outbound_backlog_limit
IsFit-checked c t l b = record {
  waits = ground (arith, t);
  outlives = less-limit c.poll_wait c.session_ttl (ground (arith, t)) (ground (arith, t));
  sessions = ground (arith, l);
  sessions_per_ip = ground (arith, l);
  message_bytes = ground (arith, l);
  batches = ground (arith, l);
  pending_bytes = ground (arith, l);
  backlog = not_less-limit c.max_outbound_backlog c.max_batch_messages b;
  backlog_limit = ground (arith, l);
}

module _ (http : Http) where
  -- When the parameters of the relay pass the check, the configuration made of them is one that the
  -- sessions can work with: every limit is positive, the wait of a poll is positive and shorter than
  -- the life of a session, and a backlog holds a whole batch; and the three paths, normalized, differ.
  pub validate-IsFit :
      (enabled : Bool) (path : Bytes) (v2_enabled : Bool) (v2_path admin_path : Bytes)
      (listeners : ℕ) (f : RelayFlags)
      → validate_http_relay_configuration http enabled path v2_enabled v2_path admin_path listeners
          (http_relay_config_from_flags f)
        ≡ none
      → IsFit (as_config (http_relay_config_from_flags f))
        × (bytes_eq
              (normalize_http_relay_path http path)
              (normalize_http_relay_path http admin_path)
            ≡ false)
        × (bytes_eq (normalize_http_relay_path http v2_path) (normalize_http_relay_path http path)
            ≡ false)
        × (bytes_eq
              (normalize_http_relay_path http v2_path)
              (normalize_http_relay_path http admin_path)
            ≡ false)
  unfolding validate_http_relay_configuration
  validate-IsFit enabled path v2_enabled v2_path admin_path listeners f h =
      let c = http_relay_config_from_flags f in
      let passed =
        first_problem-none
          (relay_checks http enabled path v2_enabled v2_path admin_path listeners c) h in
      let paths = passed.1.1.1.1 in
      let numbers = paths.1.1.1.1 in
      (IsFit-checked c numbers.0 numbers.1.0 numbers.1.1.0, paths.0, paths.1.0, paths.1.1.0)

module _ (net : Net) where
  -- The values of `-address`, one after the other.
  unfoldable pub set_addresses : List Bytes → List Bytes → List Bytes
  unfolding set_address
  set_addresses [] list = list
  set_addresses (v ∷ vs) list = set_addresses vs (set_address net v list).0

  -- The addresses that are taken, one value after the other, are the valid ones, in order, after
  -- those that were there.
  pub set_addresses_lem :
      (vs list : List Bytes) → set_addresses vs list ≡ list ++ filter (address_valid net) vs
  unfolding set_addresses filter
  set_addresses_lem [] list = rw append-nil refl
  set_addresses_lem (v ∷ vs) list = elim (Bool-cases (address_valid net v)) [
    | inl valid ↦
        rw
          (
            valid,
            set_addresses_lem vs (list ++ v ∷ []),
            append_assoc list (v ∷ []) (filter (address_valid net) vs),
          )
          refl
    | inr invalid ↦ rw (invalid, set_addresses_lem vs list) refl
  ]
