-- ===== src/Session/State.antt =====
-- server/httpconn.go: the configuration, the messages, the errors and the state of a session.
use nvda_remote_go.Prelude.{
  ℕ, ◌+◌, ◌%◌, Bytes, Bool, false, Option, none, some, List, [], ltb, if◌then◌else◌,
}

-- The sequence numbers are `uint64`.
abbrev pub u64_mod : ℕ
u64_mod = 18446744073709551616

abbrev pub second : ℕ
second = 1000000000

-- A limit that the source tests by `<= 0` is 0 here when it is not positive.
pub record RelayConfig : Type 0 where
  pub poll_wait : ℕ
  pub session_ttl : ℕ
  pub max_sessions : ℕ
  pub max_sessions_per_ip : ℕ
  pub max_message_bytes : ℕ
  pub max_batch_messages : ℕ
  pub max_outbound_backlog : ℕ
  pub max_pending_bytes : ℕ
  pub stream_keepalive : ℕ

abbrev pub default_http_relay_config : RelayConfig
default_http_relay_config = record {
  poll_wait = 25000000000;
  session_ttl = 120000000000;
  max_sessions = 1000;
  max_sessions_per_ip = 20;
  max_message_bytes = 1048576;
  max_batch_messages = 32;
  max_outbound_backlog = 256;
  max_pending_bytes = 4194304;
  stream_keepalive = 15000000000;
}

unfoldable pub outbound_backlog_limit : RelayConfig → ℕ
outbound_backlog_limit c =
    if ltb 0 c.max_outbound_backlog then c.max_outbound_backlog else c.max_batch_messages

pub record SequencedMessage : Type 0 where
  pub sequence : ℕ
  pub payload : Bytes

pub record SequenceError : Type 0 where
  pub expected : ℕ
  pub received : ℕ
  pub duplicate : Bool

pub data HttpError : Type 0 where
  conn_closed write_deadline_exceeded pending_limit message_too_large poll_already_active :
      HttpError
  sequence_invalid : SequenceError → HttpError

pub record Session : Type 0 where
  pub id : Bytes
  pub token_hash : Bytes
  pub remote_addr : Bytes
  pub inbound : List Bytes
  pub inbound_cap : ℕ
  pub outbound : List SequencedMessage
  pub next_inbound : ℕ
  pub next_outbound : ℕ
  pub acknowledged : ℕ
  pub pending_bytes : ℕ
  pub poll_active : Bool
  pub last_activity : ℕ
  pub write_deadline : Option ℕ
  pub notify : Bool
  pub drained : ℕ
  pub closed : Bool
  pub manager_config : Option RelayConfig

-- The session's `config` method: the manager's configuration, or the default one.
abbrev config_or_default : Option RelayConfig → RelayConfig
config_or_default (some c) = c
config_or_default none = default_http_relay_config

unfoldable pub config : Session → RelayConfig
config s = config_or_default s.manager_config

unfoldable pub new_http_session : Bytes → Bytes → Bytes → Option RelayConfig → ℕ → Session
new_http_session id token_hash remote_addr manager now = record {
  id = id;
  token_hash = token_hash;
  remote_addr = remote_addr;
  inbound = [];
  inbound_cap = (config_or_default manager).max_batch_messages;
  outbound = [];
  next_inbound = 0;
  next_outbound = 0;
  acknowledged = 0;
  pending_bytes = 0;
  poll_active = false;
  last_activity = now;
  write_deadline = none;
  notify = false;
  drained = 0;
  closed = false;
  manager_config = manager;
}

unfoldable pub touch : ℕ → Session → Session
touch now s = record s { last_activity = now }

-- `x++` on a `uint64`.
abbrev pub succ_u64 : ℕ → ℕ
succ_u64 n = (n + 1) % u64_mod

abbrev pub sequence_error : ℕ → ℕ → Bool → Option HttpError
sequence_error expected received duplicate = some (
    HttpError.sequence_invalid
      (record { expected = expected; received = received; duplicate = duplicate }))
