-- ===== src/Relay/Create.antt =====
-- server/httprelay.go, httprelay_v2.go, connection.go: the creation of a session, with the client of
-- the hub that reads from it.
use nvda_remote_go.Prelude.{
  ℕ, ◌/◌, Bytes, Bool, true, false, Option, none, some, [], codes, bytes_eq, if◌then◌else◌, pos,
}
use nvda_remote_go.Session.State.{Session, RelayConfig, second}
use nvda_remote_go.Manager.Table.{
  Manager, Platform, Draw, Created, created, create, get_ip_from_addr,
}
use nvda_remote_go.Hub.State.{Hub, Client}
use nvda_remote_go.Hub.Registry.{add_client}
use nvda_remote_go.Hub.Blocklist.{connection_refusal}
use nvda_remote_go.Relay.Request.{Http, Request}

-- What `decodeHTTPJSON` comes to, of a request to create a session; its field is the protocol.
pub data CreateBody : Type 0 where
  too_large not_json : CreateBody
  asks_for : Bytes → CreateBody

-- `decodeHTTPJSON` with its limit, and the port of an address.
pub record Creation : Type 0 where
  pub decode_create : ℕ → Bytes → CreateBody
  pub get_port_from_addr : Bytes → ℕ

-- The fields of `httpCreateSessionResponse`, and of version 2, whose last field version 1 lacks.
pub record CreateResponse : Type 0 where
  pub session_id : Bytes
  pub token : Bytes
  pub protocol : Bytes
  pub poll_wait_seconds : ℕ
  pub max_batch_messages : ℕ
  pub max_message_bytes : ℕ
  pub stream_keepalive_seconds : Option ℕ

pub data CreateReply : Type 0 where
  not_created : ℕ → Bytes → CreateReply
  session_created : CreateResponse → CreateReply

pub record World : Type 0 where
  pub manager : Manager
  pub hub : Hub

-- Whether the dashboard is enabled and its password defined.
pub record Gate : Type 0 where
  pub admin_enabled : Bool
  pub password_defined : Bool

-- A client that `AddClient` has not yet given its identifier.
abbrev new_client : ℕ → Bytes → ℕ → Bytes → Client
new_client now ip port protocol = record {
  connection_type = [];
  version = pos 0;
  ip = ip;
  port = port;
  protocol = protocol;
  connected_at = now;
  last_received = none;
  channel = none;
  authorized = false;
  cancelled = false;
  closed = false;
  capabilities = [];
  signal_count = 0;
  signal_window = none;
  sent = [];
}

unfoldable pub new_raw_client : ℕ → Bytes → ℕ → Hub → Hub
unfolding add_client
new_raw_client now ip port h = add_client (new_client now ip port (codes "tcp")) h

abbrev pub response_v1 : RelayConfig → Session → Bytes → CreateResponse
response_v1 c s token = record {
  session_id = s.id;
  token = token;
  protocol = codes "nvdaremote-http/1";
  poll_wait_seconds = c.poll_wait / second;
  max_batch_messages = c.max_batch_messages;
  max_message_bytes = c.max_message_bytes;
  stream_keepalive_seconds = none;
}

abbrev pub response_v2 : RelayConfig → Session → Bytes → CreateResponse
response_v2 c s token = record {
  session_id = s.id;
  token = token;
  protocol = codes "nvdaremote-http/2";
  poll_wait_seconds = c.poll_wait / second;
  max_batch_messages = c.max_batch_messages;
  max_message_bytes = c.max_message_bytes;
  stream_keepalive_seconds = some (c.stream_keepalive / second);
}

module _ (http : Http) (platform : Platform) (creation : Creation) where
  unfoldable pub new_http_client : ℕ → Bytes → Hub → Hub
  unfolding add_client get_ip_from_addr
  new_http_client now addr h =
      add_client
        (new_client now (get_ip_from_addr platform addr) (creation.get_port_from_addr addr)
          (codes "https"))
        h

  -- `httpRelayConnectionAllowed`, without the log
  unfoldable pub http_relay_connection_allowed : Gate → Bool
  unfolding connection_refusal
  http_relay_connection_allowed g =
      if connection_refusal g.admin_enabled g.password_defined then false else true

  module _ (respond : RelayConfig → Session → Bytes → CreateResponse) (protocol : Bytes) (now : ℕ)
      (draws : ℕ → Draw) (addr : Bytes) (g : Gate) where
    abbrev pub after_create : Hub → Manager × Created → World × CreateReply
    after_create h (m, created s token) = (
      record { manager = m; hub = new_http_client now s.remote_addr h },
      session_created (respond m.config s token),
    )
    after_create h (m, Created.refused e) =
        (record { manager = m; hub = h }, not_created 429 (codes "session_limit"))

    abbrev pub protocol_checked : Bytes → World → World × CreateReply
    protocol_checked asked w =
        if bytes_eq asked protocol
        then if http_relay_connection_allowed g
          then after_create w.hub (create platform now draws addr w.manager)
          else (w, not_created 503 (codes "connection_refused"))
        else (w, not_created 400 (codes "invalid_protocol"))

    abbrev pub body_checked : CreateBody → World → World × CreateReply
    body_checked too_large w = (w, not_created 413 (codes "body_too_large"))
    body_checked not_json w = (w, not_created 400 (codes "invalid_json"))
    body_checked (asks_for asked) w = protocol_checked asked w

    abbrev pub create_checked : Request → World → World × CreateReply
    create_checked r w =
        if bytes_eq r.method (codes "POST")
        then if http.is_json_content r.content_type
          then body_checked (creation.decode_create 4096 r.body) w
          else (w, not_created 415 (codes "unsupported_media_type"))
        else (w, not_created 405 (codes "method_not_allowed"))

  unfoldable pub handle_http_create_session :
      ℕ → (ℕ → Draw) → Bytes → Gate → Request → World → World × CreateReply
  unfolding create new_http_client http_relay_connection_allowed
  handle_http_create_session = create_checked response_v1 (codes "nvdaremote-http/1")

  unfoldable pub handle_http_create_session_v2 :
      ℕ → (ℕ → Draw) → Bytes → Gate → Request → World → World × CreateReply
  unfolding create new_http_client http_relay_connection_allowed
  handle_http_create_session_v2 = create_checked response_v2 (codes "nvdaremote-http/2")
