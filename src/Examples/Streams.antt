-- ===== src/Examples/Streams.antt =====
-- A stream of the messages of a session, and a session that is created. The encoding of tokens is a
-- stand-in that moves every byte away from the blanks.
use nvda_remote_go.Prelude.{
  bytes_eq, filter, ℕ, suc, ◌+◌, ◌-◌, ◌≡◌, refl, ap, Bytes, true, false, none, some, List, [], ◌∷◌,
  ◌++◌, map, codes, arith, length, is_empty, inl,
}
use nvda_remote_go.Session.State.{Session, config, new_http_session}
use nvda_remote_go.Session.Poll.{end_poll}
use nvda_remote_go.Session.Send.{try_enqueue, acknowledge_outbound}
use nvda_remote_go.Session.Receive.{accept_inbound, read_message}
use nvda_remote_go.Session.History.{Call, run, all_stored, step, stores, begins_poll, acknowledges}
use nvda_remote_go.Manager.Table.{Platform, Draw, find_session, new_http_relay_manager}
use nvda_remote_go.Hub.Registry.{find_client}
use nvda_remote_go.Relay.Request.{Request, bearer, has_blank}
use nvda_remote_go.Relay.Routes.{is_authorized}
use nvda_remote_go.Relay.Poll.{parse_http_sequence}
use nvda_remote_go.Relay.Stream.{
  Sse, Event, ready, Round, request_done, streamed, handle_http_session_stream,
}
use nvda_remote_go.Relay.Follows.{Follows}
use nvda_remote_go.Relay.Events.{stream-history}
use nvda_remote_go.Relay.Create.{
  Creation, asks_for, CreateResponse, World, Gate, handle_http_create_session,
}
use nvda_remote_go.Relay.Opened.{IsTokenCodec, FillsTokens}
use nvda_remote_go.Relay.Creation.{create-is_authorized}
use nvda_remote_go.Examples.Sessions.{new, calls, acknowledged_one, stored_two}
use nvda_remote_go.Examples.Managers.{empty_table}
use nvda_remote_go.Examples.Hubs.{empty_hub}
use nvda_remote_go.Examples.Requests.{http, request, poll_request}

abbrev sse : Sse
sse = record { compact = λ b. some b; decimal = λ n. n ∷ [] }

-- One batch is written, and then the client goes.
abbrev round : Round
round = record {
  before = [];
  between = [];
  meanwhile = [];
  writes = 5;
  now = 9;
  wakeup = request_done;
}

abbrev streaming : Session
streaming = run (run new calls) (begins_poll 9 ∷ acknowledges 9 1 ∷ [])

stream-history_example :
    (es : List Event) × (cs : List Call) × (handle_http_session_stream sse http 9 true true
        poll_request
        (round ∷ round ∷ [])
        (run new calls)
      ≡ (end_poll (run streaming cs), streamed (ready ∷ es)))
    × Follows sse 1 es (all_stored new calls ++ all_stored streaming cs)
unfolding run step all_stored stores new_http_session config try_enqueue acknowledge_outbound
    accept_inbound read_message parse_http_sequence
stream-history_example =
    stream-history (codes "a") (codes "b") (codes "10.0.0.1:5") none 0 calls 9 1 sse http
      poll_request (round ∷ round ∷ []) (omega arith) (omega arith) refl refl refl acknowledged_one
      stored_two ((tt, tt, tt), ((tt, tt, tt), tt))

abbrev platform : Platform
platform = record {
  split_host_port = λ addr. some (addr, []);
  encode64 = map (λ x. x + 100);
  decode64 = λ s. some (map (λ x. x - 100) s);
  sha256 = λ b. b;
}

moved_back : (b : Bytes) → map (λ x. x - 100) (map (λ x. x + 100) b) ≡ b
moved_back [] = refl
moved_back (x ∷ b) = ground (arith, moved_back b)

moved-has_blank : (b : Bytes) → has_blank (map (λ x. x + 100) b) ≡ false
unfolding has_blank
moved-has_blank [] = refl
moved-has_blank (x ∷ b) = ground (arith, moved-has_blank b)

moved-is_empty : (b : Bytes) → length b ≡ 32 → is_empty (map (λ x. x + 100) b) ≡ false
moved-is_empty [] h = absurd (omega arith)
moved-is_empty (x ∷ b) h = refl

platform-IsTokenCodec : IsTokenCodec http platform
platform-IsTokenCodec = record {
  decodes = λ b. ap some (moved_back b);
  not_empty = moved-is_empty;
  not_blank = λ b h. moved-has_blank b;
  is_trimmed = λ b h. refl;
}

abbrev draws : ℕ → Draw
draws n = record {
  id_bytes = some (n ∷ []);
  token_bytes = some (codes "abcdefghijklmnopqrstuvwxyz012345");
}

draws-FillsTokens : FillsTokens http platform draws
draws-FillsTokens = record { filled = λ i b e. ground (arith, e) }

abbrev creation : Creation
creation = record {
  decode_create = λ limit body. asks_for (codes "nvdaremote-http/1");
  get_port_from_addr = λ addr. 5;
}

abbrev gate : Gate
gate = record { admin_enabled = true; password_defined = true }

abbrev world : World
world = record { manager = empty_table; hub = empty_hub }

abbrev made : World
made =
    (handle_http_create_session http platform creation 3 draws (codes "10.0.0.1") gate request
      world).0

abbrev response : CreateResponse
response = record {
  session_id = 102 ∷ [];
  token = map (λ x. x + 100) (codes "abcdefghijklmnopqrstuvwxyz012345");
  protocol = codes "nvdaremote-http/1";
  poll_wait_seconds = 25;
  max_batch_messages = 32;
  max_message_bytes = 1048576;
  stream_keepalive_seconds = none;
}

abbrev bearing : Request
bearing = record request { authorization = bearer ++ response.token }

create-is_authorized_example :
    (s : Session) × (find_session response.session_id made.manager.sessions ≡ some s)
    × (is_authorized http platform bearing s ≡ true)
    × (find_client (suc empty_hub.last_id) made.hub ≡ true)
unfolding handle_http_create_session bytes_eq new_http_relay_manager filter
create-is_authorized_example =
    create-is_authorized http platform creation 3 draws (codes "10.0.0.1") gate request world made
      response bearing platform-IsTokenCodec draws-FillsTokens (inl refl) refl
