-- ===== src/Examples/Requests.antt =====
-- Requests to a session. The functions of the standard library are stand-ins: every body reads as
-- one message with the number 1.
use nvda_remote_go.Prelude.{
  List, [], arith, codes, drop, false, has_prefix, length, none, refl, some, take, true, ◌+◌, ◌∷◌,
  ◌≡◌,
}
use nvda_remote_go.Session.State.{Session, new_http_session, config, SequencedMessage}
use nvda_remote_go.Session.Receive.{accept_inbound, read_message}
use nvda_remote_go.Manager.Table.{expire_inactive, get}
use nvda_remote_go.Relay.Request.{Http, Request, decoded, require_bearer_token, polled}
use nvda_remote_go.Relay.Post.{
  handle_http_session_post, post_decoded, post_batch, post_each, invalid_message,
}
use nvda_remote_go.Relay.Poll.{handle_http_session_poll, parse_http_sequence, parse_http_poll_wait}
use nvda_remote_go.Relay.Routes.{handle_http_session_messages, handle_http_session_delete}
use nvda_remote_go.Relay.Retry.{post-post}
use nvda_remote_go.Relay.Tokens.{requests-unauthorized, carries_token}
use nvda_remote_go.Relay.Posted.{Posted}
use nvda_remote_go.Relay.Calls.{post-Posted}
use nvda_remote_go.Relay.Polling.{poll_active-poll}
use nvda_remote_go.Session.Backlog.{Numbered, payloads}
use nvda_remote_go.Session.History.{run, all_stored, stores, step}
use nvda_remote_go.Session.Send.{try_enqueue, acknowledge_outbound}
use nvda_remote_go.Relay.Fetch.{poll-history}
use nvda_remote_go.Examples.Sessions.{calls, acknowledged_one}
use nvda_remote_go.Examples.Managers.{toy, table}

abbrev pub http : Http
http = record {
  is_json_content = λ c. true;
  decode_json = λ limit body.
      decoded
        (record { received_through = 0; messages = record { sequence = 1; payload = body } ∷ [] });
  is_json_object = λ b. true;
  trim_space = λ b. b;
  parse_uint = λ b. some 1;
  atoi = λ b. none;
}

abbrev pub request : Request
request = record {
  method = codes "POST";
  authorization = [];
  content_type = codes "application/json";
  body = codes "{}";
  after = [];
  wait = [];
}

abbrev new : Session
new = new_http_session (codes "a") (codes "b") (codes "10.0.0.1:5") none 0

post-post_example :
    handle_http_session_post http 9 request (handle_http_session_post http 5 request new).0
    ≡ handle_http_session_post http 5 request new
unfolding handle_http_session_post post_decoded post_batch post_each invalid_message accept_inbound
    new_http_session config
post-post_example = post-post http 5 9 1 request new refl

post-Posted_example :
    Posted http
      (record { sequence = 1; payload = codes "{}" } ∷ [])
      new
      (handle_http_session_post http 5 request new)
post-Posted_example = post-Posted http 5 request new

poll_active-poll_example :
    (handle_http_session_poll http 5 request (λ s. s) new).0.poll_active ≡ new.poll_active
poll_active-poll_example = poll_active-poll http 5 request (λ s. s) new

no_token :
    (s : Session) → (get 5 (codes "a") table).1 ≡ some s → carries_token http toy request s ≡ false
unfolding require_bearer_token has_prefix
no_token s e = refl

requests-unauthorized_example :
    ((handle_http_session_messages http toy 5 request (λ s. s) (codes "a") table).0
      ≡ expire_inactive 5 table)
    × ((handle_http_session_delete http toy 5 request (codes "a") table).0
        ≡ expire_inactive 5 table)
requests-unauthorized_example =
    requests-unauthorized http toy 5 request (λ s. s) (codes "a") table no_token

abbrev pub poll_request : Request
poll_request = record request { method = codes "GET"; after = codes "1" }

poll-history_example :
    (ms : List SequencedMessage) × ((handle_http_session_poll http 9 poll_request
        (λ s. s)
        (run new calls)).1
      ≡ polled ms (length (all_stored new calls)))
    × (payloads ms
        ≡ take (config (run new calls)).max_batch_messages (drop 1 (all_stored new calls)))
    × Numbered 1 ms (1 + length ms)
unfolding run step all_stored stores new_http_session config try_enqueue acknowledge_outbound
    accept_inbound read_message parse_http_sequence parse_http_poll_wait
poll-history_example =
    poll-history (codes "a") (codes "b") (codes "10.0.0.1:5") none 0 calls 9 1 http poll_request
      (λ s. s) 25000000000 (omega arith) (omega arith) refl refl refl refl acknowledged_one
      (omega arith)
