-- ===== src/Relay/Stream.antt =====
-- server/httprelay_v2.go `handleHTTPSessionStream` and its route: the reader of a session to which
-- the messages are sent as they are stored.
use nvda_remote_go.Prelude.{
  ℕ, Bytes, Bool, true, false, Option, none, some, List, [], ◌∷◌, ◌++◌, codes, bytes_eq,
  if◌then◌else◌, zero, suc,
}
use nvda_remote_go.Session.State.{Session, SequencedMessage, HttpError, config, touch}
use nvda_remote_go.Session.Send.{acknowledge_outbound, messages_after, Batch, batch, ahead}
use nvda_remote_go.Session.Poll.{begin_poll, end_poll, take_notice}
use nvda_remote_go.Session.History.{Call, run}
use nvda_remote_go.Manager.Table.{Manager, Platform, get}
use nvda_remote_go.Relay.Request.{Http, Request, Reply, failed, conflict}
use nvda_remote_go.Relay.Poll.{poll_refusal, parse_http_sequence}
use nvda_remote_go.Relay.Routes.{put_session, is_authorized}

-- `json.Compact` and the decimal form of `fmt.Fprintf`.
pub record Sse : Type 0 where
  pub compact : Bytes → Option Bytes
  pub decimal : ℕ → Bytes

-- What is written to the response: the event that opens the stream, the comment that keeps it
-- alive, and a message with its bytes.
pub data Event : Type 0 where
  ready keepalive : Event
  message : SequencedMessage → Bytes → Event

abbrev newline : Bytes
newline = 10 ∷ []

-- How the wait of a round ends; a keepalive is written, or that fails.
pub data Wakeup : Type 0 where
  notified request_done session_done : Wakeup
  timer_fired : Bool → Wakeup

-- What the world does in one round of the loop: the calls of other goroutines on the session before
-- the messages are read, between the reading and the acknowledgement, and while the loop waits; how
-- many writes of messages succeed; the time; and the end of the wait.
pub record Round : Type 0 where
  pub before : List Call
  pub between : List Call
  pub meanwhile : List Call
  pub writes : ℕ
  pub now : ℕ
  pub wakeup : Wakeup

-- What the loop has written of a batch, the last number written, and whether that is all of it.
pub record Sent : Type 0 where
  pub events : List Event
  pub after : ℕ
  pub whole : Bool

-- Where a round leaves the loop.
pub record Progress : Type 0 where
  pub state : Session
  pub sent : List Event
  pub after : ℕ
  pub goes_on : Bool

-- What a client that asks for the stream gets: a refusal, or the events.
pub data StreamReply : Type 0 where
  refused : Reply → StreamReply
  streamed : List Event → StreamReply

abbrev with_ready : Session × List Event → Session × StreamReply
with_ready (s, es) = (s, streamed (ready ∷ es))

module _ (sse : Sse) where
  abbrev pub framed_as : SequencedMessage → Option Bytes → Option Bytes
  framed_as m none = none
  framed_as m (some c) = some (
      codes "id: "
      ++ sse.decimal m.sequence
      ++ newline
      ++ codes "data: "
      ++ c
      ++ newline
      ++ newline)

  unfoldable pub write_sse_message : SequencedMessage → Option Bytes
  write_sse_message m = framed_as m (sse.compact m.payload)

  abbrev pub sent_first : SequencedMessage → Option Bytes → ℕ → Sent → Sent
  sent_first m none after rest = record { events = []; after = after; whole = false }
  sent_first m (some frame) after rest = record rest { events = message m frame ∷ rest.events }

  -- The loop over the messages of a batch.
  unfoldable pub write_each : ℕ → ℕ → List SequencedMessage → Sent
  unfolding write_sse_message
  write_each writes after [] = record { events = []; after = after; whole = true }
  write_each zero after (m ∷ ms) = record { events = []; after = after; whole = false }
  write_each (suc writes) after (m ∷ ms) =
      sent_first m (write_sse_message m) after (write_each writes m.sequence ms)

  abbrev pub woken : Wakeup → ℕ → ℕ → Session → Progress
  woken notified now after s = record {
    state = take_notice s;
    sent = [];
    after = after;
    goes_on = true;
  }
  woken request_done now after s = record { state = s; sent = []; after = after; goes_on = false }
  woken session_done now after s = record { state = s; sent = []; after = after; goes_on = false }
  woken (timer_fired false) now after s = record {
    state = s;
    sent = [];
    after = after;
    goes_on = false;
  }
  woken (timer_fired true) now after s = record {
    state = touch now s;
    sent = keepalive ∷ [];
    after = after;
    goes_on = true;
  }

  abbrev pub flushed : Round → Session → Sent → Progress
  flushed r s w =
      if w.whole
      then record {
        state = touch r.now (acknowledge_outbound r.now w.after (run s r.between)).0;
        sent = w.events;
        after = w.after;
        goes_on = true;
      }
      else record { state = s; sent = w.events; after = w.after; goes_on = false }

  abbrev pub batch_read : Round → ℕ → Session → Batch → Progress
  batch_read r after s (ahead e) = record { state = s; sent = []; after = after; goes_on = false }
  batch_read r after s (batch [] last) = woken r.wakeup r.now after (run s r.meanwhile)
  batch_read r after s (batch (m ∷ ms) last) = flushed r s (write_each r.writes after (m ∷ ms))

  -- One round of the loop.
  unfoldable pub stream_round : ℕ → Round → ℕ → Session → Progress
  unfolding write_each
  stream_round limit r after s =
      batch_read r after (run s r.before) (messages_after after limit (run s r.before))

  abbrev pub sent_before : List Event → Session × List Event → Session × List Event
  sent_before es (s, fs) = (s, es ++ fs)

  -- The rounds of the loop, until one ends it or the last of the list has been made.
  unfoldable pub stream_loop : ℕ → List Round → ℕ → Session → Session × List Event
  unfolding stream_round
  stream_loop limit [] after s = (s, [])
  stream_loop limit (r ∷ rs) after s =
      let p = stream_round limit r after s in
      let rest = stream_loop limit rs p.after p.state in
      if p.goes_on then sent_before p.sent rest else (p.state, p.sent)

  abbrev pub opened : Bool → ℕ → List Round → Session → Session × StreamReply
  opened writable after rounds s =
      if writable
      then with_ready (stream_loop (config s).max_batch_messages rounds after s)
      else (s, streamed [])

  abbrev pub stream_acknowledged :
      Bool → ℕ → List Round → Session × Option HttpError → Session × StreamReply
  stream_acknowledged writable after rounds (s, some e) =
      (s, refused (conflict (codes "invalid_after") s.next_outbound))
  stream_acknowledged writable after rounds (s, none) = opened writable after rounds s

  abbrev pub stream_ended : Session × StreamReply → Session × StreamReply
  stream_ended (s, r) = (end_poll s, r)

  abbrev pub stream_begun :
      ℕ → Bool → ℕ → List Round → Session × Option HttpError → Session × StreamReply
  stream_begun now writable after rounds (s, some e) = (s, refused (poll_refusal e))
  stream_begun now writable after rounds (s, none) =
      stream_ended (stream_acknowledged writable after rounds (acknowledge_outbound now after s))

  abbrev pub stream_parsed : ℕ → Bool → Option ℕ → List Round → Session → Session × StreamReply
  stream_parsed now writable none rounds s = (s, refused (failed 400 (codes "invalid_after")))
  stream_parsed now writable (some after) rounds s =
      stream_begun now writable after rounds (begin_poll now s)

  module _ (http : Http) where
    -- `can_flush`: the response can be flushed; `writable`: the first event is written.
    unfoldable pub handle_http_session_stream :
        ℕ → Bool → Bool → Request → List Round → Session → Session × StreamReply
    unfolding stream_loop
    handle_http_session_stream now can_flush writable r rounds s =
        if can_flush
        then stream_parsed now writable (parse_http_sequence http r.after) rounds s
        else (s, refused (failed 500 (codes "streaming_unsupported")))

    module _ (platform : Platform) where
      abbrev pub stored_stream : Manager → Session × StreamReply → Manager × StreamReply
      stored_stream m (s, r) = (put_session s m, r)

      abbrev pub stream_found :
          ℕ → Bool → Bool → Request → List Round → Manager × Option Session → Manager × StreamReply
      stream_found now can_flush writable r rounds (m, none) =
          (m, refused (failed 404 (codes "not_found")))
      stream_found now can_flush writable r rounds (m, some s) =
          if is_authorized http platform r s
          then stored_stream m (handle_http_session_stream now can_flush writable r rounds s)
          else (m, refused (failed 401 (codes "unauthorized")))

      unfoldable pub handle_http_session_stream_route :
          ℕ → Bool → Bool → Request → List Round → Bytes → Manager → Manager × StreamReply
      handle_http_session_stream_route now can_flush writable r rounds id m =
          if bytes_eq r.method (codes "GET")
          then stream_found now can_flush writable r rounds (get now id m)
          else (m, refused (failed 405 (codes "method_not_allowed")))
