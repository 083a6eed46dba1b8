-- ===== src/Relay/Events.antt =====
-- What a client that asks for the stream of a session gets, after any history of calls on it:
-- server/httprelay_v2.go.
use nvda_remote_go.Prelude.{
  ℕ, suc, ◌+◌, ◌≤◌, ◌<◌, ◌≡◌, refl, ap, ◌∙◌, subst, Bytes, true, false, Option, some, List, [], ◌∷◌,
  ◌++◌, arith, length, append-nil, length-append, ltb, le→ltb,
}
use nvda_remote_go.Session.State.{Session, RelayConfig, config, new_http_session, u64_mod}
use nvda_remote_go.Session.Poll.{end_poll}
use nvda_remote_go.Session.History.{Call, begins_poll, acknowledges, run, stores, all_stored}
use nvda_remote_go.Session.Invariant.{IsSound, new_http_session-IsSound}
use nvda_remote_go.Session.Delivery.{history-IsSound}
use nvda_remote_go.Session.Stream.{Represents, run-Represents, new_http_session-Represents}
use nvda_remote_go.Relay.Fetch.{
  run-append, all_stored-append, current, stored_so_far, polling, acknowledged_polling,
  config-polling, begin_poll-current, acknowledge_outbound-polling,
}
use nvda_remote_go.Relay.Request.{Http, Request}
use nvda_remote_go.Relay.Poll.{parse_http_sequence}
use nvda_remote_go.Relay.Stream.{
  Sse, Event, ready, Round, streamed, stream_loop, handle_http_session_stream,
}
use nvda_remote_go.Relay.Follows.{Follows}
use nvda_remote_go.Relay.Streams.{weights, AllConsiderate, next_outbound-run, stream_loop-Delivers}

module _ (id token_hash addr : Bytes) (manager : Option RelayConfig) (created : ℕ) (cs : List Call)
    (now after : ℕ) where
  abbrev session : Session
  session = current id token_hash addr manager created cs now after

  abbrev stored_before : List Bytes
  stored_before = stored_so_far id token_hash addr manager created cs now after

  abbrev streaming : Session
  streaming = polling id token_hash addr manager created cs now after

  abbrev opening : List Call
  opening = begins_poll now ∷ acknowledges now after ∷ []

  abbrev fresh : Session
  fresh = new_http_session id token_hash addr manager created

  opened_log : all_stored fresh (cs ++ opening) ≡ stored_before
  unfolding all_stored stores
  opened_log = all_stored-append fresh cs opening ∙ append-nil stored_before

  streaming-IsSound : suc (suc (length cs)) < u64_mod → IsSound streaming
  streaming-IsSound few = subst IsSound (run-append fresh cs opening) (
      history-IsSound id token_hash addr manager created (cs ++ opening)
        (rw (length-append cs opening) (omega arith)))

  streaming_room :
      (n : ℕ) → suc (suc (length cs)) + n < u64_mod → streaming.next_outbound + n < u64_mod
  unfolding run new_http_session
  streaming_room n few =
      let bound =
        next_outbound-run fresh (cs ++ opening)
          (unfold new_http_session in rw (length-append cs opening) (omega arith)) in
      rw (← run-append fresh cs opening) (omega (arith, bound, length-append cs opening))

  streaming-Represents : suc (suc (length cs)) < u64_mod → Represents streaming stored_before
  streaming-Represents few =
      subst (λ t. Represents t stored_before) (run-append fresh cs opening)
        (subst (Represents (run fresh (cs ++ opening))) opened_log (
          run-Represents fresh [] (cs ++ opening)
            (new_http_session-IsSound id token_hash addr manager created)
            (unfold new_http_session in rw (length-append cs opening) (omega arith))
            (new_http_session-Represents id token_hash addr manager created)))

  module _ (sse : Sse) (http : Http) (r : Request) (rounds : List Round) where
    abbrev loop : Session × List Event
    loop = stream_loop sse (config session).max_batch_messages rounds after streaming

    stream_opened :
        suc (suc (length cs)) < u64_mod
        → session.closed ≡ false
        → session.poll_active ≡ false
        → parse_http_sequence http r.after ≡ some after
        → after ≤ length stored_before
        → handle_http_session_stream sse http now true true r rounds session
          ≡ (end_poll loop.0, streamed (ready ∷ loop.1))
    unfolding handle_http_session_stream
    stream_opened few live idle asked hi =
        let rep = streaming-Represents few in
        let bound : ltb streaming.next_outbound after ≡ false =
          le→ltb _ _ (omega (arith, rep.total)) in
        rw
          (
            asked,
            begin_poll-current id token_hash addr manager created cs now after live idle,
            acknowledge_outbound-polling id token_hash addr manager created cs now after bound,
            config-polling id token_hash addr manager created cs now after,
          )
          refl

    -- After any history of calls on a new session, a request for its stream, when the session is
    -- open and without a poll, that asks for what comes after a number that is not below the last
    -- acknowledgement nor above the number of messages stored, is answered with the stream. Whatever
    -- happens during the rounds of the stream (other calls on the session, writes that fail, the way
    -- each wait ends), as long as the others acknowledge nothing that the stream has not written
    -- and all calls are fewer than 2^64, the messages written are those stored from that number on,
    -- in order, each under the number of its place, without a gap or a repetition, and the session
    -- is left as some history of calls and the end of the poll leave it (`max_batch_messages`
    -- positive).
    pub stream-history :
        suc (suc (length cs)) + weights sse rounds < u64_mod
        → 0 < (config session).max_batch_messages
        → session.closed ≡ false
        → session.poll_active ≡ false
        → parse_http_sequence http r.after ≡ some after
        → session.acknowledged ≤ after
        → after ≤ length stored_before
        → AllConsiderate sse (config session).max_batch_messages rounds after streaming
        → (es : List Event) × (calls : List Call) × (handle_http_session_stream sse http now true
              true r rounds session
            ≡ (end_poll (run streaming calls), streamed (ready ∷ es)))
          × Follows sse after es (stored_before ++ all_stored streaming calls)
    stream-history few pos live idle asked lo hi polite =
        let rep = streaming-Represents (omega arith) in
        let room = streaming_room (weights sse rounds) few in
        let (m, d) =
          stream_loop-Delivers sse (config session).max_batch_messages rounds after streaming
            stored_before pos (streaming-IsSound (omega arith)) rep
            (acknowledged_polling id token_hash addr manager created cs now after lo) hi room
            polite in
        (
          loop.1,
          d.calls,
          stream_opened (omega arith) live idle asked hi
              ∙ ap (λ t. (end_poll t, streamed (ready ∷ loop.1))) d.reached,
          d.follows,
        )
