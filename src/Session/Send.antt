-- ===== src/Session/Send.antt =====
-- server/httpconn.go: the backlog of a session, `enqueueOutbound`, `acknowledgeOutbound` and
-- `messagesAfter`.
use nvda_remote_go.Prelude.{
  ℕ, ◌+◌, ◌-◌, Bytes, Bool, true, false, Option, none, some, List, [], ◌∷◌, ◌++◌, ◌&&◌, ltb, leb,
  ◌==◌, if◌then◌else◌, length,
}
use nvda_remote_go.Session.State.{
  Session, SequencedMessage, SequenceError, HttpError, config, outbound_backlog_limit, succ_u64,
  sequence_error,
}

-- What one round of the loop of `enqueueOutbound` comes to: the message is stored, the write is
-- refused, or the writer waits for the channel `drained` that it read, until the deadline.
pub data Attempt : Type 0 where
  stored : Attempt
  refused : HttpError → Attempt
  waiting : ℕ → Attempt

-- `!deadline.IsZero() && !now.Before(deadline)`
abbrev pub deadline_passed : ℕ → Option ℕ → Bool
deadline_passed now none = false
deadline_passed now (some d) = leb d now

abbrev pub has_room : Bytes → Session → Bool
has_room payload s =
    ltb (length s.outbound) (outbound_backlog_limit (config s))
    && leb (s.pending_bytes + length payload) (config s).max_pending_bytes

abbrev pub push_outbound : Bytes → Session → Session
push_outbound payload s = record s {
  next_outbound = succ_u64 s.next_outbound;
  outbound = s.outbound ++ record { sequence = succ_u64 s.next_outbound; payload = payload } ∷ [];
  pending_bytes = s.pending_bytes + length payload;
  notify = true;
}

abbrev no_room : Option ℕ → ℕ → Attempt
no_room none drained = refused HttpError.pending_limit
no_room (some d) drained = waiting drained

unfoldable pub try_enqueue : ℕ → Bytes → Session → Session × Attempt
unfolding config outbound_backlog_limit
try_enqueue now payload s =
    if s.closed
    then (s, refused HttpError.conn_closed)
    else if deadline_passed now s.write_deadline
    then (s, refused HttpError.write_deadline_exceeded)
    else if has_room payload s
    then (push_outbound payload s, stored)
    else (s, no_room s.write_deadline s.drained)

-- How a wait ends: the state that the other goroutines left, the time, and the case of the `select`.
pub data WakeCause : Type 0 where
  was_drained timed_out was_cancelled : WakeCause

pub record Wake : Type 0 where
  pub state : Session
  pub now : ℕ
  pub cause : WakeCause

abbrev after_wake : WakeCause → Session → Session × Attempt → Session × Attempt
after_wake was_drained s again = again
after_wake timed_out s again = (s, refused HttpError.write_deadline_exceeded)
after_wake was_cancelled s again = (s, refused HttpError.conn_closed)

abbrev after_attempt : Session × Attempt → Wake → Session × Attempt → Session × Attempt
after_attempt (s, waiting drained) w again = after_wake w.cause w.state again
after_attempt (s, stored) w again = (s, stored)
after_attempt (s, refused e) w again = (s, refused e)

-- The whole of `enqueueOutbound`, over the wakes that end its waits; `waiting` remains only while
-- the last wait has not ended.
unfoldable pub enqueue_outbound : List Wake → ℕ → Bytes → Session → Session × Attempt
unfolding try_enqueue
enqueue_outbound [] now payload s = try_enqueue now payload s
enqueue_outbound (w ∷ ws) now payload s =
    let again = enqueue_outbound ws w.now payload w.state in
    after_attempt (try_enqueue now payload s) w again

-- The loop of `acknowledgeOutbound`: the bytes still pending, the messages left, and whether any
-- was removed.
unfoldable pub release_through : ℕ → ℕ → List SequencedMessage → ℕ × List SequencedMessage
release_through sequence pending [] = (pending, [])
release_through sequence pending (m ∷ ms) = elim (leb m.sequence sequence) [
  | true ↦ release_through sequence (pending - length m.payload) ms
  | false ↦ (pending, m ∷ ms)
]

unfoldable pub acknowledge_outbound : ℕ → ℕ → Session → Session × Option HttpError
unfolding release_through
acknowledge_outbound now sequence s =
    if ltb s.next_outbound sequence
    then (s, sequence_error s.next_outbound sequence false)
    else if leb sequence s.acknowledged
    then (s, none)
    else let (pending, rest) = release_through sequence s.pending_bytes s.outbound in
      (
        record s {
          pending_bytes = pending;
          outbound = rest;
          drained = if ltb (length rest) (length s.outbound) then s.drained + 1 else s.drained;
          acknowledged = sequence;
          last_activity = now;
        },
        none,
      )

-- The loop of `messagesAfter`, with the places left in the batch.
unfoldable pub collect_after : ℕ → ℕ → List SequencedMessage → List SequencedMessage
collect_after after room [] = []
collect_after after room (m ∷ ms) = elim (leb m.sequence after) [
  | true ↦ collect_after after room ms
  | false ↦ elim (room == 0) [ true ↦ [] | false ↦ m ∷ collect_after after (room - 1) ms ]
]

abbrev pub batch_limit : ℕ → Session → ℕ
batch_limit limit s = if limit == 0 then length s.outbound else limit

pub data Batch : Type 0 where
  batch : List SequencedMessage → ℕ → Batch
  ahead : SequenceError → Batch

unfoldable pub messages_after : ℕ → ℕ → Session → Batch
unfolding collect_after
messages_after after limit s =
    if ltb s.next_outbound after
    then ahead (record { expected = s.next_outbound; received = after; duplicate = false })
    else batch (collect_after after (batch_limit limit s) s.outbound) s.next_outbound
