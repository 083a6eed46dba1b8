-- ===== src/Examples/Sessions.antt =====
-- A client that is sent two messages and acknowledges the first, and that posts one itself.
use nvda_remote_go.Prelude.{
  ◌+◌, ◌≤◌, ◌≡◌, ◌≢◌, refl, true, none, List, [], ◌∷◌, ◌++◌, codes, arith, length, take, drop,
}
use nvda_remote_go.Session.State.{Session, SequencedMessage, new_http_session}
use nvda_remote_go.Session.Send.{batch, messages_after}
use nvda_remote_go.Session.Backlog.{Numbered, payloads}
use nvda_remote_go.Session.History.{
  Call, accepts, reads, enqueues, acknowledges, run, step, stores, all_stored, all_taken,
  all_handed_over,
}
use nvda_remote_go.Session.Invariant.{IsSound}
use nvda_remote_go.Session.Poll.{begin_poll, close_session}
use nvda_remote_go.Session.Closing.{closed-silent, begin_poll-begin_poll}
use nvda_remote_go.Session.Delivery.{history-IsSound, messages_after-history}
use nvda_remote_go.Session.Posting.{posting-history}

abbrev pub calls : List Call
calls =
    enqueues 1 (codes "one")
    ∷ enqueues 2 (codes "two")
    ∷ acknowledges 3 1
    ∷ accepts 4 1 (codes "hello")
    ∷ reads
    ∷ accepts 5 1 (codes "again")
    ∷ []

abbrev pub new : Session
new = new_http_session (codes "a") (codes "b") (codes "10.0.0.1:5") none 0

history-IsSound_example : IsSound (run new calls)
history-IsSound_example =
    history-IsSound (codes "a") (codes "b") (codes "10.0.0.1:5") none 0 calls (omega arith)

pub acknowledged_one : (run new calls).acknowledged ≤ 1
unfolding run new_http_session step
acknowledged_one = omega arith

pub stored_two : 1 ≤ length (all_stored new calls)
unfolding all_stored new_http_session stores
stored_two = omega arith

messages_after-history_example :
    (ms : List SequencedMessage) × (messages_after 1 5 (run new calls)
      ≡ batch ms (length (all_stored new calls)))
    × (payloads ms ≡ take 5 (drop 1 (all_stored new calls)))
    × Numbered 1 ms (1 + length ms)
messages_after-history_example =
    messages_after-history (codes "a") (codes "b") (codes "10.0.0.1:5") none 0 calls 1 5
      (omega arith) (omega arith) acknowledged_one stored_two

posting-history_example :
    Numbered 0 (all_taken new calls) (run new calls).next_inbound
    × (payloads (all_taken new calls) ≡ all_handed_over new calls ++ (run new calls).inbound)
posting-history_example = posting-history (codes "a") (codes "b") (codes "10.0.0.1:5") none 0 calls

abbrev closed_session : Session
closed_session = close_session (run new calls)

closed-silent_example :
    ((run closed_session calls).closed ≡ true)
    × (all_stored closed_session calls ≡ [])
    × (all_taken closed_session calls ≡ [])
    × (all_handed_over closed_session calls ≡ [])
unfolding close_session
closed-silent_example = closed-silent closed_session calls refl

begin_poll-begin_poll_example : (begin_poll 9 (run (begin_poll 8 new).0 calls)).1 ≢ none
unfolding begin_poll new_http_session
begin_poll-begin_poll_example = begin_poll-begin_poll new calls 8 9 refl refl
