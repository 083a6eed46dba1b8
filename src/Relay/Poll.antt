-- ===== src/Relay/Poll.antt =====
-- server/httprelay.go `handleHTTPSessionPoll`: a request for the messages of the client.
use nvda_remote_go.Prelude.{
  ◌/◌, ◌%◌, ℕ, ◌*◌, Bytes, Bool, true, false, Option, none, some, List, [], ◌∷◌, codes, ◌&&◌, leb,
  ltb, is_empty, positive, ℤ, if◌then◌else◌,
}
use nvda_remote_go.Session.State.{
  Session, SequencedMessage, HttpError, config, second, u64_mod, poll_already_active,
}
use nvda_remote_go.Session.Send.{acknowledge_outbound, messages_after, Batch, batch, ahead}
use nvda_remote_go.Session.Poll.{begin_poll, end_poll}
use nvda_remote_go.Relay.Request.{Http, Request, Reply, failed, conflict, polled}

abbrev pub poll_refusal : HttpError → Reply
poll_refusal poll_already_active = failed 409 (codes "poll_active")
poll_refusal _ = failed 404 (codes "not_found")

abbrev pub is_nothing : List SequencedMessage → Bool
is_nothing [] = true
is_nothing (m ∷ ms) = false

-- The second reading, after the wait, whose error is ignored.
abbrev pub polled_again : Session → Batch → Session × Reply
polled_again s (batch ms last) = (s, polled ms last)
polled_again s (ahead e) = (s, polled [] s.next_outbound)

-- What is read at once, and the wait where that is nothing.
abbrev pub polled_now : ℕ → ℕ → Session → Session → Batch → Session × Reply
polled_now after wait woken s (ahead e) = (s, failed 400 (codes "invalid_after"))
polled_now after wait woken s (batch ms last) =
    if is_nothing ms && ltb 0 wait
    then polled_again woken (messages_after after (config woken).max_batch_messages woken)
    else (s, polled ms last)

abbrev pub poll_acknowledged :
    ℕ → ℕ → (Session → Session) → Session × Option HttpError → Session × Reply
poll_acknowledged after wait others (s, some e) =
    (s, conflict (codes "invalid_after") s.next_outbound)
poll_acknowledged after wait others (s, none) =
    polled_now after wait (others s) s (messages_after after (config s).max_batch_messages s)

abbrev pub poll_parsed : ℕ → Option ℕ → Option ℕ → (Session → Session) → Session → Session × Reply
poll_parsed now none wait others s = (s, failed 400 (codes "invalid_after"))
poll_parsed now (some after) none others s = (s, failed 400 (codes "invalid_wait"))
poll_parsed now (some after) (some wait) others s =
    poll_acknowledged after wait others (acknowledge_outbound now after s)

abbrev pub ended : Session × Reply → Session × Reply
ended (s, r) = (end_poll s, r)

module _ (http : Http) where
  unfoldable pub parse_http_sequence : Bytes → Option ℕ
  parse_http_sequence value = if is_empty value then some 0 else http.parse_uint value

  -- The product is a signed number of 64 bits, so one that is too large may come out negative; it
  -- is then not above the maximum, and there is no wait.
  abbrev pub wait_within : ℕ → ℕ → Option ℕ
  wait_within maximum w =
      if leb (u64_mod / 2) w then some 0 else if leb w maximum then some w else none

  abbrev pub seconds_within : ℕ → Option ℕ → Option ℕ
  seconds_within maximum none = none
  seconds_within maximum (some n) = wait_within maximum (n * second % u64_mod)

  abbrev pub positive_of : Option ℤ → Option ℕ
  positive_of none = none
  positive_of (some z) = positive z

  unfoldable pub parse_http_poll_wait : Bytes → ℕ → Option ℕ
  parse_http_poll_wait value maximum =
      if is_empty value
      then some maximum
      else seconds_within maximum (positive_of (http.atoi value))

  abbrev pub poll_begun :
      ℕ → Request → (Session → Session) → Session × Option HttpError → Session × Reply
  poll_begun now r others (s, some e) = (s, poll_refusal e)
  poll_begun now r others (s, none) = ended (
      poll_parsed now (parse_http_sequence r.after)
        (parse_http_poll_wait r.wait (config s).poll_wait) others s)

  -- `others` is what happens to the session during the wait.
  unfoldable pub handle_http_session_poll :
      ℕ → Request → (Session → Session) → Session → Session × Reply
  handle_http_session_poll now r others s = poll_begun now r others (begin_poll now s)
