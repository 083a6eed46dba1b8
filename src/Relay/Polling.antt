-- ===== src/Relay/Polling.antt =====
-- What a poll leaves behind.
use nvda_remote_go.Prelude.{
  ℕ, ◌≡◌, refl, false, Option, none, some, ap, sym, ◌∙◌, inl, inr, Bool-cases,
}
use nvda_remote_go.Session.State.{Session, HttpError, config}
use nvda_remote_go.Session.Poll.{begin_poll, end_poll}
use nvda_remote_go.Relay.Request.{Http, Request, Reply}
use nvda_remote_go.Relay.Poll.{
  parse_http_sequence, parse_http_poll_wait, poll_parsed, poll_begun, ended,
  handle_http_session_poll,
}

poll_active-ended : (x : Session × Reply) → (ended x).0.poll_active ≡ false
unfolding end_poll
poll_active-ended (s, r) = refl

module _ (http : Http) (now : ℕ) (r : Request) (others : Session → Session) where
  poll_begun-none :
      (x : Session × Option HttpError)
      → x.1 ≡ none
      → (poll_begun http now r others x).0.poll_active ≡ false
  poll_begun-none (s, none) h = poll_active-ended (
      poll_parsed now (parse_http_sequence http r.after)
        (parse_http_poll_wait http r.wait (config s).poll_wait) others s)
  poll_begun-none (s, some e) h = cc

  poll_begun-some :
      (x : Session × Option HttpError) (e : HttpError)
      → x.1 ≡ some e
      → (poll_begun http now r others x).0 ≡ x.0
  poll_begun-some (s, none) e h = cc
  poll_begun-some (s, some d) e h = refl

  -- However a poll is answered, and whatever happens to the session while it waits, it leaves the
  -- session with a poll exactly if it found one there: one that began has ended.
  pub poll_active-poll :
      (s : Session) → (handle_http_session_poll http now r others s).0.poll_active ≡ s.poll_active
  unfolding handle_http_session_poll
  poll_active-poll s = elim (Bool-cases s.closed) [
    | inl closed ↦
        ap (λ (t : Session). t.poll_active)
          (poll_begun-some (begin_poll now s) HttpError.conn_closed
            (unfold begin_poll in rw closed refl))
        ∙ unfold begin_poll in rw closed refl
    | inr live ↦ elim (Bool-cases s.poll_active) [
      | inl busy ↦
          ap (λ (t : Session). t.poll_active)
            (poll_begun-some (begin_poll now s) HttpError.poll_already_active
              (unfold begin_poll in rw (live, busy) refl))
          ∙ unfold begin_poll in rw (live, busy) refl
      | inr idle ↦
          poll_begun-none (begin_poll now s) (unfold begin_poll in rw (live, idle) refl) ∙ sym idle
    ]
  ]
