-- ===== src/Session/Closing.antt =====
-- A session that is closed, and a session with a poll.
use nvda_remote_go.Prelude.{
  ℕ, ◌≡◌, ◌≢◌, refl, Bool, true, false, none, List, [], ◌∷◌, not, ◌&&◌, arith,
}
use nvda_remote_go.Session.State.{Session}
use nvda_remote_go.Session.Poll.{begin_poll}
use nvda_remote_go.Session.History.{
  Call, accepts, reads, enqueues, acknowledges, ends_poll, step, run, stores, takes, hands_over,
  all_stored, all_taken, all_handed_over,
}

step-closed : (s : Session) (c : Call) → s.closed ≡ true → (step s c).closed ≡ true
unfolding step
step-closed s reads h = ground arith
step-closed s (acknowledges now n) h = ground arith
step-closed s _ h = ground arith

nothing_after :
    (s : Session) (c : Call)
    → s.closed ≡ true
    → (stores s c ≡ []) × (takes s c ≡ []) × (hands_over s c ≡ [])
unfolding stores takes hands_over
nothing_after s (enqueues now p) h = ground arith
nothing_after s (accepts now n p) h = ground arith
nothing_after s reads h = ground arith
nothing_after s _ h = ground arith

-- On a session that is closed, no history of calls stores, accepts or hands over anything, and the
-- session stays closed.
pub closed-silent :
    (s : Session) (cs : List Call)
    → s.closed ≡ true
    → ((run s cs).closed ≡ true)
      × (all_stored s cs ≡ [])
      × (all_taken s cs ≡ [])
      × (all_handed_over s cs ≡ [])
unfolding run all_stored all_taken all_handed_over
closed-silent s [] h = (h, refl, refl, refl)
closed-silent s (c ∷ cs) h =
    let later = closed-silent (step s c) cs (step-closed s c h) in
    let now = nothing_after s c h in
    (later.0, rw (now.0, later.1) refl, rw (now.1, later.2) refl, rw (now.2, later.3) refl)

abbrev pub lets_go : Call → Bool
lets_go ends_poll = true
lets_go _ = false

abbrev pub holds_poll : List Call → Bool
holds_poll [] = true
holds_poll (c ∷ cs) = not (lets_go c) && holds_poll cs

step-poll_active :
    (s : Session) (c : Call)
    → lets_go c ≡ false
    → s.poll_active ≡ true
    → (step s c).poll_active ≡ true
unfolding step
step-poll_active s _ l h = ground arith

run-poll_active :
    (s : Session) (cs : List Call)
    → holds_poll cs ≡ true
    → s.poll_active ≡ true
    → (run s cs).poll_active ≡ true
unfolding run
run-poll_active s [] l h = h
run-poll_active s (c ∷ cs) l h = ground (arith, step-poll_active s c, run-poll_active (step s c) cs)

-- Once a poll has begun, no other can begin before it ends, whatever else is called on the session
-- in the meantime.
pub begin_poll-begin_poll :
    (s : Session) (cs : List Call) (now later : ℕ)
    → (begin_poll now s).1 ≡ none
    → holds_poll cs ≡ true
    → (begin_poll later (run (begin_poll now s).0 cs)).1 ≢ none
unfolding begin_poll
begin_poll-begin_poll s cs now later started held =
    ground (arith, run-poll_active (begin_poll now s).0 cs)
