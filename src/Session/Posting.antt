-- ===== src/Session/Posting.antt =====
-- What the server gets of what a client posts to a session, over any history of calls.
use nvda_remote_go.Prelude.{
  ℕ, suc, ◌≡◌, refl, Bytes, Option, none, List, [], ◌∷◌, ◌++◌, arith, append-nil, append_assoc,
}
use nvda_remote_go.Session.State.{Session, SequencedMessage, RelayConfig, new_http_session}
use nvda_remote_go.Session.Receive.{accept_inbound}
use nvda_remote_go.Session.Backlog.{Numbered, Numbered-push, payloads, payloads-append}
use nvda_remote_go.Session.History.{
  Call, accepts, reads, step, run, takes, hands_over, all_taken, all_handed_over,
}

-- What has been accepted from the client: numbered without a gap, and either read or still queued.
pub record HasTaken (s : Session) (taken : List SequencedMessage) (read : List Bytes) : Type 0 where
  pub in_order : Numbered 0 taken s.next_inbound
  pub kept : payloads taken ≡ read ++ s.inbound

new_http_session-HasTaken :
    (id token_hash addr : Bytes) (manager : Option RelayConfig) (now : ℕ)
    → HasTaken (new_http_session id token_hash addr manager now) [] []
unfolding new_http_session
new_http_session-HasTaken id token_hash addr manager now = ground arith

-- The message that is accepted is the one after the last accepted.
pub accept_inbound-next :
    (now q : ℕ) (p : Bytes) (s : Session)
    → (accept_inbound now q p s).1 ≡ none
    → (q ≡ suc s.next_inbound)
      × ((accept_inbound now q p s).0.inbound ≡ s.inbound ++ p ∷ [])
      × ((accept_inbound now q p s).0.next_inbound ≡ q)
unfolding accept_inbound
accept_inbound-next now q p s h = ground arith

module _ (s : Session) (taken : List SequencedMessage) (read : List Bytes) where
  accepts-HasTaken :
      (now q : ℕ) (p : Bytes)
      → HasTaken s taken read
      → HasTaken (step s (accepts now q p)) (taken ++ takes s (accepts now q p)) read
  unfolding step takes
  accepts-HasTaken now q p r =
      let m : SequencedMessage = record { sequence = q; payload = p } in
      ground (
        arith,
        append-nil taken,
        r.in_order,
        r.kept,
        Numbered-push 0 taken s.next_inbound m r.in_order,
        payloads-append taken (m ∷ []),
        append_assoc read s.inbound (p ∷ []),
      )

  queue-HasTaken :
      (queue : List Bytes)
      → s.inbound ≡ queue
      → HasTaken s taken read
      → HasTaken (step s reads) taken (read ++ hands_over s reads)
  unfolding step hands_over
  queue-HasTaken [] e r = ground (arith, append-nil read, r.in_order, r.kept)
  queue-HasTaken (p ∷ rest) e r =
      ground (arith, append-nil read, append_assoc read (p ∷ []) rest, r.in_order, r.kept)

pub step-HasTaken :
    (s : Session) (taken : List SequencedMessage) (read : List Bytes) (c : Call)
    → HasTaken s taken read
    → HasTaken (step s c) (taken ++ takes s c) (read ++ hands_over s c)
unfolding step takes hands_over
step-HasTaken s taken read (accepts now q p) r =
    rw (append-nil read) (accepts-HasTaken s taken read now q p r)
step-HasTaken s taken read reads r =
    rw (append-nil taken) (queue-HasTaken s taken read s.inbound refl r)
step-HasTaken s taken read _ r = rw (append-nil taken, append-nil read) (ground arith)

run-HasTaken :
    (s : Session) (taken : List SequencedMessage) (read : List Bytes) (cs : List Call)
    → HasTaken s taken read
    → HasTaken (run s cs) (taken ++ all_taken s cs) (read ++ all_handed_over s cs)
unfolding run all_taken all_handed_over
run-HasTaken s taken read [] r = rw (append-nil taken, append-nil read) r
run-HasTaken s taken read (c ∷ cs) r =
    rw
      (
        ← append_assoc taken (takes s c) (all_taken (step s c) cs),
        ← append_assoc read (hands_over s c) (all_handed_over (step s c) cs),
      )
      (run-HasTaken (step s c) (taken ++ takes s c) (read ++ hands_over s c) cs
        (step-HasTaken s taken read c r))

-- After any history of calls on a new session, the messages accepted from the client carry the
-- numbers 1, 2, 3, … in order, each number once, up to the session's last inbound number; and the
-- payloads handed to the server's read loop, followed by those that still wait in the queue, are
-- exactly the accepted payloads in that order.
pub posting-history :
    (id token_hash addr : Bytes) (manager : Option RelayConfig) (now : ℕ) (cs : List Call)
    → let fresh = new_http_session id token_hash addr manager now in
      Numbered 0 (all_taken fresh cs) (run fresh cs).next_inbound
      × (payloads (all_taken fresh cs) ≡ all_handed_over fresh cs ++ (run fresh cs).inbound)
posting-history id token_hash addr manager now cs =
    let fresh = new_http_session id token_hash addr manager now in
    let r =
      run-HasTaken fresh [] [] cs (new_http_session-HasTaken id token_hash addr manager now) in
    (r.in_order, r.kept)
