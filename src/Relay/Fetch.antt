-- ===== src/Relay/Fetch.antt =====
-- What a poll is answered, after any history of calls on the session.
use nvda_remote_go.Prelude.{
  ℕ, zero, suc, ◌+◌, ◌≤◌, ◌<◌, ◌≡◌, refl, ◌∙◌, ap, sym, Bytes, false, Option, none, some, List, [],
  ◌∷◌, ◌++◌, arith, length, take, drop, ltb, append-nil, length-append, append_assoc,
}
use nvda_remote_go.Session.State.{
  Session, SequencedMessage, RelayConfig, config, new_http_session, u64_mod,
}
use nvda_remote_go.Session.Send.{acknowledge_outbound, messages_after, batch}
use nvda_remote_go.Session.Poll.{begin_poll}
use nvda_remote_go.Session.Backlog.{Numbered, payloads}
use nvda_remote_go.Session.History.{Call, begins_poll, acknowledges, step, run, stores, all_stored}
use nvda_remote_go.Session.Delivery.{messages_after-history}
use nvda_remote_go.Relay.Request.{Http, Request, polled}
use nvda_remote_go.Relay.Poll.{
  is_nothing, parse_http_sequence, parse_http_poll_wait, polled_now, handle_http_session_poll,
}

pub run-append : (s : Session) (cs ds : List Call) → run s (cs ++ ds) ≡ run (run s cs) ds
unfolding run
run-append s [] ds = refl
run-append s (c ∷ cs) ds = run-append (step s c) cs ds

pub all_stored-append :
    (s : Session) (cs ds : List Call)
    → all_stored s (cs ++ ds) ≡ all_stored s cs ++ all_stored (run s cs) ds
unfolding all_stored run
all_stored-append s [] ds = refl
all_stored-append s (c ∷ cs) ds =
    rw (all_stored-append (step s c) cs ds) (
      sym
        (append_assoc (stores s c) (all_stored (step s c) cs) (all_stored (run (step s c) cs) ds)))

starts_here :
    (l a : ℕ) (xs : List Bytes)
    → 0 < l
    → a < length xs
    → (x : Bytes) × (ys : List Bytes) × (take l (drop a xs) ≡ x ∷ ys)
starts_here zero a xs p q = absurd (omega arith)
starts_here (suc l) a [] p q = absurd (omega arith)
starts_here (suc l) zero (x ∷ xs) p q = (x, take l xs, refl)
starts_here (suc l) (suc a) (x ∷ xs) p q = starts_here (suc l) a xs p (omega arith)

something :
    (l a : ℕ) (ms : List SequencedMessage) (xs : List Bytes)
    → 0 < l
    → a < length xs
    → payloads ms ≡ take l (drop a xs)
    → is_nothing ms ≡ false
something l a [] xs p q e = let (x, ys, f) = starts_here l a xs p q in let g = e ∙ f in cc
something l a (m ∷ ms) xs p q e = refl

messages_after-bound :
    (a l n : ℕ) (ms : List SequencedMessage) (s : Session)
    → messages_after a l s ≡ batch ms n
    → ltb s.next_outbound a ≡ false
unfolding messages_after
messages_after-bound a l n ms s e = ground (arith, e)

module _ (id token_hash addr : Bytes) (manager : Option RelayConfig) (created : ℕ) (cs : List Call)
    (now after : ℕ) where
  abbrev pub current : Session
  current = run (new_http_session id token_hash addr manager created) cs

  abbrev pub stored_so_far : List Bytes
  stored_so_far = all_stored (new_http_session id token_hash addr manager created) cs

  abbrev pub polling : Session
  polling = run current (begins_poll now ∷ acknowledges now after ∷ [])

  pub acknowledged_polling : current.acknowledged ≤ after → polling.acknowledged ≤ after
  unfolding run step begin_poll acknowledge_outbound
  acknowledged_polling le = ground (arith, le)

  -- The batch that is read once the poll has begun and acknowledged what it has.
  messages_after-polling :
      (limit : ℕ)
      → suc (suc (length cs)) < u64_mod
      → 0 < limit
      → current.acknowledged ≤ after
      → after ≤ length stored_so_far
      → (ms : List SequencedMessage) × (messages_after after limit polling
          ≡ batch ms (length stored_so_far))
        × (payloads ms ≡ take limit (drop after stored_so_far))
        × Numbered after ms (after + length ms)
  unfolding run all_stored stores
  messages_after-polling limit few pos lo hi =
      let fresh = new_http_session id token_hash addr manager created in
      let ds : List Call = begins_poll now ∷ acknowledges now after ∷ [] in
      let same : all_stored fresh (cs ++ ds) ≡ stored_so_far =
        all_stored-append fresh cs ds ∙ append-nil stored_so_far in
      let r =
        messages_after-history id token_hash addr manager created (cs ++ ds) after limit
          (rw (length-append cs ds) (omega arith)) pos
          (rw (run-append fresh cs ds) (acknowledged_polling lo)) (rw same hi) in
      (
        r.0,
        ap (λ (t : Session). messages_after after limit t) (sym (run-append fresh cs ds))
            ∙ r.1
            ∙ ap (λ (xs : List Bytes). batch r.0 (length xs)) same,
        r.2 ∙ ap (λ (xs : List Bytes). take limit (drop after xs)) same,
        r.3,
      )

  pub config-polling : config polling ≡ config current
  unfolding run step begin_poll acknowledge_outbound config
  config-polling = ground arith

  config-begun : config (step current (begins_poll now)) ≡ config current
  unfolding step begin_poll config
  config-begun = ground arith

  pub begin_poll-current :
      current.closed ≡ false
      → current.poll_active ≡ false
      → begin_poll now current ≡ (step current (begins_poll now), none)
  unfolding begin_poll step
  begin_poll-current live idle = ground (arith, live, idle)

  pub acknowledge_outbound-polling :
      ltb polling.next_outbound after ≡ false
      → acknowledge_outbound now after (step current (begins_poll now)) ≡ (polling, none)
  unfolding acknowledge_outbound step begin_poll run
  acknowledge_outbound-polling le = ground (arith, le)

  polled_now-batch :
      (wait n : ℕ) (woken s : Session) (ms : List SequencedMessage)
      → is_nothing ms ≡ false
      → (polled_now after wait woken s (batch ms n)).1 ≡ polled ms n
  polled_now-batch wait n woken s ms h = ground (arith, h)

  module _ (http : Http) (r : Request) (others : Session → Session) (wait : ℕ) where
    -- After any history of calls on a new session, of fewer than 2^64 - 2, a poll on the session,
    -- open and without a poll, that asks for what comes after a number that is not below the last
    -- acknowledgement and below the number of messages stored, with a wait that is allowed, is
    -- answered with the messages stored at those places, in order, each under the number of its
    -- place, as many as a batch may have (`max_batch_messages` positive), and with the number of
    -- messages stored so far.
    pub poll-history :
        suc (suc (length cs)) < u64_mod
        → 0 < (config current).max_batch_messages
        → current.closed ≡ false
        → current.poll_active ≡ false
        → parse_http_sequence http r.after ≡ some after
        → parse_http_poll_wait http r.wait (config current).poll_wait ≡ some wait
        → current.acknowledged ≤ after
        → after < length stored_so_far
        → (ms : List SequencedMessage) × ((handle_http_session_poll http now r others current).1
            ≡ polled ms (length stored_so_far))
          × (payloads ms ≡ take (config current).max_batch_messages (drop after stored_so_far))
          × Numbered after ms (after + length ms)
    unfolding handle_http_session_poll
    poll-history few pos live idle asked allowed lo hi =
        let limit = (config current).max_batch_messages in
        let got = messages_after-polling limit few pos lo (omega arith) in
        let bound = messages_after-bound after limit (length stored_so_far) got.0 polling got.1 in
        let full = something limit after got.0 stored_so_far pos hi got.2 in
        (
          got.0,
          rw
              (
                begin_poll-current live idle,
                config-begun,
                asked,
                allowed,
                acknowledge_outbound-polling bound,
                config-polling,
                got.1,
              )
              (polled_now-batch wait (length stored_so_far) (others polling) polling got.0 full),
          got.2,
          got.3,
        )
