-- ===== src/Session/Invariant.antt =====
-- What every method keeps: the backlog is numbered without a gap from the last acknowledgement to
-- the last message, its bytes are counted right, and every limit of the configuration holds.
use nvda_remote_go.Prelude.{
  ℕ, suc, sym, subst, ◌⊎◌, ◌+◌, ◌-◌, ◌≤◌, ◌<◌, ◌≡◌, ◌∙◌, ◌++◌, refl, Bytes, Option, none, List, [],
  ◌∷◌, arith, inl, inr, length, drop, length-append, length-drop,
}
use nvda_remote_go.Session.State.{
  Session, SequencedMessage, RelayConfig, u64_mod, succ_u64, config, outbound_backlog_limit,
  new_http_session,
}
use nvda_remote_go.Session.Send.{acknowledge_outbound}
use nvda_remote_go.Session.Backlog.{
  Numbered, byte_count, byte_count-append, Numbered-push, Numbered-drop, release_through-drop,
  Numbered-length, byte_count-drop-le,
}
use nvda_remote_go.Session.History.{
  Call, takes_notice, accepts, reads, enqueues, acknowledges, begins_poll, ends_poll, touches,
  sets_deadline, closes, step, run,
}

pub record IsSound (s : Session) : Type 0 where
  pub numbered : Numbered s.acknowledged s.outbound s.next_outbound
  pub counted : s.pending_bytes ≡ byte_count s.outbound
  pub backlog_fits : length s.outbound ≤ outbound_backlog_limit (config s)
  pub bytes_fit : s.pending_bytes ≤ (config s).max_pending_bytes
  pub inbound_fits : length s.inbound ≤ s.inbound_cap

pub new_http_session-IsSound :
    (id token_hash addr : Bytes) (manager : Option RelayConfig) (now : ℕ)
    → IsSound (new_http_session id token_hash addr manager now)
unfolding new_http_session
new_http_session-IsSound id token_hash addr manager now = ground arith

module _ (s : Session) (v : IsSound s) where
  accept_inbound-IsSound : (now q : ℕ) (p : Bytes) → IsSound (step s (accepts now q p))
  unfolding step config
  accept_inbound-IsSound now q p = ground (arith, length-append s.inbound (p ∷ []))

  read_message-IsSound : IsSound (step s reads)
  unfolding step config
  read_message-IsSound = ground arith

  -- A message that is stored is numbered next.
  push_outbound-Numbered :
      (m : SequencedMessage)
      → m.sequence ≡ succ_u64 s.next_outbound
      → s.next_outbound + 1 < u64_mod
      → Numbered s.acknowledged (s.outbound ++ m ∷ []) (succ_u64 s.next_outbound)
  push_outbound-Numbered m e h =
      let next : succ_u64 s.next_outbound ≡ suc s.next_outbound = omega arith in
      rw next (Numbered-push s.acknowledged s.outbound s.next_outbound m v.numbered (e ∙ next))

  try_enqueue-IsSound :
      (now : ℕ) (p : Bytes) → s.next_outbound + 1 < u64_mod → IsSound (step s (enqueues now p))
  unfolding step config outbound_backlog_limit
  try_enqueue-IsSound now p h =
      let m : SequencedMessage = record { sequence = succ_u64 s.next_outbound; payload = p } in
      ground (
        arith,
        length-append s.outbound (m ∷ []),
        byte_count-append s.outbound (m ∷ []),
        push_outbound-Numbered m refl h,
      )

  -- A new acknowledgement drops the messages that it covers, and no others.
  pub acknowledge_outbound-advance :
      (now q : ℕ)
      → s.acknowledged < q
      → q ≤ s.next_outbound
      → let rest = drop (q - s.acknowledged) s.outbound in
        acknowledge_outbound now q s ≡ (
          record s {
            pending_bytes = byte_count rest;
            outbound = rest;
            drained = s.drained + 1;
            acknowledged = q;
            last_activity = now;
          },
          none,
        )
  unfolding acknowledge_outbound
  acknowledge_outbound-advance now q lo hi =
      let k : ℕ = q - s.acknowledged in
      ground (
        arith,
        release_through-drop k q s.pending_bytes s.acknowledged s.outbound s.next_outbound
            v.numbered (omega arith) v.counted,
        length-drop k s.outbound,
        Numbered-length s.acknowledged s.outbound s.next_outbound v.numbered,
      )

  -- An acknowledgement moves nothing unless it is new and not ahead of the last message.
  pub acknowledge_outbound-cases :
      (now q : ℕ)
      → ((acknowledge_outbound now q s).0 ≡ s) ⊎ ((s.acknowledged < q) × (q ≤ s.next_outbound))
  unfolding acknowledge_outbound
  acknowledge_outbound-cases now q = ground arith

  after_advance-IsSound :
      (now q : ℕ)
      → s.acknowledged < q
      → q ≤ s.next_outbound
      → IsSound (acknowledge_outbound now q s).0
  unfolding config
  after_advance-IsSound now q lo hi =
      let k : ℕ = q - s.acknowledged in
      rw (acknowledge_outbound-advance now q lo hi) (record {
        numbered =
            subst (λ n. Numbered n (drop k s.outbound) s.next_outbound) (omega arith)
              (Numbered-drop k s.acknowledged s.outbound s.next_outbound v.numbered (omega arith));
        counted = refl;
        backlog_fits = omega (arith, length-drop k s.outbound, v.backlog_fits);
        bytes_fit = omega (arith, byte_count-drop-le k s.outbound, v.bytes_fit, v.counted);
        inbound_fits = v.inbound_fits;
      })

  acknowledge_outbound-IsSound : (now q : ℕ) → IsSound (step s (acknowledges now q))
  unfolding step
  acknowledge_outbound-IsSound now q = elim (acknowledge_outbound-cases now q) [
    | inl same ↦ subst IsSound (sym same) v
    | inr moved ↦ after_advance-IsSound now q moved.0 moved.1
  ]

pub step-IsSound :
    (s : Session) (c : Call) → IsSound s → s.next_outbound + 1 < u64_mod → IsSound (step s c)
unfolding step config
step-IsSound s (accepts now q p) v h = accept_inbound-IsSound s v now q p
step-IsSound s reads v h = read_message-IsSound s v
step-IsSound s (enqueues now p) v h = try_enqueue-IsSound s v now p h
step-IsSound s (acknowledges now q) v h = acknowledge_outbound-IsSound s v now q
step-IsSound s (begins_poll now) v h = ground arith
step-IsSound s ends_poll v h = ground arith
step-IsSound s (touches now) v h = ground arith
step-IsSound s takes_notice v h = ground arith
step-IsSound s (sets_deadline d) v h = ground arith
step-IsSound s closes v h = ground arith

-- A call stores one message at most.
pub next_outbound-step :
    (s : Session) (c : Call)
    → s.next_outbound + 1 < u64_mod
    → (step s c).next_outbound ≤ s.next_outbound + 1
unfolding step
next_outbound-step s (accepts now q p) h = ground arith
next_outbound-step s reads h = ground arith
next_outbound-step s (enqueues now p) h = ground arith
next_outbound-step s (acknowledges now q) h = ground arith
next_outbound-step s (begins_poll now) h = ground arith
next_outbound-step s takes_notice h = ground arith
next_outbound-step s (sets_deadline d) h = ground arith
next_outbound-step s _ h = omega arith

-- Whatever the calls, as long as the sequence numbers do not wrap.
pub run-IsSound :
    (s : Session) (cs : List Call)
    → IsSound s
    → s.next_outbound + length cs < u64_mod
    → IsSound (run s cs)
unfolding run
run-IsSound s [] v h = v
run-IsSound s (c ∷ cs) v h =
    run-IsSound (step s c) cs (step-IsSound s c v (omega arith))
      (omega (arith, next_outbound-step s c))
