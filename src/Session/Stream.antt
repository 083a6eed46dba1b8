-- ===== src/Session/Stream.antt =====
-- The backlog of server/httpconn.go beside a stream, the list of all messages ever stored.
use nvda_remote_go.Prelude.{
  ℕ, ◌+◌, ◌-◌, ◌≤◌, ◌<◌, ◌≡◌, sym, ap, ◌∙◌, subst, inl, inr, Bytes, Option, List, [], ◌∷◌, ◌++◌,
  arith, length, take, drop, length-append, drop-append, drop-drop, append-nil, append_assoc,
}
use nvda_remote_go.Session.State.{
  Session, SequencedMessage, RelayConfig, u64_mod, succ_u64, new_http_session,
}
use nvda_remote_go.Session.Send.{messages_after, batch, collect_after, acknowledge_outbound}
use nvda_remote_go.Session.Backlog.{
  Numbered, payloads, payloads-append, payloads-take, payloads-drop, collect_after-drop,
  Numbered-drop, Numbered-take, Numbered-length,
}
use nvda_remote_go.Session.History.{
  Call, takes_notice, accepts, reads, enqueues, acknowledges, begins_poll, ends_poll, touches,
  sets_deadline, closes, step, run, stores, all_stored,
}
use nvda_remote_go.Session.Invariant.{
  IsSound, step-IsSound, next_outbound-step, acknowledge_outbound-cases,
  acknowledge_outbound-advance,
}

pub record Represents (s : Session) (log : List Bytes) : Type 0 where
  pub unacknowledged : payloads s.outbound ≡ drop s.acknowledged log
  pub total : length log ≡ s.next_outbound

pub new_http_session-Represents :
    (id token_hash addr : Bytes) (manager : Option RelayConfig) (now : ℕ)
    → Represents (new_http_session id token_hash addr manager now) []
unfolding new_http_session
new_http_session-Represents id token_hash addr manager now = ground arith

module _ (s : Session) (log : List Bytes) (v : IsSound s) (r : Represents s log) where
  Represents-nil : Represents s (log ++ [])
  Represents-nil = rw append-nil r

  enqueues-Represents :
      (now : ℕ) (p : Bytes)
      → s.next_outbound + 1 < u64_mod
      → Represents (step s (enqueues now p)) (log ++ stores s (enqueues now p))
  unfolding step stores
  enqueues-Represents now p h =
      let m : SequencedMessage = record { sequence = succ_u64 s.next_outbound; payload = p } in
      ground (
        arith,
        append-nil log,
        length-append log (p ∷ []),
        payloads-append s.outbound (m ∷ []),
        drop-append s.acknowledged log (p ∷ []),
        Numbered-length s.acknowledged s.outbound s.next_outbound v.numbered,
        r.unacknowledged,
        r.total,
      )

  after_advance-Represents :
      (now q : ℕ)
      → s.acknowledged < q
      → q ≤ s.next_outbound
      → Represents (acknowledge_outbound now q s).0 log
  after_advance-Represents now q lo hi =
      let k : ℕ = q - s.acknowledged in
      let sum : s.acknowledged + k ≡ q = omega arith in
      rw (acknowledge_outbound-advance s v now q lo hi) (record {
        unacknowledged =
            payloads-drop k s.outbound
            ∙ ap (drop k) r.unacknowledged
            ∙ drop-drop k s.acknowledged log
            ∙ ap (λ n. drop n log) sum;
        total = r.total;
      })

  acknowledges-Represents : (now q : ℕ) → Represents (step s (acknowledges now q)) (log ++ [])
  unfolding step
  acknowledges-Represents now q = elim (acknowledge_outbound-cases s v now q) [
    | inl same ↦ rw append-nil (subst (λ t. Represents t log) (sym same) r)
    | inr moved ↦ rw append-nil (after_advance-Represents now q moved.0 moved.1)
  ]

-- Every call adds to the stream exactly what it stores.
pub step-Represents :
    (s : Session) (log : List Bytes) (c : Call)
    → IsSound s
    → s.next_outbound + 1 < u64_mod
    → Represents s log
    → Represents (step s c) (log ++ stores s c)
unfolding step stores
step-Represents s log (enqueues now p) v h r = enqueues-Represents s log v r now p h
step-Represents s log (acknowledges now q) v h r = acknowledges-Represents s log v r now q
step-Represents s log (accepts now q p) v h r = rw append-nil (ground arith)
step-Represents s log reads v h r = rw append-nil (ground arith)
step-Represents s log (begins_poll now) v h r = rw append-nil (ground arith)
step-Represents s log ends_poll v h r = rw append-nil (ground arith)
step-Represents s log (touches now) v h r = rw append-nil (ground arith)
step-Represents s log takes_notice v h r = rw append-nil (ground arith)
step-Represents s log (sets_deadline d) v h r = rw append-nil (ground arith)
step-Represents s log closes v h r = rw append-nil (ground arith)

pub run-Represents :
    (s : Session) (log : List Bytes) (cs : List Call)
    → IsSound s
    → s.next_outbound + length cs < u64_mod
    → Represents s log
    → Represents (run s cs) (log ++ all_stored s cs)
unfolding run all_stored
run-Represents s log [] v h r = rw append-nil r
run-Represents s log (c ∷ cs) v h r = rw (← append_assoc) (
    run-Represents (step s c) (log ++ stores s c) cs (step-IsSound s c v (omega arith))
      (omega (arith, next_outbound-step s c)) (step-Represents s log c v (omega arith) r))

-- A batch of a session that represents a stream is the stretch of the stream that was asked for.
pub messages_after-stretch :
    (s : Session) (log : List Bytes) (after limit : ℕ)
    → IsSound s
    → Represents s log
    → 0 < limit
    → s.acknowledged ≤ after
    → after ≤ length log
    → (ms : List SequencedMessage) × (messages_after after limit s ≡ batch ms (length log))
      × (payloads ms ≡ take limit (drop after log))
      × Numbered after ms (after + length ms)
unfolding messages_after
messages_after-stretch s log after limit v r pos lo hi = (
  take limit (drop k s.outbound),
  ground (arith, collected, r.total),
  payloads-take limit (drop k s.outbound) ∙ ap (take limit) rest,
  subst (λ a. Numbered a ms (a + length ms)) sum
      (Numbered-take limit (s.acknowledged + k) (drop k s.outbound) s.next_outbound (
        Numbered-drop k s.acknowledged s.outbound s.next_outbound v.numbered
          (omega (arith, r.total)))),
)
  where
    k : ℕ
    k = after - s.acknowledged

    ms : List SequencedMessage
    ms = take limit (drop k s.outbound)

    sum : s.acknowledged + k ≡ after
    sum = omega arith

    collected : collect_after after limit s.outbound ≡ ms
    collected =
        collect_after-drop k limit after s.acknowledged s.outbound s.next_outbound v.numbered
          (sym sum)

    rest : payloads (drop k s.outbound) ≡ drop after log
    rest =
        payloads-drop k s.outbound
        ∙ ap (drop k) r.unacknowledged
        ∙ drop-drop k s.acknowledged log
        ∙ ap (λ n. drop n log) sum
