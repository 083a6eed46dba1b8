-- ===== src/Relay/Streaming.antt =====
-- What the rounds of a stream send, beside the list of all messages stored.
use nvda_remote_go.Prelude.{
  ℕ, ◌+◌, ◌≤◌, ◌<◌, ◌≡◌, refl, sym, ap, ◌∙◌, subst, Bytes, true, false, List, [], ◌∷◌, ◌++◌, arith,
  length, append_assoc, length-append, Bool-cases, inl, inr,
}
use nvda_remote_go.Session.State.{Session, SequencedMessage, u64_mod}
use nvda_remote_go.Session.Send.{batch}
use nvda_remote_go.Session.History.{
  Call, acknowledges, touches, takes_notice, step, run, all_stored,
}
use nvda_remote_go.Session.Invariant.{IsSound, run-IsSound}
use nvda_remote_go.Session.Stream.{Represents, run-Represents, messages_after-stretch}
use nvda_remote_go.Relay.Fetch.{run-append, all_stored-append}
use nvda_remote_go.Relay.Stream.{
  Sse, Event, Round, Progress, Sent, flushed, Wakeup, notified, request_done, session_done,
  timer_fired, write_each, stream_round, flushed, woken, batch_read,
}
use nvda_remote_go.Relay.Follows.{
  AckWithin, AcksWithin, run-acknowledged, Listed, batch-Listed, Follows, message_count,
  Follows-extend, Follows-length, write_each-Follows,
}

module _ (sse : Sse) where
  -- How a part of the loop has gone: some calls on the session, what was sent, and the place reached.
  pub record Delivers (n : ℕ) (s : Session) (log : List Bytes) (t : Session) (es : List Event)
      (m bound : ℕ) : Type 0 where
    pub calls : List Call
    pub reached : t ≡ run s calls
    pub few : length calls ≤ bound
    pub follows : Follows sse n es (log ++ all_stored s calls)
    pub place : m ≡ n + message_count es
    pub released : t.acknowledged ≤ m
    pub within : m ≤ length (log ++ all_stored s calls)

  AckWithin-le : (n m : ℕ) (c : Call) → n ≤ m → AckWithin n c → AckWithin m c
  AckWithin-le n m (acknowledges now q) le h = omega arith
  AckWithin-le n m _ le h = ground arith

  pub AcksWithin-le : (n m : ℕ) (cs : List Call) → n ≤ m → AcksWithin n cs → AcksWithin m cs
  AcksWithin-le n m [] le h = tt
  AcksWithin-le n m (c ∷ cs) le h = (AckWithin-le n m c le h.0, AcksWithin-le n m cs le h.1)

  pub AcksWithin-append :
      (n : ℕ) (cs ds : List Call) → AcksWithin n cs → AcksWithin n ds → AcksWithin n (cs ++ ds)
  AcksWithin-append n [] ds g h = h
  AcksWithin-append n (c ∷ cs) ds g h = (g.0, AcksWithin-append n cs ds g.1 h)

  -- What was sent of what had been stored after the first of the calls.
  Delivers-calls :
      (n bound : ℕ) (s : Session) (log : List Bytes) (cs ds : List Call) (t : Session)
      (es : List Event) (m : ℕ)
      → t ≡ run (run s cs) ds
      → s.acknowledged ≤ n
      → n ≤ length (log ++ all_stored s cs)
      → length cs + length ds ≤ bound
      → Follows sse n es (log ++ all_stored s cs)
      → m ≡ n + message_count es
      → AcksWithin m (cs ++ ds)
      → Delivers n s log t es m bound
  Delivers-calls n bound s log cs ds t es m at lo hi few f e acks =
      let more : log ++ all_stored s (cs ++ ds)
          ≡ (log ++ all_stored s cs) ++ all_stored (run s cs) ds =
        ap (λ x. log ++ x) (all_stored-append s cs ds)
        ∙ sym (append_assoc log (all_stored s cs) (all_stored (run s cs) ds)) in
      record {
        calls = cs ++ ds;
        reached = at ∙ sym (run-append s cs ds);
        few = rw (length-append cs ds) few;
        follows = rw more (Follows-extend sse n es _ _ f);
        place = e;
        released =
            rw (at, ← run-append s cs ds) (run-acknowledged m s (cs ++ ds) acks (omega arith));
        within =
            rw (more, length-append (log ++ all_stored s cs) (all_stored (run s cs) ds))
              (omega (arith, Follows-length sse n es _ f hi));
      }

  -- The calls that one round makes at most.
  abbrev pub weight : Round → ℕ
  weight r = length r.before + length r.between + length r.meanwhile + 2

  -- The other goroutines acknowledge nothing that the stream has not written.
  abbrev pub Considerate : ℕ → Round → ℕ → Session → Type 0
  Considerate limit r n s =
      AcksWithin n r.before
      × AcksWithin (stream_round sse limit r n s).after r.between
      × AcksWithin n r.meanwhile

  abbrev Goes : ℕ → Session → List Bytes → ℕ → Progress → Type 0
  Goes n s log bound p = Delivers n s log p.state p.sent p.after bound

  module _ (n : ℕ) (s : Session) (log : List Bytes) (r : Round) (lo : s.acknowledged ≤ n)
      (hi : n ≤ length (log ++ all_stored s r.before)) where
    -- A round that sends no message, up to one more call.
    idle_round :
        (after_wait : List Call) (t : Session) (es : List Event)
        → t ≡ run (run s r.before) (r.meanwhile ++ after_wait)
        → length after_wait ≤ 1
        → AcksWithin n after_wait
        → AcksWithin n (r.before ++ r.meanwhile)
        → message_count es ≡ 0
        → Follows sse n es (log ++ all_stored s r.before)
        → Delivers n s log t es n (weight r)
    idle_round after_wait t es at few acks others none_sent f =
        Delivers-calls n (weight r) s log r.before (r.meanwhile ++ after_wait) t es n at lo hi
          (omega (arith, length-append r.meanwhile after_wait)) f (omega arith)
          (rw (← append_assoc r.before r.meanwhile after_wait)
            (AcksWithin-append n (r.before ++ r.meanwhile) after_wait others acks))

    woken-Delivers :
        (w : Wakeup) (now : ℕ)
        → AcksWithin n (r.before ++ r.meanwhile)
        → Goes n s log (weight r) (woken sse w now n (run (run s r.before) r.meanwhile))
    unfolding run step
    woken-Delivers notified now acks =
        idle_round (takes_notice ∷ []) _ []
          (sym (run-append (run s r.before) r.meanwhile (takes_notice ∷ []))) (omega arith) (tt, tt)
          acks refl tt
    woken-Delivers request_done now acks =
        idle_round [] _ [] (sym (run-append (run s r.before) r.meanwhile [])) (omega arith) tt acks
          refl tt
    woken-Delivers session_done now acks =
        idle_round [] _ [] (sym (run-append (run s r.before) r.meanwhile [])) (omega arith) tt acks
          refl tt
    woken-Delivers (timer_fired false) now acks =
        idle_round [] _ [] (sym (run-append (run s r.before) r.meanwhile [])) (omega arith) tt acks
          refl tt
    woken-Delivers (timer_fired true) now acks =
        idle_round (touches now ∷ []) _ (Event.keepalive ∷ [])
          (sym (run-append (run s r.before) r.meanwhile (touches now ∷ []))) (omega arith) (tt, tt)
          acks refl tt

    flushed-Delivers :
        (w : Sent)
        → Follows sse n w.events (log ++ all_stored s r.before)
        → w.after ≡ n + message_count w.events
        → AcksWithin n r.before
        → AcksWithin w.after r.between
        → Goes n s log (weight r) (flushed sse r (run s r.before) w)
    unfolding run step
    flushed-Delivers w f place first others =
        let sent_acks = AcksWithin-le n w.after r.before (omega arith) first in
        elim (Bool-cases w.whole) [
          | inl whole ↦
              let last : List Call = acknowledges r.now w.after ∷ touches r.now ∷ [] in
              rw whole (
                Delivers-calls n (weight r) s log r.before (r.between ++ last) _ w.events w.after
                  (sym (run-append (run s r.before) r.between last)) lo hi
                  (omega (arith, length-append r.between last)) f place
                  (AcksWithin-append w.after r.before (r.between ++ last) sent_acks
                    (AcksWithin-append w.after r.between last others (omega arith, (tt, tt)))))
          | inr cut ↦ rw cut (
              Delivers-calls n (weight r) s log r.before [] _ w.events w.after refl lo hi
                (omega arith) f place (AcksWithin-append w.after r.before [] sent_acks tt))
        ]

  flushed-after : (r : Round) (s : Session) (w : Sent) → (flushed sse r s w).after ≡ w.after
  flushed-after r s w = elim (Bool-cases w.whole) [
    | inl whole ↦ rw whole refl
    | inr cut ↦ rw cut refl
  ]

  module _ (limit : ℕ) (pos : 0 < limit) where
    batch_read-Delivers :
        (n : ℕ) (s : Session) (log : List Bytes) (r : Round) (ms : List SequencedMessage) (last : ℕ)
        → s.acknowledged ≤ n
        → n ≤ length (log ++ all_stored s r.before)
        → Listed n ms (log ++ all_stored s r.before)
        → AcksWithin n r.before
        → AcksWithin (batch_read sse r n (run s r.before) (batch ms last)).after r.between
        → AcksWithin n r.meanwhile
        → Goes n s log (weight r) (batch_read sse r n (run s r.before) (batch ms last))
    batch_read-Delivers n s log r [] last lo hi l first second third =
        woken-Delivers n s log r lo hi r.wakeup r.now
          (AcksWithin-append n r.before r.meanwhile first third)
    batch_read-Delivers n s log r (m ∷ ms) last lo hi l first second third =
        let w = write_each sse r.writes n (m ∷ ms) in
        let sent =
          write_each-Follows sse r.writes n n (m ∷ ms) (log ++ all_stored s r.before) refl l in
        flushed-Delivers n s log r lo hi w sent.0 sent.1 first
          (subst (λ k. AcksWithin k r.between) (flushed-after r (run s r.before) w) second)

    pub stream_round-Delivers :
        (n : ℕ) (s : Session) (log : List Bytes) (r : Round)
        → IsSound s
        → Represents s log
        → s.acknowledged ≤ n
        → n ≤ length log
        → s.next_outbound + weight r < u64_mod
        → Considerate limit r n s
        → Goes n s log (weight r) (stream_round sse limit r n s)
    unfolding stream_round
    stream_round-Delivers n s log r v rep lo hi room polite =
        let log' = log ++ all_stored s r.before in
        let here : n ≤ length log' = omega (arith, length-append log (all_stored s r.before)) in
        let (ms, read, pay, numbered) =
          messages_after-stretch (run s r.before) log' n limit
            (run-IsSound s r.before v (omega arith))
            (run-Represents s log r.before v (omega arith) rep) pos
            (run-acknowledged n s r.before polite.0 lo) here in
        rw read (
          batch_read-Delivers n s log r ms (length log') lo here
            (batch-Listed limit n (n + length ms) ms log' numbered pay) polite.0
            (subst (λ b. AcksWithin (batch_read sse r n (run s r.before) b).after r.between) read
              polite.1)
            polite.2)
