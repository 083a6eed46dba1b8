-- ===== src/Relay/Streams.antt =====
-- What a stream sends over all its rounds: server/httprelay_v2.go `handleHTTPSessionStream`.
use nvda_remote_go.Prelude.{
  ℕ, ◌+◌, ◌≤◌, ◌<◌, ◌≡◌, refl, sym, ap, ◌∙◌, subst, Bytes, List, [], ◌∷◌, ◌++◌, arith, length,
  append_assoc, append-nil, length-append, Bool-cases, inl, inr,
}
use nvda_remote_go.Session.State.{Session, u64_mod}
use nvda_remote_go.Session.History.{Call, step, run, all_stored}
use nvda_remote_go.Session.Invariant.{IsSound, run-IsSound, next_outbound-step}
use nvda_remote_go.Session.Stream.{Represents, run-Represents}
use nvda_remote_go.Relay.Fetch.{run-append, all_stored-append}
use nvda_remote_go.Relay.Stream.{Sse, Event, Round, stream_round, stream_loop}
use nvda_remote_go.Relay.Follows.{message_count-append, Follows-append, Follows-extend}
use nvda_remote_go.Relay.Streaming.{Delivers, weight, Considerate, stream_round-Delivers}

pub next_outbound-run :
    (s : Session) (cs : List Call)
    → s.next_outbound + length cs < u64_mod
    → (run s cs).next_outbound ≤ s.next_outbound + length cs
unfolding run
next_outbound-run s [] h = omega arith
next_outbound-run s (c ∷ cs) h =
    let now = next_outbound-step s c (omega arith) in
    omega (arith, now, next_outbound-run (step s c) cs (omega (arith, now)))

module _ (sse : Sse) where
  Delivers-le :
      (n : ℕ) (s : Session) (log : List Bytes) (t : Session) (es : List Event) (m b c : ℕ)
      → b ≤ c
      → Delivers sse n s log t es m b
      → Delivers sse n s log t es m c
  Delivers-le n s log t es m b c le d = record {
    calls = d.calls;
    reached = d.reached;
    few = omega (arith, d.few);
    follows = d.follows;
    place = d.place;
    released = d.released;
    within = d.within;
  }

  Delivers-trans :
      (n : ℕ) (s : Session) (log : List Bytes) (t : Session) (es : List Event) (m b : ℕ)
      (u : Session) (fs : List Event) (k c : ℕ) (d : Delivers sse n s log t es m b)
      → Delivers sse m t (log ++ all_stored s d.calls) u fs k c
      → Delivers sse n s log u (es ++ fs) k (b + c)
  Delivers-trans n s log t es m b u fs k c d e =
      let t_is = d.reached in
      let more : log ++ all_stored s (d.calls ++ e.calls)
          ≡ (log ++ all_stored s d.calls) ++ all_stored t e.calls =
        ap (λ x. log ++ x) (all_stored-append s d.calls e.calls)
        ∙ sym (append_assoc log (all_stored s d.calls) (all_stored (run s d.calls) e.calls))
        ∙ ap (λ x. (log ++ all_stored s d.calls) ++ all_stored x e.calls) (sym t_is) in
      record {
        calls = d.calls ++ e.calls;
        reached = e.reached ∙ ap (λ x. run x e.calls) t_is ∙ sym (run-append s d.calls e.calls);
        few = omega (arith, length-append d.calls e.calls, d.few, e.few);
        follows = rw more (
            Follows-append sse n m es fs _ d.place (Follows-extend sse n es _ _ d.follows)
              e.follows);
        place = omega (arith, message_count-append es fs, d.place, e.place);
        released = e.released;
        within = rw more e.within;
      }

  abbrev pub weights : List Round → ℕ
  weights [] = 0
  weights (r ∷ rs) = weight sse r + weights rs

  abbrev pub AllConsiderate : ℕ → List Round → ℕ → Session → Type 0
  AllConsiderate limit [] n s = Unit {0}
  AllConsiderate limit (r ∷ rs) n s =
      Considerate sse limit r n s
      × AllConsiderate limit rs (stream_round sse limit r n s).after
          (stream_round sse limit r n s).state

  pub stream_loop-Delivers :
      (limit : ℕ) (rs : List Round) (n : ℕ) (s : Session) (log : List Bytes)
      → 0 < limit
      → IsSound s
      → Represents s log
      → s.acknowledged ≤ n
      → n ≤ length log
      → s.next_outbound + weights rs < u64_mod
      → AllConsiderate limit rs n s
      → (m : ℕ) × Delivers sse n s log
          (stream_loop sse limit rs n s).0
          (stream_loop sse limit rs n s).1
          m
          (weights rs)
  unfolding stream_loop run all_stored
  stream_loop-Delivers limit [] n s log pos v rep lo hi room polite = (
    n,
    record {
      calls = [];
      reached = refl;
      few = omega arith;
      follows = tt;
      place = omega arith;
      released = lo;
      within = rw append-nil hi;
    },
  )
  stream_loop-Delivers limit (r ∷ rs) n s log pos v rep lo hi room polite =
      let p = stream_round sse limit r n s in
      let d = stream_round-Delivers sse limit pos n s log r v rep lo hi (omega arith) polite.0 in
      elim (Bool-cases p.goes_on) [
        | inl more ↦
            let (m, e) =
              stream_loop-Delivers limit rs p.after p.state (log ++ all_stored s d.calls) pos
                (subst IsSound (sym d.reached) (run-IsSound s d.calls v (omega (arith, d.few))))
                (subst (λ t. Represents t (log ++ all_stored s d.calls)) (sym d.reached)
                  (run-Represents s log d.calls v (omega (arith, d.few)) rep))
                d.released d.within
                (rw d.reached
                  (omega (arith, d.few, next_outbound-run s d.calls (omega (arith, d.few)))))
                polite.1 in
            (
              m,
              rw more (
                  Delivers-trans n s log p.state p.sent p.after (weight sse r) _ _ m (weights rs) d
                    e),
            )
        | inr done ↦ (
          p.after,
          rw done (
              Delivers-le n s log p.state p.sent p.after (weight sse r) (weight sse r + weights rs)
                (omega arith) d),
        )
      ]
