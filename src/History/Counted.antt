-- ===== src/History/Counted.antt =====
-- server/history.go: what the hours of a day count.
use nvda_remote_go.Prelude.{
  ℕ, zero, suc, ◌+◌, ◌≡◌, ◌≤◌, ◌<◌, sym, refl, ap, ◌∙◌, Bool, Option, none, some, List, [], ◌∷◌,
  not, ◌&&◌, arith, ltb, if◌then◌else◌,
}
use nvda_remote_go.History.Hours.{
  Floats, HistoryMetric, HistoryConnection, HistorySample, Metrics, Load, HistoryHour, add_metric,
  no_metrics, add_sample, add_connection, add_connections, add_samples_of, no_load, hour,
  build_hour, build_hours_from, build_history_hours,
}

abbrev is_measured {ℓ} : {A : Type ℓ} → Option A → ℕ
is_measured none = 0
is_measured (some x) = 1

abbrev one_if : Bool → ℕ
one_if b = if b then 1 else 0

zero_after : (i : ℕ) → i + 0 ≡ i
zero_after i = omega arith

suc_after : (i n : ℕ) → i + suc n ≡ i + 1 + n
suc_after i n = omega arith

module _ {F : Type 0} (floats : Floats F) where
  -- How many of the samples measured the machine between two times.
  unfoldable pub measured_between : ℕ → ℕ → List (HistorySample F) → ℕ
  measured_between start finish [] = 0
  measured_between start finish (s ∷ ss) =
      (if not (ltb s.at_time start) && ltb s.at_time finish then is_measured s.system_cpu else 0)
      + measured_between start finish ss

  count-add_metric :
      (o : Option F) (m : HistoryMetric F) → (add_metric floats o m).count ≡ is_measured o + m.count
  unfolding add_metric
  count-add_metric none m = omega arith
  count-add_metric (some x) m = omega arith

  count-add_samples_of :
      (start finish : ℕ) (ss : List (HistorySample F)) (m : Metrics F)
      → (add_samples_of floats start finish ss m).system_cpu.count
        ≡ measured_between start finish ss + m.system_cpu.count
  unfolding add_samples_of measured_between add_sample
  count-add_samples_of start finish [] m = omega arith
  count-add_samples_of start finish (s ∷ ss) m = ground (
    arith,
    count-add_samples_of start finish ss m,
    count-add_samples_of start finish ss (add_sample floats s m),
    count-add_metric s.system_cpu m.system_cpu,
  )

  -- How many connections there were for some time in the hour.
  unfoldable pub present_between : ℕ → ℕ → List HistoryConnection → ℕ
  present_between start finish [] = 0
  present_between start finish (c ∷ cs) =
      (if ltb c.started finish && ltb start c.ended && ltb c.started c.ended then 1 else 0)
      + present_between start finish cs

  pub connections-add_connections :
      (start finish : ℕ) (cs : List HistoryConnection) (l : Load F)
      → start < finish
      → (add_connections floats start finish cs l).connections
        ≡ present_between start finish cs + l.connections
  unfolding add_connections add_connection present_between
  connections-add_connections start finish [] l h = omega arith
  connections-add_connections start finish (c ∷ cs) l h = ground (
    arith,
    h,
    connections-add_connections start finish cs (add_connection floats start finish c l) h,
  )

  -- The active connections of an hour are those that were there for some time in it.
  pub connections-build_hour :
      (cs : List HistoryConnection) (ss : List (HistorySample F)) (now start : ℕ)
      → (build_hour floats cs ss now start).load.connections
        ≡ present_between start (start + hour) cs
  unfolding build_hour
  connections-build_hour cs ss now start =
      connections-add_connections start (start + hour) cs (no_load floats) (omega arith)
      ∙ omega arith

  -- What the hours count, together.
  unfoldable pub counted : List (HistoryHour F) → ℕ
  counted [] = 0
  counted (h ∷ hs) = h.metrics.system_cpu.count + counted hs

  between_split :
      (a b c : ℕ) (ss : List (HistorySample F))
      → a ≤ b
      → b ≤ c
      → measured_between a b ss + measured_between b c ss ≡ measured_between a c ss
  unfolding measured_between
  between_split a b c [] u v = refl
  between_split a b c (s ∷ ss) u v = ground (arith, u, v, between_split a b c ss u v)

  between_none : (a : ℕ) (ss : List (HistorySample F)) → measured_between a a ss ≡ 0
  unfolding measured_between
  between_none a [] = refl
  between_none a (s ∷ ss) = ground (arith, between_none a ss)

  build_hour-count :
      (cs : List HistoryConnection) (ss : List (HistorySample F)) (now start : ℕ)
      → (build_hour floats cs ss now start).metrics.system_cpu.count
        ≡ measured_between start (start + hour) ss
  unfolding build_hour
  build_hour-count cs ss now start =
      count-add_samples_of start (start + hour) ss (no_metrics floats) ∙ omega arith

  module _ (date : ℕ → ℕ) (follows : (i : ℕ) → date (i + 1) ≡ date i + hour) where
    increases : (n i : ℕ) → date i ≤ date (i + n)
    increases zero i = rw (zero_after i) (omega arith)
    increases (suc n) i =
        let later = increases n (i + 1) in let next = follows i in rw (suc_after i n) (omega arith)

    counted-build_hours_from :
        (n i : ℕ) (cs : List HistoryConnection) (ss : List (HistorySample F)) (now : ℕ)
        → counted (build_hours_from floats n i date cs ss now)
          ≡ measured_between (date i) (date (i + n)) ss
    unfolding build_hours_from counted
    counted-build_hours_from zero i cs ss now = rw (zero_after i) (sym (between_none (date i) ss))
    counted-build_hours_from (suc n) i cs ss now =
        let head = build_hour-count cs ss now (date i) in
        let tail = counted-build_hours_from n (i + 1) cs ss now in
        let next = follows i in
        let later = increases n (i + 1) in
        let split =
          between_split (date i) (date (i + 1)) (date (i + 1 + n)) ss (omega arith) later in
        let until = ap (λ e. measured_between (date i) e ss) next in
        rw (suc_after i n) (ground (arith, head, tail, split, until))

    -- Where the hours of a day follow one another, they count each measure of the processor that was
    -- taken in the day, once.
    pub counted-build_history_hours :
        (cs : List HistoryConnection) (ss : List (HistorySample F)) (now : ℕ)
        → counted (build_history_hours floats date cs ss now)
          ≡ measured_between (date 0) (date 24) ss
    unfolding build_history_hours
    counted-build_history_hours cs ss now = counted-build_hours_from 24 0 cs ss now
