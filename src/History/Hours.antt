-- ===== src/History/Hours.antt =====
-- server/history.go: the measures of a day and of its hours. The numbers of `float64` are a
-- parameter, `F`, with the operations that the code uses; times are nanoseconds in UTC.
use nvda_remote_go.Prelude.{
  ℕ, zero, suc, ◌+◌, ◌-◌, Bytes, Bool, Option, none, some, List, [], ◌∷◌, not, ◌&&◌, ◌||◌, ◌==◌,
  ltb, if◌then◌else◌,
}

pub record Floats (F : Type 0) : Type 0 where
  pub zero_float : F
  pub plus : F → F → F
  pub over : F → F → F
  pub is_over : F → F → Bool
  pub of_count : ℕ → F
  pub seconds : ℕ → F

pub record HistoryMetric (F : Type 0) : Type 0 where
  pub sum : F
  pub max : F
  pub count : ℕ

pub record HistoryConnection : Type 0 where
  pub ip : Bytes
  pub started : ℕ
  pub ended : ℕ

-- A value that was not measured is `none`.
pub record HistorySample (F : Type 0) : Type 0 where
  pub at_time : ℕ
  pub system_cpu : Option F
  pub process_cpu : Option F
  pub memory_used : Option F
  pub process_memory : Option F

-- The four metrics of a period.
pub record Metrics (F : Type 0) : Type 0 where
  pub system_cpu : HistoryMetric F
  pub process_cpu : HistoryMetric F
  pub memory_used : HistoryMetric F
  pub process_memory : HistoryMetric F

-- The connections of a period.
pub record Load (F : Type 0) : Type 0 where
  pub connections : ℕ
  pub duration_seconds : F

pub record HistoryHour (F : Type 0) : Type 0 where
  pub start : ℕ
  pub finish : ℕ
  pub load : Load F
  pub metrics : Metrics F
  pub average_concurrence : F

abbrev pub hour : ℕ
hour = 3600000000000

module _ {F : Type 0} (floats : Floats F) where
  abbrev pub no_metric : HistoryMetric F
  no_metric = record { sum = floats.zero_float; max = floats.zero_float; count = 0 }

  unfoldable pub add_metric : Option F → HistoryMetric F → HistoryMetric F
  add_metric none m = m
  add_metric (some value) m = record {
    sum = floats.plus m.sum value;
    max = if m.count == 0 || floats.is_over value m.max then value else m.max;
    count = m.count + 1;
  }

  unfoldable pub average : HistoryMetric F → F
  average m =
      if m.count == 0 then floats.zero_float else floats.over m.sum (floats.of_count m.count)

  abbrev pub no_metrics : Metrics F
  no_metrics = record {
    system_cpu = no_metric;
    process_cpu = no_metric;
    memory_used = no_metric;
    process_memory = no_metric;
  }

  unfoldable pub add_sample : HistorySample F → Metrics F → Metrics F
  add_sample s m = record {
    system_cpu = add_metric s.system_cpu m.system_cpu;
    process_cpu = add_metric s.process_cpu m.process_cpu;
    memory_used = add_metric s.memory_used m.memory_used;
    process_memory = add_metric s.process_memory m.process_memory;
  }

  -- The later and the earlier of two times, as the code chooses.
  abbrev pub clip_from : ℕ → ℕ → ℕ
  clip_from start t = if ltb t start then start else t

  abbrev pub clip_to : ℕ → ℕ → ℕ
  clip_to finish t = if ltb finish t then finish else t

  abbrev pub overlap_from : ℕ → HistoryConnection → ℕ
  overlap_from start c = clip_from start c.started

  abbrev pub overlap_to : ℕ → HistoryConnection → ℕ
  overlap_to finish c = clip_to finish c.ended

  abbrev pub overlaps : ℕ → ℕ → HistoryConnection → Bool
  overlaps start finish c = ltb (overlap_from start c) (overlap_to finish c)

  unfoldable pub add_connection : ℕ → ℕ → HistoryConnection → Load F → Load F
  add_connection start finish c l =
      if overlaps start finish c
      then record {
        connections = l.connections + 1;
        duration_seconds =
            floats.plus l.duration_seconds
              (floats.seconds (overlap_to finish c - overlap_from start c));
      }
      else l

  unfoldable pub add_connections : ℕ → ℕ → List HistoryConnection → Load F → Load F
  add_connections start finish [] l = l
  add_connections start finish (c ∷ cs) l =
      add_connections start finish cs (add_connection start finish c l)

  -- Every sample, as `dayData` takes those that it has loaded.
  unfoldable pub add_samples : List (HistorySample F) → Metrics F → Metrics F
  add_samples [] m = m
  add_samples (s ∷ ss) m = add_samples ss (add_sample s m)

  abbrev pub is_in_hour : ℕ → ℕ → HistorySample F → Bool
  is_in_hour start finish s = not (ltb s.at_time start) && ltb s.at_time finish

  -- The samples that are within the hour.
  unfoldable pub add_samples_of : ℕ → ℕ → List (HistorySample F) → Metrics F → Metrics F
  add_samples_of start finish [] m = m
  add_samples_of start finish (s ∷ ss) m =
      add_samples_of start finish ss (if is_in_hour start finish s then add_sample s m else m)

  -- The average of a period that has begun, up to its end or to now.
  unfoldable pub concurrence : ℕ → ℕ → ℕ → F → F
  concurrence start finish now duration =
      let until = if ltb now finish then now else finish in
      if ltb start until
      then floats.over duration (floats.seconds (until - start))
      else floats.zero_float

  abbrev pub no_load : Load F
  no_load = record { connections = 0; duration_seconds = floats.zero_float }

  unfoldable pub build_hour :
      List HistoryConnection → List (HistorySample F) → ℕ → ℕ → HistoryHour F
  build_hour cs ss now start =
      let load = add_connections start (start + hour) cs no_load in
      record {
        start = start;
        finish = start + hour;
        load = load;
        metrics = add_samples_of start (start + hour) ss no_metrics;
        average_concurrence = concurrence start (start + hour) now load.duration_seconds;
      }

  -- `date` is `time.Date` for an hour of the day.
  unfoldable pub build_hours_from :
      ℕ → ℕ → (ℕ → ℕ) → List HistoryConnection → List (HistorySample F) → ℕ → List (HistoryHour F)
  build_hours_from zero i date cs ss now = []
  build_hours_from (suc n) i date cs ss now =
      build_hour cs ss now (date i) ∷ build_hours_from n (i + 1) date cs ss now

  unfoldable pub build_history_hours :
      (ℕ → ℕ) → List HistoryConnection → List (HistorySample F) → ℕ → List (HistoryHour F)
  unfolding build_hours_from
  build_history_hours date cs ss now = build_hours_from 24 0 date cs ss now
