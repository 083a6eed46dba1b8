-- ===== src/History/Days.antt =====
-- server/history.go `dayData`: the measures of a day, of the connections and samples that the
-- database has of it.
use nvda_remote_go.Prelude.{
  ℕ, ◌<◌, ◌≡◌, ◌∙◌, Bytes, Bool, false, List, [], ◌∷◌, ◌&&◌, ◌||◌, not, is_empty, bytes_eq, arith,
  if◌then◌else◌,
}
use nvda_remote_go.History.Hours.{
  Floats, HistoryConnection, HistorySample, Metrics, Load, overlaps, add_connections, add_samples,
  concurrence, no_load, no_metrics,
}
use nvda_remote_go.History.Counted.{present_between, connections-add_connections}

pub record HistoryPeriod (F : Type 0) : Type 0 where
  pub key : Bytes
  pub label : Bytes
  pub start : ℕ
  pub finish : ℕ
  pub load : Load F
  pub unique_ips : List Bytes
  pub metrics : Metrics F
  pub average_concurrence : F

unfoldable pub has_ip : Bytes → List Bytes → Bool
has_ip ip [] = false
has_ip ip (x ∷ xs) = bytes_eq x ip || has_ip ip xs

module _ {F : Type 0} (floats : Floats F) (trim_space : Bytes → Bytes) where
  -- The addresses of the connections that are not blank, each once.
  unfoldable pub add_ips : ℕ → ℕ → List HistoryConnection → List Bytes → List Bytes
  add_ips start finish [] ips = ips
  add_ips start finish (c ∷ cs) ips = add_ips start finish cs (
      if overlaps floats start finish c && not (is_empty (trim_space c.ip)) && not (has_ip c.ip ips)
      then c.ip ∷ ips
      else ips)

  -- `dayData` once it has the connections and the samples.
  unfoldable pub day_period :
      Bytes → Bytes → ℕ → ℕ → ℕ → List HistoryConnection → List (HistorySample F) → HistoryPeriod F
  day_period key label start finish now cs ss =
      let load = add_connections floats start finish cs (no_load floats) in
      record {
        key = key;
        label = label;
        start = start;
        finish = finish;
        load = load;
        unique_ips = add_ips start finish cs [];
        metrics = add_samples floats ss (no_metrics floats);
        average_concurrence = concurrence floats start finish now load.duration_seconds;
      }

  -- The connections of a day are those that were there for some time in it.
  pub connections-day_period :
      (key label : Bytes) (start finish now : ℕ) (cs : List HistoryConnection)
      (ss : List (HistorySample F))
      → start < finish
      → (day_period key label start finish now cs ss).load.connections
        ≡ present_between floats start finish cs
  unfolding day_period
  connections-day_period key label start finish now cs ss h =
      connections-add_connections floats start finish cs (no_load floats) h ∙ omega arith
