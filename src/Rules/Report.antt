-- ===== src/Rules/Report.antt =====
-- recompile/re-rules/src/clustering.rs: what a cluster manager tells of its clusters. The clock is read
-- anew in each comparison of two findings, twice.
pub mod Totals
use Prim.Native.Nat.{Ordering}
use Prim.Native.Nat.Ordering.{eq}
use recompile.Base.{
  ℕ, zero, suc, ◌+◌, ◌++◌, ◌&&◌, Bool, Option, none, some, List, [], ◌∷◌, Text, map, unwrap_or,
  opt_map, leb, ltb, ◌==◌, ◌>>=◌, find, if◌then◌else◌, length, head?,
}
use recompile.Base.Order.{nat_ord, text_ord}
use recompile.Base.Dict.{Dict}
use recompile.Base.Tally.{bump}
use recompile.Rules.Event.{Finding}
use recompile.Rules.Outside.{Outside}
use recompile.Rules.Registry.{class_number}
use recompile.Rules.Ranking.{
  ClusterScore, pop_least, as_f64, get_severity_weight, calculate_recency,
}
use recompile.Rules.Clusters.{Cluster, ClusterManager}

pub record ClusteringStats (F : Type 0) : Type 0 where
  pub total_clusters : ℕ
  pub total_findings : ℕ
  pub average_confidence : F
  pub findings_by_class : Dict ℕ ℕ
  pub top_k_available : ℕ

-- `self.clusters.values()`
abbrev pub all_findings : {F : Type 0} → List (Text × Cluster F) → List Finding
all_findings [] = []
all_findings ((id, cluster) ∷ entries) = cluster.findings ++ all_findings entries

module _ (out : Outside) where
  -- The findings of the first cluster with the confidence and the hits of a score, if there is one.
  findings_at : List (Text × Cluster out.F) → ClusterScore out.F → List Finding
  findings_at entries score =
      elim (find
        (λ e. out.equal e.1.max_confidence score.confidence && e.1.hit_count == score.hit_count)
        entries) [ none ↦ [] | some (_, cluster) ↦ cluster.findings ]

  -- The loop that empties the heap, on the number of its scores.
  pop_findings :
      ℕ → ℕ → List (Text × Cluster out.F) → List (ClusterScore out.F) → List Finding → List Finding
  unfolding findings_at pop_least
  pop_findings zero top_k entries heap results = results
  pop_findings (suc n) top_k entries heap results = elim (pop_least out heap) [
    | none ↦ results
    | some (score, heap') ↦
        let results' = results ++ findings_at entries score in
        let rest = pop_findings n top_k entries heap' results' in
        if leb top_k (length results') then results' else rest
  ]

  unfoldable pub get_top_k_findings : ClusterManager out.F → List Finding
  unfolding pop_findings
  get_top_k_findings manager =
      pop_findings (length manager.top_k_heap) manager.config.top_k
        (out.iterate (Cluster out.F) manager.clusters) manager.top_k_heap []

  unfoldable pub finding_score : Option ℕ → Finding → Option out.F
  unfolding as_f64 get_severity_weight calculate_recency
  finding_score clock f =
      opt_map
        (λ recency.
          out.add (out.mul (as_f64 out f.confidence) (get_severity_weight out f.severity)) recency)
        (calculate_recency out clock f.timestamp)

  -- One comparison, with what it reads from the clock for either finding.
  unfoldable pub by_score : Option ℕ × Option ℕ → Finding → Finding → Option Ordering
  unfolding finding_score
  by_score clocks a b = do
    a_score ← finding_score clocks.0 a
    b_score ← finding_score clocks.1 b
    some (unwrap_or (out.partial_cmp b_score a_score) eq)

  -- The n-th comparison reads `clocks n`.
  unfoldable pub get_all_findings :
      ClusterManager out.F → (ℕ → Option ℕ × Option ℕ) → Option (List Finding)
  unfolding by_score
  get_all_findings manager clocks =
      out.sort_by Finding (λ n. by_score (clocks n))
        (all_findings (out.iterate (Cluster out.F) manager.clusters))

  -- The loop over the clusters: the counts by class, the confidences and the findings so far.
  stats_from : List (Text × Cluster out.F) → Dict ℕ ℕ → out.F → ℕ → Option (Dict ℕ ℕ × out.F × ℕ)
  stats_from [] class_counts total_confidence total_findings =
      some (class_counts, total_confidence, total_findings)
  stats_from ((id, cluster) ∷ entries) class_counts total_confidence total_findings = do
    first ← head? cluster.findings
    stats_from entries (bump (class_number first.class) 1 class_counts)
        (out.add total_confidence cluster.confidence_sum) (total_findings + length cluster.findings)

  unfoldable pub get_stats : ClusterManager out.F → Option (ClusteringStats out.F)
  unfolding stats_from
  get_stats manager = do
    (class_counts, total_confidence, total_findings) ←
        stats_from (out.iterate (Cluster out.F) manager.clusters) [] (out.literal 0 1) 0
    some (record {
      total_clusters = length manager.clusters;
      total_findings = total_findings;
      average_confidence =
          if ltb 0 total_findings
          then out.div total_confidence (out.from_count total_findings)
          else out.literal 0 1;
      findings_by_class = class_counts;
      top_k_available = length manager.top_k_heap;
    })
