-- ===== src/Rules/Clusters.antt =====
-- recompile/re-rules/src/clustering.rs: `ClusterManager`, which merges findings whose fingerprints are
-- alike and ranks the clusters. A panic, on a cluster without findings or a clock before 1970, is `none`.
-- What is read from the clock is the time since 1970 in seconds, if it is not before.

pub mod Limits
pub mod Valid
pub mod Merging
use Prim.Native.Nat.{Ordering}
use Prim.Native.Nat.Ordering.{lt, eq, gt}
use recompile.Base.{
  ℕ, zero, suc, ◌+◌, ◌-◌, ◌%◌, ◌^◌, ◌++◌, ◌&&◌, Bool, Option, none, some, List, [], ◌∷◌, Text,
  codes, map, unwrap_or, ◌>>=◌, opt_map, find, leb, ltb, ◌==◌, if◌then◌else◌, length, head?,
}
use recompile.Base.Order.{text_ord}
use recompile.Base.Dict.{Dict, get, alter}
use recompile.Base.Removal.{remove}
use recompile.Base.Sets.{Set, insert}
use recompile.Base.Sort.{sort_by}
use recompile.Base.Decimal.{decimal}
use recompile.Base.Hex.{lower_hex}
use recompile.Rules.Event.{Finding, SentinelEvent, Confidence, Severity, AnomalyClass}
use recompile.Rules.Outside.{Outside}
use recompile.Rules.Config.{put}
use recompile.Rules.Registry.{class_number}
use recompile.Rules.Ranking.{
  ClusterScore, as_f64, get_severity_weight, calculate_recency, push_score,
}
use recompile.Rules.Likeness.{calculate_similarity, generate_fingerprint}

pub record Cluster (F : Type 0) : Type 0 where
  pub id : Text
  pub fingerprint : Text
  pub findings : List Finding
  pub hit_count : ℕ
  pub first_seen : ℕ
  pub last_seen : ℕ
  pub confidence_sum : F
  pub max_confidence : F
  pub related_clusters : Set Text

pub record ClusteringConfig (F : Type 0) : Type 0 where
  pub window_s : F
  pub max_clusters : ℕ
  pub top_k : ℕ
  pub confidence_merge_threshold : F
  pub similarity_threshold : F

pub record ClusterManager (F : Type 0) : Type 0 where
  pub clusters : Dict Text (Cluster F)
  pub config : ClusteringConfig F
  pub top_k_heap : List (ClusterScore F)

unfoldable pub new_manager : {F : Type 0} → ClusteringConfig F → ClusterManager F
new_manager config = record { clusters = []; config = config; top_k_heap = [] }

unfoldable pub cluster_id_of : Finding → Text
cluster_id_of finding =
    codes "C-" ++ decimal (class_number finding.class) ++ codes "-" ++ lower_hex 8 finding.timestamp

abbrev pub last_of : List SentinelEvent → Option SentinelEvent
last_of [] = none
last_of (e ∷ es) = elim (last_of es) [ none ↦ some e | some l ↦ some l ]

module _ (out : Outside) where
  unfoldable pub find_similar_cluster : ClusterManager out.F → Text → Option Text
  find_similar_cluster manager fingerprint =
      opt_map (λ e. e.0)
        (find
          (λ e.
            out.at_least (calculate_similarity out fingerprint e.1.fingerprint)
              manager.config.similarity_threshold)
          (out.iterate (Cluster out.F) manager.clusters))

  unfoldable pub new_cluster : Finding → Text → List SentinelEvent → Cluster out.F
  unfolding cluster_id_of as_f64
  new_cluster finding fingerprint events = record {
    id = cluster_id_of finding;
    fingerprint = fingerprint;
    findings = finding ∷ [];
    hit_count = 1;
    first_seen = unwrap_or (opt_map (λ e. e.ts_ns) (head? events)) 0;
    last_seen = unwrap_or (opt_map (λ e. e.ts_ns) (last_of events)) 0;
    confidence_sum = as_f64 out finding.confidence;
    max_confidence = as_f64 out finding.confidence;
    related_clusters = [];
  }

  unfoldable pub create_new_cluster :
      ClusterManager out.F → Finding → Text → List SentinelEvent → ClusterManager out.F × Text
  unfolding cluster_id_of
  create_new_cluster manager finding fingerprint events =
      let cluster_id = cluster_id_of finding in
      (
        record manager {
          clusters = put cluster_id (new_cluster finding fingerprint events) manager.clusters;
        },
        cluster_id,
      )

  unfoldable pub boosted : out.F → Confidence
  boosted boosted_confidence =
      if out.at_least boosted_confidence (out.literal 9 1)
      then Confidence.certain
      else if out.at_least boosted_confidence (out.literal 7 1)
      then Confidence.high
      else if out.at_least boosted_confidence (out.literal 5 1)
      then Confidence.medium
      else Confidence.low

  -- `create_merged_finding_from_cluster_static`
  unfoldable pub create_merged_finding : Cluster out.F → Finding → Finding
  unfolding boosted as_f64
  create_merged_finding cluster new_finding =
      let avg_confidence = out.div cluster.confidence_sum (out.from_count cluster.hit_count) in
      record new_finding {
        confidence = boosted (
            out.div (out.add avg_confidence (as_f64 out new_finding.confidence))
              (out.literal 20 1));
        related = new_finding.related ++ map (λ f. f.id) cluster.findings;
      }

  -- Counts a further finding of the cluster.
  abbrev pub hit : Cluster out.F → Finding → Cluster out.F
  hit cluster finding = record cluster {
    hit_count = (cluster.hit_count + 1) % 2 ^ 32;
    last_seen = finding.timestamp;
    confidence_sum = out.add cluster.confidence_sum (as_f64 out finding.confidence);
    max_confidence = out.larger cluster.max_confidence (as_f64 out finding.confidence);
  }

  -- The cluster with the findings `first ∷ others` that takes a finding in, and the merged finding
  -- if the new one is more certain than the first.
  unfoldable pub merge_at :
      Cluster out.F → Finding → Finding → List Finding → Cluster out.F × Option Finding
  unfolding create_merged_finding as_f64
  merge_at cluster finding first others =
      let merged_finding = create_merged_finding (hit cluster finding) finding in
      if out.exceeds (as_f64 out finding.confidence) (as_f64 out first.confidence)
      then (
        record (hit cluster finding) { findings = merged_finding ∷ others },
        some merged_finding,
      )
      else (
        record (hit cluster finding) {
          findings = (record first { related = first.related ++ finding.id ∷ [] }) ∷ others;
        },
        none,
      )

  unfoldable pub merge :
      Cluster out.F → Finding → List Finding → Option (Cluster out.F × Option Finding)
  unfolding merge_at
  merge cluster finding [] = none
  merge cluster finding (first ∷ others) = some (merge_at cluster finding first others)

  -- Merges into the cluster that was found under an id, if there is one.
  unfoldable pub merge_found :
      ClusterManager out.F
      → Text
      → Finding
      → Option (Cluster out.F)
      → Option (ClusterManager out.F × Option Finding)
  unfolding merge
  merge_found manager cluster_id finding none = some (manager, none)
  merge_found manager cluster_id finding (some cluster) = do
    (cluster', merged) ← merge cluster finding cluster.findings
    some (record manager { clusters = put cluster_id cluster' manager.clusters }, merged)

  unfoldable pub merge_into_cluster :
      ClusterManager out.F → Text → Finding → Option (ClusterManager out.F × Option Finding)
  unfolding merge_found
  merge_into_cluster manager cluster_id finding =
      merge_found manager cluster_id finding (get cluster_id manager.clusters)

  -- The first entry whose cluster was first seen before all others.
  unfoldable pub oldest : List (Text × Cluster out.F) → Option (Text × Cluster out.F)
  oldest [] = none
  oldest (entry ∷ entries) = elim (oldest entries) [
    | none ↦ some entry
    | some best ↦ some (if leb entry.1.first_seen best.1.first_seen then entry else best)
  ]

  unfoldable pub without :
      ClusterManager out.F → Option (Text × Cluster out.F) → ClusterManager out.F
  without manager none = manager
  without manager (some (id, cluster)) = record manager { clusters = remove id manager.clusters }

  unfoldable pub evict_oldest_cluster : ClusterManager out.F → ClusterManager out.F
  unfolding without oldest
  evict_oldest_cluster manager =
      without manager (oldest (out.iterate (Cluster out.F) manager.clusters))

  -- Ranks the cluster that was found under an id, if there is one.
  unfoldable pub rank :
      ClusterManager out.F → Option (Cluster out.F) → Option ℕ → Option (ClusterManager out.F)
  unfolding get_severity_weight calculate_recency push_score
  rank manager none clock = some manager
  rank manager (some cluster) clock = do
    first ← head? cluster.findings
    recency ← calculate_recency out clock cluster.last_seen
    let score : ClusterScore out.F = record {
      confidence = cluster.max_confidence;
      severity_weight = get_severity_weight out first.severity;
      hit_count = cluster.hit_count;
      recency = recency;
    }
    some (record manager {
      top_k_heap = push_score out manager.config.top_k score manager.top_k_heap;
    })

  unfoldable pub update_top_k_heap :
      ClusterManager out.F → Text → Option ℕ → Option (ClusterManager out.F)
  unfolding rank
  update_top_k_heap manager cluster_id clock = rank manager (get cluster_id manager.clusters) clock

  -- What follows the creation of a cluster: the limit on their number, and the ranking.
  unfoldable pub settle_cluster :
      ClusterManager out.F → Text → Option ℕ → Option (ClusterManager out.F × Option Finding)
  unfolding evict_oldest_cluster update_top_k_heap
  settle_cluster manager cluster_id clock = do
    let limited =
        if ltb manager.config.max_clusters (length manager.clusters)
        then evict_oldest_cluster manager
        else manager
    ranked ← update_top_k_heap limited cluster_id clock
    some (ranked, none)

  -- Adds a finding when the id of a similar cluster is known, if there is one.
  unfoldable pub add_to :
      Option Text
      → ClusterManager out.F
      → Finding
      → List SentinelEvent
      → Option ℕ
      → Option (ClusterManager out.F × Option Finding)
  unfolding merge_into_cluster create_new_cluster settle_cluster
  add_to (some cluster_id) manager finding events clock =
      merge_into_cluster manager cluster_id finding
  add_to none manager finding events clock =
      let (manager', cluster_id) =
        create_new_cluster manager finding (generate_fingerprint finding) events in
      settle_cluster manager' cluster_id clock

  unfoldable pub add_finding :
      ClusterManager out.F
      → Finding
      → List SentinelEvent
      → Option ℕ
      → Option (ClusterManager out.F × Option Finding)
  unfolding add_to find_similar_cluster
  add_finding manager finding events clock =
      add_to (find_similar_cluster manager (generate_fingerprint finding)) manager finding events
        clock
