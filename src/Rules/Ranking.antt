-- ===== src/Rules/Ranking.antt =====
-- recompile/re-rules/src/clustering.rs: the scores of clusters, and the heap that keeps the best ones.
-- What is read from the clock is the time since 1970 in seconds, if it is not before.
use Prim.Native.Nat.{Ordering}
use Prim.Native.Nat.Ordering.{lt, eq}
use recompile.Base.{
  ℕ, ◌-◌, Option, none, some, List, [], ◌∷◌, opt_map, unwrap_or, ltb, ◌==◌, if◌then◌else◌, length,
}
use recompile.Base.Order.{text_ord}
use recompile.Rules.Event.{Confidence, Severity}
use recompile.Rules.Outside.{Outside}

pub record ClusterScore (F : Type 0) : Type 0 where
  pub confidence : F
  pub severity_weight : F
  pub hit_count : ℕ
  pub recency : F

module _ (out : Outside) where
  unfoldable pub as_f64 : Confidence → out.F
  as_f64 Confidence.low = out.literal 4 1
  as_f64 Confidence.medium = out.literal 6 1
  as_f64 Confidence.high = out.literal 8 1
  as_f64 Confidence.certain = out.literal 95 2

  unfoldable pub get_severity_weight : Severity → out.F
  get_severity_weight Severity.critical = out.literal 40 1
  get_severity_weight Severity.high = out.literal 30 1
  get_severity_weight Severity.medium = out.literal 20 1
  get_severity_weight Severity.low = out.literal 10 1

  unfoldable pub recency_at : ℕ → ℕ → out.F
  recency_at now timestamp =
      let age_seconds = now - timestamp in
      if age_seconds == 0
      then out.literal 10 1
      else out.div (out.literal 10 1)
          (out.add (out.literal 10 1) (out.div (out.from_count age_seconds) (out.literal 36000 1)))

  -- Panics, which is `none`, on a clock before 1970.
  unfoldable pub calculate_recency : Option ℕ → ℕ → Option out.F
  unfolding recency_at
  calculate_recency clock timestamp = opt_map (λ now. recency_at now timestamp) clock

  abbrev pub score_of : ClusterScore out.F → out.F
  score_of score =
      out.add
        (out.add (out.mul score.confidence score.severity_weight)
          (out.mul (out.from_count score.hit_count) (out.literal 1 1)))
        score.recency

  -- `Ord` of `ClusterScore`
  unfoldable pub score_cmp : ClusterScore out.F → ClusterScore out.F → Ordering
  score_cmp a b = unwrap_or (out.partial_cmp (score_of a) (score_of b)) eq

  -- A score and those popped and left behind it: the lesser one comes first.
  unfoldable pub place :
      ClusterScore out.F
      → Option (ClusterScore out.F × List (ClusterScore out.F))
      → ClusterScore out.F × List (ClusterScore out.F)
  place score none = (score, [])
  place score (some (least, others)) = elim (score_cmp least score) [
    | lt ↦ (least, score ∷ others)
    | _ ↦ (score, least ∷ others)
  ]

  -- `heap.pop()` of a heap of reversed scores takes a least one: the score and the others.
  unfoldable pub pop_least :
      List (ClusterScore out.F) → Option (ClusterScore out.F × List (ClusterScore out.F))
  unfolding place
  pop_least [] = none
  pop_least (score ∷ scores) = some (place score (pop_least scores))

  -- Pushes a score, and pops one if there are now more than `top_k`.
  unfoldable pub push_score :
      ℕ → ClusterScore out.F → List (ClusterScore out.F) → List (ClusterScore out.F)
  unfolding pop_least
  push_score top_k score heap =
      if ltb top_k (length (score ∷ heap))
      then elim (pop_least (score ∷ heap)) [ none ↦ [] | some (least, others) ↦ others ]
      else score ∷ heap
