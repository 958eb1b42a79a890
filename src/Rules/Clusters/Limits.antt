-- ===== src/Rules/Clusters/Limits.antt =====
-- The limits on the ranked scores and on the clusters.
use recompile.Base.{
  ℕ, suc, ◌+◌, ◌≤◌, ◌<◌, ◌≡◌, refl, Bool, true, Option, none, some, List, [], ◌∷◌, Text, arith,
  length, count, is_some, Option-cases, inl, inr,
}
use recompile.Base.Order.{text_ord}
use recompile.Base.Dict.{Dict, get, same, same_self, IsSorted}
use recompile.Base.Entries.{count-get}
use recompile.Base.Removal.{length-remove}
use recompile.Rules.Outside.{Outside}
use recompile.Rules.Clusters.{Cluster, ClusterManager, oldest, without, evict_oldest_cluster}
use recompile.Rules.Ranking.{ClusterScore, place, pop_least, push_score}

-- A map is iterated over each of its entries, once: whatever is counted.
abbrev pub Iterates : Outside → Type 1
Iterates out =
    (A : Type 0) (m : Dict Text A) (p : Text × A → Bool) → count p (out.iterate A m) ≡ count p m

module _ (out : Outside) where
  -- How many scores a popped heap had.
  abbrev size : Option (ClusterScore out.F × List (ClusterScore out.F)) → ℕ
  size none = 0
  size (some (least, others)) = suc (length others)

  length-place :
      (score : ClusterScore out.F) (o : Option (ClusterScore out.F × List (ClusterScore out.F)))
      → length (place out score o).1 ≡ size o
  unfolding place
  length-place score none = refl
  length-place score (some (least, others)) = ground arith

  pop_least-size :
      (scores : List (ClusterScore out.F)) → size (pop_least out scores) ≡ length scores
  unfolding pop_least
  pop_least-size [] = refl
  pop_least-size (s ∷ scores) =
      omega (arith, length-place s (pop_least out scores), pop_least-size scores)

  pub push_score-le :
      (top_k : ℕ) (score : ClusterScore out.F) (heap : List (ClusterScore out.F))
      → length heap ≤ top_k
      → length (push_score out top_k score heap) ≤ top_k
  unfolding push_score
  push_score-le top_k score heap h = ground (arith, pop_least-size (score ∷ heap))

  oldest-in :
      (entries : List (Text × Cluster out.F)) (e : Text × Cluster out.F)
      → oldest out entries ≡ some e
      → 0 < count (λ x. same e.0 x.0) entries
  unfolding oldest
  oldest-in [] e h = cc
  oldest-in (x ∷ xs) e h = elim (Option-cases (oldest out xs)) [
    | inl missing ↦ ground (arith, same_self e.0)
    | inr (best, found) ↦ ground (arith, oldest-in xs best found, same_self e.0)
  ]

  oldest-some :
      (entries : List (Text × Cluster out.F))
      → oldest out entries ≡ none
      → count (λ x. true) entries ≡ 0
  unfolding oldest
  oldest-some [] h = refl
  oldest-some (x ∷ xs) h = elim (Option-cases (oldest out xs)) [
    | inl missing ↦ ground arith
    | inr (best, found) ↦ ground arith
  ]

  count_true {ℓ} : {A : Type ℓ} (xs : List A) → count (λ x. true) xs ≡ length xs
  count_true [] = refl
  count_true (x ∷ xs) = omega (arith, count_true xs)

  pub evict-in :
      Iterates out
      → (manager : ClusterManager out.F) (e : Text × Cluster out.F) → IsSorted manager.clusters
      → oldest out (out.iterate (Cluster out.F) manager.clusters) ≡ some e
      → is_some (get e.0 manager.clusters) ≡ true
  evict-in iterates manager e s h =
      let entries = out.iterate (Cluster out.F) manager.clusters in
      ground (
        arith,
        oldest-in entries e h,
        iterates (Cluster out.F) manager.clusters (λ x. same e.0 x.0),
        count-get e.0 manager.clusters s,
      )

  -- Evicting makes a map with entries smaller by one.
  pub length-evict :
      Iterates out
      → (manager : ClusterManager out.F) → IsSorted manager.clusters
      → 0 < length manager.clusters
      → length (evict_oldest_cluster out manager).clusters + 1 ≡ length manager.clusters
  unfolding evict_oldest_cluster without
  length-evict iterates manager s h =
      let entries = out.iterate (Cluster out.F) manager.clusters in
      elim (Option-cases (oldest out entries)) [
        | inl missing ↦ absurd (
            omega (
              arith,
              oldest-some entries missing,
              iterates (Cluster out.F) manager.clusters (λ x. true),
              count_true manager.clusters,
            ))
        | inr (e, found) ↦
            ground (
              arith,
              found,
              length-remove e.0 manager.clusters,
              evict-in iterates manager e s found,
            )
      ]
