-- ===== src/Rules/Clusters/Merging.antt =====
-- How findings are counted by the clusters, and which are lost.
use recompile.Base.{
  ℕ, ◌+◌, ◌<◌, ◌≡◌, refl, ◌%◌, ◌^◌, Bool, true, false, Option, none, some, List, [], ◌∷◌, Text,
  arith, length, count, find, sum_of, All, ltb, is_some, head?, Option-cases, Bool-cases, inl, inr,
  ◌>>=◌,
}
use recompile.Base.Order.{text_ord}
use recompile.Base.Dict.{Dict, get, same, same_self, weight, IsSorted, sum_of-alter}
use recompile.Base.Entries.{count-get}
use recompile.Base.Removal.{length-alter}
use recompile.Rules.Event.{Finding, SentinelEvent}
use recompile.Rules.Outside.{Outside}
use recompile.Rules.Likeness.{generate_fingerprint, calculate_similarity}
use recompile.Rules.Config.{put}
use recompile.Rules.Ranking.{calculate_recency}
use recompile.Rules.Clusters.{
  Cluster, ClusterManager, rank, merge_found, update_top_k_heap, settle_cluster, create_new_cluster,
  new_cluster, merge, merge_at, merge_into_cluster, add_to, add_finding, find_similar_cluster,
  cluster_id_of,
}
use recompile.Rules.Clusters.Limits.{Iterates}
use recompile.Rules.Clusters.Valid.{IsValid, Single, get-Single, All-put}

-- All hits of all clusters.
abbrev pub hits : {F : Type 0} → ClusterManager F → ℕ
hits manager = sum_of (λ e. e.1.hit_count) manager.clusters

-- The hits of the cluster under an id, 0 if there is none.
abbrev pub hits_at : {F : Type 0} → Text → ClusterManager F → ℕ
hits_at id manager = weight (λ c. c.hit_count) (get id manager.clusters)

find-in {ℓ} :
    {V : Type ℓ} (p : Text × V → Bool) (xs : Dict Text V) (e : Text × V)
    → find p xs ≡ some e
    → 0 < count (λ x. same e.0 x.0) xs
find-in p [] e h = cc
find-in p (x ∷ xs) e h = elim (Bool-cases (p x)) [
  | inl hit ↦ ground (arith, hit, h, same_self e.0)
  | inr miss ↦ ground (arith, find-in p xs e (ground (arith, miss, h)))
]

module _ (out : Outside) where
  -- What an addition makes of the hits of a manager, when some are lost.
  abbrev pub Counts :
      ClusterManager out.F → ℕ → Option (ClusterManager out.F × Option Finding) → Type 0
  Counts manager lost none = ⊥
  Counts manager lost (some (manager', merged)) = hits manager' + lost ≡ hits manager + 1

  similar_known :
      Iterates out
      → (manager : ClusterManager out.F) (fingerprint id : Text) → IsSorted manager.clusters
      → find_similar_cluster out manager fingerprint ≡ some id
      → is_some (get id manager.clusters) ≡ true
  unfolding find_similar_cluster
  similar_known iterates manager fingerprint id s h =
      let alike = λ (e : Text × Cluster out.F).
        out.at_least (calculate_similarity out fingerprint e.1.fingerprint)
          manager.config.similarity_threshold in
      let entries = out.iterate (Cluster out.F) manager.clusters in
      elim (Option-cases (find alike entries)) [
        | inl missing ↦ absurd (ground (arith, missing, h))
        | inr (e, found) ↦ ground (
          arith,
          h,
          found,
          find-in alike entries e found,
          iterates (Cluster out.F) manager.clusters (λ x. same e.0 x.0),
          count-get e.0 manager.clusters s,
        )
      ]

  hit_count-merge_at :
      (cluster : Cluster out.F) (finding first : Finding) (others : List Finding)
      → (merge_at out cluster finding first others).0.hit_count ≡ (cluster.hit_count + 1) % 2 ^ 32
  unfolding merge_at
  hit_count-merge_at cluster finding first others = ground arith

  merge-Counts :
      (manager : ClusterManager out.F) (id : Text) (finding : Finding) (cluster : Cluster out.F)
      (fs : List Finding)
      → get id manager.clusters ≡ some cluster
      → length fs ≡ 1
      → cluster.hit_count + 1 < 2 ^ 32
      → Counts manager 0 (
          merge out cluster finding fs >>= λ r.
          some (record manager { clusters = put id r.0 manager.clusters }, r.1))
  unfolding merge
  merge-Counts manager id finding cluster [] e h small = absurd (omega arith)
  merge-Counts manager id finding cluster (first ∷ others) e h small =
      let c = (merge_at out cluster finding first others).0 in
      ground (
        arith,
        e,
        small,
        hit_count-merge_at cluster finding first others,
        sum_of-alter (λ (c : Cluster out.F). c.hit_count) id (λ _. c) manager.clusters,
      )

  rank-Counts :
      (base : ClusterManager out.F) (lost : ℕ) (manager : ClusterManager out.F)
      (o : Option (Cluster out.F)) (now : ℕ)
      → hits manager + lost ≡ hits base + 1
      → Single out o
      → Counts base lost (rank out manager o (some now) >>= λ ranked. some (ranked, none))
  unfolding rank calculate_recency
  rank-Counts base lost manager none now h s = h
  rank-Counts base lost manager (some cluster) now h s =
      elim (Option-cases (head? cluster.findings)) [
        | inl missing ↦ absurd (ground arith)
        | inr (first, found) ↦ rw found h
      ]

  merge_into_cluster-Counts :
      (manager : ClusterManager out.F) (id : Text) (finding : Finding) (o : Option (Cluster out.F))
      → get id manager.clusters ≡ o
      → is_some o ≡ true
      → Single out o
      → weight (λ c. c.hit_count) o + 1 < 2 ^ 32
      → Counts manager 0 (merge_found out manager id finding o)
  unfolding merge_found
  merge_into_cluster-Counts manager id finding none e here s small = cc
  merge_into_cluster-Counts manager id finding (some cluster) e here s small =
      merge-Counts manager id finding cluster cluster.findings e s small

  -- The hits that a finding drives out: none if there is a similar cluster, else those of the
  -- cluster whose id its own takes.
  abbrev pub lost_to : Option Text → ClusterManager out.F → Finding → ℕ
  lost_to (some id) manager finding = 0
  lost_to none manager finding = hits_at (cluster_id_of finding) manager

  abbrev pub lost_hits : ClusterManager out.F → Finding → ℕ
  lost_hits manager finding =
      lost_to (find_similar_cluster out manager (generate_fingerprint finding)) manager finding

  weight-small :
      (id : Text) (m : Dict Text (Cluster out.F))
      → All (λ e. e.1.hit_count + 1 < 2 ^ 32) m
      → weight (λ c. c.hit_count) (get id m) + 1 < 2 ^ 32
  unfolding get
  weight-small id [] h = omega arith
  weight-small id ((j, c) ∷ m) h = ground (arith, h.0, weight-small id m h.1)

  new_cluster-Counts :
      (manager : ClusterManager out.F) (finding : Finding) (events : List SentinelEvent) (now : ℕ)
      → IsValid manager
      → length manager.clusters < manager.config.max_clusters
      → Counts manager
          (hits_at (cluster_id_of finding) manager)
          (add_to out none manager finding events (some now))
  unfolding add_to create_new_cluster settle_cluster update_top_k_heap
  new_cluster-Counts manager finding events now v room =
      let id = cluster_id_of finding in
      let c = new_cluster out finding (generate_fingerprint finding) events in
      let manager' = record manager { clusters = put id c manager.clusters } in
      let fits : ltb manager.config.max_clusters (length manager'.clusters) ≡ false =
        ground (arith, length-alter id (λ _. c) manager.clusters, room) in
      let counted =
        sum_of-alter (λ (c : Cluster out.F). c.hit_count) id (λ _. c) manager.clusters in
      let one : c.hit_count ≡ 1 = unfold new_cluster in refl in
      let single = All-put out id c manager.clusters (unfold new_cluster in refl) v.single in
      rw fits (
        rank-Counts manager (hits_at id manager) manager' (get id manager'.clusters) now
          (omega (arith, counted, one)) (get-Single out id manager'.clusters single))

  add_to-Counts :
      Iterates out
      → (manager : ClusterManager out.F) (finding : Finding) (events : List SentinelEvent) (now : ℕ)
        (o : Option Text)
      → IsValid manager
      → length manager.clusters < manager.config.max_clusters
      → All (λ e. e.1.hit_count + 1 < 2 ^ 32) manager.clusters
      → find_similar_cluster out manager (generate_fingerprint finding) ≡ o
      → Counts manager (lost_to o manager finding) (add_to out o manager finding events (some now))
  unfolding add_to merge_into_cluster
  add_to-Counts iterates manager finding events now none v room small e =
      new_cluster-Counts manager finding events now v room
  add_to-Counts iterates manager finding events now (some id) v room small e =
      merge_into_cluster-Counts manager id finding (get id manager.clusters) refl
        (similar_known iterates manager (generate_fingerprint finding) id v.sorted e)
        (get-Single out id manager.clusters v.single) (weight-small id manager.clusters small)

  -- For a valid manager, on a clock from 1970 on, if iterating over a map visits each of its entries
  -- once: while there is room for a cluster and no hit count overflows, every finding that is added is
  -- counted once, by the cluster that it is merged into or by its own, and no hit is lost but those
  -- of a cluster that has the id of the new one and is not like it: the id is made of the class and
  -- the second of a finding, and the new cluster takes its place.
  pub add_finding-Counts :
      Iterates out
      → (manager : ClusterManager out.F) (finding : Finding) (events : List SentinelEvent) (now : ℕ)
      → IsValid manager
      → length manager.clusters < manager.config.max_clusters
      → All (λ e. e.1.hit_count + 1 < 2 ^ 32) manager.clusters
      → Counts manager
          (lost_hits manager finding)
          (add_finding out manager finding events (some now))
  unfolding add_finding
  add_finding-Counts iterates manager finding events now v room small =
      add_to-Counts iterates manager finding events now
        (find_similar_cluster out manager (generate_fingerprint finding)) v room small refl
