-- ===== src/Rules/Clusters/Valid.antt =====
-- The state of a cluster manager: what holds of it after any findings.
use recompile.Base.{
  ℕ, ◌+◌, ◌≤◌, ◌≡◌, refl, ◌∙◌, true, Option, none, some, List, [], ◌∷◌, Text, arith, length, All,
  ltb, is_some, head?, if◌then◌else◌, Bool-cases, Option-cases, inl, inr, ◌>>=◌,
}
use recompile.Base.Order.{text_ord}
use recompile.Base.Dict.{Dict, get, IsSorted, alter-IsSorted}
use recompile.Base.Entries.{All-alter}
use recompile.Base.Removal.{remove-IsSorted, length-alter, All-remove}
use recompile.Rules.Event.{Finding, SentinelEvent}
use recompile.Rules.Outside.{Outside}
use recompile.Rules.Likeness.{generate_fingerprint}
use recompile.Rules.Config.{put}
use recompile.Rules.Ranking.{calculate_recency}
use recompile.Rules.Clusters.{
  Cluster, ClusterManager, oldest, without, rank, merge_found, evict_oldest_cluster,
  update_top_k_heap, settle_cluster, create_new_cluster, new_cluster, merge, merge_at,
  merge_into_cluster, add_to, add_finding, find_similar_cluster, cluster_id_of,
}
use recompile.Rules.Clusters.Limits.{Iterates, push_score-le, length-evict}

-- Each cluster holds one finding, there are at most as many clusters as the configuration
-- allows, and at most as many ranked scores.
pub record IsValid {F : Type 0} (manager : ClusterManager F) : Type 0 where
  pub sorted : IsSorted manager.clusters
  pub single : All (λ e. length e.1.findings ≡ 1) manager.clusters
  pub bounded : length manager.clusters ≤ manager.config.max_clusters
  pub ranked : length manager.top_k_heap ≤ manager.config.top_k

module _ (out : Outside) where
  -- What holds while a cluster is being added: only the limit on their number may be missed.
  record Forms (manager : ClusterManager out.F) : Type 0 where
    sorted : IsSorted manager.clusters
    single : All (λ e. length e.1.findings ≡ 1) manager.clusters
    ranked : length manager.top_k_heap ≤ manager.config.top_k

  without-Forms :
      (manager : ClusterManager out.F) (o : Option (Text × Cluster out.F))
      → Forms manager
      → Forms (without out manager o)
  unfolding without
  without-Forms manager none v = v
  without-Forms manager (some (id, cluster)) v = record {
    sorted = remove-IsSorted id manager.clusters v.sorted;
    single = All-remove (λ e. length e.1.findings ≡ 1) id manager.clusters v.single;
    ranked = v.ranked;
  }

  evict-Forms :
      (manager : ClusterManager out.F) → Forms manager → Forms (evict_oldest_cluster out manager)
  unfolding evict_oldest_cluster
  evict-Forms manager v =
      without-Forms manager (oldest out (out.iterate (Cluster out.F) manager.clusters)) v

  -- The cluster that is found under an id holds one finding.
  abbrev pub Single : Option (Cluster out.F) → Type 0
  Single none = Unit
  Single (some cluster) = length cluster.findings ≡ 1

  pub get-Single :
      (k : Text) (m : Dict Text (Cluster out.F))
      → All (λ e. length e.1.findings ≡ 1) m
      → Single (get k m)
  unfolding get
  get-Single k [] h = tt
  get-Single k ((j, c) ∷ m) h = ground (arith, h.0, get-Single k m h.1)

  -- No panic, and a state as it should be.
  abbrev pub Keeps : Option (ClusterManager out.F × Option Finding) → Type 0
  Keeps none = ⊥
  Keeps (some (manager, merged)) = IsValid manager

  pub All-put :
      (k : Text) (c : Cluster out.F) (m : Dict Text (Cluster out.F))
      → length c.findings ≡ 1
      → All (λ e. length e.1.findings ≡ 1) m
      → All (λ e. length e.1.findings ≡ 1) (put k c m)
  All-put k c m h = All-alter (λ c. length c.findings ≡ 1) k (λ _. c) m h (λ v hv. h)

  length-put :
      (k : Text) (c : Cluster out.F) (m : Dict Text (Cluster out.F))
      → is_some (get k m) ≡ true
      → length (put k c m) ≡ length m
  length-put k c m h = ground (arith, length-alter k (λ _. c) m)

  merge-Single :
      (cluster : Cluster out.F) (finding first : Finding) (others : List Finding)
      → length (merge_at out cluster finding first others).0.findings ≡ length (first ∷ others)
  unfolding merge_at
  merge-Single cluster finding first others = ground arith

  merge_found-Keeps :
      (manager : ClusterManager out.F) (id : Text) (finding : Finding) (cluster : Cluster out.F)
      (fs : List Finding)
      → IsValid manager
      → is_some (get id manager.clusters) ≡ true
      → length fs ≡ 1
      → Keeps (
          merge out cluster finding fs >>= λ r.
          some (record manager { clusters = put id r.0 manager.clusters }, r.1))
  unfolding merge
  merge_found-Keeps manager id finding cluster [] v here h = absurd (omega arith)
  merge_found-Keeps manager id finding cluster (first ∷ others) v here h =
      let merged = merge_at out cluster finding first others in
      record {
        sorted = alter-IsSorted id (λ _. merged.0) manager.clusters v.sorted;
        single =
            All-put id merged.0 manager.clusters (merge-Single cluster finding first others ∙ h)
              v.single;
        bounded = omega (arith, length-put id merged.0 manager.clusters here, v.bounded);
        ranked = v.ranked;
      }

  rank-Keeps :
      (manager : ClusterManager out.F) (o : Option (Cluster out.F)) (now : ℕ)
      → IsValid manager
      → Single o
      → Keeps (rank out manager o (some now) >>= λ ranked. some (ranked, none))
  unfolding rank calculate_recency
  rank-Keeps manager none now v h = v
  rank-Keeps manager (some cluster) now v h = elim (Option-cases (head? cluster.findings)) [
    | inl missing ↦ absurd (ground arith)
    | inr (first, found) ↦ rw found (record {
      sorted = v.sorted;
      single = v.single;
      bounded = v.bounded;
      ranked = push_score-le out manager.config.top_k _ manager.top_k_heap v.ranked;
    })
  ]

  -- The limit on the number of clusters, when there may be one too many.
  abbrev limited : ClusterManager out.F → ClusterManager out.F
  limited manager =
      if ltb manager.config.max_clusters (length manager.clusters)
      then evict_oldest_cluster out manager
      else manager

  config-evict :
      (manager : ClusterManager out.F) → (evict_oldest_cluster out manager).config ≡ manager.config
  unfolding evict_oldest_cluster without
  config-evict manager = ground arith

  limited-IsValid :
      Iterates out
      → (manager : ClusterManager out.F) → Forms manager
      → length manager.clusters ≤ manager.config.max_clusters + 1
      → IsValid (limited manager)
  limited-IsValid iterates manager v h =
      elim (Bool-cases (ltb manager.config.max_clusters (length manager.clusters))) [
        | inl over ↦
            let w = evict-Forms manager v in
            rw over (record {
              sorted = w.sorted;
              single = w.single;
              ranked = w.ranked;
              bounded = ground (
                arith,
                over,
                length-evict out iterates manager v.sorted (ground arith),
                config-evict manager,
              );
            })
        | inr fits ↦ rw fits (record {
          sorted = v.sorted;
          single = v.single;
          ranked = v.ranked;
          bounded = ground (arith, fits);
        })
      ]

  settle_cluster-Keeps :
      Iterates out
      → (manager : ClusterManager out.F) (id : Text) (now : ℕ) → Forms manager
      → length manager.clusters ≤ manager.config.max_clusters + 1
      → Keeps (settle_cluster out manager id (some now))
  unfolding settle_cluster update_top_k_heap
  settle_cluster-Keeps iterates manager id now v h =
      let w = limited-IsValid iterates manager v h in
      rank-Keeps (limited manager) (get id (limited manager).clusters) now w
        (get-Single id (limited manager).clusters w.single)

  merge_into_cluster-Keeps :
      (manager : ClusterManager out.F) (id : Text) (finding : Finding) (o : Option (Cluster out.F))
      → get id manager.clusters ≡ o
      → IsValid manager
      → Single o
      → Keeps (merge_found out manager id finding o)
  unfolding merge_found
  merge_into_cluster-Keeps manager id finding none e v h = v
  merge_into_cluster-Keeps manager id finding (some cluster) e v h =
      merge_found-Keeps manager id finding cluster cluster.findings v (rw e refl) h

  add_to-Keeps :
      Iterates out
      → (o : Option Text) (manager : ClusterManager out.F) (finding : Finding)
        (events : List SentinelEvent) (now : ℕ)
      → IsValid manager
      → Keeps (add_to out o manager finding events (some now))
  unfolding add_to merge_into_cluster create_new_cluster
  add_to-Keeps iterates (some id) manager finding events now v =
      merge_into_cluster-Keeps manager id finding (get id manager.clusters) refl v
        (get-Single id manager.clusters v.single)
  add_to-Keeps iterates none manager finding events now v =
      let id = cluster_id_of finding in
      let c = new_cluster out finding (generate_fingerprint finding) events in
      settle_cluster-Keeps iterates (record manager { clusters = put id c manager.clusters }) id now
        (record {
          sorted = alter-IsSorted id (λ _. c) manager.clusters v.sorted;
          single = All-put id c manager.clusters (unfold new_cluster in refl) v.single;
          ranked = v.ranked;
        })
        (ground (arith, length-alter id (λ _. c) manager.clusters, v.bounded))

  -- Whatever finding is added, with whatever events and at whatever time, a manager that is as it
  -- should be does not panic and is so again: its clusters have exactly one finding each, and there
  -- are no more clusters and no more ranked scores than its configuration allows, provided that
  -- iterating over a map visits each of its entries once.
  pub add_finding-IsValid :
      Iterates out
      → (manager : ClusterManager out.F) (finding : Finding) (events : List SentinelEvent) (now : ℕ)
      → IsValid manager
      → Keeps (add_finding out manager finding events (some now))
  unfolding add_finding
  add_finding-IsValid iterates manager finding events now v =
      add_to-Keeps iterates (find_similar_cluster out manager (generate_fingerprint finding))
        manager finding events now v
