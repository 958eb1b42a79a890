-- ===== src/Rules/Report/Totals.antt =====
-- What the statistics and the list of findings add up to.
use recompile.Base.{
  ℕ, ◌+◌, ◌<◌, ◌≡◌, refl, sym, ap, ◌∙◌, Bool, true, some, List, [], ◌∷◌, ◌++◌, Text, arith, length,
  length-append, count, count-le-length, All, head?, if◌then◌else◌, ◌==◌, ◌%◌, ltb, u64_mod, add64,
  Option-cases, inl, inr, any, Option,
}
use Prim.Native.Nat.{Ordering}
use recompile.Base.Order.{nat_ord, text_ord}
use recompile.Base.Dict.{Dict, get}
use recompile.Base.Tally.{bump, counter, counter-bump}
use recompile.Rules.Event.{Finding}
use recompile.Rules.Outside.{Outside}
use recompile.Rules.Registry.{class_number}
use recompile.Rules.Clusters.{Cluster, ClusterManager}
use recompile.Rules.Clusters.Limits.{Iterates}
use recompile.Rules.Clusters.Valid.{IsValid}
use recompile.Rules.Report.{ClusteringStats, all_findings, stats_from, get_stats, get_all_findings}

abbrev holds_one : {F : Type 0} → Text × Cluster F → Bool
holds_one e = length e.1.findings == 1

count_passing {ℓ} :
    {A : Type ℓ} (p : A → Bool) (xs : List A) → All (λ x. p x ≡ true) xs → count p xs ≡ length xs
count_passing p [] h = refl
count_passing p (x ∷ xs) h = ground (arith, h.0, count_passing p xs h.1)

count_true {ℓ} : {A : Type ℓ} (xs : List A) → count (λ x. true) xs ≡ length xs
count_true [] = refl
count_true (x ∷ xs) = omega (arith, count_true xs)

passing_of_count {ℓ} :
    {A : Type ℓ} (p : A → Bool) (xs : List A) → count p xs ≡ length xs → All (λ x. p x ≡ true) xs
passing_of_count p [] h = tt
passing_of_count p (x ∷ xs) h = (
  ground (arith, h, count-le-length p xs),
  passing_of_count p xs (ground (arith, h, count-le-length p xs)),
)

singles :
    {F : Type 0} (m : Dict Text (Cluster F))
    → All (λ e. length e.1.findings ≡ 1) m
    → All (λ e. holds_one e ≡ true) m
singles [] h = tt
singles (e ∷ m) h = (ground (arith, h.0), singles m h.1)

counts_one {ℓ} :
    {A : Type ℓ} (p : A → Bool) (fs others : List A) (n : ℕ)
    → (length fs == 1) ≡ true
    → count p others ≡ n
    → count p (fs ++ others) ≡ (if any p fs then 1 else 0) + n
counts_one p [] others n h e = absurd (ground (arith, h))
counts_one p (f ∷ []) others n h e = ground (arith, e)
counts_one p (f ∷ g ∷ fs) others n h e = absurd (ground (arith, h))

-- Sorting keeps the elements, whatever the comparisons answer, if it does not panic.
abbrev pub Permutes : Outside → Type 1
Permutes out =
    (A : Type 0) (cmp : ℕ → A → A → Option Ordering) (xs ys : List A) (p : A → Bool)
    → out.sort_by A cmp xs ≡ some ys
    → count p ys ≡ count p xs

counter_empty : (k : ℕ) → counter k [] ≡ 0
unfolding get
counter_empty k = refl

-- How many findings have a class.
abbrev pub of_class : ℕ → List Finding → ℕ
of_class k findings = count (λ f. k == class_number f.class) findings

module _ (out : Outside) where
  -- In whatever order the clusters of a valid manager are visited, each holds one finding, and there
  -- are as many of them.
  visited :
      Iterates out
      → (manager : ClusterManager out.F) → IsValid manager
      → All (λ e. holds_one e ≡ true) (out.iterate (Cluster out.F) manager.clusters)
        × (length (out.iterate (Cluster out.F) manager.clusters) ≡ length manager.clusters)
  visited iterates manager v =
      let entries = out.iterate (Cluster out.F) manager.clusters in
      let same_size =
        sym (count_true entries)
        ∙ iterates (Cluster out.F) manager.clusters (λ x. true)
        ∙ count_true manager.clusters in
      (
        passing_of_count holds_one entries (
            iterates (Cluster out.F) manager.clusters holds_one
            ∙ count_passing holds_one manager.clusters (singles manager.clusters v.single)
            ∙ sym same_size),
        same_size,
      )

  length-all_findings :
      (entries : List (Text × Cluster out.F))
      → All (λ e. holds_one e ≡ true) entries
      → length (all_findings entries) ≡ length entries
  length-all_findings [] h = refl
  length-all_findings ((id, c) ∷ entries) h =
      ground (
        arith,
        h.0,
        length-append c.findings (all_findings entries),
        length-all_findings entries h.1,
      )

  -- What the loop returns for some entries, from the counts and the number of findings so far.
  record Adds (entries : List (Text × Cluster out.F)) (counts : Dict ℕ ℕ) (n : ℕ)
      (r : Dict ℕ ℕ × out.F × ℕ) : Type 0 where
    total : r.2 ≡ n + length entries
    classes :
        (k : ℕ)
        → counter k counts < u64_mod
        → counter k r.0 ≡ add64 (counter k counts) (of_class k (all_findings entries))

  one_finding :
      (fs : List Finding) (first : Finding)
      → (length fs == 1) ≡ true
      → head? fs ≡ some first
      → fs ≡ first ∷ []
  one_finding [] first h e = cc
  one_finding (f ∷ []) first h e = ground (arith, e)
  one_finding (f ∷ g ∷ fs) first h e = absurd (ground (arith, h))

  of_class-all_findings :
      (k : ℕ) (id : Text) (c : Cluster out.F) (first : Finding)
      (entries : List (Text × Cluster out.F))
      → c.findings ≡ first ∷ []
      → of_class k (all_findings ((id, c) ∷ entries))
        ≡ (if k == class_number first.class then 1 else 0) + of_class k (all_findings entries)
  of_class-all_findings k id c first entries e =
      ap (λ fs. of_class k (fs ++ all_findings entries)) e

  stats_from-Adds :
      (entries : List (Text × Cluster out.F)) (counts : Dict ℕ ℕ) (confidence : out.F) (n : ℕ)
      → All (λ e. holds_one e ≡ true) entries
      → (r : Dict ℕ ℕ × out.F × ℕ) × (stats_from out entries counts confidence n ≡ some r)
        × Adds entries counts n r
  unfolding stats_from
  stats_from-Adds [] counts confidence n h = (
    (counts, confidence, n),
    refl,
    record { total = omega arith; classes = λ k low. omega arith },
  )
  stats_from-Adds ((id, c) ∷ entries) counts confidence n h =
      elim (Option-cases (head? c.findings)) [
        | inl missing ↦ absurd (ground (arith, h.0, missing))
        | inr (first, found) ↦
            let one = class_number first.class in
            let (r, e, adds) =
              stats_from-Adds entries (bump one 1 counts) (out.add confidence c.confidence_sum)
                (n + length c.findings) h.1 in
            (
              r,
              rw (found, stats_from) e,
              record {
                total = ground (arith, adds.total, h.0);
                classes = λ k low. ground (
                  arith,
                  counter-bump k one 1 counts low,
                  adds.classes k (ground (arith, counter-bump k one 1 counts low)),
                  of_class-all_findings k id c first entries
                      (one_finding c.findings first h.0 found),
                );
              },
            )
      ]

  count-all_findings :
      (p : Finding → Bool) (entries : List (Text × Cluster out.F))
      → All (λ e. holds_one e ≡ true) entries
      → count p (all_findings entries) ≡ count (λ e. any p e.1.findings) entries
  count-all_findings p [] h = refl
  count-all_findings p ((id, c) ∷ entries) h =
      counts_one p c.findings (all_findings entries) _ h.0 (count-all_findings p entries h.1)

  -- The statistics of a valid manager exist, and agree with its list of all findings, if sorting it
  -- does not panic: there are as many findings as clusters, and as many in the list; the list has
  -- exactly the findings of the clusters, each as often as it is there; and the count of each class
  -- is the number of findings of that class in the list modulo 2^64. This is provided that iterating
  -- over a map visits each of its entries once, and that sorting keeps the elements.
  pub get_stats_agree :
      Iterates out
      → Permutes out
      → (manager : ClusterManager out.F) (clocks : ℕ → Option ℕ × Option ℕ)
        (findings : List Finding)
      → IsValid manager
      → get_all_findings out manager clocks ≡ some findings
      → (stats : ClusteringStats out.F) × (get_stats out manager ≡ some stats)
        × (stats.total_findings ≡ stats.total_clusters)
        × (stats.total_findings ≡ length findings)
        × ((p : Finding → Bool)
            → count p findings ≡ count (λ e. any p e.1.findings) manager.clusters)
        × ((k : ℕ) → counter k stats.findings_by_class ≡ of_class k findings % u64_mod)
  unfolding get_stats get_all_findings
  get_stats_agree iterates permutes manager clocks findings v sorted =
      let entries = out.iterate (Cluster out.F) manager.clusters in
      let (ones, size) = visited iterates manager v in
      let (r, e, adds) = stats_from-Adds entries [] (out.literal 0 1) 0 ones in
      let average = if ltb 0 r.2 then out.div r.1 (out.from_count r.2) else out.literal 0 1 in
      let same_counts =
        λ (p : Finding → Bool). permutes Finding _ (all_findings entries) findings p sorted in
      (
        record {
          total_clusters = length manager.clusters;
          total_findings = r.2;
          average_confidence = average;
          findings_by_class = r.0;
          top_k_available = length manager.top_k_heap;
        },
        rw e refl,
        omega (arith, adds.total, size),
        omega (
          arith,
          adds.total,
          same_counts (λ f. true),
          count_true findings,
          count_true (all_findings entries),
          length-all_findings entries ones,
        ),
        λ p.
            same_counts p
            ∙ count-all_findings p entries ones
            ∙ iterates (Cluster out.F) manager.clusters (λ e. any p e.1.findings),
        λ k. ground (
          arith,
          counter_empty k,
          adds.classes k (omega (arith, counter_empty k)),
          same_counts (λ f. k == class_number f.class),
        ),
      )
