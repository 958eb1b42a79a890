-- ===== src/Base/Sets.antt =====
-- `BTreeSet` is a map to the unit type; its elements are the keys.
use Prim.Native.Nat.{ℕ, ◌+◌}
use Prim.Native.Nat.Ordering.{lt}
use mathlib.Core.Path.{◌≡◌, refl}
use mathlib.Core.Bool.{Bool, true, ◌||◌}
use mathlib.Core.Option.{Option, none, some}
use mathlib.Core.List.{List, [], ◌∷◌}
use native.Mathlib.Omega.{arith}
use recompile.Base.Tests.{if◌then◌else◌, is_some}
use recompile.Base.Lists.{length, any}
use recompile.Base.Order.{Ord}
use recompile.Base.Dict.{Dict, get, alter, same, get-alter, alter-IsSorted, IsSorted, Above}

abbrev pub Set {ℓ} : Type ℓ → Type ℓ
Set K = Dict K (Unit {0})

module _ {ℓ} {K : Type ℓ} ⦃o : Ord K⦄ where
  unfoldable pub insert : K → Set K → Set K
  insert k s = alter k (λ _. tt) s

  abbrev pub member : K → Set K → Bool
  member k s = is_some (get k s)

  -- `set.first()`, the least element.
  abbrev pub first : Set K → Option K
  first [] = none
  first ((k, u) ∷ s) = some k

  -- `set.last()`, the greatest.
  unfoldable pub last : Set K → Option K
  last [] = none
  last ((k, u) ∷ s) = elim (last s) [ none ↦ some k | some m ↦ some m ]

  pub member-insert : (j k : K) (s : Set K) → member j (insert k s) ≡ (same j k || member j s)
  unfolding insert
  member-insert j k s = ground (arith, get-alter j k (λ _. tt) s)

  -- A new element makes the set larger by one, and no other does.
  pub length-insert :
      (k : K) (s : Set K) → length (insert k s) ≡ (if member k s then 0 else 1) + length s
  unfolding insert alter get
  length-insert k [] = omega arith
  length-insert k ((j, u) ∷ s) = ground (arith, length-insert k s)

  -- Every inserted element, in order, into a set.
  unfoldable pub insert_all : List K → Set K → Set K
  insert_all [] s = s
  insert_all (k ∷ ks) s = insert_all ks (insert k s)

  -- How many elements differ from all before them and from those seen already.
  abbrev pub distinct : (K → Bool) → List K → ℕ
  distinct seen [] = 0
  distinct seen (k ∷ ks) = (if seen k then 0 else 1) + distinct (λ j. same j k || seen j) ks

  pub member-insert_all :
      (j : K) (ks : List K) (s : Set K)
      → member j (insert_all ks s) ≡ (member j s || any (λ k. same j k) ks)
  unfolding insert_all
  member-insert_all j [] s = ground arith
  member-insert_all j (k ∷ ks) s =
      ground (arith, member-insert_all j ks (insert k s), member-insert j k s)

  pub length-insert_all :
      (ks : List K) (s : Set K) (seen : K → Bool)
      → ((j : K) → member j s ≡ seen j)
      → length (insert_all ks s) ≡ distinct seen ks + length s
  unfolding insert_all
  length-insert_all [] s seen h = omega arith
  length-insert_all (k ∷ ks) s seen h =
      let ih =
        length-insert_all ks (insert k s) (λ j. same j k || seen j)
          (λ j. ground (arith, member-insert j k s, h j)) in
      ground (arith, ih, length-insert k s, h k)

  -- Nothing in the set is below its first element.
  pub first-least :
      (s : Set K) (j k : K) → first s ≡ some k → member j s ≡ true → ¬ (o.cmp j k ≡ lt)
  unfolding get
  first-least [] j k e m h = cc
  first-least ((i, u) ∷ s) j k e m h = ground arith

  last-none : (j : K) (s : Set K) → last s ≡ none → get j s ≡ none
  unfolding last get
  last-none j [] e = refl
  last-none j ((i, u) ∷ s) e = ground arith

  Above-last : (i k : K) (s : Set K) → Above i s → last s ≡ some k → o.cmp i k ≡ lt
  unfolding last
  Above-last i k [] a e = cc
  Above-last i k ((j, u) ∷ s) a e = ground (arith, Above-last j k s a.1, o.trans i j k a.0)

  Above-IsSorted : (i : K) (s : Set K) → Above i s → IsSorted s
  Above-IsSorted i [] a = tt
  Above-IsSorted i ((j, u) ∷ s) a = a.1

  -- Nothing in the set is beyond its last element.
  pub last-greatest :
      (s : Set K) (j k : K) → IsSorted s → last s ≡ some k → member j s ≡ true → ¬ (o.cmp k j ≡ lt)
  unfolding last get
  last-greatest [] j k a e m h = cc
  last-greatest ((i, u) ∷ s) j k a e m h = ground (
    arith,
    o.cmp_eq j i,
    o.cmp_self i,
    o.cmp_self k,
    o.trans i k i,
    Above-last i k s a,
    last-none j s,
    last-greatest s j k (Above-IsSorted i s a),
  )

  pub insert_all-IsSorted : (ks : List K) (s : Set K) → IsSorted s → IsSorted (insert_all ks s)
  unfolding insert_all insert
  insert_all-IsSorted [] s h = h
  insert_all-IsSorted (k ∷ ks) s h =
      insert_all-IsSorted ks (insert k s) (alter-IsSorted k (λ _. tt) s h)

  pub first-insert : (k : K) (s : Set K) → is_some (first (insert k s)) ≡ true
  unfolding insert alter
  first-insert k [] = refl
  first-insert k ((j, u) ∷ s) = ground arith

  pub last_some : (s : Set K) → is_some (first s) ≡ true → is_some (last s) ≡ true
  unfolding last
  last_some [] h = h
  last_some ((k, u) ∷ s) h = ground arith
