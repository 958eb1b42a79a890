-- ===== src/Base/Dict.antt =====
-- `BTreeMap` and `BTreeSet`: associations in increasing order of their keys.
use Prim.Native.Nat.{ℕ, ◌+◌}
use Prim.Native.Nat.Ordering.{lt, eq, gt}
use mathlib.Core.Path.{◌≡◌}
use mathlib.Core.Bool.{Bool, true, false}
use mathlib.Core.Option.{Option, none, some}
use mathlib.Core.List.{List, [], ◌∷◌}
use native.Mathlib.Omega.{arith}
use recompile.Base.Tests.{if◌then◌else◌}
use recompile.Base.Lists.{sum_of}
use recompile.Base.Order.{Ord}

abbrev pub Dict {ℓ κ} : Type ℓ → Type κ → Type (ℓ ⊔ κ)
Dict K V = List (K × V)

-- The measure of an entry, 0 if there is none.
abbrev pub weight {κ} : {V : Type κ} → (V → ℕ) → Option V → ℕ
weight g none = 0
weight g (some v) = g v

module _ {ℓ} {K : Type ℓ} ⦃o : Ord K⦄ where
  -- Equality of keys.
  abbrev pub same : K → K → Bool
  same j k = elim (o.cmp j k) [ eq ↦ true | _ ↦ false ]

  pub same→eq : (j k : K) → same j k ≡ true → j ≡ k
  same→eq j k h = ground (arith, o.cmp_eq j k)

  pub same_self : (k : K) → same k k ≡ true
  same_self k = ground (arith, o.cmp_self k)

module _ {ℓ κ} {K : Type ℓ} {V : Type κ} ⦃o : Ord K⦄ where
  -- `map.get(k)`
  unfoldable pub get : K → Dict K V → Option V
  get k [] = none
  get k ((j, v) ∷ m) = elim (o.cmp k j) [ lt ↦ none | eq ↦ some v | gt ↦ get k m ]

  -- `map.entry(k)` with a new value computed from the old one, if there is one.
  unfoldable pub alter : K → (Option V → V) → Dict K V → Dict K V
  alter k f [] = (k, f none) ∷ []
  alter k f ((j, v) ∷ m) = elim (o.cmp k j) [
    | lt ↦ (k, f none) ∷ (j, v) ∷ m
    | eq ↦ (j, f (some v)) ∷ m
    | gt ↦ (j, v) ∷ alter k f m
  ]

  -- Every key of the map is beyond `k`, and the keys increase.
  abbrev pub Above : K → Dict K V → Type 0
  Above k [] = Unit
  Above k ((j, v) ∷ m) = (o.cmp k j ≡ lt) × Above j m

  abbrev pub IsSorted : Dict K V → Type 0
  IsSorted [] = Unit
  IsSorted ((j, v) ∷ m) = Above j m

  pub get-alter_self :
      (k : K) (f : Option V → V) (m : Dict K V) → get k (alter k f m) ≡ some (f (get k m))
  unfolding get alter
  get-alter_self k f [] = ground (arith, o.cmp_self k)
  get-alter_self k f ((j, v) ∷ m) = ground (arith, o.cmp_self k, get-alter_self k f m)

  pub get-alter-lt :
      (i k : K) (f : Option V → V) (m : Dict K V) → o.cmp i k ≡ lt → get i (alter k f m) ≡ get i m
  unfolding get alter
  get-alter-lt i k f [] h = ground (arith)
  get-alter-lt i k f ((j, v) ∷ m) h =
      ground (arith, get-alter-lt i k f m h, o.trans i k j, o.cmp_eq k j)

  pub get-alter-gt :
      (i k : K) (f : Option V → V) (m : Dict K V) → o.cmp i k ≡ gt → get i (alter k f m) ≡ get i m
  unfolding get alter
  get-alter-gt i k f [] h = ground arith
  get-alter-gt i k f ((j, v) ∷ m) h = ground (arith, get-alter-gt i k f m h, o.cmp_eq k j)

  Above-alter :
      (i k : K) (f : Option V → V) (m : Dict K V)
      → o.cmp i k ≡ lt
      → Above i m
      → Above i (alter k f m)
  unfolding alter
  Above-alter i k f [] h s = (h, tt)
  Above-alter i k f ((j, v) ∷ m) h s =
      ground (arith, Above-alter j k f m, o.cmp_gt k j, o.cmp_eq k j)

  -- `entry` keeps the keys in strictly increasing order.
  pub alter-IsSorted :
      (k : K) (f : Option V → V) (m : Dict K V) → IsSorted m → IsSorted (alter k f m)
  unfolding alter
  alter-IsSorted k f [] s = tt
  alter-IsSorted k f ((j, v) ∷ m) s =
      ground (arith, Above-alter j k f m, o.cmp_gt k j, o.cmp_eq k j)

  -- The law of `entry`: the entry at `k` is replaced, every other one stays.
  pub get-alter :
      (i k : K) (f : Option V → V) (m : Dict K V)
      → get i (alter k f m) ≡ (if same i k then some (f (get k m)) else get i m)
  get-alter i k f m =
      ground (arith, o.cmp_eq i k, get-alter_self k f m, get-alter-lt i k f m, get-alter-gt i k f m)

  -- `entry` changes a sum over the values by what it changes at its key.
  pub sum_of-alter :
      (g : V → ℕ) (k : K) (f : Option V → V) (m : Dict K V)
      → sum_of (λ e. g e.1) (alter k f m) + weight g (get k m)
        ≡ sum_of (λ e. g e.1) m + g (f (get k m))
  unfolding get alter
  sum_of-alter g k f [] = omega arith
  sum_of-alter g k f ((j, v) ∷ m) = ground (arith, sum_of-alter g k f m)
