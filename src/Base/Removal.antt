-- ===== src/Base/Removal.antt =====
-- `map.remove(k)` and `set.remove(k)`, and how many entries a map has.
use Prim.Native.Nat.{◌+◌}
use Prim.Native.Nat.Ordering.{lt, eq, gt}
use mathlib.Core.Path.{◌≡◌, refl}
use mathlib.Core.Option.{Option, none}
use mathlib.Core.List.{[], ◌∷◌}
use native.Mathlib.Omega.{arith}
use recompile.Base.Tests.{if◌then◌else◌, is_some}
use recompile.Base.Lists.{length, All}
use recompile.Base.Order.{Ord}
use recompile.Base.Dict.{Dict, get, alter, same, Above, IsSorted}
use recompile.Base.Entries.{Above-IsSorted, Above-trans}

module _ {ℓ κ} {K : Type ℓ} {V : Type κ} ⦃o : Ord K⦄ where
  unfoldable pub remove : K → Dict K V → Dict K V
  remove k [] = []
  remove k ((j, v) ∷ m) = elim (o.cmp k j) [ lt ↦ (j, v) ∷ m | eq ↦ m | gt ↦ (j, v) ∷ remove k m ]

  get-Above : (k i : K) (m : Dict K V) → Above i m → o.cmp k i ≡ lt → get k m ≡ none
  unfolding get
  get-Above k i [] a h = refl
  get-Above k i ((j, v) ∷ m) a h = ground (arith, o.trans k i j h a.0)

  get-Above_self : (k : K) (m : Dict K V) → Above k m → get k m ≡ none
  unfolding get
  get-Above_self k [] a = refl
  get-Above_self k ((j, v) ∷ m) a = ground (arith, a.0)

  Above-remove : (i k : K) (m : Dict K V) → Above i m → Above i (remove k m)
  unfolding remove
  Above-remove i k [] a = tt
  Above-remove i k ((j, v) ∷ m) a =
      ground (arith, Above-remove j k m a.1, Above-trans i j m a.0 a.1)

  pub remove-IsSorted : (k : K) (m : Dict K V) → IsSorted m → IsSorted (remove k m)
  unfolding remove
  remove-IsSorted k [] s = tt
  remove-IsSorted k ((j, v) ∷ m) s = ground (arith, Above-remove j k m s, Above-IsSorted j m s)

  -- The law of `remove`: the entry at `k` is gone, every other one stays.
  pub get-remove :
      (i k : K) (m : Dict K V)
      → IsSorted m
      → get i (remove k m) ≡ (if same i k then none else get i m)
  unfolding get remove
  get-remove i k [] s = ground arith
  get-remove i k ((j, v) ∷ m) s = ground (
    arith,
    get-remove i k m (Above-IsSorted j m s),
    get-Above_self j m s,
    get-Above i j m s,
    o.cmp_eq i k,
    o.cmp_eq k j,
    o.cmp_eq i j,
    o.cmp_self i,
    o.trans i k j,
    o.cmp_gt k i,
    o.cmp_gt k j,
    o.trans j k i,
  )

  pub length-remove :
      (k : K) (m : Dict K V) → length m ≡ (if is_some (get k m) then 1 else 0) + length (remove k m)
  unfolding get remove
  length-remove k [] = refl
  length-remove k ((j, v) ∷ m) = ground (arith, length-remove k m)

  pub length-alter :
      (k : K) (f : Option V → V) (m : Dict K V)
      → length (alter k f m) ≡ (if is_some (get k m) then 0 else 1) + length m
  unfolding get alter
  length-alter k f [] = omega arith
  length-alter k f ((j, v) ∷ m) = ground (arith, length-alter k f m)

  pub All-remove {μ} : (P : K × V → Type μ) (k : K) (m : Dict K V) → All P m → All P (remove k m)
  unfolding remove
  All-remove P k [] h = tt
  All-remove P k ((j, v) ∷ m) h = ground (arith, h.0, h.1, All-remove P k m h.1)
