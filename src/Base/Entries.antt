-- ===== src/Base/Entries.antt =====
-- The entries of a map, against its `get`.
use Prim.Native.Nat.Ordering.{lt}
use mathlib.Core.Path.{◌≡◌, refl}
use mathlib.Core.Option.{Option, none, some}
use mathlib.Core.List.{[], ◌∷◌}
use native.Mathlib.Omega.{arith}
use recompile.Base.Tests.{if◌then◌else◌, is_some}
use recompile.Base.Lists.{All, count}
use recompile.Base.Order.{Ord}
use recompile.Base.Dict.{Dict, get, alter, Above, IsSorted, same}

module _ {ℓ κ} {K : Type ℓ} {V : Type κ} ⦃o : Ord K⦄ where
  -- A property of values that `entry` establishes and keeps.
  pub All-alter {μ} :
      (P : V → Type μ) (k : K) (f : Option V → V) (m : Dict K V)
      → P (f none)
      → ((v : V) → P v → P (f (some v)))
      → All (λ e. P e.1) m
      → All (λ e. P e.1) (alter k f m)
  unfolding alter
  All-alter P k f [] base step h = (base, tt)
  All-alter P k f ((j, v) ∷ m) base step h =
      ground (arith, base, step v h.0, All-alter P k f m base step h.1)

  pub Above-IsSorted : (k : K) (m : Dict K V) → Above k m → IsSorted m
  Above-IsSorted k [] a = tt
  Above-IsSorted k ((j, v) ∷ m) a = a.1

  pub Above-trans : (i k : K) (m : Dict K V) → o.cmp i k ≡ lt → Above k m → Above i m
  Above-trans i k [] h a = tt
  Above-trans i k ((j, v) ∷ m) h a = (o.trans i k j h a.0, a.1)

  Above-entries : (k : K) (m : Dict K V) → Above k m → All (λ e. o.cmp k e.0 ≡ lt) m
  Above-entries k [] a = tt
  Above-entries k ((j, v) ∷ m) a = (a.0, Above-entries k m (Above-trans k j m a.0 a.1))

  get_beyond :
      (j : K) (v : V) (m n : Dict K V)
      → All (λ e. o.cmp j e.0 ≡ lt) n
      → All (λ e. get e.0 m ≡ some e.1) n
      → All (λ e. get e.0 ((j, v) ∷ m) ≡ some e.1) n
  unfolding get
  get_beyond j v m [] a h = tt
  get_beyond j v m ((k, w) ∷ n) a h =
      (ground (arith, o.cmp_lt j k a.0, h.0), get_beyond j v m n a.1 h.1)

  -- Each entry of a sorted map is what `get` returns at its key.
  pub entries-get : (m : Dict K V) → IsSorted m → All (λ e. get e.0 m ≡ some e.1) m
  entries-get [] s = tt
  entries-get ((j, v) ∷ m) s = (
    unfold get in ground (arith, o.cmp_self j),
    get_beyond j v m m (Above-entries j m s) (entries-get m (Above-IsSorted j m s)),
  )

  count_beyond :
      (f : K) (m : Dict K V) → All (λ e. o.cmp f e.0 ≡ lt) m → count (λ e. same f e.0) m ≡ 0
  count_beyond f [] a = refl
  count_beyond f ((j, v) ∷ m) a = ground (arith, a.0, count_beyond f m a.1)

  -- A sorted map has one entry for each key that `get` finds.
  pub count-get :
      (f : K) (m : Dict K V)
      → IsSorted m
      → count (λ e. same f e.0) m ≡ (if is_some (get f m) then 1 else 0)
  unfolding get
  count-get f [] s = refl
  count-get f ((j, v) ∷ m) s = ground (
    arith,
    o.cmp_eq f j,
    count_beyond j m (Above-entries j m s),
    λ (h : o.cmp f j ≡ lt). count_beyond f m (Above-entries f m (Above-trans f j m h s)),
    count-get f m (Above-IsSorted j m s),
  )
