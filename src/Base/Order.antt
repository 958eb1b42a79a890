-- ===== src/Base/Order.antt =====
-- The order of map keys: `Ord` of u32 and of `String`.
use Prim.Native.Nat.{ℕ, compare, Ordering}
use Prim.Native.Nat.Ordering.{lt, eq, gt}
use mathlib.Core.Path.{◌≡◌, refl}
use mathlib.Core.List.{[], ◌∷◌}
use native.Mathlib.Omega.{arith}
use recompile.Base.Strings.{Text}

-- What `BTreeMap` asks of its keys: a total order that agrees with equality.
pub record Total {ℓ} {K : Type ℓ} (cmp : K → K → Ordering) : Type ℓ where
  pub trans : (i j k : K) → cmp i j ≡ lt → cmp j k ≡ lt → cmp i k ≡ lt
  pub cmp_gt : (i j : K) → cmp i j ≡ gt → cmp j i ≡ lt
  pub cmp_eq : (i j : K) → cmp i j ≡ eq → i ≡ j
  pub cmp_lt : (i j : K) → cmp i j ≡ lt → cmp j i ≡ gt
  pub cmp_self : (i : K) → cmp i i ≡ eq

-- The type of the keys, with its comparison.
pub record Ord {ℓ} (K : Type ℓ) : Type ℓ where
  pub cmp : K → K → Ordering
  pub total : Total cmp
  pub open total use *

pub compare-Total : Total compare
compare-Total = ground arith

instance abbrev pub nat_ord : Ord ℕ
nat_ord = record { cmp = compare; total = compare-Total }

-- Strings compare lexicographically.
unfoldable pub text_cmp : Text → Text → Ordering
text_cmp [] [] = eq
text_cmp [] (b ∷ t) = lt
text_cmp (a ∷ s) [] = gt
text_cmp (a ∷ s) (b ∷ t) = elim (compare a b) [ lt ↦ lt | eq ↦ text_cmp s t | gt ↦ gt ]

module _ where
  text_cmp_self : (s : Text) → text_cmp s s ≡ eq
  unfolding text_cmp
  text_cmp_self [] = refl
  text_cmp_self (a ∷ s) = ground (arith, text_cmp_self s)

  text_cmp-eq : (s t : Text) → text_cmp s t ≡ eq → s ≡ t
  unfolding text_cmp
  text_cmp-eq [] [] h = refl
  text_cmp-eq [] (b ∷ t) h = ground arith
  text_cmp-eq (a ∷ s) [] h = ground arith
  text_cmp-eq (a ∷ s) (b ∷ t) h = ground (arith, text_cmp-eq s t)

  text_cmp-gt : (s t : Text) → text_cmp s t ≡ gt → text_cmp t s ≡ lt
  unfolding text_cmp
  text_cmp-gt [] [] h = ground arith
  text_cmp-gt [] (b ∷ t) h = ground arith
  text_cmp-gt (a ∷ s) [] h = refl
  text_cmp-gt (a ∷ s) (b ∷ t) h = ground (arith, text_cmp-gt s t)

  text_cmp-lt : (s t : Text) → text_cmp s t ≡ lt → text_cmp t s ≡ gt
  unfolding text_cmp
  text_cmp-lt [] [] h = ground arith
  text_cmp-lt [] (b ∷ t) h = refl
  text_cmp-lt (a ∷ s) [] h = ground arith
  text_cmp-lt (a ∷ s) (b ∷ t) h = ground (arith, text_cmp-lt s t)

  text_cmp_trans : (s t u : Text) → text_cmp s t ≡ lt → text_cmp t u ≡ lt → text_cmp s u ≡ lt
  unfolding text_cmp
  text_cmp_trans [] [] u h k = ground arith
  text_cmp_trans [] (b ∷ t) [] h k = ground arith
  text_cmp_trans [] (b ∷ t) (c ∷ u) h k = refl
  text_cmp_trans (a ∷ s) [] u h k = ground arith
  text_cmp_trans (a ∷ s) (b ∷ t) [] h k = ground arith
  text_cmp_trans (a ∷ s) (b ∷ t) (c ∷ u) h k = ground (arith, text_cmp_trans s t u)

pub text_cmp-Total : Total text_cmp
text_cmp-Total = record {
  cmp_self = text_cmp_self;
  cmp_eq = text_cmp-eq;
  cmp_gt = text_cmp-gt;
  cmp_lt = text_cmp-lt;
  trans = text_cmp_trans;
}

instance abbrev pub text_ord : Ord Text
text_ord = record { cmp = text_cmp; total = text_cmp-Total }
