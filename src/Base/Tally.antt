-- ===== src/Base/Tally.antt =====
-- Counters in a map: `*totals.entry(key).or_insert(0) += n`.
use Prim.Native.Nat.{ℕ, ◌+◌, ◌<◌, ◌≤◌}
use mathlib.Core.Path.{◌≡◌}
use mathlib.Core.Bool.{◌||◌}
use mathlib.Core.List.{List, [], ◌∷◌}
use native.Mathlib.Omega.{arith}
use recompile.Base.Tests.{if◌then◌else◌, is_some, unwrap_or, u64_mod, add64}
use recompile.Base.Lists.{any, sum_of}
use recompile.Base.Order.{Ord}
use recompile.Base.Dict.{Dict, get, alter, same, get-alter, sum_of-alter, alter-IsSorted, IsSorted}

module _ {ℓ} {K : Type ℓ} ⦃o : Ord K⦄ where
  unfoldable pub bump : K → ℕ → Dict K ℕ → Dict K ℕ
  bump k n m = alter k (λ old. add64 (unwrap_or old 0) n) m

  -- The counter at a key, 0 if it was never touched.
  abbrev pub counter : K → Dict K ℕ → ℕ
  counter k m = unwrap_or (get k m) 0

  pub counter-bump :
      (i k : K) (n : ℕ) (m : Dict K ℕ)
      → counter i m < u64_mod
      → counter i (bump k n m) ≡ add64 (counter i m) (if same i k then n else 0)
  unfolding bump
  counter-bump i k n m h =
      ground (arith, o.cmp_eq i k, get-alter i k (λ old. add64 (unwrap_or old 0) n) m)

module _ {ℓ κ} {K : Type ℓ} {A : Type κ} ⦃o : Ord K⦄ where
  -- The loop that bumps one counter for each element.
  unfoldable pub tally : (A → K) → (A → ℕ) → Dict K ℕ → List A → Dict K ℕ
  tally key n m [] = m
  tally key n m (x ∷ xs) = tally key n (bump (key x) (n x) m) xs

  -- What the elements add at one key.
  abbrev pub share : (A → K) → (A → ℕ) → K → List A → ℕ
  share key n k xs = sum_of (λ x. if same k (key x) then n x else 0) xs

  pub counter-tally :
      (key : A → K) (n : A → ℕ) (k : K) (m : Dict K ℕ) (xs : List A)
      → counter k m < u64_mod
      → counter k (tally key n m xs) ≡ add64 (counter k m) (share key n k xs)
  unfolding tally
  counter-tally key n k m [] h = omega arith
  counter-tally key n k m (x ∷ xs) h = omega (
    arith,
    counter-tally key n k (bump (key x) (n x) m) xs
        (omega (arith, counter-bump k (key x) (n x) m h)),
    counter-bump k (key x) (n x) m h,
  )

  pub tally-IsSorted :
      (key : A → K) (n : A → ℕ) (m : Dict K ℕ) (xs : List A)
      → IsSorted m
      → IsSorted (tally key n m xs)
  unfolding tally bump
  tally-IsSorted key n m [] s = s
  tally-IsSorted key n m (x ∷ xs) s =
      tally-IsSorted key n (bump (key x) (n x) m) xs
        (alter-IsSorted (key x) (λ old. add64 (unwrap_or old 0) (n x)) m s)

module _ {ℓ} {K : Type ℓ} ⦃o : Ord K⦄ where
  -- The sum of all counters.
  abbrev pub grand_total : Dict K ℕ → ℕ
  grand_total m = sum_of (λ e. e.1) m

  counter-le-grand_total : (k : K) (m : Dict K ℕ) → counter k m ≤ grand_total m
  unfolding get
  counter-le-grand_total k [] = omega arith
  counter-le-grand_total k ((j, v) ∷ m) = ground (arith, counter-le-grand_total k m)

  grand_total-bump :
      (k : K) (n : ℕ) (m : Dict K ℕ)
      → grand_total m + n < u64_mod
      → grand_total (bump k n m) ≡ grand_total m + n
  unfolding bump
  grand_total-bump k n m h = ground (
    arith,
    counter-le-grand_total k m,
    sum_of-alter (λ (v : ℕ). v) k (λ old. add64 (unwrap_or old 0) n) m,
  )

module _ {ℓ κ} {K : Type ℓ} {A : Type κ} ⦃o : Ord K⦄ where
  -- As long as the sum fits in 64 bits, the counters add up to what the elements add.
  pub grand_total-tally :
      (key : A → K) (n : A → ℕ) (m : Dict K ℕ) (xs : List A)
      → grand_total m + sum_of n xs < u64_mod
      → grand_total (tally key n m xs) ≡ grand_total m + sum_of n xs
  unfolding tally
  grand_total-tally key n m [] h = omega arith
  grand_total-tally key n m (x ∷ xs) h =
      let step = grand_total-bump (key x) (n x) m (omega arith) in
      omega (arith, step, grand_total-tally key n (bump (key x) (n x) m) xs (omega arith))

  -- A key is in the map when it was there before or some element has it.
  pub get-tally_some :
      (key : A → K) (n : A → ℕ) (k : K) (m : Dict K ℕ) (xs : List A)
      → is_some (get k (tally key n m xs)) ≡ (is_some (get k m) || any (λ x. same k (key x)) xs)
  unfolding tally bump
  get-tally_some key n k m [] = ground arith
  get-tally_some key n k m (x ∷ xs) = ground (
    arith,
    get-tally_some key n k (bump (key x) (n x) m) xs,
    get-alter k (key x) (λ old. add64 (unwrap_or old 0) (n x)) m,
  )
