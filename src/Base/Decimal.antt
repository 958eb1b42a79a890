-- ===== src/Base/Decimal.antt =====
-- Numbers in decimal, as `format!` prints them.
use Prim.Native.Nat.{ℕ, zero, suc, ◌+◌, ◌-◌, ◌*◌, ◌/◌, ◌%◌, ◌<◌}
use mathlib.Core.Path.{◌≡◌, refl, ap, ◌∙◌}
use mathlib.Core.Logic.{inl, inr}
use mathlib.Core.List.{[], ◌∷◌, ◌++◌}
use native.Mathlib.Omega.{arith}
use recompile.Base.Tests.{ltb, if◌then◌else◌, Bool-cases}
use recompile.Base.Lists.{length, replicate}
use recompile.Base.Strings.{Text, codes}

-- The digits of `n` in front of `rest`; `n` is enough fuel, with room for 0.
digits_before : ℕ → ℕ → Text → Text
digits_before zero n rest = rest
digits_before (suc fuel) n rest =
    let here = (48 + n % 10) ∷ rest in
    let more = digits_before fuel (n / 10) here in if ltb n 10 then here else more

unfoldable pub decimal : ℕ → Text
unfolding digits_before
decimal n = digits_before (suc n) n []

-- `{n:04}`
unfoldable pub padded : ℕ → Text
unfolding decimal
padded n = replicate (4 - length (decimal n)) b'0' ++ decimal n

padded_test : (padded 7 ≡ codes "0007") × (padded 12345 ≡ codes "12345")
unfolding padded
padded_test = (refl, refl)

-- The number that digits stand for, behind those that make up `n`.
abbrev value_from : ℕ → Text → ℕ
value_from n [] = n
value_from n (c ∷ s) = value_from (n * 10 + (c - 48)) s

digits_before_value :
    (fuel n : ℕ) (rest : Text)
    → n < fuel
    → value_from 0 (digits_before fuel n rest) ≡ value_from n rest
unfolding digits_before
digits_before_value zero n rest h = absurd (omega arith)
digits_before_value (suc fuel) n rest h = elim (Bool-cases (ltb n 10)) [
  | inl small ↦ rw small (ap (λ (k : ℕ). value_from k rest) (ground arith))
  | inr large ↦ rw large (
      digits_before_value fuel (n / 10) ((48 + n % 10) ∷ rest) (ground arith)
      ∙ ap (λ (k : ℕ). value_from k rest) (omega arith))
]

-- Printing loses nothing: the digits stand for the number.
pub decimal_value : (n : ℕ) → value_from 0 (decimal n) ≡ n
unfolding decimal
decimal_value n = digits_before_value (suc n) n [] (omega arith)
