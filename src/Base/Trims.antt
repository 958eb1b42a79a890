-- ===== src/Base/Trims.antt =====
-- Trimming a text twice is trimming it once.
use Prim.Native.Nat.{ℕ}
use mathlib.Core.Path.{◌≡◌, refl, ap, ◌∙◌}
use mathlib.Core.Logic.{inl, inr}
use mathlib.Core.Bool.{Bool, false}
use mathlib.Core.List.{[], ◌∷◌}
use native.Mathlib.Omega.{arith}
use recompile.Base.Tests.{if◌then◌else◌, Bool-cases}
use recompile.Base.Strings.{Text}
use recompile.Base.Scan.{trim_start_of, trim_end_of, trim, is_whitespace}

-- The text is empty or starts with a character that fails the test.
abbrev Starts : (ℕ → Bool) → Text → Type 0
Starts test [] = Unit
Starts test (c ∷ s) = test c ≡ false

module _ (test : ℕ → Bool) where
  trim_start-Starts : (s : Text) → Starts test (trim_start_of test s)
  unfolding trim_start_of
  trim_start-Starts [] = tt
  trim_start-Starts (c ∷ s) = elim (Bool-cases (test c)) [
    | inl cut ↦ rw cut (trim_start-Starts s)
    | inr kept ↦ rw (kept, Starts) kept
  ]

  trim_start_keeps : (s : Text) → Starts test s → trim_start_of test s ≡ s
  unfolding trim_start_of
  trim_start_keeps [] h = refl
  trim_start_keeps (c ∷ s) h = ground (arith, h)

  trim_end-Starts : (s : Text) → Starts test s → Starts test (trim_end_of test s)
  unfolding trim_end_of
  trim_end-Starts [] h = tt
  trim_end-Starts (c ∷ s) h = ground (arith, h)

  -- A character in front of trimmed text.
  abbrev put_end : ℕ → Text → Text
  put_end c [] = if test c then [] else c ∷ []
  put_end c (d ∷ t) = c ∷ d ∷ t

  put_end_keeps :
      (c : ℕ) (t : Text) → trim_end_of test t ≡ t → trim_end_of test (put_end c t) ≡ put_end c t
  unfolding trim_end_of
  put_end_keeps c [] h = ground arith
  put_end_keeps c (d ∷ t) h = ap (put_end c) h

  trim_end_idem : (s : Text) → trim_end_of test (trim_end_of test s) ≡ trim_end_of test s
  unfolding trim_end_of
  trim_end_idem [] = refl
  trim_end_idem (c ∷ s) = put_end_keeps c (trim_end_of test s) (trim_end_idem s)

pub trim_idem : (s : Text) → trim (trim s) ≡ trim s
trim_idem s =
    let cut = trim_start_of is_whitespace s in
    ap (λ t. trim_end_of is_whitespace t)
      (trim_start_keeps is_whitespace (trim s)
        (trim_end-Starts is_whitespace cut (trim_start-Starts is_whitespace s)))
    ∙ trim_end_idem is_whitespace cut
