-- ===== src/Base/Strings.antt =====
-- Text as the list of its Unicode code points, with the string operations that the program calls.
-- Code points compare as their UTF-8 bytes do, so the order of `Order` is that of `str`.
use Prim.Native.Nat.{ℕ, ◌+◌, ◌-◌, ◌≤◌, ◌<◌}
use Prim.Native.Char.{code}
use Prim.Native.String.{String}
use mathlib.Core.Path.{◌≡◌, refl}
use mathlib.Core.Logic.{◌↔◌, inl, inr}
use mathlib.Core.Bool.{Bool, true, false, ◌&&◌}
use mathlib.Core.Option.{Option, none, some}
use mathlib.Core.List.{List, [], ◌∷◌}
use native.Mathlib.Omega.{arith}
use recompile.Base.Tests.{ltb, leb, ◌==◌, if◌then◌else◌, opt_map, Bool-cases, Option-cases}
use recompile.Base.Lists.{All}

abbrev pub Text : Type 0
Text = List ℕ

-- A string literal.
abbrev pub codes : String → Text
codes String.[] = []
codes (String.◌∷◌ c s) = code c ∷ codes s

unfoldable pub text_eq : Text → Text → Bool
text_eq [] [] = true
text_eq (a ∷ s) (b ∷ t) = (a == b) && text_eq s t
text_eq _ _ = false

pub text_eq_iff : (s t : Text) → (text_eq s t ≡ true) ↔ (s ≡ t)
unfolding text_eq
text_eq_iff [] [] = ground arith
text_eq_iff [] (b ∷ t) = ground arith
text_eq_iff (a ∷ s) [] = ground arith
text_eq_iff (a ∷ s) (b ∷ t) = ground (arith, text_eq_iff s t)

pub text_eq_refl : (s : Text) → text_eq s s ≡ true
text_eq_refl s = (text_eq_iff s s).1 refl

-- The UTF-8 bytes of one code point.
abbrev pub utf8_width : ℕ → ℕ
utf8_width c = if ltb c 0x80 then 1 else if ltb c 0x800 then 2 else if ltb c 0x10000 then 3 else 4

-- `s.len()`
unfoldable pub text_len : Text → ℕ
text_len [] = 0
text_len (c ∷ s) = utf8_width c + text_len s

-- `&s[..n]`, which panics past the end and inside a code point.
unfoldable pub slice_to : ℕ → Text → Option Text
slice_to n [] = if n == 0 then some [] else none
slice_to n (c ∷ s) =
    if n == 0
    then some []
    else if leb (utf8_width c) n
    then opt_map (λ t. c ∷ t) (slice_to (n - utf8_width c) s)
    else none

abbrev pub IsAscii : Text → Type 0
IsAscii s = All (λ c. c < 0x80) s

-- A slice of ASCII text does not panic within its length.
pub slice_to_ascii :
    (n : ℕ) (s : Text) → IsAscii s → n ≤ text_len s → (t : Text) × (slice_to n s ≡ some t)
unfolding slice_to text_len
slice_to_ascii n [] a h = ([], ground arith)
slice_to_ascii n (c ∷ s) a h = elim (Bool-cases (n == 0)) [
  | inl done ↦ ([], rw done)
  | inr more ↦
      let (t, e) = slice_to_ascii (n - 1) s a.1 (ground arith) in (c ∷ t, ground (arith, e))
]

-- `s.rsplit_once(c)`
unfoldable pub rsplit_once : ℕ → Text → Option (Text × Text)
rsplit_once c [] = none
rsplit_once c (x ∷ s) = elim (rsplit_once c s) [
  | some (a, b) ↦ some (x ∷ a, b)
  | none ↦ if x == c then some ([], s) else none
]

pub rsplit_once-IsAscii :
    (c : ℕ) (s a b : Text) → IsAscii s → rsplit_once c s ≡ some (a, b) → IsAscii b
unfolding rsplit_once
rsplit_once-IsAscii c [] a b h e = ground arith
rsplit_once-IsAscii c (x ∷ s) a b h e = elim (Option-cases (rsplit_once c s)) [
  | inl missing ↦ ground arith
  | inr ((a', b'), found) ↦ rsplit_once-IsAscii c s a' b h.1 (ground arith)
]
