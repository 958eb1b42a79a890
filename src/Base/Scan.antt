-- ===== src/Base/Scan.antt =====
-- Searching and cutting text: the `str` methods that the program calls.
use Prim.Native.Nat.{ℕ}
use mathlib.Core.Path.{◌≡◌, refl}
use mathlib.Core.Bool.{Bool, ◌&&◌, ◌||◌}
use mathlib.Core.Option.{Option, none, some}
use mathlib.Core.List.{List, [], ◌∷◌, ◌++◌}
use recompile.Base.Tests.{leb, ◌==◌, if◌then◌else◌, is_some, opt_map}
use recompile.Base.Strings.{Text}

-- `s.strip_prefix(p)`
unfoldable pub strip_prefix : Text → Text → Option Text
strip_prefix [] s = some s
strip_prefix (a ∷ p) [] = none
strip_prefix (a ∷ p) (b ∷ s) = if a == b then strip_prefix p s else none

abbrev pub starts_with : Text → Text → Bool
starts_with p s = is_some (strip_prefix p s)

-- `s.split_once(p)`: what stands before and behind the first occurrence.
unfoldable pub split_once : Text → Text → Option (Text × Text)
unfolding strip_prefix
split_once p [] = opt_map (λ rest. ([], rest)) (strip_prefix p [])
split_once p (c ∷ s) =
    let later = split_once p s in
    elim (strip_prefix p (c ∷ s)) [
      | some rest ↦ some ([], rest)
      | none ↦ opt_map (λ parts. (c ∷ parts.0, parts.1)) later
    ]

-- `s.contains(p)`
unfoldable pub contains : Text → Text → Bool
unfolding strip_prefix
contains p [] = starts_with p []
contains p (c ∷ s) = starts_with p (c ∷ s) || contains p s

-- `char::is_whitespace`
unfoldable pub is_whitespace : ℕ → Bool
is_whitespace c =
    (leb 9 c && leb c 13)
    || c == 32
    || c == 0x85
    || c == 0xa0
    || c == 0x1680
    || (leb 0x2000 c && leb c 0x200a)
    || c == 0x2028
    || c == 0x2029
    || c == 0x202f
    || c == 0x205f
    || c == 0x3000

-- `s.trim_start_matches(test)`
unfoldable pub trim_start_of : (ℕ → Bool) → Text → Text
trim_start_of test [] = []
trim_start_of test (c ∷ s) = if test c then trim_start_of test s else c ∷ s

-- `s.trim_end_matches(test)`
unfoldable pub trim_end_of : (ℕ → Bool) → Text → Text
trim_end_of test [] = []
trim_end_of test (c ∷ s) = elim (trim_end_of test s) [
  | [] ↦ if test c then [] else c ∷ []
  | d ∷ t ↦ c ∷ d ∷ t
]

abbrev pub trim_start : Text → Text
trim_start s = trim_start_of is_whitespace s

abbrev pub trim : Text → Text
trim s = trim_end_of is_whitespace (trim_start_of is_whitespace s)

-- Joins a first character to the first line.
add_to_first : ℕ → List Text → List Text
add_to_first c [] = (c ∷ []) ∷ []
add_to_first c (l ∷ ls) = (c ∷ l) ∷ ls

-- A carriage return before the text `s` with the lines `ls`.
cut_return : Text → List Text → List Text
unfolding add_to_first
cut_return [] ls = (13 ∷ []) ∷ []
cut_return (d ∷ t) ls = if d == 10 then ls else add_to_first 13 ls

-- `s.lines()`: splits at each newline, and drops one carriage return before it; an end of text behind a
-- newline makes no line.
unfoldable pub lines : Text → List Text
unfolding add_to_first cut_return
lines [] = []
lines (c ∷ s) =
    if c == 10
    then [] ∷ lines s
    else if c == 13
    then cut_return s (lines s)
    else add_to_first c (lines s)

-- `parts.join(sep)`
unfoldable pub join : Text → List Text → Text
join sep [] = []
join sep (p ∷ []) = p
join sep (p ∷ q ∷ ps) = p ++ sep ++ join sep (q ∷ ps)

lines_test : lines (97 ∷ 13 ∷ 10 ∷ 10 ∷ 98 ∷ 13 ∷ []) ≡ (97 ∷ []) ∷ [] ∷ (98 ∷ 13 ∷ []) ∷ []
unfolding lines
lines_test = refl
