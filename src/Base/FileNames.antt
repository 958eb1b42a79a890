-- ===== src/Base/FileNames.antt =====
-- `file_name` and `file_stem` of `std::path` on Unix.
use Prim.Native.Nat.{ℕ}
use mathlib.Core.Path.{◌≡◌, refl}
use mathlib.Core.Option.{Option, none, some}
use mathlib.Core.List.{List, [], ◌∷◌}
use recompile.Base.Tests.{if◌then◌else◌, ◌==◌, opt_map}
use recompile.Base.Strings.{Text, codes, text_eq, rsplit_once}

-- Joins a first character to the first part.
add_char : ℕ → List Text → List Text
add_char c [] = (c ∷ []) ∷ []
add_char c (p ∷ ps) = (c ∷ p) ∷ ps

-- `s.split(c)`
unfoldable pub split_at : ℕ → Text → List Text
unfolding add_char
split_at c [] = [] ∷ []
split_at c (x ∷ s) = if x == c then [] ∷ split_at c s else add_char x (split_at c s)

-- The last component, other than empty ones and `.`.
last_part : Option Text → List Text → Option Text
unfolding text_eq
last_part found [] = found
last_part found (p ∷ ps) =
    last_part (if text_eq p [] then found else if text_eq p (codes ".") then found else some p) ps

not_parent : Text → Option Text
unfolding text_eq
not_parent name = if text_eq name (codes "..") then none else some name

-- `path.file_name()`: none if the path ends in `..` or names nothing.
unfoldable pub file_name : Text → Option Text
unfolding last_part not_parent split_at
file_name path = elim (last_part none (split_at b'/' path)) [ none ↦ none | some p ↦ not_parent p ]

-- The part of a name before its last dot, or the name where that is empty.
unfoldable pub stem : Text → Text
unfolding rsplit_once
stem name = elim (rsplit_once b'.' name) [
  | none ↦ name
  | some (before, after) ↦ if text_eq before [] then name else before
]

-- `path.file_stem()`
unfoldable pub file_stem : Text → Option Text
unfolding file_name stem
file_stem path = opt_map stem (file_name path)

file_stem_test :
    (file_stem (codes "/usr/./bin/app.out/") ≡ some (codes "app"))
    × (file_stem (codes "..") ≡ none)
    × (file_stem (codes ".profile") ≡ some (codes ".profile"))
unfolding file_stem
file_stem_test = (refl, refl, refl)
