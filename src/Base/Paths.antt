-- ===== src/Base/Paths.antt =====
-- Paths are their text; `join` is that of `std::path` on Unix.
use Prim.Native.Nat.{ℕ}
use mathlib.Core.Bool.{Bool, true, false}
use mathlib.Core.List.{[], ◌∷◌, ◌++◌}
use recompile.Base.Tests.{if◌then◌else◌, ◌==◌}
use recompile.Base.Strings.{Text, codes}

abbrev slash : ℕ
slash = 47

is_absolute : Text → Bool
is_absolute [] = false
is_absolute (c ∷ s) = c == slash

ends_open : Text → Bool
ends_open [] = true
ends_open (c ∷ []) = c == slash
ends_open (c ∷ d ∷ s) = ends_open (d ∷ s)

-- `a.join(b)`
unfoldable pub path_join : Text → Text → Text
unfolding is_absolute ends_open
path_join a b = if is_absolute b then b else if ends_open a then a ++ b else a ++ codes "/" ++ b
