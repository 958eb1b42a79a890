-- ===== src/Rules/Outside.antt =====
-- What the rules use and the repository does not define: the numbers of type f64, the default
-- hasher and the sort of the standard library, and the order in which a `HashMap` is iterated.
use recompile.Base.{ℕ, Bool, Option, List, Text}
use recompile.Base.Dict.{Dict}
use Prim.Native.Nat.{Ordering}

-- The type f64 with its operations; `literal n k` is the number written n / 10^k, and `to_u64` is
-- the cast `x as u64`.
pub record Floats : Type 1 where
  pub F : Type 0
  pub literal : ℕ → ℕ → F
  pub from_count : ℕ → F
  pub to_u64 : F → ℕ
  pub add : F → F → F
  pub mul : F → F → F
  pub div : F → F → F
  pub larger : F → F → F
  pub at_least : F → F → Bool
  pub exceeds : F → F → Bool
  pub equal : F → F → Bool
  pub partial_cmp : F → F → Option Ordering

pub record Outside : Type 1 where
  pub floats : Floats
  pub open floats use *
  pub hash_of : ℕ → ℕ → ℕ → ℕ
  pub iterate : (A : Type 0) → Dict Text A → List (Text × A)
  -- `sort_by` with a comparison that may give another answer each time it is called, which is the
  -- n-th time, or panic; none is a panic.
  pub sort_by : (A : Type 0) → (ℕ → A → A → Option Ordering) → List A → Option (List A)
