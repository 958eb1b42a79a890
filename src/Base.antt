-- ===== src/Base.antt =====
-- The names that the modules share: those of the libraries, passed on, and the shared types,
-- tests and lemmas of the children.
mod Tests
mod Lists
mod Strings
mod Int
pub mod Order
pub mod Dict
pub mod Entries
pub mod Sets
pub mod Sort
pub mod Search
pub mod Scan
pub mod Trims
pub mod Words
pub mod Decimal
pub mod Hex
pub mod Removal
pub mod Paths
pub mod FileNames
pub mod Tally
pub use Tests.*
pub use Int.*
pub use Lists.*
unfoldable pub use Strings.*
pub use Prim.Native.Nat.{ℕ, zero, suc, ◌+◌, ◌-◌, ◌*◌, ◌/◌, ◌%◌, ◌^◌, ◌≤◌, ◌<◌, min, max}
pub use Prim.Native.String.{String}
pub use mathlib.Core.Path.{◌≡◌, refl, sym, ap, ◌∙◌}
pub use mathlib.Core.Logic.{◌≢◌, ◌↔◌, ◌⊎◌, inl, inr}
pub use mathlib.Core.Bool.{Bool, true, false, not, ◌&&◌, ◌||◌}
pub use mathlib.Core.Option.{Option, none, some}
pub use mathlib.Core.List.{
  List, [], ◌∷◌, ◌++◌, map, append_assoc, append-nil, Mem, mem-cons_self, mem-cons_of_mem,
}
pub use native.Mathlib.Omega.{arith}
