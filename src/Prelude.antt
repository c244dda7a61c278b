-- ===== src/Prelude.antt =====
-- The names that every module shares: the libraries', passed on, and those of the children.
mod Bools
mod Eqs
mod Lists
mod Ints
mod Maps
mod Index
mod Texts
mod Sorting
mod Decimal
mod Spaces
mod Pigeons
unfoldable pub use Bools.*
unfoldable pub use Eqs.*
unfoldable pub use Lists.*
unfoldable pub use Ints.*
unfoldable pub use Maps.*
unfoldable pub use Index.*
unfoldable pub use Texts.*
unfoldable pub use Sorting.*
unfoldable pub use Decimal.*
unfoldable pub use Spaces.*
pub use Pigeons.*
pub use Prim.Native.Nat.{ℕ, zero, suc, ◌+◌, ◌-◌, ◌*◌, ◌/◌, ◌%◌, ◌^◌, ◌≤◌, ◌<◌}
pub use mathlib.Core.Path.{◌≡◌, refl, sym, ap, ◌∙◌, subst}
pub use mathlib.Core.Logic.{◌≢◌, ◌↔◌, ◌⊎◌, inl, inr}
pub use mathlib.Core.Bool.{Bool, true, false, not, ◌&&◌, ◌||◌}
pub use mathlib.Core.Option.{Option, none, some}
pub use mathlib.Core.List.{List, [], ◌∷◌, ◌++◌, map}
pub use native.Mathlib.Omega.{arith}
unfoldable pub use native.Mathlib.Decide.{ℕ_discrete}
