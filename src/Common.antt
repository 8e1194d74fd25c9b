-- ===== src/Common.antt =====
-- Names that the other modules share: the libraries', passed on, and those of the children: Boolean
-- tests and lists over native numbers, signed integers, dictionaries, and calls that may raise.
pub mod Tests
pub mod Lists
pub mod Int
pub mod Assoc
pub mod Calls
pub mod Try
pub mod Sorting
pub use Tests.*
pub use Lists.*
unfoldable pub use Int.*
pub use Assoc.*
pub use Calls.*
pub use Prim.Native.Nat.{ℕ, zero, suc, ◌+◌, ◌-◌, ◌*◌, ◌/◌, ◌%◌, ◌≤◌, ◌<◌}
pub use Prim.Native.String.{String}
pub use mathlib.Core.Path.{◌≡◌, refl, sym, ap, ◌∙◌}
pub use mathlib.Core.Logic.{◌≢◌, ◌↔◌, ◌⊎◌, inl, inr}
pub use mathlib.Core.Bool.{Bool, true, false, not, ◌&&◌, ◌||◌}
pub use mathlib.Core.Option.{Option, none, some}
pub use mathlib.Core.List.{List, [], ◌∷◌, ◌++◌, map}
pub use native.Mathlib.Omega.{arith}
pub use text.Mathlib.Text.{◌==◌}
pub use text.Mathlib.TextEquality.{eq_iff}
pub use text.Mathlib.TextPositions.{eq_refl}
