-- ===== src/Base.antt =====
-- The names that the modules share: those of the libraries, passed on, and those of the children:
-- Boolean tests (Tests), lists measured by native numbers (Lists), Python's exceptions as values
-- (Errors) keyed tables (Table), text over code points (Text)
-- sorting (Sort) and queries (Select).
mod Tests
mod Lists
pub mod Errors
pub mod Table
pub mod Text
pub mod Sort
pub mod Select
unfoldable pub use Tests.*
unfoldable pub use Lists.*
pub use Prim.Native.Nat.{ℕ, zero, suc, ◌+◌, ◌-◌, ◌*◌, ◌/◌, ◌%◌, ◌^◌, ◌≤◌, ◌<◌}
pub use Prim.Native.String.{String}
pub use mathlib.Core.Path.{◌≡◌, refl, sym, ap, ◌∙◌}
pub use mathlib.Core.Logic.{◌≢◌, ◌↔◌, ◌⊎◌, inl, inr}
pub use mathlib.Core.Bool.{Bool, true, false, not, ◌&&◌, ◌||◌}
pub use mathlib.Core.Option.{Option, none, some}
pub use mathlib.Core.List.{List, [], ◌∷◌, ◌++◌, map}
pub use native.Mathlib.Omega.{arith}
pub use text.Mathlib.Text.{◌==◌ as str_eq}
pub use text.Mathlib.TextEquality.{eq_iff as str_eq_iff}
