-- ===== src/Prelude.antt =====
-- The names that all modules share: the libraries', passed on, and those of the children below.
-- No line of the program is modelled here but the types of Go that every component uses.
pub mod Tests
pub mod Lists
pub mod Classes
pub mod GoMap
pub mod Clock
pub mod Float
pub mod Int
pub use Tests.*
unfoldable pub use Lists.*
unfoldable pub use Classes.*
pub use Clock.*
pub use Prim.Native.Nat.{ℕ, zero, suc, ◌+◌, ◌-◌, ◌*◌, ◌/◌, ◌%◌, ◌^◌, ◌≤◌, ◌<◌, min, max}
pub use mathlib.Core.Path.{◌≡◌, refl, sym, ap, ◌∙◌, subst}
pub use mathlib.Core.Logic.{◌≢◌, ◌↔◌, ◌⊎◌, inl, inr}
pub use mathlib.Core.Bool.{Bool, true, false, ◌&&◌, ◌||◌, not}
pub use mathlib.Core.Option.{Option, none, some}
pub use mathlib.Core.List.{List, [], ◌∷◌, ◌++◌, map}
pub use native.Mathlib.Omega.{arith}
