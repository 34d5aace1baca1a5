-- ===== src/Prelude.antt =====
-- The names that all components share: the libraries', passed on, and those of the children.
mod Tests
mod Lists
mod Words
mod Floats
pub mod Text
pub mod Dict
pub mod Trim
pub mod Bytes
pub mod Int
pub mod Split
pub mod Decimal
pub use Tests.*
pub use Lists.*
pub use Words.*
pub use Floats.*
pub use Prim.Native.Nat.{ℕ, zero, suc, ◌+◌, ◌-◌, ◌*◌, ◌/◌, ◌%◌, ◌^◌, ◌≤◌, ◌<◌, min, max}
pub use mathlib.Core.Path.{◌≡◌, refl, sym, ap, subst, ◌∙◌}
pub use mathlib.Core.Logic.{◌≢◌, ◌↔◌, ◌⊎◌, inl, inr}
pub use mathlib.Core.Bool.{Bool, true, false, not, ◌&&◌, ◌||◌}
pub use mathlib.Core.Option.{Option, none, some}
pub use mathlib.Core.List.{List, [], ◌∷◌, ◌++◌, map}
pub use native.Mathlib.Omega.{arith}
