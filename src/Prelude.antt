-- ===== src/Prelude.antt =====
-- The names that the other modules share: library names passed on, Boolean tests, lists measured by
-- native numbers, machine words, and the outcome of code that may fail or panic.
mod Tests
mod Lists
mod Outcomes
mod Words
pub mod Bits
pub mod Xor
pub mod Or
pub use Tests.*
pub use Lists.*
pub use Outcomes.*
unfoldable pub use Words.*
pub use Prim.Native.Nat.{ℕ, zero, suc, ◌+◌, ◌-◌, ◌*◌, ◌/◌, ◌%◌, ◌^◌, ◌≤◌, ◌<◌, compare, Ordering}
pub use mathlib.Core.Path.{◌≡◌, refl, sym, ap, ◌∙◌, subst}
pub use mathlib.Core.Logic.{◌≢◌, ◌↔◌, ◌⊎◌, inl, inr}
pub use mathlib.Core.Bool.{Bool, true, false, not, ◌&&◌, ◌||◌}
pub use mathlib.Core.Option.{Option, none, some}
pub use mathlib.Core.List.{List, [], ◌∷◌, ◌++◌, map}
pub use native.Mathlib.Omega.{arith}
