-- ===== src/Base.antt =====
-- The names that the other modules share: those of the libraries, passed on, and those of five
-- children: tests and conditionals, lists by native numbers, C outcomes, machine integers, and
-- words. The sixth child, on buffers, is used by its own name.
mod Tests
mod Lists
mod Outcomes
mod Longs
mod Words
pub mod Buffers
pub use Tests.*
pub use Lists.*
pub use Outcomes.*
pub use Longs.*
unfoldable pub use Words.*
pub use Prim.Native.Nat.{ℕ, zero, suc, ◌+◌, ◌-◌, ◌*◌, ◌/◌, ◌%◌, ◌^◌, ◌≤◌, ◌<◌, min}
pub use mathlib.Core.Path.{◌≡◌, refl, sym, ap, ◌∙◌, subst}
pub use mathlib.Core.Logic.{◌≢◌, ◌↔◌, ◌⊎◌, inl, inr}
pub use mathlib.Core.Bool.{Bool, true, false, not, ◌&&◌, ◌||◌}
pub use mathlib.Core.Option.{Option, none, some}
pub use mathlib.Core.List.{List, [], ◌∷◌, ◌++◌, map}
pub use native.Mathlib.Omega.{arith}
