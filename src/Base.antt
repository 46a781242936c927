-- ===== src/Base.antt =====
-- The names that the other modules share: the libraries', passed on, and the helpers of the
-- children: tests on numbers, lists, results that may panic, signed integers and machine words.
mod Tests
mod Lists
pub mod Panics
pub mod Results
pub mod Int
pub mod U64
pub mod U128
pub mod I64
pub use Tests.*
pub use Lists.*
pub use Panics.*
pub use Prim.Native.Nat.{ℕ, zero, suc, ◌+◌, ◌-◌, ◌*◌, ◌/◌, ◌%◌, ◌^◌, ◌≤◌, ◌<◌, min, max}
pub use mathlib.Core.Path.{◌≡◌, refl, sym, ap, ◌∙◌, subst}
pub use mathlib.Core.Logic.{◌≢◌, ◌↔◌, ◌⊎◌, inl, inr}
pub use mathlib.Core.Bool.{Bool, true, false, ◌&&◌, ◌||◌, not}
pub use mathlib.Core.Option.{Option, none, some}
pub use mathlib.Core.List.{List, [], ◌∷◌, ◌++◌, map}
pub use native.Mathlib.Omega.{arith}
