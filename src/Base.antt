-- ===== src/Base.antt =====
-- The names that every module shares: the libraries', passed on, the tests of C, byte strings
-- as lists, and wrapping machine arithmetic.
mod Tests
mod Lists
mod Word
mod Errors
mod Outcomes
mod Ints
pub use Tests.*
pub use Lists.*
unfoldable pub use Lists.{check_all}
pub use Word.*
pub use Errors.*
pub use Outcomes.*
pub use Ints.*
pub use Prim.Native.Nat.{ℕ, zero, suc, ◌+◌, ◌-◌, ◌*◌, ◌/◌, ◌%◌, ◌^◌, ◌≤◌, ◌<◌, min}
pub use Prim.Native.Nat.{bit_and, bit_or, bit_xor}
pub use mathlib.Core.Path.{◌≡◌, refl, sym, ap, ◌∙◌}
pub use mathlib.Core.Logic.{◌≢◌, ◌↔◌, ◌⊎◌, inl, inr}
pub use mathlib.Core.Bool.{Bool, true, false, not, ◌&&◌, ◌||◌}
pub use mathlib.Core.Option.{Option, none, some}
pub use mathlib.Core.List.{List, [], ◌∷◌, ◌++◌, append-nil, append_assoc}
pub use native.Mathlib.Omega.{arith}
