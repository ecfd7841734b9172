-- ===== src/Prelude.antt =====
-- The names that the other modules share: the libraries' names passed on, the tests and lists over
-- the native numbers, and, in modules of their own, methods on a state that may fail, the bit
-- operations of machine words, and facts about bytes that are checked by evaluation.
mod Tests
mod Lists
mod State
pub mod Bits
pub mod Table
pub use Tests.*
pub use Lists.*
pub use State.*
pub use Prim.Native.Nat.{
  ℕ, zero, suc, ◌+◌, ◌-◌, ◌*◌, ◌/◌, ◌%◌, ◌^◌, ◌≤◌, ◌<◌, min, max, bit_and, bit_or, bit_xor,
}
pub use mathlib.Core.Path.{◌≡◌, refl, sym, ap, ap₂, ◌∙◌, ◌≡⟨◌⟩◌, ◌∎, fun_ext}
pub use mathlib.Core.Logic.{◌≢◌, ◌↔◌, ◌⊎◌, inl, inr}
pub use mathlib.Core.Bool.{Bool, true, false, not, ◌&&◌, ◌||◌}
pub use mathlib.Core.Option.{Option, none, some}
pub use mathlib.Core.List.{List, [], ◌∷◌, ◌++◌, map, append-nil, append_assoc}
pub use native.Mathlib.Omega.{arith}
