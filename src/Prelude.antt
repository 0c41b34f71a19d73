-- ===== src/Prelude.antt =====
-- The names that the other modules share: the libraries', passed on, and those of the children.
mod Tests
mod Lists
mod Bits
mod Xor
mod Panic
pub mod Assoc
pub use Tests.*
pub use Lists.*
pub use Bits.*
pub use Xor.*
pub use Panic.*
pub use Prim.Native.Nat.{ℕ, zero, suc, ◌+◌, ◌-◌, ◌*◌, ◌/◌, ◌%◌, ◌^◌, ◌≤◌, ◌<◌, min, bit_or, bit_xor}
pub use mathlib.Core.Path.{◌≡◌, refl, sym, ap, ap₂, fun_ext, ◌∙◌, subst, ◌≡⟨◌⟩◌, ◌∎}
pub use mathlib.Core.Logic.{◌≢◌, ◌↔◌, ◌⊎◌, inl, inr}
pub use mathlib.Core.Bool.{Bool, true, false}
unfoldable pub use mathlib.Core.Bool.{not, ◌&&◌, ◌||◌, xor}
pub use mathlib.Core.Option.{Option, none, some}
pub use mathlib.Core.List.{
  List, [], ◌∷◌, ◌++◌, map, reverse, append-nil, append_assoc, reverse-append, reverse-cons,
}
unfoldable pub use mathlib.Core.List.{flatten}
pub use native.Mathlib.Omega.{arith}
unfoldable pub use native.Mathlib.Decide.{dec_lt, dec_le, ℕ_discrete}
