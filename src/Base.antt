-- ===== src/Base.antt =====
-- Shared vocabulary: the library names that every module uses, Boolean tests, lists over the
-- native numbers, machine words, bit operations and the result type of C code.
mod Tests
mod Lists
mod Words
mod Result
mod Buffer
mod Options
pub mod Bits
pub use Tests.*
pub use Lists.*
pub use Words.*
pub use Result.*
pub use Options.*
unfoldable pub use Buffer.{splice, write_buf, read_buf}
pub use Buffer.{
  splice-append, splice-behind, splice-across, length-splice, splice-splice, splice-nil,
  write_buf-done, read_buf-done,
}
pub use Prim.Native.Nat.{
  ℕ, zero, suc, ◌+◌, ◌-◌, ◌*◌, ◌/◌, ◌%◌, ◌^◌, ◌≤◌, ◌<◌, min, max, bit_and, bit_or, bit_xor,
}
pub use mathlib.Core.Path.{◌≡◌, refl, sym, subst, ap, ap₂, ◌∙◌, fun_ext}
pub use mathlib.Core.Logic.{◌≢◌, ◌↔◌, ◌⊎◌, inl, inr}
pub use mathlib.Core.Bool.{Bool, true, false, ◌&&◌, ◌||◌, not}
pub use mathlib.Core.Option.{Option, none, some}
pub use mathlib.Core.List.{List, [], ◌∷◌, ◌++◌, map, append_assoc, append-nil}
pub use native.Mathlib.Omega.{arith}
