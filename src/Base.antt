-- ===== src/Base.antt =====
-- The names that the other modules share.
pub mod Bits
pub mod Finite
pub mod Lists
pub mod Tests
pub mod Word
pub use Lists.*
pub use Tests.{
  ltb, leb, ◌==◌, if◌then◌else◌, ==_iff, ltb→lt, leb→le, Bool-cases, if_ind, if_cases,
  update-update, update_self, update_ne,
}
pub use Word.{u8, u16, u32, u64, sub32, sub64, field, sext8, sext16, sext32_64, lt_s32}
unfoldable pub use Tests.{update}
unfoldable pub use Word.{bit, set_bit, clear_bit}
pub use Prim.Native.Nat.{
  ℕ, zero, suc, ◌+◌, ◌-◌, ◌*◌, ◌/◌, ◌%◌, ◌^◌, ◌≤◌, ◌<◌, bit_and, bit_or, bit_xor,
}
pub use mathlib.Core.Path.{◌≡◌, refl, sym, ap, ap₂, subst, ◌∙◌, fun_ext}
pub use mathlib.Core.Logic.{◌≢◌, ◌↔◌, ◌⊎◌, inl, inr}
pub use mathlib.Core.Bool.{Bool, true, false, not, ◌&&◌, ◌||◌}
pub use mathlib.Core.Option.{Option, none, some}
pub use mathlib.Core.List.{List, [], ◌∷◌, ◌++◌, map}
pub use native.Mathlib.Omega.{arith}
