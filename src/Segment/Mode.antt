-- ===== src/Segment/Mode.antt =====
-- The table of vr4300/segment.c that tells whether the processor is in a 64-bit mode, against the
-- formula of the checks of a debug build.
use cmips_cen.Base.{
  ℕ, ◌/◌, ◌%◌, ◌^◌, ◌<◌, ◌≡◌, refl, ap, arith, Bool, false, not, ◌&&◌, ◌||◌, ◌==◌, get_elem?, bit,
  none, some, ◌∙◌,
}
use cmips_cen.Base.Finite.{all_below, all_below-true, same, same-true}
use cmips_cen.Segment.{segment_mode, segment_mode_lut}

-- `kernel`, `supervisor` and `user` of `get_segment`, from EXL or ERL and the two bits KSU
abbrev pub level : ℕ → Bool
level s = bit 1 s || bit 2 s

abbrev pub kernel : ℕ → Bool
kernel s = level s || s / 2 ^ 3 % 2 ^ 2 == 0

abbrev pub supervisor : ℕ → Bool
supervisor s = not (level s) && s / 2 ^ 3 % 2 ^ 2 == 1

abbrev pub user : ℕ → Bool
user s = not (level s) && s / 2 ^ 3 % 2 ^ 2 == 2

-- `use_64`
abbrev pub use_64 : ℕ → Bool
use_64 s = kernel s && bit 7 s || (supervisor s && bit 6 s || user s && bit 5 s)

mode_below : (k : ℕ) → k < 256 → segment_mode k ≡ use_64 k
unfolding segment_mode segment_mode_lut all_below same bit
mode_below k h =
    same-true (segment_mode k) (use_64 k)
      (all_below-true 256 k (λ i. same (segment_mode i) (use_64 i)) refl h)

use_64_mod : (s : ℕ) → use_64 (s % 2 ^ 8) ≡ use_64 s
unfolding bit
use_64_mod s =
    let b1 : s % 2 ^ 8 / 2 ^ 1 % 2 ≡ s / 2 ^ 1 % 2 = omega arith in
    let b2 : s % 2 ^ 8 / 2 ^ 2 % 2 ≡ s / 2 ^ 2 % 2 = omega arith in
    let ksu : s % 2 ^ 8 / 2 ^ 3 % 2 ^ 2 ≡ s / 2 ^ 3 % 2 ^ 2 = omega arith in
    let b5 : s % 2 ^ 8 / 2 ^ 5 % 2 ≡ s / 2 ^ 5 % 2 = omega arith in
    let b6 : s % 2 ^ 8 / 2 ^ 6 % 2 ≡ s / 2 ^ 6 % 2 = omega arith in
    let b7 : s % 2 ^ 8 / 2 ^ 7 % 2 ≡ s / 2 ^ 7 % 2 = omega arith in
    rw (b1, b2, ksu, b5, b6, b7) refl

-- For every value of Status the table has an entry, and it says 64-bit exactly if the processor is in
-- kernel, supervisor or user mode with the bit KX, SX or UX of that mode set.
pub segment_mode-use_64 : (status : ℕ) → segment_mode status ≡ use_64 status
unfolding segment_mode bit
segment_mode-use_64 status =
    let low = status % 2 ^ 8 in
    ap (λ k. elim (get_elem? segment_mode_lut k) [ none ↦ false | some wide ↦ wide ])
      (let e : low ≡ low % 2 ^ 8 = omega arith in e)
    ∙ mode_below low (omega arith)
    ∙ use_64_mod status
