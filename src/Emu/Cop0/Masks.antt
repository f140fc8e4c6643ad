-- ===== src/Emu/Cop0/Masks.antt =====
-- The registers of coprocessor 0 that `op_mtc0` of src/emu.c writes under a mask.
use cmips_cen.Base.{
  ℕ, ◌-◌, ◌/◌, ◌%◌, ◌^◌, ◌<◌, ◌≡◌, refl, ap, ap₂, ◌∙◌, arith, Bool, true, false, not, ◌&&◌, ◌||◌,
  ◌==◌, if◌then◌else◌, bit, bit_and, clear_bit,
}
use cmips_cen.Base.Finite.{all_below, all_below-true, same, same-true}
use cmips_cen.Base.Bits.{bit-bit_or, bit-bit_and, bit_complement}
use cmips_cen.Machine.{Mips, ok, clear_external_interrupt}
use cmips_cen.Emu.Regs.{get_rt, rd_of}
use cmips_cen.Emu.Cop0.{
  sel_of, status_mask, cause_mask, masked_write, context_write, cp0_write, op_mtc0,
}

-- A bit under the mask is the new one, any other the old one.
choose_bit : (c a b : Bool) → (a && not c) || (b && c) ≡ (if c then b else a)
choose_bit true true true = refl
choose_bit true true false = refl
choose_bit true false true = refl
choose_bit true false false = refl
choose_bit false true true = refl
choose_bit false true false = refl
choose_bit false false true = refl
choose_bit false false false = refl

bit-masked_write :
    (k mask old rt : ℕ)
    → k < 32
    → mask < 2 ^ 32
    → bit k (masked_write mask old rt) ≡ (if bit k mask then bit k rt else bit k old)
bit-masked_write k mask old rt h b =
    bit-bit_or k (bit_and old (2 ^ 32 - 1 - mask)) (bit_and rt mask)
    ∙ ap₂ ◌||◌
        (bit-bit_and k old (2 ^ 32 - 1 - mask)
          ∙ ap (λ c. bit k old && c) (bit_complement 32 k mask h b))
        (bit-bit_and k rt mask)
    ∙ choose_bit (bit k mask) (bit k old) (bit k rt)

-- A write of Status changes the bits of its mask to those of the register, and no other bit of it
-- and nothing else in the machine.
pub op_mtc0_status :
    (op k : ℕ) (m : Mips)
    → rd_of op ≡ 12
    → sel_of op ≡ 0
    → k < 32
    → (status' : ℕ) × (op_mtc0 op m
        ≡ ok tt (record m { cp0 = record (m.cp0) { status = status' } }))
      × (bit k status' ≡ (if bit k status_mask then bit k (get_rt op m) else bit k m.cp0.status))
unfolding op_mtc0 cp0_write
op_mtc0_status op k m rd sel h = (
  masked_write status_mask m.cp0.status (get_rt op m),
  rw (rd, sel) refl,
  bit-masked_write k status_mask m.cp0.status (get_rt op m) h (omega arith),
)

abbrev pub writable : ℕ → Bool
writable k = (k == 8 || k == 9) || (k == 22 || k == 23)

bit-cause_mask : (k : ℕ) → k < 32 → bit k cause_mask ≡ writable k
unfolding bit same all_below
bit-cause_mask k h =
    same-true (bit k cause_mask) (writable k)
      (all_below-true 32 k (λ i. same (bit i cause_mask) (writable i)) refl h)

-- A write of Cause changes the two software interrupts and the bits IV and WP at most: the lines of
-- the hardware interrupts, the exception code and BD are as before, and so is the rest of the
-- machine.
pub op_mtc0_cause :
    (op k : ℕ) (m : Mips)
    → rd_of op ≡ 13
    → sel_of op ≡ 0
    → k < 32
    → (cause' : ℕ) × (op_mtc0 op m ≡ ok tt (record m { cp0 = record (m.cp0) { cause = cause' } }))
      × (bit k cause' ≡ (
          if (k == 8 || k == 9) || (k == 22 || k == 23)
          then bit k (get_rt op m)
          else bit k m.cp0.cause))
unfolding op_mtc0 cp0_write
op_mtc0_cause op k m rd sel h = (
  masked_write cause_mask m.cp0.cause (get_rt op m),
  rw (rd, sel) refl,
  bit-masked_write k cause_mask m.cp0.cause (get_rt op m) h (omega arith)
      ∙ ap (λ b. if b then bit k (get_rt op m) else bit k m.cp0.cause) (bit-cause_mask k h),
)

absorb : (o c r : Bool) → o && (if c then r else o) ≡ o && (if c then r else true)
absorb true c r = refl
absorb false c r = refl

-- A write of Context never sets a bit: the low 23 bits stay, and each bit of the page table's base is
-- kept only if it is also set in the register, so that no base is reached but by clearing.
pub op_mtc0_context :
    (op k : ℕ) (m : Mips)
    → rd_of op ≡ 4
    → k < 32
    → (context' : ℕ) × (op_mtc0 op m
        ≡ ok tt (record m { cp0 = record (m.cp0) { context = context' } }))
      × (bit k context'
          ≡ bit k m.cp0.context && (if bit k 0xff800000 then bit k (get_rt op m) else true))
unfolding op_mtc0 cp0_write context_write
op_mtc0_context op k m rd h =
    let old = m.cp0.context in
    let rt = get_rt op m in
    (
      context_write old rt,
      rw rd refl,
      bit-bit_and k old (masked_write 0xff800000 old rt)
          ∙ ap (λ b. bit k old && b) (bit-masked_write k 0xff800000 old rt h (omega arith))
          ∙ absorb (bit k old) (bit k 0xff800000) (bit k rt),
    )

-- A write of Compare acknowledges the interrupt of the timer: its line falls, Compare is the
-- register, and the other bits of Cause stay.
pub op_mtc0_compare :
    (op : ℕ) (m : Mips)
    → rd_of op ≡ 11
    → sel_of op ≡ 0
    → (cause' : ℕ) × (op_mtc0 op m
        ≡ ok tt (record m { cp0 = record (m.cp0) { cause = cause'; compare = get_rt op m } }))
      × (bit 15 cause' ≡ false)
      × (cause' % 2 ^ 15 ≡ m.cp0.cause % 2 ^ 15)
      × (cause' / 2 ^ 16 ≡ m.cp0.cause / 2 ^ 16)
unfolding op_mtc0 clear_external_interrupt clear_bit bit
op_mtc0_compare op m rd sel =
    (clear_bit 15 m.cp0.cause, rw (rd, sel) refl, ground arith, ground arith, ground arith)
