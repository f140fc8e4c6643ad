-- ===== src/Vr4300/Cp0/Eret.antt =====
-- vr4300/cp0.c: the return from an exception.
use cmips_cen.Base.{
  ℕ, ◌<◌, ◌≡◌, refl, arith, false, if◌then◌else◌, sub64, sext32_64, bit, set_bit, clear_bit,
}
use cmips_cen.Vr4300.Cp0.{vr4300_eret}
use cmips_cen.Vr4300.Fault.{in_bd_slot}
use cmips_cen.Vr4300.Fault.Exceptions.{Taken}
use cmips_cen.Vr4300.State.{Vr4300, Latch, blocked, state_of, cp0_status}

-- A return from an exception that was taken outside of any, with no change of the registers that the
-- exception set, goes on at the instruction that was interrupted, or at the branch before it if that
-- stood in a delay slot, with the Status register as it was and the general registers as they were.
pub eret-Taken :
    (l : Latch) (code iw rs rt : ℕ) (c c' : Vr4300)
    → Taken l code c c'
    → bit 1 (c.regs cp0_status) ≡ false
    → bit 2 (c.regs cp0_status) ≡ false
    → (r : Vr4300) × (vr4300_eret iw rs rt c' ≡ blocked r)
      × (r.pipeline.icrf_latch.pc ≡ (if in_bd_slot l then sub64 l.pc 4 else l.pc))
      × (r.regs cp0_status ≡ sext32_64 (c.regs cp0_status))
      × ((n : ℕ) → n < 32 → r.regs n ≡ c.regs n)
unfolding vr4300_eret bit set_bit clear_bit
eret-Taken l code iw rs rt c c' t exl erl =
    let level = t.level in
    let saved = t.epc in
    let kept = t.others in
    (
      state_of c' (vr4300_eret iw rs rt c'),
      refl,
      ground (arith, level, saved),
      ground (arith, level, saved),
      λ n lt.
          let same = kept n (omega arith) (omega arith) (omega arith) (omega arith) in
          ground (arith, same),
    )
