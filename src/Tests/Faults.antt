-- ===== src/Tests/Faults.antt =====
-- Exceptions and the data cache of the small processor
use cmips_cen.Base.{ℕ, ◌%◌, ◌^◌, ◌<◌, ◌≡◌, refl, arith, true, false, some, bit, if◌then◌else◌}
use cmips_cen.Segment.{useg}
use cmips_cen.Vr4300.Cp0.{vr4300_eret}
use cmips_cen.Vr4300.Cp0.Eret.{eret-Taken}
use cmips_cen.Vr4300.Dcache
use cmips_cen.Vr4300.Fault.{
  in_bd_slot, vr4300_cpu, vr4300_trap, vr4300_intr, vr4300_wat, vr4300_dtlb, vr4300_itlb,
}
use cmips_cen.Vr4300.Fault.Coherence.{refill-IsCoherent}
use cmips_cen.Vr4300.Fault.View.{IsCoherent, load_word}
use cmips_cen.Vr4300.Fault.Exceptions.{Taken, exceptions-Taken}
use cmips_cen.Vr4300.Fault.Refill.{refill}
use cmips_cen.Vr4300.Fault.TlbFaults.{TlbTaken, tlb_faults}
use cmips_cen.Vr4300.State.{Vr4300, blocked, cp0_status, fault_dtlb, fault_itlb}
use cmips_cen.Tests.Processor.{latch, processor}

only_first :
    (k : ℕ)
    → Dcache.is_valid (processor.dcache k) ≡ true
    → (k ≡ 0) × (Dcache.is_dirty (processor.dcache k) ≡ true)
unfolding Dcache.is_valid Dcache.is_dirty bit
only_first k v = ground arith

processor-IsCoherent : IsCoherent processor
processor-IsCoherent = record {
  inside = λ k h v. let first = (only_first k v).0 in ground (arith, first);
  clean = λ k i h l v d. absurd (let dirty = (only_first k v).1 in cc);
  words = λ k j. omega arith;
  bytes = λ a. omega arith;
  room = omega arith;
}

-- The refill evicts the dirty line.
refill-IsCoherent_example :
    (c' : Vr4300) × (refill 0x2000 0x2000 processor ≡ some c')
    × IsCoherent c'
    × ((a i : ℕ) → i < 4 → a % 2 ^ 4 ≡ 0 → load_word c' a i ≡ load_word processor a i)
refill-IsCoherent_example =
    refill-IsCoherent 0x2000 0x2000 processor processor-IsCoherent refl (omega arith)

exceptions-Taken_example :
    Taken (latch 0x1004) 0x2C processor (vr4300_cpu processor)
    × Taken (latch 0x1004) 0x34 processor (vr4300_trap processor)
    × Taken (latch 0x1000) 0 processor (vr4300_intr processor)
    × Taken (latch 0x1000) 0x5C processor (vr4300_wat processor)
exceptions-Taken_example = exceptions-Taken processor

-- A load from an address that the TLB does not have, outside of any exception
tlb_faults_example :
    ((c' : Vr4300) × (vr4300_dtlb true false processor ≡ some c')
      × TlbTaken
          (record (latch 0x1004) { fault = fault_dtlb })
          useg
          true
          0x1234
          2
          processor.regs
          c')
    × ((c' : Vr4300) × (vr4300_itlb true processor ≡ some c')
        × TlbTaken
            (record (latch 0x100C) { fault = fault_itlb })
            useg
            true
            0x100C
            2
            processor.regs
            c')
tlb_faults_example = tlb_faults processor useg useg true false refl refl

level_clear : (bit 1 0x400 ≡ false) × (bit 2 0x400 ≡ false)
unfolding bit
level_clear = (refl, refl)

cpu-Taken : Taken (latch 0x1004) 0x2C processor (vr4300_cpu processor)
cpu-Taken = (exceptions-Taken processor).0

eret-Taken_example :
    (r : Vr4300) × (vr4300_eret 0 0 0 (vr4300_cpu processor) ≡ blocked r)
    × (r.pipeline.icrf_latch.pc ≡ (if in_bd_slot (latch 0x1004) then 0x1000 else 0x1004))
    × (r.regs cp0_status ≡ 0x400)
    × ((n : ℕ) → n < 32 → r.regs n ≡ processor.regs n)
eret-Taken_example =
    eret-Taken (latch 0x1004) 0x2C 0 0 0 processor (vr4300_cpu processor) cpu-Taken level_clear.0
      level_clear.1
