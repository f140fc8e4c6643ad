-- ===== src/Vr4300/Fault/Exceptions.antt =====
-- vr4300/fault.c: what taking an exception does to the registers.
use cmips_cen.Base.{
  ℕ, ◌+◌, ◌*◌, ◌/◌, ◌%◌, ◌^◌, ◌<◌, ◌≡◌, ◌≢◌, refl, arith, true, if◌then◌else◌, update, u32, sub64,
  field, bit, set_bit, clear_bit,
}
use cmips_cen.Vr4300.Fault.{
  in_bd_slot, with_code, exception_prolog, exception_epilogue, ex_fault, dc_fault, vr4300_cpu,
  vr4300_intr, vr4300_trap, vr4300_wat,
}
use cmips_cen.Vr4300.State.{
  Vr4300, Latch, cp0_status, cp0_cause, cp0_epc, pipeline_cycle_type, fault_cpu, fault_intr,
  fault_wat,
}

-- The processor `c'` has taken an exception with this code from `c`, at the instruction of `l`.
pub record Taken (l : Latch) (code : ℕ) (c c' : Vr4300) : Type 0 where
  pub epc : c'.regs cp0_epc ≡ (
      if bit 1 (c.regs cp0_status)
      then c.regs cp0_epc
      else if in_bd_slot l
      then sub64 l.pc 4
      else l.pc)
  pub branch_delay :
      bit 31 (c'.regs cp0_cause)
      ≡ (if bit 1 (c.regs cp0_status) then bit 31 (c.regs cp0_cause) else in_bd_slot l)
  pub exception_code : c'.regs cp0_cause % 2 ^ 8 ≡ code
  pub pending : field 8 8 (c'.regs cp0_cause) ≡ field 8 8 (c.regs cp0_cause)
  pub level : c'.regs cp0_status ≡ set_bit 1 (u32 (c.regs cp0_status))
  pub vector :
      c'.pipeline.icrf_latch.pc
      ≡ (if bit 22 (c.regs cp0_status) then 0xFFFFFFFFBFC00380 else 0xFFFFFFFF80000180)
  pub slow : c'.pipeline.fault_present ≡ true
  pub history : c'.pipeline.exception_history ≡ 0
  pub stall : c'.pipeline.cycles_to_stall ≡ 2
  pub others :
      (r : ℕ)
      → r ≢ cp0_status
      → r ≢ cp0_cause
      → r ≢ cp0_epc
      → r ≢ pipeline_cycle_type
      → c'.regs r ≡ c.regs r

module _ (l : Latch) (c : Vr4300) (code cause : ℕ) where
  epilogue-Taken :
      bit 31 cause ≡ bit 31 (exception_prolog l c).cause
      → cause % 2 ^ 8 ≡ code
      → field 8 8 cause ≡ field 8 8 (exception_prolog l c).cause
      → Taken l code c
          (exception_epilogue (record (exception_prolog l c) { cause = cause }) 0x180 c)
  unfolding exception_prolog exception_epilogue bit set_bit clear_bit update
  epilogue-Taken top low middle = record {
    epc = ground arith;
    branch_delay = ground arith;
    exception_code = ground arith;
    pending = ground arith;
    level = ground arith;
    vector = ground arith;
    slow = refl;
    history = refl;
    stall = refl;
    others = λ r a b d e. ground arith;
  }

module _ (l : Latch) (c : Vr4300) (code : ℕ) (small : code < 2 ^ 7) where
  code-Taken : Taken l code c (exception_epilogue (with_code code (exception_prolog l c)) 0x180 c)
  unfolding bit
  code-Taken =
      epilogue-Taken l c code ((exception_prolog l c).cause / 2 ^ 8 * 2 ^ 8 + code) (ground arith)
        (omega arith) (omega arith)

-- The faults of the latches are not part of what is taken.
Taken-dc_fault :
    (l : Latch) (fault code : ℕ) (c c' : Vr4300)
    → Taken l code c c'
    → Taken l code c (dc_fault fault c')
unfolding dc_fault
Taken-dc_fault l fault code c c' t = record {
  epc = t.epc;
  branch_delay = t.branch_delay;
  exception_code = t.exception_code;
  pending = t.pending;
  level = t.level;
  vector = t.vector;
  slow = t.slow;
  history = t.history;
  stall = t.stall;
  others = t.others;
}

Taken-ex_fault :
    (fault code : ℕ) (c c' : Vr4300)
    → Taken (ex_fault fault c).pipeline.exdc_latch.common code (ex_fault fault c) c'
    → Taken c.pipeline.exdc_latch.common code c c'
unfolding ex_fault
Taken-ex_fault fault code c c' t = record {
  epc = t.epc;
  branch_delay = t.branch_delay;
  exception_code = t.exception_code;
  pending = t.pending;
  level = t.level;
  vector = t.vector;
  slow = t.slow;
  history = t.history;
  stall = t.stall;
  others = t.others;
}

cpu_cause :
    (x : ℕ)
    → let y = set_bit 28 (x / 2 ^ 8 * 2 ^ 8) + 0x2C in
      (bit 31 y ≡ bit 31 x) × (y % 2 ^ 8 ≡ 0x2C) × (field 8 8 y ≡ field 8 8 x)
unfolding bit set_bit
cpu_cause x = (ground arith, ground arith, ground arith)

-- The coprocessor, trap, interrupt and watch exceptions are precise. Each saves the address of the
-- instruction in its latch, or of the branch before it if the instruction is in a delay slot, and
-- whether it is; inside of an exception both are kept. Each sets its code (11, 13, 0, 23), keeps the
-- pending interrupts, raises the exception level, goes on at the general vector in slow mode after a
-- stall of two cycles, and leaves every other register as it was.
pub exceptions-Taken :
    (c : Vr4300)
    → Taken c.pipeline.exdc_latch.common 0x2C c (vr4300_cpu c)
      × Taken c.pipeline.exdc_latch.common 0x34 c (vr4300_trap c)
      × Taken c.pipeline.dcwb_latch.common 0 c (vr4300_intr c)
      × Taken c.pipeline.dcwb_latch.common 0x5C c (vr4300_wat c)
unfolding vr4300_cpu vr4300_trap vr4300_intr vr4300_wat
exceptions-Taken c =
    let wb = c.pipeline.dcwb_latch.common in
    let faulty = ex_fault fault_cpu c in
    let s = exception_prolog faulty.pipeline.exdc_latch.common faulty in
    let l = faulty.pipeline.exdc_latch.common in
    (
      Taken-ex_fault fault_cpu 0x2C c _ (
          epilogue-Taken l faulty 0x2C (set_bit 28 (s.cause / 2 ^ 8 * 2 ^ 8) + 0x2C)
            (cpu_cause s.cause).0 (cpu_cause s.cause).1 (cpu_cause s.cause).2),
      Taken-ex_fault fault_cpu 0x34 c _ (code-Taken l faulty 0x34 (omega arith)),
      Taken-dc_fault wb fault_intr 0 c _ (code-Taken wb c 0 (omega arith)),
      Taken-dc_fault wb fault_wat 0x5C c _ (code-Taken wb c 0x5C (omega arith)),
    )
