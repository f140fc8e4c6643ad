-- ===== src/Emu/Step.antt =====
-- src/emu.c: `step_mips`, one instruction of the interpreter.
pub mod Clean
pub mod Slot
pub mod Timer
use cmips_cen.Base.{ℕ, ◌+◌, Bool, false, ◌==◌, if◌then◌else◌, u32}
use cmips_cen.Machine.{Mips, ok, M, ◌>>=◌, ◌>>◌, modify, trigger_external_interrupt}
use cmips_cen.Emu.Exception.{handle_exception, handle_interrupts}
use cmips_cen.Emu.Regs.{set_reg}
use cmips_cen.Emu.Access.{read_virt_word}
use cmips_cen.Emu.Doop.{doop}

-- `emu->CP0_Count++`, and the interrupt of the timer where it meets Compare
unfoldable pub tick : Mips → Mips
tick m =
    let count' = u32 (m.cp0.count + 1) in
    let m' = record m { cp0 = record (m.cp0) { count = count' } } in
    if count' == m.cp0.compare then trigger_external_interrupt 5 m' else m'

-- The end of the step once the instruction has run
unfoldable pub retire : Bool → Mips → Mips
retire start_in_delay_slot m =
    if m.exception_occured
    then handle_exception start_in_delay_slot m
    else if start_in_delay_slot
    then record m { pc = m.delaypc; in_delay_slot = false }
    else record m { pc = u32 (m.pc + 4) }

-- `doop(emu,opcode); emu->regs[0] = 0;` and the rest
unfoldable pub run_opcode : Bool → ℕ → M (Unit {0})
run_opcode start_in_delay_slot opcode = do
  doop opcode
  modify (set_reg 0 0)
  modify (retire start_in_delay_slot)

-- The fetch and what follows it
unfoldable pub fetch_and_run : M (Unit {0})
fetch_and_run m =
    let start_in_delay_slot = m.in_delay_slot in
    (do
      opcode ← read_virt_word m.pc
      λ m'.
          if m'.exception_occured
          then ok tt (handle_exception start_in_delay_slot m')
          else run_opcode start_in_delay_slot opcode m')
      m

-- `step_mips`
unfoldable pub step_mips : M (Unit {0})
step_mips m =
    if m.shutdown
    then ok tt m
    else (let (interrupted, m1) = handle_interrupts (tick m) in
        if interrupted then ok tt m1 else if m1.waiting then ok tt m1 else fetch_and_run m1)
