-- ===== src/Tests/Steps.antt =====
-- Steps, exceptions and the timer on the small machine
use cmips_cen.Base.{
  if◌then◌else◌, ℕ, ◌==◌, ◌+◌, ◌≡◌, refl, arith, true, false, ◌&&◌, ◌||◌, leb, bit, sub32, u32,
}
use cmips_cen.Machine.{Mips, ok, ◌>>◌}
use cmips_cen.Emu.Exception.{
  handle_exception, handle_interrupts, op_eret, raise, set_exception_code, get_exception_code,
}
use cmips_cen.Emu.Exception.Return.{eret-handle_exception}
use cmips_cen.Emu.Regs.{set_reg}
use cmips_cen.Emu.Doop.{doop, op_syscall, find_case, major_cases, special_cases}
use cmips_cen.Emu.Doop.Decode.{decode}
use cmips_cen.Emu.Doop.Decode.Dispatch.{doop-decode}
use cmips_cen.Emu.Step.{run_opcode, step_mips}
use cmips_cen.Emu.Step.Clean.{IsClean, Returns, step_mips-IsClean}
use cmips_cen.Emu.Step.Slot.{IsRunning, run_opcode-precise, step_mips-step_mips_jal}
use cmips_cen.Emu.Step.Timer.{ticks, timer_pending, ticks_pending}
use cmips_cen.Tests.{machine}

step_mips-IsClean_example : Returns IsClean (step_mips machine)
step_mips-IsClean_example =
    step_mips-IsClean machine (record { zero_register = refl; no_exception = refl })

doop-decode_example : doop 0x24020005 ≡ decode 0x24020005
doop-decode_example = doop-decode 0x24020005

machine-IsRunning : IsRunning machine 0
unfolding bit
machine-IsRunning = record {
  on = refl;
  awake = refl;
  masked = refl;
  quiet = refl;
  at = refl;
  aligned = refl;
  in_memory = omega arith;
  low = omega arith;
}

step_mips-step_mips_jal_example :
    (m' : Mips) × ((step_mips >> step_mips) machine ≡ ok tt m')
    × (m'.pc ≡ 0x80000100)
    × (m'.in_delay_slot ≡ false)
    × ((r : ℕ)
        → m'.regs r ≡ (
            if r == 0
            then 0
            else if r == 2
            then 5
            else if r == 0
            then 0
            else if r == 31
            then 0x80000008
            else 0))
    × (m'.mem ≡ machine.mem)
step_mips-step_mips_jal_example =
    step_mips-step_mips_jal machine 0 machine-IsRunning refl (omega arith) (omega arith) refl refl

-- The machine after a `syscall`
abbrev called : Mips
called = raise 8 machine

doop-syscall : doop 12 machine ≡ ok tt called
unfolding doop find_case major_cases special_cases op_syscall
doop-syscall = refl

called-raised : (called.exception_occured ≡ true) × (bit 1 called.cp0.status ≡ false)
unfolding raise set_exception_code bit
called-raised = (refl, refl)

run_opcode-precise_example :
    (m' : Mips) × (run_opcode true 12 machine ≡ ok tt m')
    × (m'.cp0.epc ≡ sub32 called.pc 4)
    × (bit 31 m'.cp0.cause ≡ true)
    × (get_exception_code m' ≡ get_exception_code called)
    × (bit 1 m'.cp0.status ≡ true)
    × (m'.exception_occured ≡ false)
    × (m'.in_delay_slot ≡ false)
    × (m'.regs ≡ (set_reg 0 0 called).regs)
run_opcode-precise_example =
    run_opcode-precise true 12 machine called doop-syscall called-raised.0 called-raised.1

bits_clear : (bit 1 0 ≡ false) × (bit 2 0 ≡ false)
unfolding bit
bits_clear = (refl, refl)

eret-handle_exception_example :
    let r = op_eret (handle_exception true machine) in
    (u32 (r.pc + 4) ≡ sub32 machine.pc 4)
    × (r.cp0.status ≡ 0)
    × (r.regs ≡ machine.regs)
    × (r.in_delay_slot ≡ false)
    × (r.exception_occured ≡ false)
    × (r.llbit ≡ 0)
eret-handle_exception_example =
    eret-handle_exception true machine bits_clear.0 bits_clear.1 (omega arith)

exl_set : bit 1 2 ≡ true
unfolding bit
exl_set = refl

-- An interrupt of the timer that is let through
abbrev interrupted : Mips
interrupted = record machine {
  waiting = true;
  cp0 = record (machine.cp0) { status = 0x8001; cause = 0x8000 };
}

interrupted-served : (handle_interrupts interrupted).0 ≡ true
unfolding handle_interrupts bit
interrupted-served = refl

-- Compare is three ticks ahead of Count, across the wrap.
abbrev timed : Mips
timed = record machine { cp0 = record (machine.cp0) { count = 0xffffffff; compare = 2 } }

ticks_pending_example :
    timer_pending (ticks 3 timed)
    ≡ timer_pending timed || (leb 1 (sub32 2 0xffffffff) && leb (sub32 2 0xffffffff) 3)
ticks_pending_example = ticks_pending 3 timed (omega arith) (omega arith) (omega arith)
