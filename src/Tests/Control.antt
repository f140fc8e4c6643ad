-- ===== src/Tests/Control.antt =====
-- Writes of coprocessor 0 on the small machine
use cmips_cen.Base.{ℕ, ◌≡◌, refl, arith, if◌then◌else◌, bit}
use cmips_cen.Machine.{Mips, ok}
use cmips_cen.Emu.Cop0.{op_mtc0}
use cmips_cen.Emu.Cop0.Masks.{op_mtc0_cause, writable}
use cmips_cen.Tests.{machine}

-- Every register holds 0xffff0301, and Cause has the timer's interrupt and a software interrupt.
abbrev filled : Mips
filled = record machine {
  regs = λ _. 0xffff0301;
  cp0 = record (machine.cp0) { cause = 0x8200; context = 0xff800010 };
}

op_mtc0_cause_example :
    (cause' : ℕ) × (op_mtc0 0x40816800 filled
      ≡ ok tt (record filled { cp0 = record (filled.cp0) { cause = cause' } }))
    × (bit 15 cause' ≡ (if writable 15 then bit 15 0xffff0301 else bit 15 0x8200))
op_mtc0_cause_example = op_mtc0_cause 0x40816800 15 filled refl refl (omega arith)
