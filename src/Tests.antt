-- ===== src/Tests.antt =====
-- A small machine, on which the theorems are tried.
mod ArchEntries
mod Control
mod Loader
mod Segments
mod Serial
mod Steps
mod Words
mod Pages
pub mod Processor
mod Faults
mod Buses
mod Caches
mod Pipes
use cmips_cen.Base.{ℕ, false, [], ◌==◌, if◌then◌else◌}
use cmips_cen.Machine.{Mips}
use cmips_cen.Emu.Exception.{blank_entry, blank_uart}

-- 256 bytes of memory with a `jal 0x100` and an `addiu v0, zero, 5`, about to run the first in
-- kseg0 with all interrupts disabled
abbrev pub machine : Mips
machine = record {
  mem = λ i. if i == 0 then 0x0c000040 else if i == 1 then 0x24020005 else 0;
  pmemsz = 256;
  shutdown = false;
  pc = 0x80000000;
  regs = λ _. 0;
  hi = 0;
  lo = 0;
  delaypc = 0;
  in_delay_slot = false;
  exception_occured = false;
  llbit = 0;
  cp0 = record {
    index = 0;
    entry_hi = 0;
    entry_lo0 = 0;
    entry_lo1 = 0;
    context = 0;
    wired = 0;
    status = 0;
    epc = 0;
    bad_vaddr = 0;
    error_epc = 0;
    cause = 0;
    page_mask = 0;
    count = 0;
    compare = 0;
  };
  waiting = false;
  serial = blank_uart;
  tlb = record { entries = λ _. blank_entry; exception_was_no_match = false };
  counter = 0;
  console = [];
}

abbrev pub with_status : ℕ → Mips
with_status v = record machine { cp0 = record (machine.cp0) { status = v } }
