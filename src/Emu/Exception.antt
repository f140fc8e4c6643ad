-- ===== src/Emu/Exception.antt =====
-- src/emu.c: creation, exception codes, entry to the exception handler, interrupts, ERET and the
-- privilege test.
pub mod Return
use cmips_cen.Base.{
  ℕ, ◌+◌, ◌*◌, ◌/◌, ◌%◌, ◌^◌, Bool, true, false, not, [], ◌&&◌, ◌||◌, ◌==◌, if◌then◌else◌, Option,
  none, some, sub32, u32, field, bit, set_bit, clear_bit, bit_and,
}
use cmips_cen.Machine.{TlbEntry, Uart, Mips}
use cmips_cen.Uart.{uart_reset}
use cmips_cen.Emu.Exc

abbrev pub blank_entry : TlbEntry
blank_entry = record {
  vpn2 = 0;
  asid = 0;
  g = false;
  c0 = 0;
  c1 = 0;
  v0 = false;
  v1 = false;
  d0 = false;
  d1 = false;
  pfn0 = 0;
  pfn1 = 0;
}

abbrev pub blank_uart : Uart
blank_uart = record {
  lcr = 0;
  lsr = 0;
  msr = 0;
  iir = 0;
  ier = 0;
  dll = 0;
  dlh = 0;
  fcr = 0;
  mcr = 0;
  scr = 0;
  fifo = λ _. 0;
  fifo_first = 0;
  fifo_last = 0;
  fifo_count = 0;
}

-- `new_mips` when both allocations succeed: `calloc` gives zeros, CP0_Status has ERL set.
unfoldable pub new_mips : ℕ → Option Mips
new_mips phys_mem_size =
    if phys_mem_size % 4 == 0
    then some (
        uart_reset (record {
          mem = λ _. 0;
          pmemsz = phys_mem_size;
          shutdown = false;
          pc = 0xA0000000;
          regs = λ _. 0;
          hi = 0;
          lo = 0;
          delaypc = 0;
          in_delay_slot = false;
          exception_occured = false;
          llbit = 0;
          cp0 = record {
            index = 0;
            entry_hi = 0;
            entry_lo0 = 0;
            entry_lo1 = 0;
            context = 0;
            wired = 0;
            status = 2 ^ 2;
            epc = 0;
            bad_vaddr = 0;
            error_epc = 0;
            cause = 0;
            page_mask = 0;
            count = 0;
            compare = 0;
          };
          waiting = false;
          serial = blank_uart;
          tlb = record { entries = λ _. blank_entry; exception_was_no_match = false };
          counter = 0;
          console = [];
        }))
    else none

-- `getExceptionCode`
unfoldable pub get_exception_code : Mips → ℕ
get_exception_code m = field 2 5 m.cp0.cause

-- `setExceptionCode` replaces bits 2 to 6.
unfoldable pub set_exception_code : ℕ → Mips → Mips
set_exception_code code m =
    let c = m.cp0.cause in
    record m {
      cp0 = record (m.cp0) { cause = c / 2 ^ 7 * 2 ^ 7 + code % 2 ^ 5 * 2 ^ 2 + c % 2 ^ 2 };
    }

-- `emu->exceptionOccured = 1` with the code set, as every operation raises an exception
unfoldable pub raise : ℕ → Mips → Mips
raise code m = set_exception_code code (record m { exception_occured = true })

-- `isKernelMode`
unfoldable pub is_kernel_mode : Mips → Bool
is_kernel_mode m =
    if not (bit 4 m.cp0.status) then true else bit 1 m.cp0.status || bit 2 m.cp0.status

-- The offset that `handleException` computes where EXL is clear.
unfoldable pub vector_offset : ℕ → Mips → ℕ
vector_offset exccode m =
    if exccode == Exc.tlbl || exccode == Exc.tlbs
    then (if not m.tlb.exception_was_no_match then 0x180 else 0)
    else if exccode == Exc.int && bit 23 m.cp0.cause
    then 0x200
    else 0x180

-- The part of `handleException` under `if ((emu->CP0_Status & (1 << CP0St_EXL)) == 0)`.
unfoldable pub save_epc : Bool → Mips → Mips
save_epc in_slot m =
    if in_slot
    then record m { cp0 = record (m.cp0) { epc = sub32 m.pc 4; cause = set_bit 31 m.cp0.cause } }
    else record m { cp0 = record (m.cp0) { epc = m.pc; cause = clear_bit 31 m.cp0.cause } }

-- The rest of it: set EXL and jump to the vector.
unfoldable pub enter_handler : ℕ → Mips → Mips
enter_handler offset m =
    let status' = set_bit 1 m.cp0.status in
    record m {
      cp0 = record (m.cp0) { status = status' };
      pc = if bit 22 status' then u32 (0xbfc00200 + offset) else u32 (0x80000000 + offset);
      exception_occured = false;
    }

-- `handleException`
unfoldable pub handle_exception : Bool → Mips → Mips
handle_exception in_slot m =
    let exccode = get_exception_code m in
    let m1 = record m { in_delay_slot = false } in
    if bit 1 m.cp0.status
    then enter_handler 0x180 m1
    else (let m2 = save_epc in_slot m1 in enter_handler (vector_offset exccode m2) m2)

-- `handleInterrupts`; the Boolean is its result.
unfoldable pub handle_interrupts : Mips → Bool × Mips
handle_interrupts m =
    if not (bit 0 m.cp0.status) || (bit 1 m.cp0.status || bit 2 m.cp0.status)
    then (false, m)
    else if bit_and (bit_and m.cp0.cause m.cp0.status) 0xfc00 == 0
    then (false, m)
    else (
      true,
      handle_exception m.in_delay_slot (set_exception_code Exc.int (record m { waiting = false })),
    )

-- `op_eret`
unfoldable pub op_eret : Mips → Mips
op_eret m =
    if m.in_delay_slot
    then m
    else if bit 2 m.cp0.status
    then record m {
      llbit = 0;
      cp0 = record (m.cp0) { status = clear_bit 2 m.cp0.status };
      pc = sub32 m.cp0.error_epc 4;
    }
    else record m {
      llbit = 0;
      cp0 = record (m.cp0) { status = clear_bit 1 m.cp0.status };
      pc = sub32 m.cp0.epc 4;
    }
