-- ===== src/Emu/Exception/Return.antt =====
-- Entry to the exception handler of src/emu.c, and the return from it by `eret`.
use cmips_cen.Base.{
  ◌+◌, ◌^◌, ◌<◌, ◌≡◌, arith, Bool, true, false, if◌then◌else◌, u32, sub32, bit, set_bit, clear_bit,
}
use cmips_cen.Machine.{Mips}
use cmips_cen.Emu.Exception.{
  handle_exception, handle_interrupts, enter_handler, save_epc, set_exception_code, op_eret,
}

-- From a state that runs no handler, entering one and leaving it by `eret` comes back: the fetch
-- that follows (at pc + 4, as `step_mips` adds 4 to every `eret`) is of the instruction that was
-- interrupted, or of the branch before it if it stood in a delay slot; Status and the registers
-- are as before, the flags of the delay slot and of the exception are down, and a pending
-- load-link is lost.
pub eret-handle_exception :
    (slot : Bool) (m : Mips)
    → bit 1 m.cp0.status ≡ false
    → bit 2 m.cp0.status ≡ false
    → m.pc < 2 ^ 32
    → let r = op_eret (handle_exception slot m) in
      (u32 (r.pc + 4) ≡ (if slot then sub32 m.pc 4 else m.pc))
      × (r.cp0.status ≡ m.cp0.status)
      × (r.regs ≡ m.regs)
      × (r.in_delay_slot ≡ false)
      × (r.exception_occured ≡ false)
      × (r.llbit ≡ 0)
unfolding op_eret handle_exception enter_handler save_epc set_bit clear_bit bit
eret-handle_exception slot m exl erl word = ground arith

-- An exception inside of a handler keeps EPC and Cause, so that the outer return still works, and
-- goes to the general vector.
pub handle_exception_nested :
    (slot : Bool) (m : Mips)
    → bit 1 m.cp0.status ≡ true
    → let r = handle_exception slot m in
      (r.cp0 ≡ m.cp0)
      × (r.pc ≡ (if bit 22 m.cp0.status then 0xbfc00380 else 0x80000180))
      × (r.exception_occured ≡ false)
unfolding handle_exception enter_handler set_bit bit
handle_exception_nested slot m exl = ground arith

-- A served interrupt wakes the processor, and no other is served before Status changes.
pub handle_interrupts_once :
    (m : Mips)
    → (handle_interrupts m).0 ≡ true
    → ((handle_interrupts m).1.waiting ≡ false)
      × ((handle_interrupts (handle_interrupts m).1).0 ≡ false)
unfolding handle_interrupts handle_exception enter_handler save_epc set_exception_code set_bit bit
handle_interrupts_once m served = ground arith
