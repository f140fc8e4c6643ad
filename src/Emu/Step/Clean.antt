-- ===== src/Emu/Step/Clean.antt =====
-- Register 0 and the flag of an exception under `step_mips` of src/emu.c.
use cmips_cen.Base.{
  ℕ, zero, suc, ◌+◌, ◌/◌, ◌%◌, ◌^◌, ◌≡◌, refl, ap, ◌∙◌, arith, Bool, false, not, subst, ◌&&◌, ◌||◌,
  ◌==◌, if◌then◌else◌, leb, if_ind, if_cases, bit_and, bit, Option, none, some, update_self,
}
use cmips_cen.Machine.{
  Mips, TlbEntry, Outcome, ok, exit, fault, M, pure, and_then, trigger_external_interrupt,
}
use cmips_cen.Uart.{uart_read}
use cmips_cen.Emu.Exception.{
  is_kernel_mode, handle_exception, handle_interrupts, enter_handler, save_epc, set_exception_code,
  raise,
}
use cmips_cen.Emu.Translate.{
  check_access, tlb_lookup_from, tlb_lookup, paddr_of, translate_by_tlb, translate_address,
  raise_tlb, write_tlb_exception_extra_data, entry_matches,
}
use cmips_cen.Emu.Access.{in_uart, read_phys_word, read_virt_word}
use cmips_cen.Emu.Regs.{set_reg}
use cmips_cen.Emu.Doop.{doop}
use cmips_cen.Emu.Step.{tick, retire, run_opcode, fetch_and_run, step_mips}

-- What holds of the state that a call returns in
pub Returns : {A : Type 0} → (Mips → Type 0) → Outcome A → Type 0
Returns P (ok a m) = P m
Returns P exit = Unit
Returns P fault = Unit

Returns-and_then :
    {A B : Type 0} (P Q : Mips → Type 0) (o : Outcome A) (k : A → M B)
    → Returns P o
    → ((a : A) (m : Mips) → P m → Returns Q (k a m))
    → Returns Q (and_then o k)
unfolding Returns
Returns-and_then P Q (ok a m) k p q = q a m p
Returns-and_then P Q exit k p q = tt
Returns-and_then P Q fault k p q = tt

any_state : {A : Type 0} (o : Outcome A) → Returns (λ _. Unit) o
unfolding Returns
any_state (ok a m) = tt
any_state exit = tt
any_state fault = tt

-- The registers of a state
HasRegs : (ℕ → ℕ) → Mips → Type 0
HasRegs f m = m.regs ≡ f

check_access-HasRegs :
    (e : TlbEntry) (vaddr : ℕ) (write : Bool) (m : Mips)
    → Returns (HasRegs m.regs) (check_access e vaddr write m)
unfolding Returns HasRegs check_access raise_tlb write_tlb_exception_extra_data raise
    set_exception_code
check_access-HasRegs e vaddr write m = ground arith

tlb_lookup_from-HasRegs :
    (left i vaddr : ℕ) (write : Bool) (m : Mips)
    → Returns (HasRegs m.regs) (tlb_lookup_from left i vaddr write m)
unfolding Returns HasRegs tlb_lookup_from raise_tlb write_tlb_exception_extra_data raise
    set_exception_code
tlb_lookup_from-HasRegs zero i vaddr write m = refl
tlb_lookup_from-HasRegs (suc left) i vaddr write m =
    if_ind (Returns (HasRegs m.regs))
      (entry_matches (m.tlb.entries i) (m.cp0.entry_hi % 2 ^ 8) (vaddr / 2 ^ 13))
      (check_access-HasRegs (m.tlb.entries i) vaddr write m)
      (tlb_lookup_from-HasRegs left (i + 1) vaddr write m)

translate_by_tlb-HasRegs :
    (vaddr : ℕ) (write : Bool) (m : Mips)
    → Returns (HasRegs m.regs) (translate_by_tlb vaddr write m)
unfolding translate_by_tlb tlb_lookup Returns
translate_by_tlb-HasRegs vaddr write m =
    Returns-and_then (HasRegs m.regs) (HasRegs m.regs) (tlb_lookup vaddr write m)
      (λ r. pure (paddr_of r))
      (tlb_lookup_from-HasRegs 16 0 vaddr write
        (record m { tlb = record (m.tlb) { exception_was_no_match = false } }))
      (λ r m' h. h)

translate_address-HasRegs :
    (vaddr : ℕ) (write : Bool) (m : Mips)
    → Returns (HasRegs m.regs) (translate_address vaddr write m)
unfolding translate_address Returns HasRegs
translate_address-HasRegs vaddr write m =
    let P = Returns (HasRegs m.regs) in
    if_ind P (leb vaddr 0x7FFFFFFF)
      (if_ind P (bit 2 m.cp0.status) refl (translate_by_tlb-HasRegs vaddr write m))
      (if_ind P (leb 0x80000000 vaddr && leb vaddr 0x9fffffff) refl (
        if_ind P (leb 0xa0000000 vaddr && leb vaddr 0xbfffffff) refl
          (if_ind P (is_kernel_mode m) (translate_by_tlb-HasRegs vaddr write m) tt)))

read_phys_word-HasRegs : (paddr : ℕ) (m : Mips) → Returns (HasRegs m.regs) (read_phys_word paddr m)
unfolding read_phys_word Returns HasRegs uart_read
read_phys_word-HasRegs paddr m =
    let P = Returns (HasRegs m.regs) in
    if_ind P (not (paddr % 4 == 0)) tt
      (if_ind P (in_uart paddr) refl (if_ind P (leb m.pmemsz paddr) tt refl))

-- `read_virt_word` after the translation
abbrev read_at : Option ℕ → M ℕ
read_at p = elim p [ none ↦ pure 0 | some paddr ↦ read_phys_word paddr ]

read_translated-HasRegs :
    (f : ℕ → ℕ) (p : Option ℕ) (m : Mips) → m.regs ≡ f → Returns (HasRegs f) (read_at p m)
unfolding Returns HasRegs
read_translated-HasRegs f none m h = h
read_translated-HasRegs f (some paddr) m h =
    subst (λ g. Returns (HasRegs g) (read_phys_word paddr m)) h (read_phys_word-HasRegs paddr m)

read_virt_word-HasRegs : (addr : ℕ) (m : Mips) → Returns (HasRegs m.regs) (read_virt_word addr m)
unfolding read_virt_word HasRegs
read_virt_word-HasRegs addr m =
    Returns-and_then (HasRegs m.regs) (HasRegs m.regs) (translate_address addr false m) read_at
      (translate_address-HasRegs addr false m) (read_translated-HasRegs m.regs)

-- Register 0 holds 0 and no exception waits for its handler.
pub record IsClean (m : Mips) : Type 0 where
  pub zero_register : m.regs 0 ≡ 0
  pub no_exception : m.exception_occured ≡ false

-- The handler is entered with the flag taken back and the registers as they are.
handle_exception-IsClean :
    (slot : Bool) (m : Mips) → m.regs 0 ≡ 0 → IsClean (handle_exception slot m)
unfolding handle_exception enter_handler save_epc
handle_exception-IsClean slot m h = record {
  zero_register = ground (arith, h);
  no_exception = ground arith;
}

retire-IsClean : (slot : Bool) (m : Mips) → m.regs 0 ≡ 0 → IsClean (retire slot m)
unfolding retire
retire-IsClean slot m h =
    if_cases IsClean m.exception_occured (λ raised. handle_exception-IsClean slot m h)
      (λ quiet.
        if_ind IsClean slot (record { zero_register = h; no_exception = quiet })
          (record { zero_register = h; no_exception = quiet }))

run_opcode-IsClean :
    (slot : Bool) (opcode : ℕ) (m : Mips) → Returns IsClean (run_opcode slot opcode m)
unfolding run_opcode Returns
run_opcode-IsClean slot opcode m =
    Returns-and_then (λ _. Unit) IsClean (doop opcode m)
      (λ _ m'. ok tt (retire slot (set_reg 0 0 m'))) (any_state (doop opcode m))
      (λ u m' _. retire-IsClean slot (set_reg 0 0 m') (update_self m'.regs 0 0))

fetch_and_run-IsClean : (m : Mips) → IsClean m → Returns IsClean (fetch_and_run m)
unfolding fetch_and_run Returns HasRegs
fetch_and_run-IsClean m c =
    let slot = m.in_delay_slot in
    Returns-and_then (HasRegs m.regs) IsClean (read_virt_word m.pc m)
      (λ opcode m'.
        if m'.exception_occured
        then ok tt (handle_exception slot m')
        else run_opcode slot opcode m')
      (read_virt_word-HasRegs m.pc m)
      (λ opcode m' same.
        if_ind (Returns IsClean) m'.exception_occured
          (handle_exception-IsClean slot m' (ap (λ f. f 0) same ∙ c.zero_register))
          (run_opcode-IsClean slot opcode m'))

tick-IsClean : (m : Mips) → IsClean m → IsClean (tick m)
unfolding tick trigger_external_interrupt
tick-IsClean m c = record {
  zero_register = ground (arith, c.zero_register);
  no_exception = ground (arith, c.no_exception);
}

handle_interrupts-IsClean : (m : Mips) → IsClean m → IsClean (handle_interrupts m).1
unfolding handle_interrupts set_exception_code
handle_interrupts-IsClean m c =
    let P = λ (r : Bool × Mips). IsClean r.1 in
    if_ind P (not (bit 0 m.cp0.status) || (bit 1 m.cp0.status || bit 2 m.cp0.status)) c (
      if_ind P (bit_and (bit_and m.cp0.cause m.cp0.status) 0xfc00 == 0) c (
        handle_exception-IsClean m.in_delay_slot
          (set_exception_code 0 (record m { waiting = false })) c.zero_register))

-- Every step of the interpreter that returns, whatever the instruction and whether it was fetched,
-- trapped, interrupted or skipped while waiting, leaves register 0 at 0 and the flag of an
-- exception taken back, if it started so.
pub step_mips-IsClean : (m : Mips) → IsClean m → Returns IsClean (step_mips m)
unfolding step_mips Returns
step_mips-IsClean m c =
    let m1 = (handle_interrupts (tick m)).1 in
    let c1 = handle_interrupts-IsClean (tick m) (tick-IsClean m c) in
    if_ind (Returns IsClean) m.shutdown c (
      if_ind (Returns IsClean) (handle_interrupts (tick m)).0 c1
        (if_ind (Returns IsClean) m1.waiting c1 (fetch_and_run-IsClean m1 c1)))
