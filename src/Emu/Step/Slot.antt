-- ===== src/Emu/Step/Slot.antt =====
-- Delay slots and exceptions in `step_mips` of src/emu.c.
use cmips_cen.Base.{
  ℕ, ◌+◌, ◌/◌, ◌%◌, ◌^◌, ◌<◌, ◌≡◌, refl, ap, ◌∙◌, arith, Bool, true, false, if◌then◌else◌, bit,
  set_bit, clear_bit, u32, sub32, ltb, ◌==◌, ◌*◌, ◌-◌, update,
}
use cmips_cen.Machine.{Mips, M, Outcome, ok, and_then, ◌>>◌}
use cmips_cen.Emu.Exception.{
  handle_exception, handle_interrupts, enter_handler, save_epc, get_exception_code,
}
use cmips_cen.Emu.Access.{read_virt_word}
use cmips_cen.Emu.Access.Ram.{kseg0, read_word_ram}
use cmips_cen.Emu.Regs.{set_reg, set_rt}
use cmips_cen.Emu.Doop.Decode.{decode, opcodes}
use cmips_cen.Emu.Doop.Decode.Dispatch.{doop-decode}
use cmips_cen.Emu.Doop.{find_case, doop, lift}
use cmips_cen.Emu.Alu.{op_addiu}
use cmips_cen.Emu.Branch.{op_jal, jump_target, link}
use cmips_cen.Emu.Step.Timer.{tick_keeps, tick_status}
use cmips_cen.Emu.Step.{tick, retire, run_opcode, fetch_and_run, step_mips}

-- If an instruction raises an exception while EXL is clear, its step returns with EPC at the program
-- counter that the instruction left, or four before it for a delay slot, and with BD of Cause to tell
-- the two apart; the exception code is kept, EXL is set, the flags of the exception and of the slot
-- are taken back, and the registers are as the instruction left them but for number 0, which is 0.
pub run_opcode-precise :
    (slot : Bool) (opcode : ℕ) (m r : Mips)
    → doop opcode m ≡ ok tt r
    → r.exception_occured ≡ true
    → bit 1 r.cp0.status ≡ false
    → (m' : Mips) × (run_opcode slot opcode m ≡ ok tt m')
      × (m'.cp0.epc ≡ (if slot then sub32 r.pc 4 else r.pc))
      × (bit 31 m'.cp0.cause ≡ slot)
      × (get_exception_code m' ≡ get_exception_code r)
      × (bit 1 m'.cp0.status ≡ true)
      × (m'.exception_occured ≡ false)
      × (m'.in_delay_slot ≡ false)
      × (m'.regs ≡ (set_reg 0 0 r).regs)
unfolding run_opcode retire handle_exception enter_handler save_epc get_exception_code bit set_bit
    clear_bit
run_opcode-precise slot opcode m r ran raised exl = (
  handle_exception slot (set_reg 0 0 r),
  ap (λ o. and_then o (λ _ s. ok tt (retire slot (set_reg 0 0 s)))) ran
      ∙ ap
          (λ b. ok tt (
            if b
            then handle_exception slot (set_reg 0 0 r)
            else if slot
            then record r { regs = (set_reg 0 0 r).regs; pc = r.delaypc; in_delay_slot = false }
            else record r { regs = (set_reg 0 0 r).regs; pc = u32 (r.pc + 4) }))
          raised,
  ground arith,
  ground arith,
  ground arith,
  ground arith,
  ground arith,
  ground arith,
  ground arith,
)

-- The state after an instruction that raised nothing
abbrev moved_on : Bool → Mips → Mips
moved_on slot r =
    if slot
    then record r { pc = r.delaypc; in_delay_slot = false }
    else record r { pc = u32 (r.pc + 4) }

run_opcode_quiet :
    (slot : Bool) (opcode : ℕ) (m r : Mips)
    → doop opcode m ≡ ok tt r
    → r.exception_occured ≡ false
    → run_opcode slot opcode m ≡ ok tt (moved_on slot (set_reg 0 0 r))
unfolding run_opcode retire
run_opcode_quiet slot opcode m r ran quiet =
    ap (λ o. and_then o (λ _ s. ok tt (retire slot (set_reg 0 0 s)))) ran
    ∙ ap
        (λ b.
          ok tt
            (if b then handle_exception slot (set_reg 0 0 r) else moved_on slot (set_reg 0 0 r)))
        quiet

-- A processor about to run the word at `p` of the memory, with interrupts disabled
pub record IsRunning (m : Mips) (p : ℕ) : Type 0 where
  pub on : m.shutdown ≡ false
  pub awake : m.waiting ≡ false
  pub masked : bit 0 m.cp0.status ≡ false
  pub quiet : m.exception_occured ≡ false
  pub at : m.pc ≡ kseg0 p
  pub aligned : p % 4 ≡ 0
  pub in_memory : p < m.pmemsz
  pub low : p < 0x14000000

abbrev ticked : Mips → Mips
ticked m = record m { cp0 = (tick m).cp0 }

fetched :
    (m : Mips) (p : ℕ)
    → IsRunning m p
    → fetch_and_run (ticked m) ≡ run_opcode m.in_delay_slot (m.mem (p / 4)) (ticked m)
unfolding fetch_and_run
fetched m p h =
    ap (λ a. and_then (read_virt_word a (ticked m)) (go m)) h.at
    ∙ ap (λ o. and_then o (go m)) (read_word_ram (ticked m) p h.aligned h.in_memory h.low)
    ∙ ap
        (λ b.
          if b
          then ok tt (handle_exception m.in_delay_slot (ticked m))
          else run_opcode m.in_delay_slot (m.mem (p / 4)) (ticked m))
        h.quiet
  where
    go : (m : Mips) → ℕ → M (Unit {0})
    go m opcode m' =
        if m'.exception_occured
        then ok tt (handle_exception m.in_delay_slot m')
        else run_opcode m.in_delay_slot opcode m'

not_served : (m : Mips) → bit 0 m.cp0.status ≡ false → handle_interrupts m ≡ (false, m)
unfolding handle_interrupts
not_served m h = rw h refl

-- The step after its interrupts
after_interrupts : Bool × Mips → Outcome (Unit {0})
after_interrupts r = if r.0 then ok tt r.1 else if r.1.waiting then ok tt r.1 else fetch_and_run r.1

step_mips_running :
    (m : Mips) (p : ℕ)
    → IsRunning m p
    → step_mips m ≡ run_opcode m.in_delay_slot (m.mem (p / 4)) (ticked m)
unfolding step_mips after_interrupts
step_mips_running m p h =
    ap (λ b. if b then ok tt m else after_interrupts (handle_interrupts (tick m))) h.on
    ∙ ap after_interrupts (
        not_served (tick m) (ap (bit 0) (tick_status m) ∙ h.masked)
        ∙ ap (λ r. (false, r)) (tick_keeps m))
    ∙ ap (λ b. if b then ok tt (ticked m) else fetch_and_run (ticked m)) h.awake
    ∙ fetched m p h

decode_jal : (w : ℕ) → w / 2 ^ 26 ≡ 3 → doop w ≡ lift op_jal w
unfolding decode find_case opcodes
decode_jal w h = doop-decode w ∙ (rw h refl)

decode_addiu : (w : ℕ) → w / 2 ^ 26 ≡ 9 → doop w ≡ lift op_addiu w
unfolding decode find_case opcodes
decode_addiu w h = doop-decode w ∙ (rw h refl)

-- The state after a `jal` that was not in a delay slot itself
abbrev jumping : ℕ → Mips → Mips
jumping w m = record m {
  cp0 = (tick m).cp0;
  regs = (set_reg 0 0 (link m)).regs;
  delaypc = jump_target w m;
  in_delay_slot = true;
  pc = u32 (m.pc + 4);
}

step_mips_jal :
    (m : Mips) (p : ℕ)
    → IsRunning m p
    → m.in_delay_slot ≡ false
    → m.mem (p / 4) / 2 ^ 26 ≡ 3
    → step_mips m ≡ ok tt (jumping (m.mem (p / 4)) m)
unfolding op_jal jump_target
step_mips_jal m p h slot op =
    let w = m.mem (p / 4) in
    step_mips_running m p h
    ∙ ap (λ b. run_opcode b w (ticked m)) slot
    ∙ run_opcode_quiet false w (ticked m) (op_jal w (ticked m))
        (ap (λ f. f (ticked m)) (decode_jal w op)) h.quiet

-- The registers that the `addiu` of the slot finds: the return address in register 31, 0 in register 0
abbrev pub in_slot : Mips → ℕ → ℕ
in_slot m r = if r == 0 then 0 else if r == 31 then (m.pc + 8) % 2 ^ 32 else m.regs r

-- A `jal` in the memory, followed by an `addiu`, with interrupts disabled: after two steps the
-- program is at the word whose number is in the low 26 bits of the `jal`, in the 256 megabytes of the
-- `jal`. Register 31 was set to the word after the slot, `jal` plus 8, before the `addiu` ran, and
-- the `addiu` has run once: its register rt is the sum of rs and the sign-extended low half of the
-- word, register 0 is 0 and the other registers are as the `jal` left them. No delay slot is left open
-- and the memory is as it was.
pub step_mips-step_mips_jal :
    (m : Mips) (p : ℕ)
    → IsRunning m p
    → m.in_delay_slot ≡ false
    → p + 4 < m.pmemsz
    → p + 4 < 0x14000000
    → m.mem (p / 4) / 2 ^ 26 ≡ 3
    → m.mem ((p + 4) / 4) / 2 ^ 26 ≡ 9
    → let jal = m.mem (p / 4) in
      let addiu = m.mem ((p + 4) / 4) in
      let low : ℕ = addiu % 2 ^ 16 in
      let immediate : ℕ = (if ltb low (2 ^ 15) then low else low + (2 ^ 32 - 2 ^ 16)) in
      (m' : Mips) × ((step_mips >> step_mips) m ≡ ok tt m')
      × (m'.pc ≡ m.pc / 2 ^ 28 * 2 ^ 28 + jal % 2 ^ 26 * 4)
      × (m'.in_delay_slot ≡ false)
      × ((r : ℕ)
          → m'.regs r ≡ (
              if r == 0
              then 0
              else if r == addiu / 2 ^ 16 % 2 ^ 5
              then (in_slot m (addiu / 2 ^ 21 % 2 ^ 5) + immediate) % 2 ^ 32
              else in_slot m r))
      × (m'.mem ≡ m.mem)
unfolding op_addiu set_rt jump_target update
step_mips-step_mips_jal m p h slot inm low jal addiu =
    let m1 = jumping (m.mem (p / 4)) m in
    let w = m.mem ((p + 4) / 4) in
    let next : IsRunning m1 (p + 4) = record {
      on = h.on;
      awake = h.awake;
      masked = ap (bit 0) (tick_status m) ∙ h.masked;
      quiet = h.quiet;
      at = ap (λ a. u32 (a + 4)) h.at ∙ (omega arith);
      aligned = (let al = h.aligned in omega (arith, al));
      in_memory = inm;
      low = low;
    } in
    let r = op_addiu w (ticked m1) in
    (
      moved_on true (set_reg 0 0 r),
      ap (λ o. and_then o (λ _. step_mips)) (step_mips_jal m p h slot jal)
          ∙ step_mips_running m1 (p + 4) next
          ∙ run_opcode_quiet true w (ticked m1) r (ap (λ f. f (ticked m1)) (decode_addiu w addiu))
              h.quiet,
      refl,
      refl,
      λ n. ground arith,
      refl,
    )
