-- ===== src/Machine.antt =====
-- include/mips.h: the state of the cmips interpreter, and what a call of it can end in.
use cmips_cen.Base.{ℕ, ◌+◌, Bool, List, if◌then◌else◌, ltb, set_bit, clear_bit}

-- `TLB_entry`; its one-bit fields are Booleans.
pub record TlbEntry : Type 0 where
  pub vpn2 : ℕ
  pub asid : ℕ
  pub g : Bool
  pub c0 : ℕ
  pub c1 : ℕ
  pub v0 : Bool
  pub v1 : Bool
  pub d0 : Bool
  pub d1 : Bool
  pub pfn0 : ℕ
  pub pfn1 : ℕ

-- `TLB`
pub record Tlb : Type 0 where
  pub entries : ℕ → TlbEntry
  pub exception_was_no_match : Bool

-- `Uart`, with the ring buffer `fifo[32]`
pub record Uart : Type 0 where
  pub lcr : ℕ
  pub lsr : ℕ
  pub msr : ℕ
  pub iir : ℕ
  pub ier : ℕ
  pub dll : ℕ
  pub dlh : ℕ
  pub fcr : ℕ
  pub mcr : ℕ
  pub scr : ℕ
  pub fifo : ℕ → ℕ
  pub fifo_first : ℕ
  pub fifo_last : ℕ
  pub fifo_count : ℕ

-- the fields `CP0_…` of `Mips`
pub record Cp0 : Type 0 where
  pub index : ℕ
  pub entry_hi : ℕ
  pub entry_lo0 : ℕ
  pub entry_lo1 : ℕ
  pub context : ℕ
  pub wired : ℕ
  pub status : ℕ
  pub epc : ℕ
  pub bad_vaddr : ℕ
  pub error_epc : ℕ
  pub cause : ℕ
  pub page_mask : ℕ
  pub count : ℕ
  pub compare : ℕ

-- `Mips`. `mem` is the array of words. The flags that hold 0 or 1 are Booleans, but for `llbit`,
-- which an instruction copies to a register. The last two fields are outside of the structure:
-- the variable `counter` of src/emu.c, and what `putchar` has written, the latest first.
pub record Mips : Type 0 where
  pub mem : ℕ → ℕ
  pub pmemsz : ℕ
  pub shutdown : Bool
  pub pc : ℕ
  pub regs : ℕ → ℕ
  pub hi : ℕ
  pub lo : ℕ
  pub delaypc : ℕ
  pub in_delay_slot : Bool
  pub exception_occured : Bool
  pub llbit : ℕ
  pub cp0 : Cp0
  pub waiting : Bool
  pub serial : Uart
  pub tlb : Tlb
  pub counter : ℕ
  pub console : List ℕ

-- A call returns a value and the new state, ends the process by `exit(1)`, or does what C leaves
-- undefined (`fault`).
pub data Outcome (A : Type 0) : Type 0 where
  ok : A → Mips → Outcome A
  exit : Outcome A
  fault : Outcome A

abbrev pub M : Type 0 → Type 0
M A = Mips → Outcome A

abbrev pub pure : {A : Type 0} → A → M A
pure a m = ok a m

module _ {A B : Type 0} where
  abbrev pub and_then : Outcome A → (A → M B) → Outcome B
  and_then (ok a m) k = k a m
  and_then exit k = exit
  and_then fault k = fault

  infixl 5 ◌>>=◌ ◌>>◌
  abbrev pub ◌>>=◌ : M A → (A → M B) → M B
  ◌>>=◌ f k m = and_then (f m) k

  abbrev pub ◌>>◌ : M A → M B → M B
  ◌>>◌ f k m = and_then (f m) (λ _. k)

-- A call that only changes the state.
abbrev pub modify : (Mips → Mips) → M (Unit {0})
modify f m = ok tt (f m)

-- Read the state.
abbrev pub gets : {A : Type 0} → (Mips → A) → M A
gets f m = ok (f m) m

-- `triggerExternalInterrupt` and `clearExternalInterrupt`: `((1 << n) & 0x3f) << 10` is no bit
-- for n above 5.
unfoldable pub trigger_external_interrupt : ℕ → Mips → Mips
trigger_external_interrupt n m =
    if ltb n 6
    then record m { cp0 = record (m.cp0) { cause = set_bit (10 + n) m.cp0.cause } }
    else m

unfoldable pub clear_external_interrupt : ℕ → Mips → Mips
clear_external_interrupt n m =
    if ltb n 6
    then record m { cp0 = record (m.cp0) { cause = clear_bit (10 + n) m.cp0.cause } }
    else m
