-- ===== src/Vr4300/Cp0/Moves.antt =====
-- vr4300/cp0.c: what is read back from the registers and from the TLB.
use cmips_cen.Base.{
  ℕ, ◌+◌, ◌-◌, ◌*◌, ◌/◌, ◌%◌, ◌^◌, ◌<◌, ◌≡◌, ◌≢◌, refl, ap, ap₂, ◌∙◌, arith, Bool, true, false,
  if◌then◌else◌, ◌==◌, ◌||◌, update_self, field, sext32_64, bit, clear_bit, bit_and, bit_or,
}
use cmips_cen.Base.Bits.{bit_and-mask, bit_and_comm, bit_and_shifted, bit_or_disjoint}
use cmips_cen.Vr4300.Cp0.{
  reg_masks, mask_reg, give, vr4300_mfc0, vr4300_mtc0, vr4300_tlbr, vr4300_tlbwi, pair, read_entry,
  write_entry,
}
use cmips_cen.Vr4300.Decoder.{get_rd, get_rt}
use cmips_cen.Vr4300.State.{
  Vr4300, next, state_of, cp0_index, cp0_cause, cp0_entrylo0, cp0_entrylo1, cp0_pagemask,
}

-- For the same word of an instruction whose low three bits are 0, a move from coprocessor 0 after a
-- move to the same register gives the word that was written, as a 64-bit number under the mask of
-- the register. Count gives half of it, and the watch registers 0. Of the moves to another register
-- than Cause (13), that to Compare alone changes Cause: it takes the timer interrupt back.
pub mfc0-mtc0 :
    (iw rs rt rs' rt' : ℕ) (c : Vr4300)
    → iw % 2 ^ 3 ≡ 0
    → (c' : Vr4300) × (vr4300_mtc0 iw rs rt c ≡ next c')
      × (vr4300_mfc0 iw rs' rt' c'
          ≡ give
              (get_rt iw)
              (if get_rd iw == 18 || get_rd iw == 19
                then 0
                else if get_rd iw == 9
                then sext32_64 rt / 2 % 2 ^ 32
                else mask_reg (get_rd iw) (sext32_64 rt))
              c')
      × (get_rd iw ≢ 13
          → c'.regs cp0_cause
            ≡ (if get_rd iw == 11 then clear_bit 15 (c.regs cp0_cause) else c.regs cp0_cause))
unfolding vr4300_mtc0 vr4300_mfc0 clear_bit bit
mfc0-mtc0 iw rs rt rs' rt' c sel =
    let c' = state_of c (vr4300_mtc0 iw rs rt c) in
    (c', refl, ap (λ r. give (get_rt iw) r c') (ground arith), λ ne. ground arith)

low_mask : (k x : ℕ) → bit_and (2 ^ k - 1) x ≡ x % 2 ^ k
low_mask k x = bit_and_comm (2 ^ k - 1) x ∙ bit_and-mask k x

mask-entrylo : (x : ℕ) → (mask_reg 2 x ≡ x % 2 ^ 31) × (mask_reg 3 x ≡ x % 2 ^ 31)
unfolding mask_reg reg_masks
mask-entrylo x = (low_mask 31 x, low_mask 31 x)

mask-pagemask : (x : ℕ) → mask_reg 5 x ≡ field 13 12 x * 2 ^ 13
unfolding mask_reg reg_masks
mask-pagemask x =
    bit_and_comm 0x1FFE000 x
    ∙ bit_and_shifted 13 x (2 ^ 12 - 1)
    ∙ ap (λ b. b * 2 ^ 13) (bit_and-mask 12 (x / 2 ^ 13))

-- The halves of an entry: the frame from bit 6 on, and the state below
entrylo_back : (lo : ℕ) → bit_or (lo / 2 ^ 6 % 2 ^ 20 * 2 ^ 12 / 2 ^ 6) (lo % 2 ^ 6) ≡ lo % 2 ^ 26
entrylo_back lo =
    let high : lo / 2 ^ 6 % 2 ^ 20 * 2 ^ 12 / 2 ^ 6 ≡ lo / 2 ^ 6 % 2 ^ 20 * 2 ^ 6 = omega arith in
    ap (λ a. bit_or a (lo % 2 ^ 6)) high
    ∙ bit_or_disjoint 6 (lo / 2 ^ 6 % 2 ^ 20) (lo % 2 ^ 6) (omega arith)
    ∙ (omega arith)

-- A TLB entry that is written at an index below 32 and read again gives the low 26 bits of both
-- halves of EntryLo, the frame and the state, and the bits 13 to 24 of PageMask.
pub tlbr-tlbwi :
    (iw rs rt : ℕ) (c : Vr4300)
    → c.regs cp0_index % 2 ^ 6 < 32
    → (c' c'' : Vr4300) × (vr4300_tlbwi iw rs rt c ≡ next c')
      × (vr4300_tlbr iw rs rt c' ≡ next c'')
      × (c''.regs cp0_entrylo0 ≡ c.regs cp0_entrylo0 % 2 ^ 26)
      × (c''.regs cp0_entrylo1 ≡ c.regs cp0_entrylo1 % 2 ^ 26)
      × (c''.regs cp0_pagemask ≡ field 13 12 (c.regs cp0_pagemask) * 2 ^ 13)
unfolding vr4300_tlbwi vr4300_tlbr
tlbr-tlbwi iw rs rt c small =
    let index = c.regs cp0_index % 2 ^ 6 in
    let lo0 = mask_reg 2 (c.regs cp0_entrylo0) in
    let lo1 = mask_reg 3 (c.regs cp0_entrylo1) in
    let page_mask = mask_reg 5 (c.regs cp0_pagemask) in
    let frames = pair (lo0 / 2 ^ 6 % 2 ^ 20 * 2 ^ 12) (lo1 / 2 ^ 6 % 2 ^ 20 * 2 ^ 12) in
    let states = pair (lo0 % 2 ^ 6) (lo1 % 2 ^ 6) in
    let frame = update_self c.cp0.pfn index frames in
    let state = update_self c.cp0.state index states in
    let mask = update_self c.cp0.page_mask index ((page_mask + 0x1FFF) / 2) in
    let half =
      λ (b : Bool). ap₂ (λ (f : Bool → ℕ) (s : Bool → ℕ). bit_or (f b / 2 ^ 6) (s b)) frame state in
    let masked0 = mask-entrylo (c.regs cp0_entrylo0) in
    let masked1 = mask-entrylo (c.regs cp0_entrylo1) in
    let masked = mask-pagemask (c.regs cp0_pagemask) in
    (
      write_entry index c,
      read_entry index (write_entry index c),
      ground arith,
      ground arith,
      half false ∙ entrylo_back lo0 ∙ (omega (arith, masked0)),
      half true ∙ entrylo_back lo1 ∙ (omega (arith, masked1)),
      ap (λ m. m * 2 / 2 ^ 13 % 2 ^ 12 * 2 ^ 13) mask ∙ (omega (arith, masked)),
    )
