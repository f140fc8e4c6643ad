-- ===== src/Vr4300/Cp0.antt =====
-- vr4300/cp0.c: the instructions of the system control coprocessor.
pub mod Moves
pub mod Eret
use cmips_cen.Base.{
  ℕ, ◌+◌, ◌-◌, ◌*◌, ◌/◌, ◌%◌, ◌^◌, Bool, true, false, Option, none, some, ◌==◌, ◌||◌, leb, ltb,
  if◌then◌else◌, update, u32, sext32_64, bit, set_bit, clear_bit, bit_and, bit_or,
}
use cmips_cen.ArchTlb.{tlb_init, tlb_probe, tlb_read, tlb_write}
use cmips_cen.Segment.{get_segment, get_default_segment}
use cmips_cen.Vr4300.Decoder.{get_rt, get_rd}
use cmips_cen.Vr4300.State.{
  Vr4300, Vr4300Cp0, Stage, next, blocked, stopped, put_reg, with_pipeline, with_exdc, with_rfex,
  with_icrf, cp0_index, cp0_entrylo0, cp0_entrylo1, cp0_pagemask, cp0_wired, cp0_count, cp0_entryhi,
  cp0_compare, cp0_status, cp0_cause, cp0_epc, cp0_config, cp0_watchlo, cp0_watchhi, cp0_errorepc,
  pipeline_cycle_type,
}

-- `vr4300_cp0_reg_masks`
unfoldable pub reg_masks : ℕ → ℕ
reg_masks reg =
    if reg == 0
    then 0x8000003F
    else if reg == 1
    then 0x3F
    else if reg == 2
    then 0x7FFFFFFF
    else if reg == 3
    then 0x7FFFFFFF
    else if reg == 4
    then 0xFFFFFFFFFFFFFFF0
    else if reg == 5
    then 0x1FFE000
    else if reg == 7
    then 0x3F
    else if reg == 9
    then 0xFFFFFFFF
    else if reg == 10
    then 0xC00000FFFFFFE0FF
    else if reg == 11
    then 0xFFFFFFFF
    else if reg == 12
    then 0xFFFFFFFF
    else if reg == 13
    then 0xB000FFFF
    else if reg == 15
    then 0xFFFFFFFF
    else if reg == 16
    then 0xFFFFFFFF
    else if reg == 17
    then 0xFFFFFFFF
    else if reg == 18
    then 0xFFFFFFFB
    else if reg == 19
    then 0xF
    else if reg == 26
    then 0
    else if reg == 27
    then 0
    else if reg == 28
    then 0xFFFFFC0
    else if reg == 29
    then 0
    else 0xFFFFFFFFFFFFFFFF

-- `mask_reg`
unfoldable pub mask_reg : (reg content : ℕ) → ℕ
mask_reg reg content = bit_and (reg_masks reg) content

-- The result and the destination of an instruction
abbrev pub give : (dest result : ℕ) → Vr4300 → Stage
give dest result c = next (with_exdc (λ l. record l { result = result; dest = dest }) c)

-- The register that a move reads; Count runs at twice the rate.
unfoldable pub read_reg : (src : ℕ) → Vr4300 → ℕ
unfolding mask_reg
read_reg src c =
    if src == cp0_count - 32 then u32 (c.regs cp0_count / 2) else mask_reg src (c.regs (32 + src))

-- `VR4300_DMFC0`
unfoldable pub vr4300_dmfc0 : (iw rs rt : ℕ) → Vr4300 → Stage
unfolding read_reg
vr4300_dmfc0 iw rs rt c = give (get_rt iw) (read_reg (get_rd iw) c) c

-- `VR4300_DMTC0`
unfoldable pub vr4300_dmtc0 : (iw rs rt : ℕ) → Vr4300 → Stage
unfolding clear_bit bit update
vr4300_dmtc0 iw rs rt c =
    let dest = 32 + get_rd iw in
    let c1 =
      (if dest == cp0_compare then put_reg cp0_cause (clear_bit 15 (c.regs cp0_cause)) c else c) in
    next (put_reg dest rt c1)

-- The fault that `ERET` gives the instructions behind it, `~0`
abbrev pub fault_killed : ℕ
fault_killed = 2 ^ 32 - 1

-- `VR4300_ERET`
unfoldable pub vr4300_eret : (iw rs rt : ℕ) → Vr4300 → Stage
unfolding clear_bit bit update
vr4300_eret iw rs rt c =
    let old = u32 (c.regs cp0_status) in
    let pc = if bit 2 old then c.regs cp0_errorepc else c.regs cp0_epc in
    let status = if bit 2 old then clear_bit 2 old else clear_bit 1 old in
    let c1 =
      with_icrf (λ l. record l { pc = pc; segment = get_segment pc status })
        (with_rfex (λ l. record l { common = record (l.common) { fault = fault_killed } })
          (with_exdc
            (λ l. record l {
              common = record (l.common) { fault = fault_killed };
              segment = some get_default_segment;
            })
            c)) in
    let c2 = put_reg cp0_status (sext32_64 status) (put_reg pipeline_cycle_type 4 c1) in
    blocked (with_pipeline (λ p. record p { exception_history = 0; fault_present = true }) c2)

-- `VR4300_MFC0`; a selection other than 0 leaves the result but for Config.
unfoldable pub vr4300_mfc0 : (iw rs rt : ℕ) → Vr4300 → Stage
unfolding read_reg
vr4300_mfc0 iw rs rt c =
    let src = get_rd iw in
    let result =
      (if iw % 2 ^ 3 == 0
        then if src == cp0_watchlo - 32 || src == cp0_watchhi - 32 then 0 else read_reg src c
        else if src == cp0_config - 32
        then 0x1e190c8a
        else c.pipeline.exdc_latch.result) in
    give (get_rt iw) result c

-- `VR4300_MTC0`
unfoldable pub vr4300_mtc0 : (iw rs rt : ℕ) → Vr4300 → Stage
unfolding clear_bit bit update
vr4300_mtc0 iw rs rt c =
    let dest = 32 + get_rd iw in
    let c1 =
      (if dest == cp0_compare
        then put_reg cp0_cause (clear_bit 15 (c.regs cp0_cause)) c
        else if dest == cp0_status
        then with_exdc (λ l. record l { segment = some get_default_segment })
            (with_icrf (λ l. record l { segment = get_segment l.common.pc (u32 rt) }) c)
        else c) in
    next (put_reg dest (sext32_64 rt) c1)

-- `VR4300_TLBP`
unfoldable pub vr4300_tlbp : (iw rs rt : ℕ) → Vr4300 → Stage
unfolding mask_reg set_bit bit update
vr4300_tlbp iw rs rt c =
    let entry_hi = mask_reg 10 (c.regs cp0_entryhi) in
    let missed = set_bit 31 (c.regs cp0_index) in
    next (
      put_reg cp0_index
        (elim (tlb_probe c.cp0.tlb entry_hi (entry_hi % 2 ^ 8)) [
          | none ↦ missed
          | some index ↦ index
        ])
        c)

-- An index past the 32 entries is out of the bounds of the arrays.
abbrev pub within : ℕ → Vr4300 → Stage
within index c = if ltb index 32 then next c else stopped

-- The writes of `VR4300_TLBR`
unfoldable pub read_entry : (index : ℕ) → Vr4300 → Vr4300
unfolding update
read_entry index c =
    let cp0 = c.cp0 in
    put_reg cp0_pagemask (cp0.page_mask index * 2 / 2 ^ 13 % 2 ^ 12 * 2 ^ 13) (
      put_reg cp0_entrylo1 (bit_or (cp0.pfn index true / 2 ^ 6) (cp0.state index true)) (
        put_reg cp0_entrylo0 (bit_or (cp0.pfn index false / 2 ^ 6) (cp0.state index false))
          (put_reg cp0_entryhi (tlb_read cp0.tlb index) c)))

-- `VR4300_TLBR`
unfoldable pub vr4300_tlbr : (iw rs rt : ℕ) → Vr4300 → Stage
unfolding read_entry
vr4300_tlbr iw rs rt c = let index = c.regs cp0_index % 2 ^ 6 in within index (read_entry index c)

-- `cp0.pfn[index][0] = a; cp0.pfn[index][1] = b`
abbrev pub pair : ℕ → ℕ → Bool → ℕ
pair a b false = a
pair a b true = b

-- The writes of `VR4300_TLBWI` and `VR4300_TLBWR`
unfoldable pub write_entry : (index : ℕ) → Vr4300 → Vr4300
unfolding mask_reg update
write_entry index c =
    let entry_hi = mask_reg 10 (c.regs cp0_entryhi) in
    let lo0 = mask_reg 2 (c.regs cp0_entrylo0) in
    let lo1 = mask_reg 3 (c.regs cp0_entrylo1) in
    let page_mask = mask_reg 5 (c.regs cp0_pagemask) in
    record c {
      cp0 = record {
        tlb = tlb_write c.cp0.tlb index entry_hi lo0 lo1 page_mask;
        page_mask = update c.cp0.page_mask index ((page_mask + 0x1FFF) / 2);
        pfn =
            update c.cp0.pfn index
              (pair (lo0 / 2 ^ 6 % 2 ^ 20 * 2 ^ 12) (lo1 / 2 ^ 6 % 2 ^ 20 * 2 ^ 12));
        state = update c.cp0.state index (pair (lo0 % 2 ^ 6) (lo1 % 2 ^ 6));
      };
    }

-- `VR4300_TLBWI`
unfoldable pub vr4300_tlbwi : (iw rs rt : ℕ) → Vr4300 → Stage
unfolding write_entry
vr4300_tlbwi iw rs rt c = let index = c.regs cp0_index % 2 ^ 6 in within index (write_entry index c)

-- `VR4300_TLBWR`, with the value of `rand()`; a division by 0 is undefined, and above 32 the unsigned
-- difference wraps around.
unfoldable pub vr4300_tlbwr : (rand iw rs rt : ℕ) → Vr4300 → Stage
unfolding write_entry
vr4300_tlbwr rand iw rs rt c =
    let wired = c.regs cp0_wired % 2 ^ 6 in
    let free = (32 + 2 ^ 32 - wired) % 2 ^ 32 in
    let index = u32 (rand % free + wired) in
    if free == 0 then stopped else within index (write_entry index c)

-- `vr4300_cp0_init`
unfoldable pub vr4300_cp0_init : Vr4300 → Vr4300
vr4300_cp0_init c = record c { cp0 = record (c.cp0) { tlb = tlb_init c.cp0.tlb } }
