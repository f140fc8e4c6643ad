-- ===== src/Vr4300/Pipeline/Fetch.antt =====
-- vr4300/pipeline.c: the instruction cache stage and the register fetch stage.
use cmips_cen.Base.{
  ℕ, ◌+◌, ◌-◌, ◌/◌, ◌%◌, ◌^◌, Bool, true, false, not, Option, none, some, ◌==◌, ◌||◌, leb,
  if◌then◌else◌, u32, u64, sub64, bit, bit_and, bit_or,
}
use cmips_cen.ArchTlb.{tlb_probe}
use cmips_cen.Segment.{Segment, get_segment}
use cmips_cen.Vr4300.Decoder.{decode_instruction}
use cmips_cen.Vr4300.Decoder.Opcodes.{Opcode}
use cmips_cen.Vr4300.Fault.{vr4300_itlb}
use cmips_cen.Vr4300.Fault.Refill.{vr4300_icb}
use cmips_cen.Vr4300.Icache
use cmips_cen.Vr4300.Icache.{IcacheLine}
use cmips_cen.Vr4300.State.{
  Vr4300, Stage, next, blocked, stopped, with_rfex, with_icrf, cp0_entryhi, cp0_status,
}

-- `(address - segment->start) >= segment->length`
abbrev pub outside : ℕ → Segment → Bool
outside address segment = leb segment.length (sub64 address segment.start)

-- The latches of the end of `vr4300_ic_stage`: the segment of the program counter, if it changed. No
-- segment is an address error, which aborts.
unfoldable pub find_segment : Vr4300 → Option Vr4300
find_segment c =
    let pc = c.pipeline.icrf_latch.common.pc in
    elim c.pipeline.icrf_latch.segment [
      | none ↦ none
      | some segment ↦
          (if outside pc segment
            then elim (get_segment pc (u32 (c.regs cp0_status))) [
              | none ↦ none
              | some found ↦ some (with_icrf (λ l. record l { segment = some found }) c)
            ]
            else some c)
    ]

-- The decoding of the instruction in RF, and the latches of the next one
unfoldable pub latch_fetch : (iw : ℕ) → Opcode → Vr4300 → Vr4300
unfolding bit
latch_fetch iw opcode c =
    let pc = c.pipeline.icrf_latch.pc in
    with_icrf
      (λ l. record l {
        common = record (l.common) {
          pc = pc;
          cause_data = if bit 31 opcode.flags then 2 ^ 31 else 0;
        };
        pc = u64 (pc + 4);
      })
      (with_rfex
        (λ l. record l {
          common = record (l.common) { killed = 2 ^ 32 - 1 - l.iw_mask };
          opcode = opcode;
          iw = iw;
          iw_mask = 2 ^ 32 - 1;
        })
        c)

-- `vr4300_ic_stage`
unfoldable pub vr4300_ic_stage : Vr4300 → Option Vr4300
unfolding latch_fetch find_segment
vr4300_ic_stage c =
    let iw = bit_and c.pipeline.rfex_latch.iw c.pipeline.rfex_latch.iw_mask in
    elim (decode_instruction iw) [
      | none ↦ none
      | some opcode ↦ find_segment (latch_fetch iw opcode c)
    ]

-- What a probe of the TLB finds: whether it missed, the entry, and the half of the entry by the page
-- mask. A miss reads entry 0.
pub record Translation : Type 0 where
  pub miss : Bool
  pub index : ℕ
  pub state : ℕ
  pub paddr : ℕ

abbrev pub entry_index : Option ℕ → ℕ
entry_index none = 0
entry_index (some index) = index

abbrev pub is_none : Option ℕ → Bool
is_none none = true
is_none (some index) = false

unfoldable pub translate : (vaddr : ℕ) → Vr4300 → Translation
translate vaddr c =
    let found = tlb_probe c.cp0.tlb vaddr (c.regs cp0_entryhi % 2 ^ 8) in
    let index = entry_index found in
    let page_mask = c.cp0.page_mask index in
    let select = not (bit_and (u32 (page_mask + 1)) vaddr == 0) in
    record {
      miss = is_none found;
      index = index;
      state = c.cp0.state index select;
      paddr = u32 (bit_or (c.cp0.pfn index select) (bit_and vaddr page_mask));
    }

-- `(state & 0x38) != 0x10`
abbrev pub is_cached : ℕ → Bool
is_cached state = not (state / 2 ^ 3 % 2 ^ 3 == 2)

-- The end of `vr4300_rf_stage`, with a physical address
abbrev pub blocked_by : Option Vr4300 → Stage
blocked_by none = stopped
blocked_by (some c) = blocked c

unfoldable pub fetch_word : (vaddr paddr : ℕ) → (cached : Bool) → Vr4300 → Stage
unfolding Icache.probe vr4300_icb
fetch_word vaddr paddr cached c =
    let wait =
      blocked_by (vr4300_icb (with_rfex (λ l. record l { paddr = paddr; cached = cached }) c)) in
    elim (Icache.probe c.icache vaddr paddr) [
      | none ↦ wait
      | some line ↦
          (if cached
            then next (with_rfex (λ l. record l { iw = line.words (paddr / 2 ^ 2 % 2 ^ 3) }) c)
            else wait)
    ]

-- `vr4300_rf_stage`; an index past the arrays is undefined.
unfoldable pub vr4300_rf_stage : Vr4300 → Stage
unfolding fetch_word translate vr4300_itlb bit
vr4300_rf_stage c =
    let icrf = c.pipeline.icrf_latch in
    let vaddr = icrf.common.pc in
    let c1 = with_rfex (λ l. record l { common = icrf.common }) c in
    elim icrf.segment [
      | none ↦ stopped
      | some segment ↦
          (let t = translate vaddr c1 in
            if not segment.mapped
            then fetch_word vaddr (u32 (sub64 vaddr segment.offset)) segment.cached c1
            else if leb 32 t.index
            then stopped
            else if t.miss || not (bit 1 t.state)
            then blocked_by (vr4300_itlb t.miss c1)
            else fetch_word vaddr t.paddr (is_cached t.state) c1)
    ]
