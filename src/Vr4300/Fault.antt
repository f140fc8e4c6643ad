-- ===== src/Vr4300/Fault.antt =====
-- vr4300/fault.c: interlocks and exceptions of the pipeline. A function that can end in `abort()`,
-- or in what C leaves undefined, returns `none` there.
pub mod Refill
pub mod Exceptions
pub mod TlbFaults
pub mod Lines
pub mod View
pub mod Coherence
use cmips_cen.Base.{
  ℕ, zero, suc, ◌+◌, ◌-◌, ◌*◌, ◌/◌, ◌%◌, ◌^◌, Bool, true, false, Option, none, some, ◌||◌, ◌==◌,
  if◌then◌else◌, update, u8, u32, u64, sub64, sext32_64, bit, set_bit, clear_bit, bit_and,
}
use cmips_cen.Segment.{Segment, get_default_segment}
use cmips_cen.Vr4300.State.{
  Vr4300, Latch, put_reg, with_pipeline, with_dcwb, with_exdc, with_rfex, with_icrf, with_request,
  cp0_random, cp0_context, cp0_badvaddr, cp0_entryhi, cp0_status, cp0_cause, cp0_epc, cp0_prid,
  cp0_config, cp0_watchlo, cp0_xcontext, pipeline_cycle_type, fault_rst, fault_dtlb, fault_wat,
  fault_intr, fault_cpu, fault_itlb, request_none, request_write,
}

-- `vr4300_common_interlocks`
unfoldable pub common_interlocks : (cycles_to_stall skip_stages : ℕ) → Vr4300 → Vr4300
common_interlocks cycles skip c =
    put_reg pipeline_cycle_type skip (with_pipeline (λ p. record p { cycles_to_stall = cycles }) c)

-- `vr4300_rf_fault`, `vr4300_ex_fault` and `vr4300_dc_fault`
unfoldable pub rf_fault : ℕ → Vr4300 → Vr4300
rf_fault fault c =
    with_icrf (λ l. record l { common = record (l.common) { fault = fault } })
      (with_rfex (λ l. record l { common = record (l.common) { fault = fault } }) c)

unfoldable pub ex_fault : ℕ → Vr4300 → Vr4300
unfolding rf_fault
ex_fault fault c =
    rf_fault fault (with_exdc (λ l. record l { common = record (l.common) { fault = fault } }) c)

unfoldable pub dc_fault : ℕ → Vr4300 → Vr4300
unfolding ex_fault
dc_fault fault c =
    ex_fault fault (with_dcwb (λ l. record l { common = record (l.common) { fault = fault } }) c)

-- The registers that a prolog reads and an epilogue writes
pub record Saved : Type 0 where
  pub cause : ℕ
  pub status : ℕ
  pub epc : ℕ

-- `l->cause_data >> 31`
abbrev pub in_bd_slot : Latch → Bool
in_bd_slot l = bit 31 l.cause_data

-- `vr4300_exception_prolog`
unfoldable pub exception_prolog : Latch → Vr4300 → Saved
unfolding bit set_bit clear_bit
exception_prolog l c =
    let status = u32 (c.regs cp0_status) in
    let cause = u32 (c.regs cp0_cause) in
    if bit 1 status
    then record { cause = cause; status = status; epc = c.regs cp0_epc }
    else if in_bd_slot l
    then record { cause = set_bit 31 cause; status = status; epc = sub64 l.pc 4 }
    else record { cause = clear_bit 31 cause; status = status; epc = l.pc }

-- `*status & segment->xmode_mask`
abbrev pub in_xmode : ℕ → Segment → Bool
in_xmode status segment = if bit_and status segment.xmode_mask == 0 then false else true

-- The writes of `vr4300_tlb_exception_prolog` in the 64-bit and in the 32-bit mode
unfoldable pub write_xcontext : ℕ → Vr4300 → Vr4300
unfolding update
write_xcontext vaddr c =
    let vpn2 = vaddr / 2 ^ 13 % 2 ^ 27 in
    let region = vaddr / 2 ^ 62 % 2 ^ 2 in
    let context = c.regs cp0_xcontext in
    put_reg cp0_xcontext
      (context / 2 ^ 33 * 2 ^ 33 + region * 2 ^ 31 + vpn2 * 2 ^ 4 + context % 2 ^ 4)
      (put_reg cp0_entryhi (region * 2 ^ 62 + vpn2 * 2 ^ 13 + u8 (c.regs cp0_entryhi)) c)

unfoldable pub write_context : ℕ → Vr4300 → Vr4300
unfolding update
write_context vaddr c =
    let vpn2 = vaddr / 2 ^ 13 % 2 ^ 19 in
    let context = c.regs cp0_context in
    put_reg cp0_context (context / 2 ^ 23 * 2 ^ 23 + vpn2 * 2 ^ 4 + context % 2 ^ 4)
      (put_reg cp0_entryhi (sext32_64 (vpn2 * 2 ^ 13 + u8 (c.regs cp0_entryhi))) c)

-- `vr4300_tlb_exception_prolog`: the saved registers are those of the other prolog; the vector
-- offset of a miss, and the registers that describe the address.
unfoldable pub tlb_offs : (status : ℕ) → Segment → ℕ
unfolding bit
tlb_offs status segment =
    if bit 1 status then 0x180 else if in_xmode status segment then 0x080 else 0x000

unfoldable pub tlb_exception_prolog : Latch → Segment → (vaddr : ℕ) → Vr4300 → Saved × ℕ × Vr4300
unfolding exception_prolog tlb_offs write_xcontext write_context update
tlb_exception_prolog l segment vaddr c =
    let s = exception_prolog l c in
    let c1 =
      (if in_xmode s.status segment then write_xcontext vaddr c else write_context vaddr c) in
    (s, tlb_offs s.status segment, put_reg cp0_badvaddr vaddr c1)

-- `vr4300_exception_epilogue`
unfoldable pub exception_epilogue : Saved → (offs : ℕ) → Vr4300 → Vr4300
unfolding bit set_bit update
exception_epilogue s offs c =
    let c1 =
      with_exdc (λ l. record l { segment = some get_default_segment })
        (with_icrf
          (λ l. record l {
            segment = some get_default_segment;
            pc = u64 ((if bit 22 s.status then 0xFFFFFFFFBFC00200 else 0xFFFFFFFF80000000) + offs);
          })
          c) in
    put_reg cp0_epc s.epc (
      put_reg cp0_cause s.cause (
        put_reg cp0_status (set_bit 1 s.status) (
          put_reg pipeline_cycle_type 0 (
            with_pipeline
              (λ p. record p { exception_history = 0; fault_present = true; cycles_to_stall = 2 })
              c1))))

-- `(cause & ~0xFF) | code`
abbrev pub with_code : ℕ → Saved → Saved
with_code code s = record s { cause = s.cause / 2 ^ 8 * 2 ^ 8 + code }

-- `VR4300_CPU`: the coprocessor field of Cause is written 1.
unfoldable pub vr4300_cpu : Vr4300 → Vr4300
unfolding ex_fault exception_prolog exception_epilogue set_bit bit
vr4300_cpu c =
    let c1 = ex_fault fault_cpu c in
    let s = exception_prolog c1.pipeline.exdc_latch.common c1 in
    exception_epilogue (record s { cause = set_bit 28 (s.cause / 2 ^ 8 * 2 ^ 8) + 0x2C }) 0x180 c1

-- `VR4300_DADE`, `VR4300_IADE` and `VR4300_INV`
unfoldable pub vr4300_dade : Vr4300 → Option Vr4300
vr4300_dade c = none

unfoldable pub vr4300_iade : Vr4300 → Option Vr4300
vr4300_iade c = none

unfoldable pub vr4300_inv : Vr4300 → Option Vr4300
vr4300_inv c = none

-- `VR4300_DCB`
unfoldable pub vr4300_dcb : Vr4300 → Vr4300
unfolding common_interlocks
vr4300_dcb c =
    common_interlocks 0 1 (with_dcwb (λ l. record l { last_op_was_cache_store = false }) c)

-- The prolog and the epilogue of an exception of the TLB; only a miss uses the computed offset.
unfoldable pub tlb_exception : Latch → (vaddr code : ℕ) → (miss : Bool) → Vr4300 → Segment → Vr4300
unfolding tlb_exception_prolog exception_epilogue
tlb_exception l vaddr code miss c segment =
    let p = tlb_exception_prolog l segment vaddr c in
    exception_epilogue (with_code (code * 2 ^ 2) p.0) (if miss then p.1 else 0x180) p.2

-- A use of a segment, which is undefined where the pointer is NULL
abbrev pub of_segment : Option Segment → (Segment → Vr4300) → Option Vr4300
of_segment none k = none
of_segment (some segment) k = some (k segment)

-- `type` in `VR4300_DTLB`
abbrev pub dtlb_code : (miss inv : Bool) → (request : ℕ) → ℕ
dtlb_code miss inv request = if miss || inv then if request == request_write then 3 else 2 else 1

-- `VR4300_DTLB`
unfoldable pub vr4300_dtlb : (miss inv : Bool) → Vr4300 → Option Vr4300
unfolding dc_fault tlb_exception
vr4300_dtlb miss inv c =
    let c1 = dc_fault fault_dtlb c in
    let exdc = c1.pipeline.exdc_latch in
    of_segment exdc.segment
      (tlb_exception exdc.common exdc.request.vaddr (dtlb_code miss inv exdc.request.type) miss c1)

-- `VR4300_INTR`
unfoldable pub vr4300_intr : Vr4300 → Vr4300
unfolding exception_prolog exception_epilogue dc_fault
vr4300_intr c =
    let s = exception_prolog c.pipeline.dcwb_latch.common c in
    dc_fault fault_intr (exception_epilogue (with_code 0 s) 0x180 c)

-- `VR4300_ITLB`
unfoldable pub vr4300_itlb : (miss : Bool) → Vr4300 → Option Vr4300
unfolding rf_fault tlb_exception
vr4300_itlb miss c =
    let c1 = rf_fault fault_itlb c in
    let icrf = c1.pipeline.icrf_latch in
    of_segment icrf.segment (tlb_exception icrf.common icrf.common.pc 2 miss c1)

-- `VR4300_LDI`
unfoldable pub vr4300_ldi : Vr4300 → Vr4300
unfolding common_interlocks
vr4300_ldi c = common_interlocks 0 2 (with_request (λ r. record r { type = request_none }) c)

-- `VR4300_RST`; a soft reset aborts.
unfoldable pub vr4300_rst : Vr4300 → Option Vr4300
unfolding dc_fault exception_epilogue clear_bit bit update
vr4300_rst c =
    let status = clear_bit 27 (clear_bit 21 (clear_bit 20 (c.regs cp0_status))) in
    let config = c.regs cp0_config in
    let c1 = put_reg cp0_random 31 (
      put_reg cp0_config (config / 2 ^ 32 * 2 ^ 32 + config / 2 ^ 15 % 2 * 2 ^ 15 + config % 2 ^ 4)
        (put_reg cp0_status status (record c { signals = clear_bit 1 c.signals }))) in
    let c2 = dc_fault fault_rst c1 in
    let s : Saved = record {
      cause = u32 (c2.regs cp0_cause);
      status = u32 (c2.regs cp0_status);
      epc = c2.regs cp0_epc;
    } in
    let c3 = put_reg cp0_status 4 (exception_epilogue s (2 ^ 64 - 0x200) c2) in
    let c4 =
      with_icrf (λ l. record l { pc = 0xFFFFFFFF801E4B10 })
        (put_reg cp0_status (clear_bit 22 (c3.regs cp0_status)) c3) in
    if bit 1 c.signals
    then some
        (put_reg cp0_watchlo 0 (put_reg cp0_config 0x80008082 (put_reg cp0_prid 0x00018000 c4)))
    else none

-- `VR4300_TRAP`, which raises the fault of `VR4300_CPU`
unfoldable pub vr4300_trap : Vr4300 → Vr4300
unfolding ex_fault exception_prolog exception_epilogue
vr4300_trap c =
    let c1 = ex_fault fault_cpu c in
    exception_epilogue (with_code 0x34 (exception_prolog c1.pipeline.exdc_latch.common c1)) 0x180 c1

-- `VR4300_WAT`
unfoldable pub vr4300_wat : Vr4300 → Vr4300
unfolding exception_prolog exception_epilogue dc_fault
vr4300_wat c =
    let s = exception_prolog c.pipeline.dcwb_latch.common c in
    dc_fault fault_wat (exception_epilogue (with_code (23 * 2 ^ 2) s) 0x180 c)
