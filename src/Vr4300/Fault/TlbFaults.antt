-- ===== src/Vr4300/Fault/TlbFaults.antt =====
-- vr4300/fault.c: what the exceptions of the TLB leave in the registers.
use cmips_cen.Base.{
  ℕ, ◌+◌, ◌*◌, ◌%◌, ◌^◌, ◌≡◌, refl, arith, Bool, some, if◌then◌else◌, ◌&&◌, ◌||◌, ◌==◌, not, ◌<◌,
  ap, ◌/◌, sext32_64, bit_and, u32, sub64, field, bit, set_bit, clear_bit,
}
use cmips_cen.Segment.{Segment}
use cmips_cen.Vr4300.Fault.{
  in_bd_slot, dtlb_code, of_segment, tlb_exception, dc_fault, rf_fault, vr4300_dtlb, vr4300_itlb,
}
use cmips_cen.Vr4300.State.{
  Vr4300, Latch, cp0_badvaddr, cp0_entryhi, cp0_status, cp0_cause, cp0_epc, cp0_context,
  cp0_xcontext, fault_dtlb, fault_itlb, request_write,
}

-- The segment is in its 64-bit mode: a bit of Status that the segment names is set.
abbrev pub is_wide : Segment → (status : ℕ) → Bool
is_wide segment status = not (bit_and (status % 2 ^ 32) segment.xmode_mask == 0)

-- The processor `c'` has taken an exception of the TLB for an address, from these registers and at the
-- instruction of `l`.
pub record TlbTaken (l : Latch) (segment : Segment) (miss : Bool) (vaddr code : ℕ) (regs : ℕ → ℕ)
    (c' : Vr4300) : Type 0 where
  pub bad_address : c'.regs cp0_badvaddr ≡ vaddr
  pub asid : c'.regs cp0_entryhi % 2 ^ 8 ≡ regs cp0_entryhi % 2 ^ 8
  pub page : field 13 19 (c'.regs cp0_entryhi) ≡ field 13 19 vaddr
  pub entryhi : c'.regs cp0_entryhi ≡ (
      if is_wide segment (regs cp0_status)
      then field 62 2 vaddr * 2 ^ 62 + field 13 27 vaddr * 2 ^ 13 + regs cp0_entryhi % 2 ^ 8
      else sext32_64 (field 13 19 vaddr * 2 ^ 13 + regs cp0_entryhi % 2 ^ 8))
  pub context : c'.regs cp0_context ≡ (
      if is_wide segment (regs cp0_status)
      then regs cp0_context
      else regs cp0_context / 2 ^ 23 * 2 ^ 23
        + field 13 19 vaddr * 2 ^ 4
        + regs cp0_context % 2 ^ 4)
  pub xcontext : c'.regs cp0_xcontext ≡ (
      if is_wide segment (regs cp0_status)
      then regs cp0_xcontext / 2 ^ 33 * 2 ^ 33
        + field 62 2 vaddr * 2 ^ 31
        + field 13 27 vaddr * 2 ^ 4
        + regs cp0_xcontext % 2 ^ 4
      else regs cp0_xcontext)
  pub exception_code : c'.regs cp0_cause % 2 ^ 8 ≡ code * 2 ^ 2
  pub level : c'.regs cp0_status ≡ set_bit 1 (u32 (regs cp0_status))
  pub epc : c'.regs cp0_epc ≡ (
      if bit 1 (regs cp0_status) then regs cp0_epc else if in_bd_slot l then sub64 l.pc 4 else l.pc)
  pub vector :
      c'.pipeline.icrf_latch.pc
      ≡ (if bit 22 (regs cp0_status) then 0xFFFFFFFFBFC00200 else 0xFFFFFFFF80000000)
        + (if miss && not (bit 1 (regs cp0_status))
            then if is_wide segment (regs cp0_status) then 0x080 else 0x000
            else 0x180)

entered :
    (l : Latch) (s : Segment) (miss : Bool) (vaddr code : ℕ) (c : Vr4300)
    → code < 4
    → TlbTaken l s miss vaddr code c.regs (tlb_exception l vaddr code miss c s)
unfolding tlb_exception bit set_bit clear_bit
entered l s miss vaddr code c small = record {
  bad_address = refl;
  asid = ground arith;
  page = ground arith;
  entryhi = ground arith;
  context = ground arith;
  xcontext = ground arith;
  exception_code = ground arith;
  level = ground arith;
  epc = ground arith;
  vector = ground arith;
}

-- A data access or a fetch whose page the TLB does not have, or has as invalid or not writable, is
-- reported so: BadVAddr is the address. EntryHi is the page of the address with the address space as
-- it was: in the 64-bit mode of the segment the region and 27 bits, else 19 bits, extended by the sign.
-- The page number is put into XContext with the region, or into Context, whose other bits and the
-- other register stay. The code tells a store (3) from a load or a fetch (2) and from a modification (1),
-- and a miss outside of an exception goes to the refill vector (0, or 0x80 in the 64-bit mode of the
-- segment), all else to the general vector 0x180.
pub tlb_faults :
    (c : Vr4300) (s t : Segment) (miss inv : Bool)
    → c.pipeline.exdc_latch.segment ≡ some s
    → c.pipeline.icrf_latch.segment ≡ some t
    → let exdc = c.pipeline.exdc_latch in
      let icrf = c.pipeline.icrf_latch in
      let code : ℕ =
        (if miss || inv then if exdc.request.type == request_write then 3 else 2 else 1) in
      ((c' : Vr4300) × (vr4300_dtlb miss inv c ≡ some c')
        × TlbTaken
            (record (exdc.common) { fault = fault_dtlb })
            s
            miss
            exdc.request.vaddr
            code
            c.regs
            c')
      × ((c' : Vr4300) × (vr4300_itlb miss c ≡ some c')
          × TlbTaken
              (record (icrf.common) { fault = fault_itlb })
              t
              miss
              icrf.common.pc
              2
              c.regs
              c')
unfolding vr4300_dtlb vr4300_itlb dc_fault rf_fault
tlb_faults c s t miss inv hs ht =
    let exdc = c.pipeline.exdc_latch in
    let icrf = c.pipeline.icrf_latch in
    let code : ℕ = dtlb_code miss inv exdc.request.type in
    let faulty = dc_fault fault_dtlb c in
    let fetch = rf_fault fault_itlb c in
    let small : code < 4 = ground arith in
    (
      (
        tlb_exception faulty.pipeline.exdc_latch.common exdc.request.vaddr code miss faulty s,
        ap
            (λ x.
              of_segment x (
                tlb_exception faulty.pipeline.exdc_latch.common exdc.request.vaddr code miss
                  faulty))
            hs,
        entered faulty.pipeline.exdc_latch.common s miss exdc.request.vaddr code faulty small,
      ),
      (
        tlb_exception fetch.pipeline.icrf_latch.common icrf.common.pc 2 miss fetch t,
        ap
            (λ x.
              of_segment x
                (tlb_exception fetch.pipeline.icrf_latch.common icrf.common.pc 2 miss fetch))
            ht,
        entered fetch.pipeline.icrf_latch.common t miss icrf.common.pc 2 fetch (omega arith),
      ),
    )
