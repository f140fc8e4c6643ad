-- ===== src/Vr4300/Pipeline/DataStage.antt =====
-- vr4300/pipeline.c: the data stage.
use cmips_cen.Base.{
  ℕ, ◌+◌, ◌-◌, ◌*◌, ◌/◌, ◌%◌, ◌^◌, Bool, true, false, not, Option, none, some, ◌==◌, ◌||◌, ◌&&◌,
  leb, ltb, if◌then◌else◌, update, u32, u64, sub64, bit, field, bit_and, bit_or,
}
use cmips_cen.Segment.{Segment, get_segment}
use cmips_cen.Vr4300.Dcache
use cmips_cen.Vr4300.Dcache.{DcacheLine}
use cmips_cen.Vr4300.Fault.{
  vr4300_rst, vr4300_intr, vr4300_dtlb, vr4300_dcb, vr4300_wat, vr4300_dade,
}
use cmips_cen.Vr4300.Fault.Refill.{vr4300_dcm, sra64}
use cmips_cen.Vr4300.Functions.CacheOps.{run_cacheop}
use cmips_cen.Vr4300.Functions.Words.{not64}
use cmips_cen.Vr4300.Pipeline.Fetch.{outside, translate, is_cached, blocked_by}
use cmips_cen.Vr4300.State.{
  Vr4300, Stage, next, blocked, stopped, put_reg, with_pipeline, with_exdc, with_dcwb, cp0_status,
  cp0_cause, cp0_watchlo, pipeline_cycle_type, request_none, request_write, request_cache_idx,
}

-- The condition of an interrupt: a pending and enabled source, with interrupts on and no exception
unfoldable pub interrupted : (status cause : ℕ) → Bool
interrupted status cause = not (field 8 8 (bit_and cause status) == 0) && status % 2 ^ 3 == 1

-- The pair of words of a line at a physical address, and a line with other words there
unfoldable pub dword_of : DcacheLine → (paddr : ℕ) → ℕ
dword_of line paddr = let i = paddr / 2 ^ 3 % 2 * 2 in line.words i + line.words (i + 1) * 2 ^ 32

unfoldable pub put_dword : DcacheLine → (paddr dword : ℕ) → DcacheLine
unfolding update
put_dword line paddr dword =
    let i = paddr / 2 ^ 3 % 2 * 2 in
    record line { words = update (update line.words i (dword % 2 ^ 32)) (i + 1) (dword / 2 ^ 32) }

-- `(s_paddr ^ (WORD_ADDR_XOR << 3)) & request->access_type`
abbrev pub half_shift : (paddr access_type : ℕ) → ℕ
half_shift paddr access_type = if paddr / 2 ^ 2 % 2 == 0 then bit_and 32 access_type else 0

-- The access of a line that hits. The metadata takes the type of the request: 1 is valid, 2 dirty.
unfoldable pub access_line : DcacheLine → (paddr : ℕ) → Vr4300 → Vr4300
unfolding dword_of put_dword Dcache.put_line
access_line line paddr c =
    let request = c.pipeline.exdc_latch.request in
    let shift = half_shift paddr request.access_type in
    let dword = dword_of line paddr in
    let wdqm = u64 (request.wdqm * 2 ^ shift) in
    let wtemp = bit_and (u64 (request.content * 2 ^ shift)) wdqm in
    let loaded = sra64 (u64 (dword * 2 ^ (paddr % 2 ^ 3 * 8))) ((8 - request.size) * 8) in
    let rtemp = bit_and loaded request.content in
    let written = bit_or (bit_and dword (not64 wdqm)) wtemp in
    let line1 = put_dword line paddr written in
    let line2 = record line1 { metadata = bit_or line1.metadata request.type } in
    record (with_dcwb
      (λ l. record l { result = bit_or l.result (u64 (rtemp * 2 ^ request.postshift)) }) c) {
        dcache = Dcache.put_line request.vaddr line2 c.dcache;
      }

-- The physical address and the cache mode of a request that is not in the cache
abbrev pub with_address : (paddr : ℕ) → (cached : Bool) → Vr4300 → Vr4300
with_address paddr cached c =
    with_exdc (λ l. record l { cached = cached; request = record (l.request) { paddr = paddr } }) c

abbrev pub note_store : Bool → Vr4300 → Vr4300
note_store stored c = with_dcwb (λ l. record l { last_op_was_cache_store = stored }) c

-- A load or a store of cached memory; a miss waits a cycle for `VR4300_DCM`.
unfoldable pub cached_access : (paddr : ℕ) → Vr4300 → Stage
unfolding access_line Dcache.probe vr4300_dcb update
cached_access paddr c =
    let request = c.pipeline.exdc_latch.request in
    let last_was_store = c.pipeline.dcwb_latch.last_op_was_cache_store in
    let c1 = note_store (request.type == request_write) c in
    elim (Dcache.probe c.dcache request.vaddr paddr) [
      | none ↦ blocked (
          put_reg pipeline_cycle_type 6
            (with_pipeline (λ p. record p { cycles_to_stall = 0 }) (with_address paddr true c1)))
      | some line ↦
          (if last_was_store then blocked (vr4300_dcb c1) else next (access_line line paddr c1))
    ]

-- A load or a store of memory that is not cached
unfoldable pub uncached_access : (paddr : ℕ) → Vr4300 → Stage
unfolding vr4300_dcm
uncached_access paddr c = blocked_by (vr4300_dcm (with_address paddr false (note_store false c)))

-- A cache operation; a delay makes the stage wait.
abbrev pub after_cacheop : Option (ℕ × Vr4300) → Stage
after_cacheop none = stopped
after_cacheop (some (delay, c)) =
    if delay == 0
    then next c
    else blocked (
        put_reg pipeline_cycle_type 2
          (with_pipeline (λ p. record p { cycles_to_stall = delay - 1 }) c))

-- The watch condition: the address, and the type of the access
unfoldable pub watched : (watchlo paddr type : ℕ) → Bool
watched watchlo paddr type =
    field 3 28 paddr == field 3 28 watchlo && not (bit_and (bit_and watchlo type) 3 == 0)

-- The rest of the stage, with a physical address
unfoldable pub access_memory : (paddr : ℕ) → (cached : Bool) → Vr4300 → Stage
unfolding watched vr4300_wat cached_access uncached_access run_cacheop update
access_memory paddr cached c =
    let request = c.pipeline.exdc_latch.request in
    if watched (c.regs cp0_watchlo) paddr request.type
    then blocked (vr4300_wat c)
    else if ltb request.type request_cache_idx
    then if cached then cached_access paddr c else uncached_access paddr c
    else after_cacheop (run_cacheop request.cacheop request.vaddr paddr c)

-- The translation of the stage; the memory of an unmapped segment counts as uncached.
unfoldable pub translate_request : Segment → Vr4300 → Stage
unfolding access_memory translate vr4300_dtlb bit
translate_request segment c =
    let request = c.pipeline.exdc_latch.request in
    let t = translate request.vaddr c in
    let inv = not (bit 1 t.state) in
    let modified = not (bit 2 t.state) && request.type == request_write in
    if not segment.mapped
    then access_memory (u32 (sub64 request.vaddr segment.offset)) false c
    else if leb 32 t.index
    then stopped
    else if (t.miss || inv || modified) && ltb request.type request_cache_idx
    then blocked_by (vr4300_dtlb t.miss inv c)
    else access_memory t.paddr (is_cached t.state) c

-- The segment of the address of the request
unfoldable pub request_segment : Vr4300 → Stage
unfolding translate_request vr4300_dade
request_segment c =
    let vaddr = c.pipeline.exdc_latch.request.vaddr in
    elim c.pipeline.exdc_latch.segment [
      | none ↦ stopped
      | some segment ↦
          (if outside vaddr segment
            then elim (get_segment vaddr (u32 (c.regs cp0_status))) [
              | none ↦ blocked_by (vr4300_dade c)
              | some found ↦
                  translate_request found (with_exdc (λ l. record l { segment = some found }) c)
            ]
            else translate_request segment c)
    ]

-- `vr4300_dc_stage`
unfoldable pub vr4300_dc_stage : Vr4300 → Stage
unfolding request_segment interrupted vr4300_rst vr4300_intr bit
vr4300_dc_stage c =
    let exdc = c.pipeline.exdc_latch in
    let c1 =
      with_dcwb (λ l. record l { common = exdc.common; result = exdc.result; dest = exdc.dest })
        c in
    if bit 1 c.signals
    then blocked_by (vr4300_rst c1)
    else if interrupted (u32 (c.regs cp0_status)) (u32 (c.regs cp0_cause))
    then blocked (vr4300_intr c1)
    else if exdc.request.type == request_none
    then next c1
    else request_segment c1
