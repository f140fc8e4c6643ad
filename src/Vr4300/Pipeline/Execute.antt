-- ===== src/Vr4300/Pipeline/Execute.antt =====
-- vr4300/pipeline.c: the execution stage. The trace to `out.log` is left out.
use cmips_cen.Base.{
  ℕ, ◌+◌, ◌*◌, ◌/◌, ◌%◌, ◌^◌, Bool, not, ◌==◌, ◌||◌, ◌&&◌, if◌then◌else◌, update, u32, bit,
}
use cmips_cen.Vr4300.Decoder.{get_rs, get_rt}
use cmips_cen.Vr4300.Decoder.Opcodes.{OpcodeId}
use cmips_cen.Vr4300.Fault.{vr4300_cpu, vr4300_ldi}
use cmips_cen.Vr4300.Functions.Table.{Function}
use cmips_cen.Vr4300.State.{
  Vr4300, Stage, blocked, with_exdc, cp0_status, request_none, request_read,
}

-- The numbers of the source registers. An instruction of the floating-point unit may take registers
-- of it, only the even ones if Status.FR is clear.
pub record Sources : Type 0 where
  pub rs : ℕ
  pub rt : ℕ

-- `x & ~(test & 1)`
abbrev pub even_if : Bool → ℕ → ℕ
even_if test x = if test then x / 2 * 2 else x

unfoldable pub sources : (flags iw status : ℕ) → Sources
unfolding bit
sources flags iw status =
    let odd_only = not (bit 26 status) in
    let fs = bit 0 flags in
    let ft = bit 1 flags in
    if bit 2 flags
    then record {
      rs = even_if (fs && odd_only) (if fs then iw / 2 ^ 11 % 2 ^ 5 + 2 ^ 6 else get_rs iw);
      rt = even_if (ft && odd_only) (if ft then get_rt iw + 2 ^ 6 else get_rt iw);
    }
    else record { rs = get_rs iw; rt = get_rt iw }

-- The condition of the load delay interlock
unfoldable pub must_wait : (flags : ℕ) → Sources → Vr4300 → Bool
unfolding bit
must_wait flags s c =
    let exdc = c.pipeline.exdc_latch in
    exdc.request.type == request_read
    && ((exdc.dest == s.rs && bit 3 flags) || (exdc.dest == s.rt && bit 4 flags))

-- The registers with the result of the data stage, from which the sources are read
unfoldable pub forwarded : Vr4300 → ℕ → ℕ
unfolding update
forwarded c = update (update c.regs c.pipeline.dcwb_latch.dest c.pipeline.dcwb_latch.result) 0 0

-- The registers that stay behind
unfoldable pub restored : Vr4300 → ℕ → ℕ
unfolding forwarded update
restored c = let dest = c.pipeline.dcwb_latch.dest in update (forwarded c) dest (c.regs dest)

-- The rest of the stage, with the sources
unfoldable pub run_function : (table : OpcodeId → Function) → Sources → Vr4300 → Stage
unfolding forwarded restored must_wait
run_function table s c =
    let rfex = c.pipeline.rfex_latch in
    let read = forwarded c in
    let c1 =
      with_exdc (λ l. record l { dest = 0; request = record (l.request) { type = request_none } })
        (record c { regs = restored c }) in
    if must_wait rfex.opcode.flags s c
    then blocked (vr4300_ldi c)
    else table rfex.opcode.id rfex.iw (read s.rs) (read s.rt) c1

-- `vr4300_ex_stage`
unfoldable pub vr4300_ex_stage : (table : OpcodeId → Function) → Vr4300 → Stage
unfolding run_function sources vr4300_ldi bit
vr4300_ex_stage table c =
    let rfex = c.pipeline.rfex_latch in
    let status = u32 (c.regs cp0_status) in
    let flags = rfex.opcode.flags in
    let c1 = with_exdc (λ l. record l { common = rfex.common }) c in
    if bit 2 flags && not (bit 29 status)
    then blocked (vr4300_cpu c1)
    else run_function table (sources flags rfex.iw status) c1
