-- ===== src/Vr4300/Pipeline/Forwarding.antt =====
-- vr4300/pipeline.c: the result of an instruction on its way to the next ones.
use cmips_cen.Base.{
  ℕ, ◌≡◌, ◌≢◌, refl, ap, ap₂, ◌∙◌, arith, Bool, true, false, ◌==◌, ◌&&◌, if◌then◌else◌, update, u32,
  bit,
}
use cmips_cen.Vr4300.Decoder.{get_rs, get_rt}
use cmips_cen.Vr4300.Decoder.Opcodes.{OpcodeId}
use cmips_cen.Vr4300.Functions.Table.{Function}
use cmips_cen.Vr4300.Pipeline.DataStage.{interrupted, vr4300_dc_stage}
use cmips_cen.Vr4300.Pipeline.Execute.{
  Sources, sources, must_wait, forwarded, restored, run_function, vr4300_ex_stage,
}
use cmips_cen.Vr4300.State.{
  Vr4300, Stage, next, blocked, stopped, with_exdc, with_dcwb, cp0_status, cp0_cause, request_none,
  request_read,
}

-- The stages one after the other
abbrev pub then_stage : Stage → (Vr4300 → Stage) → Stage
then_stage (next c) k = k c
then_stage (blocked c) k = blocked c
then_stage stopped k = stopped

-- A register as a program sees it, while the result of the last instruction stands before DC
unfoldable pub seen : Vr4300 → ℕ → ℕ
seen c r =
    if r == 0
    then 0
    else if r == c.pipeline.exdc_latch.dest
    then c.pipeline.exdc_latch.result
    else c.regs r

if_no : {A : Type 0} (x y : A) (b : Bool) → b ≡ false → (if b then x else y) ≡ y
if_no x y b p = rw p refl

if_yes : {A : Type 0} (x y : A) (b : Bool) → b ≡ true → (if b then x else y) ≡ x
if_yes x y b p = rw p refl

-- The latches behind DC
abbrev latched : Vr4300 → Vr4300
latched c =
    let exdc = c.pipeline.exdc_latch in
    with_dcwb (λ l. record l { common = exdc.common; result = exdc.result; dest = exdc.dest }) c

idle_test :
    (c : Vr4300) (type : ℕ)
    → c.pipeline.exdc_latch.request.type ≡ request_none
    → (c.pipeline.exdc_latch.request.type == type) ≡ (request_none == type)
idle_test c type idle = ap (λ t. t == type) idle

dc_stage_idle :
    (c : Vr4300)
    → bit 1 c.signals ≡ false
    → interrupted (u32 (c.regs cp0_status)) (u32 (c.regs cp0_cause)) ≡ false
    → (c.pipeline.exdc_latch.request.type == request_none) ≡ true
    → vr4300_dc_stage c ≡ next (latched c)
unfolding vr4300_dc_stage
dc_stage_idle c calm quiet idle = if_no _ _ _ calm ∙ if_no _ _ _ quiet ∙ if_yes _ _ _ idle

-- The state in which EX calls the function of an instruction
abbrev issued : Vr4300 → Vr4300
issued c =
    with_exdc (λ l. record l { dest = 0; request = record (l.request) { type = request_none } })
      (record c { regs = restored c })

and_no : (a b : Bool) → a ≡ false → (a && b) ≡ false
and_no a b p = ground (arith, p)

sources_integer :
    (flags iw status : ℕ)
    → bit 2 flags ≡ false
    → sources flags iw status ≡ record { rs = get_rs iw; rt = get_rt iw }
unfolding sources
sources_integer flags iw status integer = if_no _ _ _ integer

run_function_ready :
    (table : OpcodeId → Function) (s : Sources) (c : Vr4300)
    → (c.pipeline.exdc_latch.request.type == request_read) ≡ false
    → run_function table s c
      ≡ table c.pipeline.rfex_latch.opcode.id c.pipeline.rfex_latch.iw
          (forwarded c s.rs)
          (forwarded c s.rt)
          (issued c)
unfolding run_function must_wait
run_function_ready table s c idle = if_no _ _ _ (and_no _ _ idle)

-- The state in which EX begins
abbrev entered : Vr4300 → Vr4300
entered c = with_exdc (λ l. record l { common = c.pipeline.rfex_latch.common }) c

ex_stage_ready :
    (table : OpcodeId → Function) (c : Vr4300)
    → bit 2 c.pipeline.rfex_latch.opcode.flags ≡ false
    → (c.pipeline.exdc_latch.request.type == request_read) ≡ false
    → vr4300_ex_stage table c
      ≡ table c.pipeline.rfex_latch.opcode.id c.pipeline.rfex_latch.iw
          (forwarded c (get_rs c.pipeline.rfex_latch.iw))
          (forwarded c (get_rt c.pipeline.rfex_latch.iw))
          (issued (entered c))
unfolding vr4300_ex_stage forwarded
ex_stage_ready table c integer idle =
    let rfex = c.pipeline.rfex_latch in
    if_no _ _ _ (and_no _ _ integer)
    ∙ ap (λ s. run_function table s (entered c))
        (sources_integer rfex.opcode.flags rfex.iw (u32 (c.regs cp0_status)) integer)
    ∙ run_function_ready table _ (entered c) idle

forwarded-latched : (c : Vr4300) (r : ℕ) → forwarded (latched c) r ≡ seen c r
unfolding forwarded seen update
forwarded-latched c r = refl

restored_ne : (c : Vr4300) (r : ℕ) → r ≢ 0 → restored c r ≡ c.regs r
unfolding restored forwarded update
restored_ne c r ne = ground arith

-- Without a reset, an interrupt or a memory access, DC and then EX of an instruction of the integer
-- unit run its function on the registers as the program sees them: with the result that the
-- instruction before left in EX, and 0 for register 0. Nothing has to wait, the registers other
-- than 0 stay as they are, and the result of the instruction before is the one that WB writes.
pub ex_stage_forwards :
    (table : OpcodeId → Function) (c : Vr4300)
    → bit 1 c.signals ≡ false
    → interrupted (u32 (c.regs cp0_status)) (u32 (c.regs cp0_cause)) ≡ false
    → c.pipeline.exdc_latch.request.type ≡ request_none
    → bit 2 c.pipeline.rfex_latch.opcode.flags ≡ false
    → (c' : Vr4300) × (then_stage (vr4300_dc_stage c) (vr4300_ex_stage table)
        ≡ table c.pipeline.rfex_latch.opcode.id c.pipeline.rfex_latch.iw
            (seen c (get_rs c.pipeline.rfex_latch.iw))
            (seen c (get_rt c.pipeline.rfex_latch.iw))
            c')
      × ((r : ℕ) → r ≢ 0 → c'.regs r ≡ c.regs r)
      × (c'.pipeline.dcwb_latch.dest ≡ c.pipeline.exdc_latch.dest)
      × (c'.pipeline.dcwb_latch.result ≡ c.pipeline.exdc_latch.result)
ex_stage_forwards table c calm quiet idle integer =
    let iw = c.pipeline.rfex_latch.iw in
    let none_asked = idle_test c request_none idle in
    let no_read = idle_test c request_read idle in
    let c' = issued (entered (latched c)) in
    let function = table c.pipeline.rfex_latch.opcode.id iw in
    (
      c',
      ap (λ s. then_stage s (vr4300_ex_stage table)) (dc_stage_idle c calm quiet none_asked)
          ∙ ex_stage_ready table (latched c) integer no_read
          ∙ ap₂ (λ rs rt. function rs rt c') (forwarded-latched c (get_rs iw))
              (forwarded-latched c (get_rt iw)),
      restored_ne (entered (latched c)),
      refl,
      refl,
    )
