-- ===== src/Vr4300/Pipeline/Cycle.antt =====
-- vr4300/pipeline.c and vr4300/cpu.h: a cycle of the pipeline, and its start.
use cmips_cen.Base.{
  ℕ, ◌+◌, ◌-◌, ◌/◌, false, Option, none, some, ◌==◌, ltb, if◌then◌else◌, update, u32, u64, set_bit,
  bit,
}
use cmips_cen.Bus.Controller.{BusController}
use cmips_cen.Segment.{get_default_segment}
use cmips_cen.Vr4300.Cp0.{vr4300_cp0_init}
use cmips_cen.Vr4300.Decoder.Opcodes.{OpcodeId}
use cmips_cen.Vr4300.Fault.{vr4300_intr}
use cmips_cen.Vr4300.Fault.Refill.{vr4300_dcm}
use cmips_cen.Vr4300.Functions.Table.{Function}
use cmips_cen.Vr4300.Pipeline.DataStage.{interrupted, vr4300_dc_stage}
use cmips_cen.Vr4300.Pipeline.Execute.{vr4300_ex_stage}
use cmips_cen.Vr4300.Pipeline.Fetch.{vr4300_ic_stage, vr4300_rf_stage}
use cmips_cen.Vr4300.State.{
  Vr4300, Stage, next, blocked, stopped, put_reg, with_pipeline, with_exdc, with_dcwb, with_rfex,
  with_icrf, fault_none, cp0_count, cp0_compare, cp0_status, cp0_cause, pipeline_cycle_type,
}

-- The next stage runs only after a stage that returned 0.
abbrev pub and_then : Stage → (Vr4300 → Option Vr4300) → Option Vr4300
and_then (next c) k = k c
and_then (blocked c) k = some c
and_then stopped k = none

-- `vr4300_wb_stage`
unfoldable pub vr4300_wb_stage : Vr4300 → Stage
unfolding update
vr4300_wb_stage c =
    let dcwb = c.pipeline.dcwb_latch in
    next (
      put_reg dcwb.dest dcwb.result
        (with_pipeline (λ p. record p { last_pipe_result = dcwb.common }) c))

-- `vr4300_cycle_slow_ic`
unfoldable pub cycle_slow_ic : Vr4300 → Option Vr4300
unfolding update
cycle_slow_ic c = vr4300_ic_stage (
    put_reg pipeline_cycle_type 0
      (with_icrf (λ l. record l { common = record (l.common) { fault = fault_none } }) c))

-- `vr4300_cycle_slow_rf`
unfoldable pub cycle_slow_rf : Vr4300 → Option Vr4300
unfolding cycle_slow_ic
cycle_slow_rf c =
    let common = c.pipeline.icrf_latch.common in
    if common.fault == fault_none
    then and_then (vr4300_rf_stage c) cycle_slow_ic
    else cycle_slow_ic (with_rfex (λ l. record l { common = common }) c)

-- The counters of `vr4300_cycle`: the timer interrupt is raised where half of Count is Compare.
unfoldable pub count_cycle : Vr4300 → Vr4300
unfolding set_bit bit update
count_cycle c =
    let count = u64 (c.regs cp0_count + 1) in
    let c1 = put_reg cp0_count count c in
    if u32 (count / 2) == u32 (c1.regs cp0_compare)
    then put_reg cp0_cause (set_bit 15 (c1.regs cp0_cause)) c1
    else c1

-- `if (pipeline->exception_history++ > 3) pipeline->fault_present = false`
unfoldable pub age_history : Vr4300 → Vr4300
age_history = with_pipeline λ p. record p {
  exception_history = u32 (p.exception_history + 1);
  fault_present = if ltb 3 p.exception_history then false else p.fault_present;
}

-- `vr4300_cycle_busywait`
unfoldable pub cycle_busywait : Vr4300 → Option Vr4300
unfolding interrupted vr4300_intr
cycle_busywait c =
    some
      (if interrupted (u32 (c.regs cp0_status)) (u32 (c.regs cp0_cause)) then vr4300_intr c else c)

module _ (table : OpcodeId → Function) where
  -- `vr4300_cycle_slow_ex`
  unfoldable pub cycle_slow_ex : Vr4300 → Option Vr4300
  unfolding cycle_slow_rf
  cycle_slow_ex c =
      let common = c.pipeline.rfex_latch.common in
      if common.fault == fault_none
      then and_then (vr4300_ex_stage table c) cycle_slow_rf
      else cycle_slow_rf (with_exdc (λ l. record l { common = common; dest = 0 }) c)

  -- `vr4300_cycle_slow_dc`
  unfoldable pub cycle_slow_dc : Vr4300 → Option Vr4300
  unfolding cycle_slow_ex
  cycle_slow_dc c =
      let common = c.pipeline.exdc_latch.common in
      if common.fault == fault_none
      then and_then (vr4300_dc_stage c) cycle_slow_ex
      else cycle_slow_ex (with_dcwb (λ l. record l { common = common; dest = 0 }) c)

  -- `vr4300_cycle_slow_wb`
  unfoldable pub cycle_slow_wb : Vr4300 → Option Vr4300
  unfolding age_history vr4300_wb_stage cycle_slow_dc
  cycle_slow_wb c =
      let c1 = age_history c in
      if c1.pipeline.dcwb_latch.common.fault == fault_none
      then and_then (vr4300_wb_stage c1) cycle_slow_dc
      else cycle_slow_dc c1

  -- `pipeline_function_lut`; a type past its end is undefined.
  unfoldable pub pipeline_function_lut : ℕ → Vr4300 → Option Vr4300
  unfolding cycle_slow_wb cycle_busywait
  pipeline_function_lut i c =
      if i == 0
      then cycle_slow_wb c
      else if i == 1
      then cycle_slow_dc c
      else if i == 2
      then cycle_slow_ex c
      else if i == 3
      then cycle_slow_rf c
      else if i == 4
      then cycle_slow_ic c
      else if i == 5
      then cycle_busywait c
      else if i == 6
      then vr4300_dcm c
      else none

  -- The fast path of `vr4300_cycle_`
  unfoldable pub cycle_fast : Vr4300 → Option Vr4300
  unfolding vr4300_wb_stage
  cycle_fast c = and_then (vr4300_wb_stage c) λ c1.
      and_then (vr4300_dc_stage c1) λ c2.
        and_then (vr4300_ex_stage table c2) λ c3. and_then (vr4300_rf_stage c3) vr4300_ic_stage

  -- `vr4300_cycle_`
  unfoldable pub vr4300_cycle_step : Vr4300 → Option Vr4300
  unfolding pipeline_function_lut cycle_fast
  vr4300_cycle_step c =
      let type = c.regs pipeline_cycle_type in
      if c.pipeline.fault_present
      then pipeline_function_lut type c
      else if type == 0
      then cycle_fast c
      else pipeline_function_lut type c

  -- `vr4300_cycle`
  unfoldable pub vr4300_cycle : Vr4300 → Option Vr4300
  unfolding count_cycle vr4300_cycle_step
  vr4300_cycle c =
      let c1 = count_cycle c in
      let left = c1.pipeline.cycles_to_stall in
      if left == 0
      then vr4300_cycle_step c1
      else some (with_pipeline (λ p. record p { cycles_to_stall = left - 1 }) c1)

-- `vr4300_pipeline_init`
unfoldable pub vr4300_pipeline_init : Vr4300 → Vr4300
vr4300_pipeline_init c =
    with_exdc (λ l. record l { segment = some get_default_segment })
      (with_icrf (λ l. record l { segment = some get_default_segment }) c)

-- `vr4300_init`; the functions that set the caches up do nothing, and that of the floating-point
-- unit is an argument.
unfoldable pub vr4300_init : (cp1_init : Vr4300 → Vr4300) → BusController → Vr4300 → Vr4300
unfolding vr4300_cp0_init vr4300_pipeline_init update
vr4300_init cp1_init bus c =
    let c1 = vr4300_pipeline_init (cp1_init (vr4300_cp0_init (record c { bus = bus }))) in
    record c1 { signals = 2; mi_regs = update (update c1.mi_regs 1 0x01010101) 0 0x80 }
