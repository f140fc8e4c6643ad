-- ===== src/Vr4300/Functions/Branches.antt =====
-- vr4300/functions.c: branches, jumps and traps. A branch that is not taken puts its mask on the
-- instruction in the delay slot: that of a likely branch is 0.
use cmips_cen.Base.{
  ℕ, ◌+◌, ◌*◌, ◌/◌, ◌%◌, ◌^◌, Bool, true, false, ◌==◌, ◌||◌, ◌&&◌, if◌then◌else◌, u64, bit,
}
use cmips_cen.Base.Finite.{same}
use cmips_cen.Vr4300.Decoder.{get_rs, get_rt, get_rd}
use cmips_cen.Vr4300.Fault.{vr4300_trap}
use cmips_cen.Vr4300.Functions.Words.{imm64, add64, is_neg64, branch_lut, put_result}
use cmips_cen.Vr4300.State.{
  Vr4300, Stage, next, blocked, stopped, with_icrf, with_rfex, register_ra, pipeline_cycle_type,
}

-- The common end of a branch: `if (cmp == sense) ... else ...`
unfoldable pub branch : (iw : ℕ) → (cmp sense likely : Bool) → Vr4300 → Stage
unfolding branch_lut same
branch iw cmp sense likely c =
    let offset = u64 (imm64 iw * 2 ^ 2) in
    let pc = c.pipeline.rfex_latch.common.pc in
    next (
      if same cmp sense
      then with_rfex (λ l. record l { iw_mask = branch_lut likely }) c
      else with_icrf (λ l. record l { pc = add64 pc (add64 offset 4) }) c)

-- The end of a busy-wait loop: the pipeline is told by its cycle type, written back as a register.
abbrev pub busy_wait : ℕ
busy_wait = 5

abbrev pub enter_busy_wait : Bool → Vr4300 → Vr4300
enter_busy_wait true c = put_result pipeline_cycle_type busy_wait c
enter_busy_wait false c = c

-- `VR4300_BEQ_BEQL_BNE_BNEL_BWDETECT`
unfoldable pub vr4300_beq_beql_bne_bnel : (iw rs rt : ℕ) → Vr4300 → Stage
unfolding branch_lut bit same
vr4300_beq_beql_bne_bnel iw rs rt c =
    let offset = u64 (imm64 iw * 2 ^ 2) in
    let pc = c.pipeline.rfex_latch.common.pc in
    let target = add64 pc (add64 offset 4) in
    next (
      if same (rs == rt) (bit 26 iw)
      then with_rfex (λ l. record l { iw_mask = branch_lut (bit 30 iw) }) c
      else enter_busy_wait (target == pc && (get_rs iw == 0 && get_rt iw == 0))
          (with_icrf (λ l. record l { pc = target }) c))

-- `VR4300_BGEZ_BGEZL_BLTZ_BLTZL`
unfoldable pub vr4300_bgez_bgezl_bltz_bltzl : (iw rs rt : ℕ) → Vr4300 → Stage
unfolding branch bit
vr4300_bgez_bgezl_bltz_bltzl iw rs rt c = branch iw (is_neg64 rs) (bit 16 iw) (bit 17 iw) c

-- The address after the delay slot
abbrev pub link : Vr4300 → ℕ
link c = add64 c.pipeline.rfex_latch.common.pc 8

-- `VR4300_BGEZAL_BGEZALL_BLTZAL_BLTZALL`
unfoldable pub vr4300_bgezal_bgezall_bltzal_bltzall : (iw rs rt : ℕ) → Vr4300 → Stage
unfolding branch bit
vr4300_bgezal_bgezall_bltzal_bltzall iw rs rt c =
    branch iw (is_neg64 rs) (bit 16 iw) (bit 17 iw) (put_result register_ra (link c) c)

-- `VR4300_BGTZ_BGTZL_BLEZ_BLEZL`
unfoldable pub vr4300_bgtz_bgtzl_blez_blezl : (iw rs rt : ℕ) → Vr4300 → Stage
unfolding branch bit
vr4300_bgtz_bgtzl_blez_blezl iw rs rt c =
    branch iw (is_neg64 rs || rs == 0) (bit 26 iw) (bit 30 iw) c

-- `VR4300_J_JAL_BWDETECT`; the destination of a jump without a link is register 0.
unfoldable pub vr4300_j_jal : (iw rs rt : ℕ) → Vr4300 → Stage
unfolding bit
vr4300_j_jal iw rs rt c =
    let pc = c.pipeline.rfex_latch.common.pc in
    let target = pc / 2 ^ 28 * 2 ^ 28 + iw % 2 ^ 26 * 2 ^ 2 in
    next (
      enter_busy_wait (target == pc) (
        with_icrf (λ l. record l { pc = target })
          (put_result (if bit 26 iw then register_ra else 0) (link c) c)))

-- `VR4300_JALR_JR`
unfoldable pub vr4300_jalr_jr : (iw rs rt : ℕ) → Vr4300 → Stage
unfolding bit
vr4300_jalr_jr iw rs rt c = next (
    with_icrf (λ l. record l { pc = rs })
      (put_result (if bit 0 iw then get_rd iw else 0) (link c) c))

-- `VR4300_TNE`, which ends without a value if the registers are the same
unfoldable pub vr4300_tne : (iw rs rt : ℕ) → Vr4300 → Stage
vr4300_tne iw rs rt c = if rs == rt then stopped else blocked (vr4300_trap c)

-- `VR4300_INVALID`
unfoldable pub vr4300_invalid : (iw rs rt : ℕ) → Vr4300 → Stage
vr4300_invalid iw rs rt c = next c
