-- ===== src/Vr4300/Functions/Arith.antt =====
-- vr4300/functions.c: sums, comparisons and bitwise operations.
pub mod Meaning
use cmips_cen.Base.{
  ℕ, ◌+◌, ◌-◌, ◌*◌, ◌/◌, ◌%◌, ◌^◌, ltb, ◌==◌, if◌then◌else◌, u16, u64, sub64, sext32_64, bit_and,
  bit_or, bit_xor,
}
use cmips_cen.Vr4300.Decoder.{get_rt, get_rd}
use cmips_cen.Vr4300.Functions.Words.{
  ones64, not64, imm64, add64, lt_s64, addsub_lut, bitwise_lut, do_mci, put_result, give,
}
use cmips_cen.Vr4300.State.{Vr4300, Stage}

-- `(rt ^ mask) - mask`
abbrev pub negate_by : (mask rt : ℕ) → ℕ
negate_by mask rt = sub64 (bit_xor rt mask) mask

-- `iw & 0x2`
abbrev pub sub_select : ℕ → ℕ
sub_select iw = iw / 2 % 2 * 2

-- `VR4300_ADD_SUB` and `VR4300_ADDU_SUBU`
unfoldable pub vr4300_add_sub : (iw rs rt : ℕ) → Vr4300 → Stage
unfolding addsub_lut
vr4300_add_sub iw rs rt c =
    give (get_rd iw) (sext32_64 (add64 rs (negate_by (addsub_lut (sub_select iw)) rt))) c

unfoldable pub vr4300_addu_subu : (iw rs rt : ℕ) → Vr4300 → Stage
unfolding addsub_lut
vr4300_addu_subu iw rs rt c =
    give (get_rd iw) (sext32_64 (add64 rs (negate_by (addsub_lut (sub_select iw)) rt))) c

-- `VR4300_ADDI_SUBI`, whose mask is always 0
unfoldable pub vr4300_addi_subi : (iw rs rt : ℕ) → Vr4300 → Stage
vr4300_addi_subi iw rs rt c = give (get_rt iw) (sext32_64 (add64 rs (negate_by 0 (imm64 iw)))) c

-- `VR4300_ADDIU_LUI_SUBIU`
unfoldable pub vr4300_addiu_lui_subiu : (iw rs rt : ℕ) → Vr4300 → Stage
vr4300_addiu_lui_subiu iw rs rt c =
    let immshift = iw / 2 ^ 28 % 2 * 16 in
    give (get_rt iw) (sext32_64 (add64 rs (u64 (imm64 iw * 2 ^ immshift)))) c

-- `((rs & rt) & and_mask) | ((rs ^ rt) & xor_mask)`
abbrev pub select : ℕ × ℕ → (rs rt : ℕ) → ℕ
select masks rs rt = bit_or (bit_and (bit_and rs rt) masks.0) (bit_and (bit_xor rs rt) masks.1)

-- `VR4300_AND_OR_XOR`
unfoldable pub vr4300_and_or_xor : (iw rs rt : ℕ) → Vr4300 → Stage
unfolding bitwise_lut
vr4300_and_or_xor iw rs rt c = give (get_rd iw) (select (bitwise_lut (iw % 2 ^ 2)) rs rt) c

-- `VR4300_ANDI_ORI_XORI`
unfoldable pub vr4300_andi_ori_xori : (iw rs rt : ℕ) → Vr4300 → Stage
unfolding bitwise_lut
vr4300_andi_ori_xori iw rs rt c =
    give (get_rt iw) (select (bitwise_lut (iw / 2 ^ 26 % 2 ^ 2)) rs (u16 iw)) c

-- `VR4300_NOR`
unfoldable pub vr4300_nor : (iw rs rt : ℕ) → Vr4300 → Stage
unfolding do_mci
vr4300_nor iw rs rt c = do_mci 57 (put_result (get_rd iw) (not64 (bit_or rs rt)) c)

-- `VR4300_DADD_DSUB` and `VR4300_DADDU_DSUBU`
unfoldable pub vr4300_dadd_dsub : (iw rs rt : ℕ) → Vr4300 → Stage
unfolding addsub_lut
vr4300_dadd_dsub iw rs rt c =
    give (get_rd iw) (add64 rs (negate_by (addsub_lut (sub_select iw)) rt)) c

unfoldable pub vr4300_daddu_dsubu : (iw rs rt : ℕ) → Vr4300 → Stage
unfolding addsub_lut
vr4300_daddu_dsubu iw rs rt c =
    give (get_rd iw) (add64 rs (negate_by (addsub_lut (sub_select iw)) rt)) c

-- `VR4300_DADDI_DSUBI` and `VR4300_DADDIU_DSUBIU`
unfoldable pub vr4300_daddi_dsubi : (iw rs rt : ℕ) → Vr4300 → Stage
vr4300_daddi_dsubi iw rs rt c = give (get_rt iw) (add64 rs (negate_by 0 (imm64 iw))) c

unfoldable pub vr4300_daddiu_dsubiu : (iw rs rt : ℕ) → Vr4300 → Stage
vr4300_daddiu_dsubiu iw rs rt c = give (get_rt iw) (add64 rs (negate_by 0 (imm64 iw))) c

-- `VR4300_SLT`, `VR4300_SLTI`, `VR4300_SLTIU` and `VR4300_SLTU`
unfoldable pub vr4300_slt : (iw rs rt : ℕ) → Vr4300 → Stage
vr4300_slt iw rs rt c = give (get_rd iw) (if lt_s64 rs rt then 1 else 0) c

unfoldable pub vr4300_slti : (iw rs rt : ℕ) → Vr4300 → Stage
vr4300_slti iw rs rt c = give (get_rt iw) (if lt_s64 rs (imm64 iw) then 1 else 0) c

unfoldable pub vr4300_sltiu : (iw rs rt : ℕ) → Vr4300 → Stage
vr4300_sltiu iw rs rt c = give (get_rt iw) (if ltb rs (imm64 iw) then 1 else 0) c

unfoldable pub vr4300_sltu : (iw rs rt : ℕ) → Vr4300 → Stage
vr4300_sltu iw rs rt c = give (get_rd iw) (if ltb rs rt then 1 else 0) c
