-- ===== src/Vr4300/Functions/Multiply.antt =====
-- vr4300/functions.c: products, quotients and the registers HI and LO. A product or a quotient holds
-- the pipeline for some cycles, but for MULT.
use cmips_cen.Base.{
  ℕ, ◌+◌, ◌-◌, ◌*◌, ◌/◌, ◌%◌, ◌^◌, ◌==◌, ◌&&◌, if◌then◌else◌, update, u64, sext32_64, bit_and,
}
use cmips_cen.Vr4300.Decoder.{get_rd}
use cmips_cen.Vr4300.Functions.Words.{ones64, is_neg64, mult_sex_mask, do_mci, give}
use cmips_cen.Vr4300.State.{Vr4300, Stage, next, stopped, put_reg, register_hi, register_lo}

-- `regs[LO] = lo; regs[HI] = hi`
abbrev pub put_hi_lo : (hi lo : ℕ) → Vr4300 → Vr4300
put_hi_lo hi lo c = put_reg register_hi hi (put_reg register_lo lo c)

-- The absolute value of a signed 64-bit word, and its negation
abbrev pub abs64 : ℕ → ℕ
abs64 x = if is_neg64 x then 2 ^ 64 - x else x

abbrev pub neg64 : ℕ → ℕ
neg64 x = (2 ^ 64 - x) % 2 ^ 64

-- The quotient and the remainder of signed words, rounded towards 0
abbrev pub quot_s64 : ℕ → ℕ → ℕ
quot_s64 a b =
    let q = abs64 a / abs64 b in
    if is_neg64 a
    then (if is_neg64 b then u64 q else neg64 q)
    else if is_neg64 b
    then neg64 q
    else q

abbrev pub rem_s64 : ℕ → ℕ → ℕ
rem_s64 a b = let r = abs64 a % abs64 b in if is_neg64 a then neg64 r else r

-- `VR4300_DIV_DIVU`; the operands are 64-bit words after the mask.
unfoldable pub vr4300_div_divu : (iw rs rt : ℕ) → Vr4300 → Stage
unfolding mult_sex_mask do_mci update
vr4300_div_divu iw rs rt c =
    let mask = mult_sex_mask (iw % 2) in
    let rs_sex = bit_and (sext32_64 rs) mask in
    let rt_sex = bit_and (sext32_64 rt) mask in
    do_mci 37 (
      if rt_sex == 0
      then c
      else put_hi_lo (sext32_64 (rem_s64 rs_sex rt_sex)) (sext32_64 (quot_s64 rs_sex rt_sex)) c)

-- `VR4300_DDIV`; the least word by -1 overflows, which is undefined.
unfoldable pub vr4300_ddiv : (iw rs rt : ℕ) → Vr4300 → Stage
unfolding do_mci update
vr4300_ddiv iw rs rt c =
    if rs == 2 ^ 63 && rt == ones64
    then stopped
    else do_mci 69 (if rt == 0 then c else put_hi_lo (rem_s64 rs rt) (quot_s64 rs rt) c)

-- `VR4300_DDIVU`
unfoldable pub vr4300_ddivu : (iw rs rt : ℕ) → Vr4300 → Stage
unfolding do_mci update
vr4300_ddivu iw rs rt c = do_mci 69 (if rt == 0 then c else put_hi_lo (rs % rt) (rs / rt) c)

-- A 64-bit word as a number below 2 ^ 128 with its sign
abbrev pub sext64_128 : ℕ → ℕ
sext64_128 x = if is_neg64 x then x + (2 ^ 128 - 2 ^ 64) else x

-- `VR4300_DMULT`, by 128-bit numbers
unfoldable pub vr4300_dmult : (iw rs rt : ℕ) → Vr4300 → Stage
unfolding do_mci update
vr4300_dmult iw rs rt c =
    let result = sext64_128 rs * sext64_128 rt % 2 ^ 128 in
    do_mci 8 (put_hi_lo (result / 2 ^ 64) (result % 2 ^ 64) c)

-- `VR4300_DMULTU`
unfoldable pub vr4300_dmultu : (iw rs rt : ℕ) → Vr4300 → Stage
unfolding do_mci update
vr4300_dmultu iw rs rt c =
    let result = rs * rt in do_mci 8 (put_hi_lo (result / 2 ^ 64) (result % 2 ^ 64) c)

-- `VR4300_MULT_MULTU`
unfoldable pub vr4300_mult_multu : (iw rs rt : ℕ) → Vr4300 → Stage
unfolding mult_sex_mask update
vr4300_mult_multu iw rs rt c =
    let mask = mult_sex_mask (iw % 2) in
    let rs_sex = bit_and (sext32_64 rs) mask in
    let rt_sex = bit_and (sext32_64 rt) mask in
    let result = u64 (rs_sex * rt_sex) in
    next (put_hi_lo (sext32_64 (result / 2 ^ 32)) (sext32_64 result) c)

-- `VR4300_MFHI_MFLO` and `VR4300_MTHI_MTLO`
unfoldable pub vr4300_mfhi_mflo : (iw rs rt : ℕ) → Vr4300 → Stage
vr4300_mfhi_mflo iw rs rt c = give (get_rd iw) (c.regs (register_hi + iw / 2 % 2)) c

unfoldable pub vr4300_mthi_mtlo : (iw rs rt : ℕ) → Vr4300 → Stage
unfolding update
vr4300_mthi_mtlo iw rs rt c = next (put_reg (register_hi + iw / 2 % 2) rs c)
