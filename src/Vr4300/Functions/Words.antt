-- ===== src/Vr4300/Functions/Words.antt =====
-- vr4300/functions.c: the look-up tables and the words of the integer unit.
use cmips_cen.Base.{ℕ, ◌+◌, ◌-◌, ◌%◌, ◌^◌, Bool, true, false, ◌==◌, ltb, if◌then◌else◌}
use cmips_cen.Vr4300.State.{
  Vr4300, Stage, next, blocked, put_reg, with_pipeline, with_exdc, pipeline_cycle_type,
}

-- `~0ULL`
abbrev pub ones64 : ℕ
ones64 = 2 ^ 64 - 1

-- `~x` on 64 bits
abbrev pub not64 : ℕ → ℕ
not64 x = 2 ^ 64 - 1 - x

-- `(int16_t) iw` as a 64-bit word
abbrev pub imm64 : ℕ → ℕ
imm64 iw = if ltb (iw % 2 ^ 16) (2 ^ 15) then iw % 2 ^ 16 else iw % 2 ^ 16 + (2 ^ 64 - 2 ^ 16)

abbrev pub add64 : ℕ → ℕ → ℕ
add64 a b = (a + b) % 2 ^ 64

-- The sign of a 64-bit word, and the order of signed words
abbrev pub is_neg64 : ℕ → Bool
is_neg64 x = if ltb x (2 ^ 63) then false else true

abbrev pub lt_s64 : ℕ → ℕ → Bool
lt_s64 a b = ltb ((a + 2 ^ 63) % 2 ^ 64) ((b + 2 ^ 63) % 2 ^ 64)

-- `vr4300_addsub_lut`
unfoldable pub addsub_lut : ℕ → ℕ
addsub_lut i = if i == 0 then 0 else ones64

-- `vr4300_bitwise_lut`: the mask of the conjunction and that of the exclusive disjunction
unfoldable pub bitwise_lut : ℕ → ℕ × ℕ
bitwise_lut i =
    if i == 0
    then (ones64, 0)
    else if i == 1
    then (ones64, ones64)
    else if i == 2
    then (0, ones64)
    else (0, 0)

-- `vr4300_branch_lut`
unfoldable pub branch_lut : Bool → ℕ
branch_lut false = 2 ^ 32 - 1
branch_lut true = 0

-- `vr4300_mult_sex_mask`
unfoldable pub mult_sex_mask : ℕ → ℕ
mult_sex_mask i = if i == 0 then ones64 else 2 ^ 32 - 1

-- `vr4300_load_sex_mask`, first the row of sign extension, then that of zero extension
unfoldable pub load_sex_mask : (zex size : ℕ) → ℕ
load_sex_mask zex size =
    if size == 2
    then 0
    else if zex == 0
    then ones64
    else if size == 0
    then 0xFF
    else if size == 1
    then 0xFFFF
    else 0xFFFFFFFF

-- `vr4300_do_mci`
unfoldable pub do_mci : ℕ → Vr4300 → Stage
do_mci cycles c = blocked (
    put_reg pipeline_cycle_type 3
      (with_pipeline (λ p. record p { cycles_to_stall = cycles - 1 }) c))

-- `exdc_latch->result` and `exdc_latch->dest`
abbrev pub put_result : (dest result : ℕ) → Vr4300 → Vr4300
put_result dest result c = with_exdc (λ l. record l { result = result; dest = dest }) c

abbrev pub give : (dest result : ℕ) → Vr4300 → Stage
give dest result c = next (put_result dest result c)
