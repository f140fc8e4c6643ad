-- ===== src/Vr4300/Functions/Shifts.antt =====
-- vr4300/functions.c: shifts.
use cmips_cen.Base.{ℕ, ◌+◌, ◌*◌, ◌/◌, ◌%◌, ◌^◌, u32, u64, sext32_64}
use cmips_cen.Vr4300.Decoder.{get_rd}
use cmips_cen.Vr4300.Fault.Refill.{sra64}
use cmips_cen.Vr4300.Functions.Words.{give}
use cmips_cen.Vr4300.State.{Vr4300, Stage}

-- `(iw >> 6 & 0x1F) + ((iw & 0x4) << 3)`
abbrev pub amount64 : ℕ → ℕ
amount64 iw = iw / 2 ^ 6 % 2 ^ 5 + iw / 2 ^ 2 % 2 * 2 ^ 5

-- `iw >> 6 & 0x1F`
abbrev pub amount : ℕ → ℕ
amount iw = iw / 2 ^ 6 % 2 ^ 5

-- `VR4300_DSLL_DSLL32` and `VR4300_DSLLV`
unfoldable pub vr4300_dsll_dsll32 : (iw rs rt : ℕ) → Vr4300 → Stage
vr4300_dsll_dsll32 iw rs rt c = give (get_rd iw) (u64 (rt * 2 ^ amount64 iw)) c

unfoldable pub vr4300_dsllv : (iw rs rt : ℕ) → Vr4300 → Stage
vr4300_dsllv iw rs rt c = give (get_rd iw) (u64 (rt * 2 ^ (rs % 2 ^ 6))) c

-- `VR4300_DSRA_DSRA32` and `VR4300_DSRAV`
unfoldable pub vr4300_dsra_dsra32 : (iw rs rt : ℕ) → Vr4300 → Stage
vr4300_dsra_dsra32 iw rs rt c = give (get_rd iw) (sra64 rt (amount64 iw)) c

unfoldable pub vr4300_dsrav : (iw rs rt : ℕ) → Vr4300 → Stage
vr4300_dsrav iw rs rt c = give (get_rd iw) (sra64 rt (rs % 2 ^ 6)) c

-- `VR4300_DSRL_DSRL32` and `VR4300_DSRLV`
unfoldable pub vr4300_dsrl_dsrl32 : (iw rs rt : ℕ) → Vr4300 → Stage
vr4300_dsrl_dsrl32 iw rs rt c = give (get_rd iw) (rt / 2 ^ amount64 iw) c

unfoldable pub vr4300_dsrlv : (iw rs rt : ℕ) → Vr4300 → Stage
vr4300_dsrlv iw rs rt c = give (get_rd iw) (rt / 2 ^ (rs % 2 ^ 6)) c

-- `VR4300_SLL_SLLV`; the amounts of the register and of the word are added.
unfoldable pub vr4300_sll_sllv : (iw rs rt : ℕ) → Vr4300 → Stage
vr4300_sll_sllv iw rs rt c = give (get_rd iw) (sext32_64 (rt * 2 ^ (rs % 2 ^ 5 + amount iw))) c

-- `VR4300_SRA` and `VR4300_SRAV`
unfoldable pub vr4300_sra : (iw rs rt : ℕ) → Vr4300 → Stage
vr4300_sra iw rs rt c = give (get_rd iw) (sra64 (sext32_64 rt) (amount iw)) c

unfoldable pub vr4300_srav : (iw rs rt : ℕ) → Vr4300 → Stage
vr4300_srav iw rs rt c = give (get_rd iw) (sra64 (sext32_64 rt) (rs % 2 ^ 5)) c

-- `VR4300_SRL` and `VR4300_SRLV`
unfoldable pub vr4300_srl : (iw rs rt : ℕ) → Vr4300 → Stage
vr4300_srl iw rs rt c = give (get_rd iw) (sext32_64 (u32 rt / 2 ^ amount iw)) c

unfoldable pub vr4300_srlv : (iw rs rt : ℕ) → Vr4300 → Stage
vr4300_srlv iw rs rt c = give (get_rd iw) (sext32_64 (u32 rt / 2 ^ (rs % 2 ^ 5))) c
