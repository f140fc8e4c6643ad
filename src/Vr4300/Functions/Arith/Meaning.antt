-- ===== src/Vr4300/Functions/Arith/Meaning.antt =====
-- vr4300/functions.c: what the tables of masks make of sums and of bitwise operations.
use cmips_cen.Base.{
  ℕ, zero, suc, ◌+◌, ◌-◌, ◌/◌, ◌%◌, ◌^◌, ◌<◌, ◌≡◌, refl, ap, ap₂, sym, ltb, ◌≤◌, Bool-cases, inl,
  inr, ◌∙◌, arith, Bool, true, false, not, ◌==◌, ◌||◌, ◌&&◌, if◌then◌else◌, sub64, sext32_64, bit,
  bit_and, bit_xor,
}
use native.Mathlib.Nat.{zero-div, div-eq_of_lt, pow-le-pow_right}
use cmips_cen.Base.Bits.{
  bit_and-mask, bit_xor_ones, bit_xor_zero, bit-bit_or, bit-bit_and, bit-bit_xor, bit_complement,
}
use cmips_cen.Vr4300.Decoder.{get_rd, get_rt}
use cmips_cen.Vr4300.Functions.Arith.{
  negate_by, select, sub_select, vr4300_add_sub, vr4300_addu_subu, vr4300_dadd_dsub,
  vr4300_daddu_dsubu, vr4300_and_or_xor, vr4300_andi_ori_xori,
}
use cmips_cen.Vr4300.Functions.Words.{ones64, add64, addsub_lut, bitwise_lut, give}
use cmips_cen.Vr4300.State.{Vr4300}

-- The sum or the difference of two words of 64 bits, by bit 1 of the instruction
unfoldable pub sum_or_difference : (iw rs rt : ℕ) → ℕ
sum_or_difference iw rs rt = if bit 1 iw then (rs + (2 ^ 64 - rt)) % 2 ^ 64 else (rs + rt) % 2 ^ 64

negate_by_zero : (rt : ℕ) → rt < 2 ^ 64 → negate_by 0 rt ≡ rt
negate_by_zero rt h = let same = bit_xor_zero rt in ap (λ x. sub64 x 0) same ∙ (omega arith)

negate_by_ones : (rt : ℕ) → rt < 2 ^ 64 → negate_by ones64 rt ≡ (2 ^ 64 - rt) % 2 ^ 64
negate_by_ones rt h =
    let flipped = bit_xor_ones 64 rt h in ap (λ x. sub64 x ones64) flipped ∙ (omega arith)

add64-negate_by :
    (iw rs rt : ℕ)
    → rs < 2 ^ 64
    → rt < 2 ^ 64
    → add64 rs (negate_by (addsub_lut (sub_select iw)) rt) ≡ sum_or_difference iw rs rt
unfolding addsub_lut sum_or_difference bit
add64-negate_by iw rs rt h k =
    let kept = negate_by_zero rt k in
    let turned = negate_by_ones rt k in ground (arith, kept, turned)

-- The word that AND, OR and XOR give, a bit at a time
unfoldable pub joined : (select : ℕ) → (a b : Bool) → Bool
joined select a b =
    if select == 0 then a && b else if select == 1 then a || b else (a || b) && not (a && b)

-- ADD, ADDU, SUB and SUBU give the low 32 bits of the sum or of the difference, extended by their
-- sign, and DADD, DADDU, DSUB and DSUBU all 64 bits, on any two words; bit 1 of the instruction
-- chooses between the sum and the difference. None of them traps on an overflow.
pub sums :
    (iw rs rt : ℕ) (c : Vr4300)
    → rs < 2 ^ 64
    → rt < 2 ^ 64
    → (vr4300_add_sub iw rs rt c ≡ give (get_rd iw) (sext32_64 (sum_or_difference iw rs rt)) c)
      × (vr4300_addu_subu iw rs rt c ≡ give (get_rd iw) (sext32_64 (sum_or_difference iw rs rt)) c)
      × (vr4300_dadd_dsub iw rs rt c ≡ give (get_rd iw) (sum_or_difference iw rs rt) c)
      × (vr4300_daddu_dsubu iw rs rt c ≡ give (get_rd iw) (sum_or_difference iw rs rt) c)
unfolding vr4300_add_sub vr4300_addu_subu vr4300_dadd_dsub vr4300_daddu_dsubu
sums iw rs rt c h k =
    let e = add64-negate_by iw rs rt h k in
    let narrow = ap (λ r. give (get_rd iw) (sext32_64 r) c) e in
    let wide = ap (λ r. give (get_rd iw) r c) e in (narrow, narrow, wide, wide)

bit-zero : (k : ℕ) → bit k 0 ≡ false
unfolding bit
bit-zero k = let e : 0 / 2 ^ k ≡ 0 = zero-div (2 ^ k) in ap (λ q. q % 2 == 1) e

bit-ones64 : (k : ℕ) → k < 64 → bit k ones64 ≡ true
bit-ones64 k h = bit_complement 64 k 0 h (omega arith) ∙ ap not (bit-zero k)

-- The bit of a choice by two masks
unfoldable chosen : (a b p q : Bool) → Bool
chosen a b p q = ((a && b) && p) || (((a || b) && not (a && b)) && q)

bit-select :
    (masks : ℕ × ℕ) (rs rt k : ℕ)
    → bit k (select masks rs rt) ≡ chosen (bit k rs) (bit k rt) (bit k masks.0) (bit k masks.1)
unfolding chosen
bit-select masks rs rt k =
    bit-bit_or k (bit_and (bit_and rs rt) masks.0) (bit_and (bit_xor rs rt) masks.1)
    ∙ ap₂ (λ x y. x || y)
        (bit-bit_and k (bit_and rs rt) masks.0 ∙ ap (λ x. x && bit k masks.0) (bit-bit_and k rs rt))
        (bit-bit_and k (bit_xor rs rt) masks.1 ∙ ap (λ x. x && bit k masks.1) (bit-bit_xor k rs rt))

chosen-joined :
    (a b : Bool)
    → (chosen a b true false ≡ joined 0 a b)
      × (chosen a b true true ≡ joined 1 a b)
      × (chosen a b false true ≡ joined 2 a b)
unfolding chosen joined
chosen-joined true true = (refl, refl, refl)
chosen-joined true false = (refl, refl, refl)
chosen-joined false true = (refl, refl, refl)
chosen-joined false false = (refl, refl, refl)

-- The choice by the masks of the table is the operation that the selector names.
bit-select_lut :
    (s rs rt k : ℕ)
    → s < 3
    → k < 64
    → bit k (select (bitwise_lut s) rs rt) ≡ joined s (bit k rs) (bit k rt)
unfolding bitwise_lut
bit-select_lut zero rs rt k h w =
    bit-select (bitwise_lut 0) rs rt k
    ∙ ap₂ (chosen (bit k rs) (bit k rt)) (bit-ones64 k w) (bit-zero k)
    ∙ (chosen-joined (bit k rs) (bit k rt)).0
bit-select_lut (suc zero) rs rt k h w =
    bit-select (bitwise_lut 1) rs rt k
    ∙ ap₂ (chosen (bit k rs) (bit k rt)) (bit-ones64 k w) (bit-ones64 k w)
    ∙ (chosen-joined (bit k rs) (bit k rt)).1
bit-select_lut (suc (suc zero)) rs rt k h w =
    bit-select (bitwise_lut 2) rs rt k
    ∙ ap₂ (chosen (bit k rs) (bit k rt)) (bit-zero k) (bit-ones64 k w)
    ∙ (chosen-joined (bit k rs) (bit k rt)).2
bit-select_lut (suc (suc (suc s))) rs rt k h w = absurd (omega arith)

-- The bits of a low half
bit-high : (k x : ℕ) → 16 ≤ k → bit k (x % 2 ^ 16) ≡ false
unfolding bit
bit-high k x h =
    let two : 0 < 2 = omega arith in
    let bound : 2 ^ 16 ≤ 2 ^ k = pow-le-pow_right two h in
    let small : x % 2 ^ 16 < 2 ^ k = omega (arith, bound) in
    ap (λ q. q % 2 == 1) (div-eq_of_lt small)

and_true : (b : Bool) → (b && true) ≡ b
and_true true = refl
and_true false = refl

bit-low : (k x : ℕ) → k < 16 → bit k (x % 2 ^ 16) ≡ bit k x
bit-low k x h =
    let mask : bit k (2 ^ 16 - 1) ≡ true =
      bit_complement 16 k 0 h (omega arith) ∙ ap not (bit-zero k) in
    ap (bit k) (sym (bit_and-mask 16 x))
    ∙ bit-bit_and k x (2 ^ 16 - 1)
    ∙ ap (λ b. bit k x && b) mask
    ∙ and_true (bit k x)

bit-low_half : (k x : ℕ) → bit k (x % 2 ^ 16) ≡ (if ltb k 16 then bit k x else false)
bit-low_half k x = elim (Bool-cases (ltb k 16)) [
  | inl low ↦ rw low (bit-low k x (ground arith))
  | inr high ↦ rw high (bit-high k x (ground arith))
]

-- AND, OR and XOR work on each of the 64 bits by itself, by the low two bits of the instruction (0, 1
-- and 2). The instructions with an immediate have their operation in bits 26 and 27, and their second
-- operand is the low half of the instruction with zeros above it.
pub bitwise :
    (iw jw rs rt : ℕ) (c : Vr4300)
    → iw % 2 ^ 2 < 3
    → jw / 2 ^ 26 % 2 ^ 2 < 3
    → ((r : ℕ) × (vr4300_and_or_xor iw rs rt c ≡ give (get_rd iw) r c)
        × ((k : ℕ) → k < 64 → bit k r ≡ joined (iw % 2 ^ 2) (bit k rs) (bit k rt)))
      × ((r : ℕ) × (vr4300_andi_ori_xori jw rs rt c ≡ give (get_rt jw) r c)
          × ((k : ℕ)
              → k < 64
              → bit k r
                ≡ joined (jw / 2 ^ 26 % 2 ^ 2) (bit k rs) (if ltb k 16 then bit k jw else false)))
unfolding vr4300_and_or_xor vr4300_andi_ori_xori
bitwise iw jw rs rt c known known' = (
  (
    select (bitwise_lut (iw % 2 ^ 2)) rs rt,
    refl,
    λ k w. bit-select_lut (iw % 2 ^ 2) rs rt k known w,
  ),
  (
    select (bitwise_lut (jw / 2 ^ 26 % 2 ^ 2)) rs (jw % 2 ^ 16),
    refl,
    λ k w.
        bit-select_lut (jw / 2 ^ 26 % 2 ^ 2) rs (jw % 2 ^ 16) k known' w
        ∙ ap (joined (jw / 2 ^ 26 % 2 ^ 2) (bit k rs)) (bit-low_half k jw),
  ),
)
