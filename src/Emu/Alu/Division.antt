-- ===== src/Emu/Alu/Division.antt =====
-- Multiplication and division of src/emu.c by magnitudes and signs.
use native.Mathlib.Nat.{
  mod-lt, div-le_self, mul-le-mul_left, mul-le-mul, add-mul, mul_comm, div-add-mod',
}
use cmips_cen.Base.{
  ℕ, ◌+◌, ◌-◌, ◌*◌, ◌/◌, ◌%◌, ◌^◌, ◌<◌, ◌≤◌, ◌≡◌, ◌≢◌, refl, ap, ap₂, sym, ◌∙◌, arith, Bool, true,
  false, not, ◌&&◌, ◌⊎◌, subst, inl, inr, ◌==◌, ==_iff, if◌then◌else◌, u64, sub64, sext32_64,
  Bool-cases,
}
use cmips_cen.Machine.{Mips, Outcome, ok, exit, fault}
use cmips_cen.Emu.Regs.{get_rs, get_rt}
use cmips_cen.Emu.Alu.{quot32, rem32, is_neg32, abs32, neg32, op_div, op_mult, op_multu}

abbrev pub differ : Bool → Bool → Bool
differ a b = if a then not b else b

-- Truncating division of signed words: the magnitudes divide with remainder, the remainder has
-- the sign of the dividend, and the quotient is negative if the signs differ.
pub record IsTruncated (rs rt quot rem : ℕ) : Type 0 where
  pub euclid : abs32 quot * abs32 rt + abs32 rem ≡ abs32 rs
  pub remainder : abs32 rem < abs32 rt
  pub sign_quot : (quot ≡ 0) ⊎ (is_neg32 quot ≡ differ (is_neg32 rs) (is_neg32 rt))
  pub sign_rem : (rem ≡ 0) ⊎ (is_neg32 rem ≡ is_neg32 rs)

-- A magnitude with a sign
abbrev signed : Bool → ℕ → ℕ
signed s x = if s then neg32 x else x

abs32-signed : (s : Bool) (x : ℕ) → x ≤ 2 ^ 31 → (s ≡ false → x < 2 ^ 31) → abs32 (signed s x) ≡ x
abs32-signed true x le lt = ground arith
abs32-signed false x le lt = ground (arith, lt refl)

is_neg32-signed :
    (s : Bool) (x : ℕ)
    → x ≤ 2 ^ 31
    → (s ≡ false → x < 2 ^ 31)
    → (signed s x ≡ 0) ⊎ (is_neg32 (signed s x) ≡ s)
is_neg32-signed true x le lt = elim (Bool-cases (x == 0)) [
  | inl z ↦ inl (ground arith)
  | inr nz ↦ inr (ground arith)
]
is_neg32-signed false x le lt = inr (ground (arith, lt refl))

quot32-signed :
    (a b : ℕ) → quot32 a b ≡ signed (differ (is_neg32 a) (is_neg32 b)) (abs32 a / abs32 b)
unfolding quot32
quot32-signed a b = elim (Bool-cases (is_neg32 a)) [
  | inl na ↦ elim (Bool-cases (is_neg32 b)) [ inl nb ↦ rw (na, nb) | inr nb ↦ rw (na, nb) ]
  | inr na ↦ elim (Bool-cases (is_neg32 b)) [ inl nb ↦ rw (na, nb) | inr nb ↦ rw (na, nb) ]
]

-- Two negative words that are not INT32_MIN and -1 have a quotient that is an int32_t.
quotient_bound :
    (a b : ℕ)
    → a < 2 ^ 32
    → b < 2 ^ 32
    → b ≢ 0
    → (a == 2 ^ 31 && b == 2 ^ 32 - 1) ≡ false
    → differ (is_neg32 a) (is_neg32 b) ≡ false
    → abs32 a / abs32 b < 2 ^ 31
quotient_bound a b ha hb nz over same =
    let q = abs32 a / abs32 b in
    let below : q ≤ abs32 a = div-le_self (abs32 a) (abs32 b) in
    elim (Bool-cases (a == 2 ^ 31)) [
      | inr other ↦ (let limit : abs32 a < 2 ^ 31 = ground arith in omega arith)
      | inl least ↦
          (let two : 2 ≤ abs32 b = ground arith in
            let top : abs32 a ≡ 2 ^ 31 = ground arith in
            let sum : q * abs32 b + abs32 a % abs32 b ≡ abs32 a =
              div-add-mod' (abs32 a) (abs32 b) in
            let double : q * 2 ≤ q * abs32 b = mul-le-mul_left q two in omega arith)
    ]

quot32-rem32 :
    (a b : ℕ)
    → a < 2 ^ 32
    → b < 2 ^ 32
    → b ≢ 0
    → (a == 2 ^ 31 && b == 2 ^ 32 - 1) ≡ false
    → IsTruncated a b (quot32 a b) (rem32 a b)
unfolding rem32
quot32-rem32 a b ha hb nz over =
    let q = abs32 a / abs32 b in
    let r = abs32 a % abs32 b in
    let s = differ (is_neg32 a) (is_neg32 b) in
    let sr = is_neg32 a in
    let top : abs32 a ≤ 2 ^ 31 = ground arith in
    let small : r < abs32 b = mod-lt (abs32 a) (ground arith) in
    let most : abs32 b ≤ 2 ^ 31 = ground arith in
    let below : q ≤ 2 ^ 31 = (let le = div-le_self (abs32 a) (abs32 b) in omega (arith, le)) in
    let limit : s ≡ false → q < 2 ^ 31 = quotient_bound a b ha hb nz over in
    let rem_limit : r < 2 ^ 31 = omega arith in
    let abs_q : abs32 (quot32 a b) ≡ q =
      ap abs32 (quot32-signed a b) ∙ abs32-signed s q below limit in
    let abs_r : abs32 (rem32 a b) ≡ r = abs32-signed sr r (omega arith) (λ z. rem_limit) in
    record {
      euclid = ap₂ (λ x y. x * abs32 b + y) abs_q abs_r ∙ div-add-mod' (abs32 a) (abs32 b);
      remainder = rw abs_r small;
      sign_quot =
          subst (λ x. (x ≡ 0) ⊎ (is_neg32 x ≡ s)) (sym (quot32-signed a b))
            (is_neg32-signed s q below limit);
      sign_rem = is_neg32-signed sr r (omega arith) (λ z. rem_limit);
    }

-- What `op_div` may leave: no change for a divisor 0, no defined result for INT32_MIN by -1 and
-- for no other pair, and else the truncated quotient in LO and the remainder in HI.
pub DivResult : (rs rt : ℕ) → Mips → Outcome (Unit {0}) → Type 0
DivResult rs rt m (ok u m') =
    ((rt ≡ 0) × (m' ≡ m))
    ⊎ ((rt ≢ 0) × (m' ≡ record m { lo = m'.lo; hi = m'.hi }) × IsTruncated rs rt m'.lo m'.hi)
DivResult rs rt m exit = ⊥
DivResult rs rt m fault = (rs ≡ 2 ^ 31) × (rt ≡ 2 ^ 32 - 1)

-- On words, `op_div` changes nothing for a divisor 0; has no defined result for INT32_MIN by -1,
-- and for no other pair; and else leaves the quotient rounded towards 0 in LO and the remainder,
-- which has the dividend's sign, in HI, and nothing else changed.
pub op_div_truncates :
    (op : ℕ) (m : Mips)
    → get_rs op m < 2 ^ 32
    → get_rt op m < 2 ^ 32
    → DivResult (get_rs op m) (get_rt op m) m (op_div op m)
unfolding op_div DivResult
op_div_truncates op m ha hb = elim (Bool-cases (get_rt op m == 0)) [
  | inl z ↦ rw z (inl ((==_iff (get_rt op m) 0).0 z, refl))
  | inr nz ↦ elim (Bool-cases (get_rs op m == 2 ^ 31 && get_rt op m == 2 ^ 32 - 1)) [
    | inl over ↦ rw (nz, over) (ground arith)
    | inr fine ↦
        rw (nz, fine)
          (inr (
            ground arith,
            refl,
            quot32-rem32 (get_rs op m) (get_rt op m) ha hb (ground arith) fine,
          ))
  ]
]

product_bound : (a b : ℕ) → a < 2 ^ 32 → b < 2 ^ 32 → a * b < 2 ^ 64
product_bound a b ha hb =
    let le : a ≤ 2 ^ 32 - 1 = omega arith in
    let le' : b ≤ 2 ^ 32 - 1 = omega arith in let top = mul-le-mul le le' in omega (arith, top)

-- The product of two words is in HI and LO after `op_multu`.
pub op_multu_product :
    (op : ℕ) (m : Mips)
    → get_rs op m < 2 ^ 32
    → get_rt op m < 2 ^ 32
    → let r = op_multu op m in r.hi * 2 ^ 32 + r.lo ≡ get_rs op m * get_rt op m
unfolding op_multu
op_multu_product op m ha hb =
    let b = product_bound (get_rs op m) (get_rt op m) ha hb in omega (arith, b)

-- The two's complement of a product of magnitudes, in 64 bits
abbrev pub signed64 : Bool → ℕ → ℕ
signed64 s x = if s then sub64 0 x else x

flip_left : (c a b : ℕ) → c + a ≡ 2 ^ 64 → a * b < 2 ^ 64 → u64 (c * b) ≡ sub64 0 (a * b)
flip_left c a b e h =
    let d : c * b + a * b ≡ 2 ^ 64 * b = sym (add-mul c a b) ∙ ap (λ x. x * b) e in
    omega (arith, d, h)

flip_both : (c d a b : ℕ) → c + a ≡ 2 ^ 64 → d + b ≡ 2 ^ 64 → a * b < 2 ^ 64 → u64 (c * d) ≡ a * b
flip_both c d a b e e' h =
    let p : c * d + a * d ≡ 2 ^ 64 * d = sym (add-mul c a d) ∙ ap (λ x. x * d) e in
    let q : d * a + b * a ≡ 2 ^ 64 * a = sym (add-mul d b a) ∙ ap (λ x. x * a) e' in
    omega (arith, p, q, h, mul_comm a d, mul_comm b a)

sext_product :
    (a b : ℕ)
    → a < 2 ^ 32
    → b < 2 ^ 32
    → u64 (sext32_64 a * sext32_64 b)
      ≡ signed64 (differ (is_neg32 a) (is_neg32 b)) (abs32 a * abs32 b)
sext_product a b ha hb =
    let x = abs32 a in
    let y = abs32 b in
    let c = sext32_64 a in
    let d = sext32_64 b in
    let hx : x < 2 ^ 32 = ground arith in
    let hy : y < 2 ^ 32 = ground arith in
    let h = product_bound x y hx hy in
    elim (Bool-cases (is_neg32 a)) [
      | inl na ↦
          (let ca : c + x ≡ 2 ^ 64 = ground arith in
            elim (Bool-cases (is_neg32 b)) [
              | inl nb ↦
                  (let db : d + y ≡ 2 ^ 64 = ground arith in
                    flip_both c d x y ca db h
                    ∙ ap (λ s. signed64 s (x * y)) (sym (ap₂ differ na nb)))
              | inr nb ↦
                  (let db : d ≡ y = ground arith in
                    ap (λ z. u64 (c * z)) db
                    ∙ flip_left c x y ca h
                    ∙ ap (λ s. signed64 s (x * y)) (sym (ap₂ differ na nb)))
            ])
      | inr na ↦
          (let ca : c ≡ x = ground arith in
            elim (Bool-cases (is_neg32 b)) [
              | inl nb ↦
                  (let db : d + y ≡ 2 ^ 64 = ground arith in
                    ap u64 (ap (λ z. z * d) ca ∙ mul_comm x d)
                    ∙ flip_left d y x db (omega (arith, h, mul_comm x y))
                    ∙ ap (sub64 0) (mul_comm y x)
                    ∙ ap (λ s. signed64 s (x * y)) (sym (ap₂ differ na nb)))
              | inr nb ↦
                  (let db : d ≡ y = ground arith in
                    ap₂ (λ z w. u64 (z * w)) ca db
                    ∙ (omega (arith, h))
                    ∙ ap (λ s. signed64 s (x * y)) (sym (ap₂ differ na nb)))
            ])
    ]

-- After `op_mult` HI and LO hold the product of the magnitudes, negated in 64 bits if the signs
-- of the two words differ.
pub op_mult_product :
    (op : ℕ) (m : Mips)
    → get_rs op m < 2 ^ 32
    → get_rt op m < 2 ^ 32
    → let r = op_mult op m in
      r.hi * 2 ^ 32 + r.lo
      ≡ signed64
          (differ (is_neg32 (get_rs op m)) (is_neg32 (get_rt op m)))
          (abs32 (get_rs op m) * abs32 (get_rt op m))
unfolding op_mult
op_mult_product op m ha hb = (omega arith) ∙ sext_product (get_rs op m) (get_rt op m) ha hb
