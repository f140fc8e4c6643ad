-- ===== src/Emu/Memory/Unaligned.antt =====
-- The merges of the partial loads and stores of src/emu.c, on the two words that four bytes in a row
-- lie in.
use cmips_cen.Base.{
  ℕ, zero, suc, ◌+◌, ◌-◌, ◌*◌, ◌/◌, ◌%◌, ◌^◌, ◌<◌, ◌≡◌, refl, ap, ◌∙◌, arith, Bool-cases, inl, inr,
  if◌then◌else◌, ltb,
}
use cmips_cen.Machine.{Mips}
use cmips_cen.Emu.Access.{byte_of}
use cmips_cen.Emu.Access.Ram.{byte_at}
use cmips_cen.Emu.Memory.{swl_merge, swr_merge, lwl_merge, lwr_merge}

-- The four bytes from `p` on as a big-endian word
abbrev pub be_word : Mips → ℕ → ℕ
be_word m p =
    byte_at m p * 2 ^ 24
    + byte_at m (p + 1) * 2 ^ 16
    + byte_at m (p + 2) * 2 ^ 8
    + byte_at m (p + 3)

-- The same from the two words that the bytes lie in, at offset `r` of the first
abbrev pick : (r k w0 w1 : ℕ) → ℕ
pick r k w0 w1 = byte_of (if ltb (r + k) 4 then w0 else w1) (8 * (3 - (r + k) % 4))

abbrev pub across : (r w0 w1 : ℕ) → ℕ
across r w0 w1 =
    pick r 0 w0 w1 * 2 ^ 24 + pick r 1 w0 w1 * 2 ^ 16 + pick r 2 w0 w1 * 2 ^ 8 + pick r 3 w0 w1

byte_at-pick :
    (m : Mips) (p k : ℕ)
    → k < 4
    → byte_at m (p + k) ≡ pick (p % 4) k (m.mem (p / 4)) (m.mem ((p + 3) / 4))
byte_at-pick m p k h =
    let off : (p + k) % 4 ≡ (p % 4 + k) % 4 = omega arith in
    elim (Bool-cases (ltb (p % 4 + k) 4)) [
      | inl first ↦ (let e : (p + k) / 4 ≡ p / 4 = ground arith in rw (first, e, off))
      | inr second ↦ (let e : (p + k) / 4 ≡ (p + 3) / 4 = ground arith in rw (second, e, off))
    ]

pub be_word-across :
    (m : Mips) (p : ℕ) → be_word m p ≡ across (p % 4) (m.mem (p / 4)) (m.mem ((p + 3) / 4))
be_word-across m p =
    let w0 = m.mem (p / 4) in
    let w1 = m.mem ((p + 3) / 4) in
    let plus : p ≡ p + 0 = omega arith in
    let b0 : byte_at m p ≡ pick (p % 4) 0 w0 w1 =
      ap (λ a. byte_at m a) plus ∙ byte_at-pick m p 0 (omega arith) in
    rw (
      b0,
      byte_at-pick m p 1 (omega arith),
      byte_at-pick m p 2 (omega arith),
      byte_at-pick m p 3 (omega arith),
    )

pub load_parts :
    (r w0 w1 rt : ℕ)
    → r < 4
    → w0 < 2 ^ 32
    → w1 < 2 ^ 32
    → (r ≡ 0 → w0 ≡ w1)
    → lwr_merge ((r + 3) % 4) w1 (lwl_merge r w0 rt) ≡ across r w0 w1
unfolding lwr_merge lwl_merge
load_parts zero w0 w1 rt h a b e = omega (arith, e refl)
load_parts (suc zero) w0 w1 rt h a b e = omega arith
load_parts (suc (suc zero)) w0 w1 rt h a b e = omega arith
load_parts (suc (suc (suc zero))) w0 w1 rt h a b e = omega arith
load_parts (suc (suc (suc (suc r)))) w0 w1 rt h a b e = absurd (omega arith)

pub store_parts :
    (r w0 w1 v : ℕ)
    → r < 4
    → v < 2 ^ 32
    → across r (swl_merge r w0 v) (swr_merge ((r + 3) % 4) w1 v) ≡ v
unfolding swr_merge swl_merge
store_parts zero w0 w1 v h b = omega arith
store_parts (suc zero) w0 w1 v h b = omega arith
store_parts (suc (suc zero)) w0 w1 v h b = omega arith
store_parts (suc (suc (suc zero))) w0 w1 v h b = omega arith
store_parts (suc (suc (suc (suc r)))) w0 w1 v h b = absurd (omega arith)

-- The bytes of a word before the offset of `swl`, and after that of `swr`, are kept.
pub swl_merge-byte :
    (r k w v : ℕ)
    → r < 4
    → k < r
    → v < 2 ^ 32
    → byte_of (swl_merge r w v) (8 * (3 - k)) ≡ byte_of w (8 * (3 - k))
unfolding swl_merge
swl_merge-byte zero k w v h l b = absurd (omega arith)
swl_merge-byte (suc zero) zero w v h l b = omega arith
swl_merge-byte (suc (suc zero)) zero w v h l b = omega arith
swl_merge-byte (suc (suc zero)) (suc zero) w v h l b = omega arith
swl_merge-byte (suc (suc (suc zero))) zero w v h l b = omega arith
swl_merge-byte (suc (suc (suc zero))) (suc zero) w v h l b = omega arith
swl_merge-byte (suc (suc (suc zero))) (suc (suc zero)) w v h l b = omega arith
swl_merge-byte (suc zero) (suc k) w v h l b = absurd (omega arith)
swl_merge-byte (suc (suc zero)) (suc (suc k)) w v h l b = absurd (omega arith)
swl_merge-byte (suc (suc (suc zero))) (suc (suc (suc k))) w v h l b = absurd (omega arith)
swl_merge-byte (suc (suc (suc (suc r)))) k w v h l b = absurd (omega arith)

pub swr_merge-byte :
    (r k w v : ℕ)
    → k < 4
    → r < k
    → byte_of (swr_merge r w v) (8 * (3 - k)) ≡ byte_of w (8 * (3 - k))
unfolding swr_merge
swr_merge-byte r zero w v h l = absurd (omega arith)
swr_merge-byte zero (suc zero) w v h l = omega arith
swr_merge-byte zero (suc (suc zero)) w v h l = omega arith
swr_merge-byte zero (suc (suc (suc zero))) w v h l = omega arith
swr_merge-byte (suc zero) (suc (suc zero)) w v h l = omega arith
swr_merge-byte (suc zero) (suc (suc (suc zero))) w v h l = omega arith
swr_merge-byte (suc (suc zero)) (suc (suc (suc zero))) w v h l = omega arith
swr_merge-byte (suc r) (suc zero) w v h l = absurd (omega arith)
swr_merge-byte (suc (suc r)) (suc (suc zero)) w v h l = absurd (omega arith)
swr_merge-byte (suc (suc (suc r))) (suc (suc (suc zero))) w v h l = absurd (omega arith)
swr_merge-byte r (suc (suc (suc (suc k)))) w v h l = absurd (omega arith)
