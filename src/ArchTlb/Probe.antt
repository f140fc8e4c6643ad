-- ===== src/ArchTlb/Probe.antt =====
-- The probe of arch/tlb/tlb.c.
use native.Mathlib.Nat.{pow-suc}
use cmips_cen.Base.{
  ℕ, zero, suc, ◌+◌, ◌-◌, ◌*◌, ◌^◌, ◌<◌, ◌≡◌, ◌≢◌, refl, ap, ap₂, ◌∙◌, arith, Bool, true, false,
  ◌&&◌, ◌==◌, if◌then◌else◌, Bool-cases, inl, inr, Option, none, some, u32,
}
use cmips_cen.Base.Finite.{all_below, all_below-true}
use cmips_cen.ArchTlb.{
  Cen64Tlb, cen64_one_hot_lut, vpn2_of, vpn_check, asid_check, movemask, probe_block, probe_from,
  tlb_probe,
}

movemask_none : (n : ℕ) (f : ℕ → Bool) → ((j : ℕ) → j < n → f j ≡ false) → movemask n f ≡ 0
unfolding movemask
movemask_none zero f h = refl
movemask_none (suc n) f h =
    ap₂ (λ b r. (if b then 2 ^ n else 0) + r) (h n (omega arith))
      (movemask_none n f (λ j p. h j (omega arith)))

movemask_one :
    (n k : ℕ) (f : ℕ → Bool)
    → k < n
    → f k ≡ true
    → ((j : ℕ) → j < n → j ≢ k → f j ≡ false)
    → movemask n f ≡ 2 ^ k
unfolding movemask
movemask_one zero k f lt hit miss = absurd (omega arith)
movemask_one (suc n) k f lt hit miss = elim (Bool-cases (n == k)) [
  | inl e ↦
      (let same : n ≡ k = ground arith in
        ap₂ (λ b r. (if b then 2 ^ n else 0) + r) (ap f same ∙ hit)
          (movemask_none n f (λ j p. miss j (omega arith) (omega arith)))
        ∙ (let q : 2 ^ n ≡ 2 ^ k = ap (λ d. 2 ^ d) same in omega (arith, q)))
  | inr e ↦
      (let ne : n ≢ k = ground arith in
        ap₂ (λ b r. (if b then 2 ^ n else 0) + r) (miss n (omega arith) ne)
          (movemask_one n k f (ground arith) hit (λ j p q. miss j (omega arith) q))
        ∙ (omega arith))
]

lut_power : (k : ℕ) → k < 8 → cen64_one_hot_lut (2 ^ k) ≡ k
unfolding cen64_one_hot_lut all_below
lut_power k h =
    let t = all_below-true 8 k (λ i. cen64_one_hot_lut (2 ^ i) == i) refl h in ground arith

pow_pos : (n : ℕ) → 0 < 2 ^ n
pow_pos zero = omega arith
pow_pos (suc n) = let ih = pow_pos n in let p = pow-suc 2 n in omega (arith, ih, p)

movemask_pos : (n k : ℕ) (f : ℕ → Bool) → k < n → f k ≡ true → 0 < movemask n f
unfolding movemask
movemask_pos zero k f lt hit = absurd (omega arith)
movemask_pos (suc n) k f lt hit = elim (Bool-cases (n == k)) [
  | inl e ↦
      (let same : n ≡ k = ground arith in
        let set : (if f n then 2 ^ n else 0) ≡ 2 ^ n =
          ap (λ b. if b then 2 ^ n else 0) (ap f same ∙ hit) in
        let pos = pow_pos n in omega (arith, set, pos))
  | inr e ↦ (let ih = movemask_pos n k f (ground arith) hit in omega (arith, ih))
]

pub movemask_ext :
    (n : ℕ) (f g : ℕ → Bool) → ((j : ℕ) → j < n → f j ≡ g j) → movemask n f ≡ movemask n g
unfolding movemask
movemask_ext zero f g h = refl
movemask_ext (suc n) f g h =
    ap₂ (λ b r. (if b then 2 ^ n else 0) + r) (h n (omega arith))
      (movemask_ext n f g (λ j p. h j (omega arith)))

and_false : (a b : Bool) → b ≡ false → (a && b) ≡ false
and_false true b h = h
and_false false b h = refl

last : (o : Option ℕ) → elim o [ none ↦ none | some index ↦ some index ] ≡ o
last none = refl
last (some index) = refl

-- The probe is the one block of the first eight entries.
pub tlb_probe-block :
    (t : Cen64Tlb) (vaddr vasid : ℕ)
    → tlb_probe t vaddr vasid ≡ probe_block t (vpn2_of vaddr) vasid 0
unfolding tlb_probe probe_from
tlb_probe-block t vaddr vasid = last (probe_block t (vpn2_of vaddr) vasid 0)

-- If the page of an address is in one of the first eight entries alone, and that entry is global or
-- of the address space asked for, the probe finds that entry.
pub tlb_probe_one :
    (t : Cen64Tlb) (vaddr vasid k : ℕ)
    → k < 8
    → vpn_check t (vpn2_of vaddr) k ≡ true
    → asid_check t vasid k ≡ true
    → ((j : ℕ) → j < 8 → j ≢ k → vpn_check t (vpn2_of vaddr) j ≡ false)
    → tlb_probe t vaddr vasid ≡ some k
unfolding probe_block
tlb_probe_one t vaddr vasid k lt page space other =
    let vpn = vpn2_of vaddr in
    let f = λ (j : ℕ). vpn_check t vpn (0 + j) && asid_check t vasid (0 + j) in
    let high = movemask 8 (λ j. vpn_check t vpn (0 + j) && vasid == 0) in
    let zero_k : 0 + k ≡ k = omega arith in
    let low : movemask 8 f ≡ 2 ^ k =
      movemask_one 8 k f lt
        (ap₂ ◌&&◌ (ap (vpn_check t vpn) zero_k ∙ page) (ap (asid_check t vasid) zero_k ∙ space))
        (λ j p q.
          ap (λ b. b && asid_check t vasid (0 + j))
            (ap (vpn_check t vpn) (omega arith) ∙ other j p q)) in
    let pos = pow_pos k in
    let some_bit : 2 ^ k + high * 2 ^ 8 == 0 ≡ false = ground arith in
    tlb_probe-block t vaddr vasid
    ∙ ap (λ x. if x + high * 2 ^ 8 == 0 then none else some (u32 (0 + cen64_one_hot_lut x))) low
    ∙ ap (λ b. if b then none else some (u32 (0 + cen64_one_hot_lut (2 ^ k)))) some_bit
    ∙ (let e = lut_power k lt in ap some (omega (arith, e)))

-- If the page is in one of the first eight entries, but under other address spaces than 0 only, a
-- probe of address space 0 still reports a match, at the index -1.
pub tlb_probe_zero :
    (t : Cen64Tlb) (vaddr k : ℕ)
    → k < 8
    → vpn_check t (vpn2_of vaddr) k ≡ true
    → ((j : ℕ) → j < 8 → asid_check t 0 j ≡ false)
    → tlb_probe t vaddr 0 ≡ some (2 ^ 32 - 1)
unfolding probe_block cen64_one_hot_lut
tlb_probe_zero t vaddr k lt page other =
    let vpn = vpn2_of vaddr in
    let f = λ (j : ℕ). vpn_check t vpn (0 + j) && asid_check t 0 (0 + j) in
    let g = λ (j : ℕ). vpn_check t vpn (0 + j) && 0 == 0 in
    let zero_k : 0 + k ≡ k = omega arith in
    let low : movemask 8 f ≡ 0 = movemask_none 8 f (λ j p.
      and_false (vpn_check t vpn (0 + j)) (asid_check t 0 (0 + j))
        (ap (asid_check t 0) (omega arith) ∙ other j p)) in
    let high = movemask_pos 8 k g lt (ap (λ b. b && true) (ap (vpn_check t vpn) zero_k ∙ page)) in
    let some_bit : 0 + movemask 8 g * 2 ^ 8 == 0 ≡ false = ground (arith, high) in
    tlb_probe-block t vaddr 0
    ∙ ap (λ x. if x + movemask 8 g * 2 ^ 8 == 0 then none else some (u32 (0 + cen64_one_hot_lut x)))
        low
    ∙ ap (λ b. if b then none else some (u32 (0 + cen64_one_hot_lut 0))) some_bit
