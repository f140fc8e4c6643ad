-- ===== src/Base/Bits.antt =====
-- Laws of `bit_or` and `bit_and` at variables: the lowest digit, single bits, and fields that do not
-- overlap.
use Prim.Native.Nat.{
  min, max, differ, digits, bit_or-bitwise, bit_and-bitwise, zero, suc, ℕ, ◌+◌, ◌-◌, ◌*◌, ◌/◌, ◌%◌,
  ◌^◌, ◌≤◌, ◌<◌, bit_or, bit_and, bit_xor, bit_xor-bitwise,
}
use mathlib.Core.Path.{◌≡◌, refl, ap, ap₂, sym, ◌∙◌}
use mathlib.Core.Bool.{not, ◌&&◌, ◌||◌}
use native.Mathlib.Nat.{
  pow-suc, le_refl, div-div-eq-div-mul, mul_comm, mul_assoc, div-add-mod', mod-lt,
  add-mul-mod_self_right, mod-eq_of_lt,
}
use native.Mathlib.Omega.{arith}
use cmips_cen.Base.Tests.{◌==◌}
use cmips_cen.Base.Word.{bit}

-- The digits that an operation joins, with a bound on their number: a bound that is no less than
-- the left operand can be lowered to it.
module _ (single : ℕ → ℕ) (join : ℕ → ℕ → ℕ) where
  joined_bound :
      (low high x y : ℕ)
      → x ≤ low
      → low ≤ high
      → digits single join high x y ≡ digits single join low x y
  joined_bound low zero x y hx hl = let none : low ≡ 0 = omega arith in rw none refl
  joined_bound zero (suc high) zero y hx hl = refl
  joined_bound (suc low) (suc high) zero y hx hl = refl
  joined_bound zero (suc high) (suc x) y hx hl = absurd (omega arith)
  joined_bound (suc low) (suc high) (suc x) y hx hl =
      ap (λ d. d * 2 + join (suc x % 2) (y % 2))
        (joined_bound low high (suc x / 2) (y / 2) (omega arith) (omega arith))

pub bit_or_step : (x y : ℕ) → bit_or x y ≡ bit_or (x / 2) (y / 2) * 2 + max (x % 2) (y % 2)
bit_or_step zero y = omega (arith, bit_or-bitwise 0 y, bit_or-bitwise 0 (y / 2))
bit_or_step (suc x) y =
    let half = suc x / 2 in
    bit_or-bitwise (suc x) y
    ∙ ap (λ d. d * 2 + max (suc x % 2) (y % 2))
        (joined_bound (λ d. d) max half x half (y / 2) (le_refl _) (omega arith)
          ∙ sym (bit_or-bitwise half (y / 2)))

pub bit_and_step : (x y : ℕ) → bit_and x y ≡ bit_and (x / 2) (y / 2) * 2 + min (x % 2) (y % 2)
bit_and_step zero y = omega (arith, bit_and-bitwise 0 y, bit_and-bitwise 0 (y / 2))
bit_and_step (suc x) y =
    let half = suc x / 2 in
    bit_and-bitwise (suc x) y
    ∙ ap (λ d. d * 2 + min (suc x % 2) (y % 2))
        (joined_bound (λ d. 0) min half x half (y / 2) (le_refl _) (omega arith)
          ∙ sym (bit_and-bitwise half (y / 2)))

bit-suc : (k x : ℕ) → bit (suc k) x ≡ bit k (x / 2)
unfolding bit
bit-suc k x =
    let e : x / 2 ^ suc k ≡ x / 2 / 2 ^ k =
      ap (λ d. x / d) (pow-suc 2 k ∙ mul_comm (2 ^ k) 2) ∙ sym (div-div-eq-div-mul x 2 (2 ^ k)) in
    ap (λ q. q % 2 == 1) e

pub bit-bit_or : (k x y : ℕ) → bit k (bit_or x y) ≡ bit k x || bit k y
unfolding bit
bit-bit_or zero x y = let e = bit_or_step x y in ground arith
bit-bit_or (suc k) x y =
    let half : bit_or x y / 2 ≡ bit_or (x / 2) (y / 2) =
      (let e = bit_or_step x y in omega (arith, e)) in
    bit-suc k (bit_or x y)
    ∙ ap (bit k) half
    ∙ bit-bit_or k (x / 2) (y / 2)
    ∙ sym (ap₂ ◌||◌ (bit-suc k x) (bit-suc k y))

pub bit-bit_and : (k x y : ℕ) → bit k (bit_and x y) ≡ bit k x && bit k y
unfolding bit
bit-bit_and zero x y = let e = bit_and_step x y in ground arith
bit-bit_and (suc k) x y =
    let half : bit_and x y / 2 ≡ bit_and (x / 2) (y / 2) =
      (let e = bit_and_step x y in omega (arith, e)) in
    bit-suc k (bit_and x y)
    ∙ ap (bit k) half
    ∙ bit-bit_and k (x / 2) (y / 2)
    ∙ sym (ap₂ ◌&&◌ (bit-suc k x) (bit-suc k y))

-- The bits of `~x` on a word of `w` bits
pub bit_complement : (w k x : ℕ) → k < w → x < 2 ^ w → bit k (2 ^ w - 1 - x) ≡ not (bit k x)
unfolding bit
bit_complement zero k x h b = absurd (omega arith)
bit_complement (suc w) zero x h b = let p = pow-suc 2 w in ground arith
bit_complement (suc w) (suc k) x h b =
    let p = pow-suc 2 w in
    let half : (2 ^ suc w - 1 - x) / 2 ≡ 2 ^ w - 1 - x / 2 = omega (arith, p) in
    bit-suc k (2 ^ suc w - 1 - x)
    ∙ ap (bit k) half
    ∙ bit_complement w k (x / 2) (omega arith) (omega (arith, p))
    ∙ ap not (sym (bit-suc k x))

bit_or-zero : (n a : ℕ) → a ≤ n → bit_or a 0 ≡ a
bit_or-zero zero zero h = refl
bit_or-zero zero (suc a) h = absurd (omega arith)
bit_or-zero (suc n) zero h = refl
bit_or-zero (suc n) (suc a) h =
    omega (arith, bit_or_step (suc a) 0, bit_or-zero n (suc a / 2) (omega arith))

-- A disjunction of a high field and a low field is their sum.
pub bit_or_disjoint : (k q r : ℕ) → r < 2 ^ k → bit_or (q * 2 ^ k) r ≡ q * 2 ^ k + r
bit_or_disjoint zero q r h = ground (arith, bit_or-zero q q (le_refl _))
bit_or_disjoint (suc k) q r h =
    let half : q * 2 ^ suc k ≡ 2 * (q * 2 ^ k) =
      omega (arith, ap (λ (t : ℕ). q * t) (pow-suc 2 k)) in
    ground (
      arith,
      bit_or_step (q * 2 ^ suc k) r,
      half,
      bit_or_disjoint k q (r / 2) (omega (arith, pow-suc 2 k)),
    )

bit_and-zero : (n a : ℕ) → a ≤ n → bit_and a 0 ≡ 0
bit_and-zero zero zero h = refl
bit_and-zero zero (suc a) h = absurd (omega arith)
bit_and-zero (suc n) zero h = refl
bit_and-zero (suc n) (suc a) h =
    omega (arith, bit_and_step (suc a) 0, bit_and-zero n (suc a / 2) (omega arith))

pub bit_or-lt : (n x y : ℕ) → x < 2 ^ n → y < 2 ^ n → bit_or x y < 2 ^ n
bit_or-lt zero x y hx hy =
    let zx : x ≡ 0 = omega arith in let zy : y ≡ 0 = omega arith in rw (zx, zy) (omega arith)
bit_or-lt (suc n) x y hx hy =
    let p = pow-suc 2 n in
    let ih = bit_or-lt n (x / 2) (y / 2) (omega (arith, p)) (omega (arith, p)) in
    let s = bit_or_step x y in ground (arith, ih, s, p)

-- A mask gives no more than its operands.
pub bit_and-le : (n x y : ℕ) → y ≤ n → bit_and x y ≤ y
bit_and-le n x zero h = let s = bit_and-zero x x (le_refl _) in omega (arith, s)
bit_and-le zero x (suc y) h = absurd (omega arith)
bit_and-le (suc n) x (suc y) h =
    let ih = bit_and-le n (x / 2) (suc y / 2) (omega arith) in
    let s = bit_and_step x (suc y) in ground (arith, ih, s)

pub bit_and-lt : (n x y : ℕ) → y < 2 ^ n → bit_and x y < 2 ^ n
bit_and-lt n x y h = let s = bit_and-le y x y (le_refl _) in omega (arith, s)

-- The remainder by an even modulus, from the half and the last digit
half_mod : (x p : ℕ) → 0 < p → x % (p * 2) ≡ x / 2 % p * 2 + x % 2
half_mod x p h =
    let q = x / 2 / p in
    let s = x / 2 % p * 2 + x % 2 in
    let whole = div-add-mod' (x / 2) p in
    let flat : q * p * 2 ≡ q * (p * 2) = mul_assoc q p 2 in
    let small = mod-lt (x / 2) h in
    let e : x ≡ s + q * (p * 2) = omega (arith, whole, flat) in
    ap (λ n. n % (p * 2)) e
    ∙ add-mul-mod_self_right s q (p * 2)
    ∙ mod-eq_of_lt (omega (arith, small))

pow_pos : (n : ℕ) → 0 < 2 ^ n
pow_pos zero = omega arith
pow_pos (suc n) = let ih = pow_pos n in let p = pow-suc 2 n in omega (arith, ih, p)

-- A mask of the k low bits is a remainder.
pub bit_and-mask : (k x : ℕ) → bit_and x (2 ^ k - 1) ≡ x % 2 ^ k
bit_and-mask zero x = let z = bit_and-zero x x (le_refl _) in omega (arith, z)
bit_and-mask (suc k) x =
    let p = pow-suc 2 k in
    let pos = pow_pos k in
    let half : (2 ^ suc k - 1) / 2 ≡ 2 ^ k - 1 = omega (arith, p, pos) in
    let odd : (2 ^ suc k - 1) % 2 ≡ 1 = omega (arith, p, pos) in
    let ih = bit_and-mask k (x / 2) in
    let s = bit_and_step x (2 ^ suc k - 1) in
    let m = half_mod x (2 ^ k) pos in
    let low : min (x % 2) ((2 ^ suc k - 1) % 2) ≡ x % 2 = ground (arith, odd) in
    s
    ∙ ap₂ (λ a b. a * 2 + b) (ap (bit_and (x / 2)) half ∙ ih) low
    ∙ sym m
    ∙ ap (λ d. x % d) (sym p)

pub bit_xor_step : (x y : ℕ) → bit_xor x y ≡ bit_xor (x / 2) (y / 2) * 2 + differ (x % 2) (y % 2)
bit_xor_step zero y = omega (arith, bit_xor-bitwise 0 y, bit_xor-bitwise 0 (y / 2))
bit_xor_step (suc x) y =
    let half = suc x / 2 in
    bit_xor-bitwise (suc x) y
    ∙ ap (λ d. d * 2 + differ (suc x % 2) (y % 2))
        (joined_bound (λ d. d) differ half x half (y / 2) (le_refl _) (omega arith)
          ∙ sym (bit_xor-bitwise half (y / 2)))

differ_zero : (d : ℕ) → d < 2 → differ d 0 ≡ d
differ_zero zero h = refl
differ_zero (suc zero) h = refl
differ_zero (suc (suc d)) h = absurd (omega arith)

differ_one : (d : ℕ) → d < 2 → differ d 1 ≡ 1 - d
differ_one zero h = refl
differ_one (suc zero) h = refl
differ_one (suc (suc d)) h = absurd (omega arith)

-- An exclusive disjunction with a word of ones is the complement.
pub bit_xor_ones : (n x : ℕ) → x < 2 ^ n → bit_xor x (2 ^ n - 1) ≡ 2 ^ n - 1 - x
bit_xor_ones zero x h = let z : x ≡ 0 = omega arith in rw z refl
bit_xor_ones (suc n) x h =
    let p = pow-suc 2 n in
    let pos = pow_pos n in
    let half : (2 ^ suc n - 1) / 2 ≡ 2 ^ n - 1 = omega (arith, p, pos) in
    let odd : (2 ^ suc n - 1) % 2 ≡ 1 = omega (arith, p, pos) in
    let ih = bit_xor_ones n (x / 2) (omega (arith, p)) in
    let s = bit_xor_step x (2 ^ suc n - 1) in
    let low : differ (x % 2) ((2 ^ suc n - 1) % 2) ≡ 1 - x % 2 =
      ap (differ (x % 2)) odd ∙ differ_one (x % 2) (omega arith) in
    s ∙ ap₂ (λ a b. a * 2 + b) (ap (bit_xor (x / 2)) half ∙ ih) low ∙ omega (arith, p)

bit_xor_zero_below : (n x : ℕ) → x ≤ n → bit_xor x 0 ≡ x
bit_xor_zero_below zero x h = let z : x ≡ 0 = omega arith in rw z refl
bit_xor_zero_below (suc n) x h =
    let ih = bit_xor_zero_below n (x / 2) (omega arith) in
    let low : differ (x % 2) 0 ≡ x % 2 = differ_zero (x % 2) (omega arith) in
    bit_xor_step x 0 ∙ ap₂ (λ a b. a * 2 + b) ih low ∙ (omega arith)

pub bit_xor_zero : (x : ℕ) → bit_xor x 0 ≡ x
bit_xor_zero x = bit_xor_zero_below x x (le_refl x)

-- A digit of an exclusive disjunction
-- The exclusive disjunction of two digits
differ_test :
    (a b : ℕ)
    → a < 2
    → b < 2
    → (differ a b < 2) × ((differ a b == 1) ≡ ((a == 1) || (b == 1)) && not ((a == 1) && (b == 1)))
differ_test zero zero h k = (omega arith, refl)
differ_test zero (suc zero) h k = (omega arith, refl)
differ_test zero (suc (suc b)) h k = absurd (omega arith)
differ_test (suc zero) zero h k = (omega arith, refl)
differ_test (suc zero) (suc zero) h k = (omega arith, refl)
differ_test (suc zero) (suc (suc b)) h k = absurd (omega arith)
differ_test (suc (suc a)) b h k = absurd (omega arith)

bit-last : (x : ℕ) → bit 0 x ≡ (x % 2 == 1)
unfolding bit
bit-last x = let e : x / 1 ≡ x = omega arith in ap (λ q. q % 2 == 1) e

pub bit-bit_xor :
    (k x y : ℕ) → bit k (bit_xor x y) ≡ (bit k x || bit k y) && not (bit k x && bit k y)
bit-bit_xor zero x y =
    let s = bit_xor_step x y in
    let d = differ_test (x % 2) (y % 2) (omega arith) (omega arith) in
    let small = d.0 in
    let last : bit_xor x y % 2 ≡ differ (x % 2) (y % 2) = omega (arith, s, small) in
    bit-last (bit_xor x y)
    ∙ ap (λ n. n == 1) last
    ∙ d.1
    ∙ sym (ap₂ (λ a b. (a || b) && not (a && b)) (bit-last x) (bit-last y))
bit-bit_xor (suc k) x y =
    let s = bit_xor_step x y in
    let d = differ_test (x % 2) (y % 2) (omega arith) (omega arith) in
    let small = d.0 in
    let half : bit_xor x y / 2 ≡ bit_xor (x / 2) (y / 2) = omega (arith, s, small) in
    bit-suc k (bit_xor x y)
    ∙ ap (bit k) half
    ∙ bit-bit_xor k (x / 2) (y / 2)
    ∙ sym (ap₂ (λ a b. (a || b) && not (a && b)) (bit-suc k x) (bit-suc k y))

pub bit_or-zero_left : (y : ℕ) → bit_or 0 y ≡ y
bit_or-zero_left y = bit_or-bitwise 0 y

bit_and_comm_below : (n x y : ℕ) → x ≤ n → y ≤ n → bit_and x y ≡ bit_and y x
bit_and_comm_below zero x y hx hy =
    let zx : x ≡ 0 = omega arith in let zy : y ≡ 0 = omega arith in rw (zx, zy) refl
bit_and_comm_below (suc n) x y hx hy =
    let ih = bit_and_comm_below n (x / 2) (y / 2) (omega arith) (omega arith) in
    let low : min (x % 2) (y % 2) ≡ min (y % 2) (x % 2) = ground arith in
    bit_and_step x y ∙ ap₂ (λ a b. a * 2 + b) ih low ∙ sym (bit_and_step y x)

pub bit_and_comm : (x y : ℕ) → bit_and x y ≡ bit_and y x
bit_and_comm x y = bit_and_comm_below (x + y) x y (omega arith) (omega arith)

-- A mask that starts above k bits
pub bit_and_shifted : (k x m : ℕ) → bit_and x (m * 2 ^ k) ≡ bit_and (x / 2 ^ k) m * 2 ^ k
bit_and_shifted zero x m =
    let one : m * 2 ^ 0 ≡ m = omega arith in
    let all : x ≡ x / 2 ^ 0 = omega arith in
    ap (bit_and x) one ∙ ap (λ a. bit_and a m) all ∙ (omega arith)
bit_and_shifted (suc k) x m =
    let p = pow-suc 2 k in
    let d : m * 2 ^ suc k ≡ m * 2 ^ k * 2 = ap (λ q. m * q) p ∙ sym (mul_assoc m (2 ^ k) 2) in
    let half : m * 2 ^ suc k / 2 ≡ m * 2 ^ k = omega (arith, d) in
    let even : m * 2 ^ suc k % 2 ≡ 0 = omega (arith, d) in
    let low : min (x % 2) (m * 2 ^ suc k % 2) ≡ 0 = ground (arith, even) in
    let ih = bit_and_shifted k (x / 2) m in
    let deep : x / 2 / 2 ^ k ≡ x / 2 ^ suc k =
      div-div-eq-div-mul x 2 (2 ^ k) ∙ ap (λ q. x / q) (mul_comm 2 (2 ^ k) ∙ sym p) in
    let b = bit_and (x / 2 ^ suc k) m in
    let wide : b * 2 ^ suc k ≡ b * 2 ^ k * 2 = ap (λ q. b * q) p ∙ sym (mul_assoc b (2 ^ k) 2) in
    bit_and_step x (m * 2 ^ suc k)
    ∙ ap₂ (λ a c. a * 2 + c) (ap (bit_and (x / 2)) half ∙ ih ∙ ap (λ q. bit_and q m * 2 ^ k) deep)
        low
    ∙ omega (arith, wide)
