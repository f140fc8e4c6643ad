-- ===== src/Base/Finite.antt =====
-- Tests of all numbers below a bound.
use Prim.Native.Nat.{ℕ, zero, suc, ◌<◌}
use mathlib.Core.Path.{◌≡◌, refl, sym}
use mathlib.Core.Logic.{inl, inr}
use mathlib.Core.Bool.{Bool, true, false, not, ◌&&◌}
use native.Mathlib.Omega.{arith}
use cmips_cen.Base.Tests.{◌==◌, Bool-cases}

and_true : (a b : Bool) → (a && b) ≡ true → (a ≡ true) × (b ≡ true)
and_true true b h = (refl, h)
and_true false b h = cc

unfoldable pub all_below : ℕ → (ℕ → Bool) → Bool
all_below zero p = true
all_below (suc n) p = p n && all_below n p

pub all_below-true : (n k : ℕ) (p : ℕ → Bool) → all_below n p ≡ true → k < n → p k ≡ true
unfolding all_below
all_below-true zero k p all h = absurd (omega arith)
all_below-true (suc n) k p all h = elim (Bool-cases (k == n)) [
  | inl e ↦ (let same : k ≡ n = ground arith in rw same (and_true (p n) (all_below n p) all).0)
  | inr e ↦ all_below-true n k p (and_true (p n) (all_below n p) all).1 (ground arith)
]

-- Equality of truth values as a test
unfoldable pub same : Bool → Bool → Bool
same true b = b
same false b = not b

pub same-true : (a b : Bool) → same a b ≡ true → a ≡ b
unfolding same
same-true true b h = sym h
same-true false true h = h
same-true false false h = refl
