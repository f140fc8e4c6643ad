-- ===== src/Emu/Step/Timer.antt =====
-- The timer of src/emu.c, over a number of steps.
use cmips_cen.Base.{
  ℕ, zero, suc, ◌+◌, ◌^◌, ◌<◌, ◌≡◌, refl, ap₂, ◌∙◌, arith, Bool, ◌&&◌, ◌||◌, ◌==◌, leb, if_ind, bit,
  set_bit, u32, sub32,
}
use cmips_cen.Machine.{Mips, trigger_external_interrupt}
use cmips_cen.Emu.Step.{tick}

-- The clock of `n` steps
pub ticks : ℕ → Mips → Mips
ticks zero m = m
ticks (suc n) m = tick (ticks n m)

-- The interrupt line of the timer in Cause
abbrev pub timer_pending : Mips → Bool
timer_pending m = bit 15 m.cp0.cause

tick_pending :
    (m : Mips) → timer_pending (tick m) ≡ timer_pending m || u32 (m.cp0.count + 1) == m.cp0.compare
unfolding tick trigger_external_interrupt bit set_bit
tick_pending m = ground arith

tick_count : (m : Mips) → (tick m).cp0.count ≡ u32 (m.cp0.count + 1)
unfolding tick trigger_external_interrupt
tick_count m = ground arith

tick_compare : (m : Mips) → (tick m).cp0.compare ≡ m.cp0.compare
unfolding tick trigger_external_interrupt
tick_compare m = ground arith

ticks_count :
    (n : ℕ) (m : Mips) → m.cp0.count < 2 ^ 32 → (ticks n m).cp0.count ≡ u32 (m.cp0.count + n)
unfolding ticks
ticks_count zero m h = omega arith
ticks_count (suc n) m h = tick_count (ticks n m) ∙ (let ih = ticks_count n m h in omega (arith, ih))

ticks_compare : (n : ℕ) (m : Mips) → (ticks n m).cp0.compare ≡ m.cp0.compare
unfolding ticks
ticks_compare zero m = refl
ticks_compare (suc n) m = tick_compare (ticks n m) ∙ ticks_compare n m

one_more :
    (p : Bool) (n c k : ℕ)
    → suc n < 2 ^ 32
    → c < 2 ^ 32
    → k < 2 ^ 32
    → (p || (leb 1 (sub32 k c) && leb (sub32 k c) n)) || u32 (u32 (c + n) + 1) == k
      ≡ p || (leb 1 (sub32 k c) && leb (sub32 k c) (suc n))
one_more p n c k h hc hk = ground arith

-- Within 2 ^ 32 - 1 ticks the timer's interrupt is pending exactly if it was so before or Count
-- has come to Compare on the way, which it does after as many ticks as Compare is ahead of Count,
-- modulo 2 ^ 32.
pub ticks_pending :
    (n : ℕ) (m : Mips)
    → n < 2 ^ 32
    → m.cp0.count < 2 ^ 32
    → m.cp0.compare < 2 ^ 32
    → let ahead = sub32 m.cp0.compare m.cp0.count in
      timer_pending (ticks n m) ≡ timer_pending m || (leb 1 ahead && leb ahead n)
unfolding ticks
ticks_pending zero m h c k = ground arith
ticks_pending (suc n) m h c k =
    let ih = ticks_pending n m (omega arith) c k in
    let a = ticks_count n m c in
    let b = ticks_compare n m in
    tick_pending (ticks n m)
    ∙ ap₂ (λ p e. p || e) ih (ap₂ (λ x y. u32 (x + 1) == y) a b)
    ∙ one_more (timer_pending m) n m.cp0.count m.cp0.compare h c k

-- A tick changes CP0 alone, and not Status there.
pub tick_keeps : (m : Mips) → tick m ≡ record m { cp0 = (tick m).cp0 }
unfolding tick trigger_external_interrupt
tick_keeps m =
    if_ind (λ r. r ≡ record m { cp0 = r.cp0 }) (u32 (m.cp0.count + 1) == m.cp0.compare) refl refl

pub tick_status : (m : Mips) → (tick m).cp0.status ≡ m.cp0.status
unfolding tick trigger_external_interrupt
tick_status m = ground arith
