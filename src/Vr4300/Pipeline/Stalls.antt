-- ===== src/Vr4300/Pipeline/Stalls.antt =====
-- vr4300/pipeline.c: the cycles in which the pipeline waits.
use cmips_cen.Base.{
  ℕ, zero, suc, ◌+◌, ◌-◌, ◌%◌, ◌^◌, ◌<◌, ◌≡◌, ◌≢◌, refl, ap, ◌∙◌, arith, Option, none, some, ◌==◌,
  if◌then◌else◌,
}
use cmips_cen.Vr4300.Decoder.Opcodes.{OpcodeId}
use cmips_cen.Vr4300.Functions.Table.{Function}
use cmips_cen.Vr4300.Pipeline.Cycle.{count_cycle, vr4300_cycle, vr4300_cycle_step}
use cmips_cen.Vr4300.State.{Vr4300, Pipeline, with_pipeline, cp0_count, cp0_cause}

abbrev after : Option Vr4300 → (Vr4300 → Option Vr4300) → Option Vr4300
after none k = none
after (some c) k = k c

-- Cycles one after the other
unfoldable pub run_cycles : (table : OpcodeId → Function) → ℕ → Vr4300 → Option Vr4300
run_cycles table zero c = some c
run_cycles table (suc n) c = after (vr4300_cycle table c) (run_cycles table n)

-- What a wait of some cycles leaves: the pipeline without the counter of the wait, and Count
pub record HasWaited (table : OpcodeId → Function) (n : ℕ) (c r : Vr4300) : Type 0 where
  pub waits : run_cycles table n c ≡ some r
  pub resumes : run_cycles table (suc n) c ≡ vr4300_cycle_step table (count_cycle r)
  pub latches : r.pipeline ≡ record (c.pipeline) { cycles_to_stall = 0 }
  pub count : r.regs cp0_count ≡ (c.regs cp0_count + n) % 2 ^ 64
  pub others : (i : ℕ) → i ≢ cp0_count → i ≢ cp0_cause → r.regs i ≡ c.regs i

count_cycle-count : (c : Vr4300) → (count_cycle c).regs cp0_count ≡ (c.regs cp0_count + 1) % 2 ^ 64
unfolding count_cycle
count_cycle-count c = ground arith

count_cycle-others :
    (c : Vr4300) (i : ℕ) → i ≢ cp0_count → i ≢ cp0_cause → (count_cycle c).regs i ≡ c.regs i
unfolding count_cycle
count_cycle-others c i h k = ground arith

count_cycle-pipeline : (c : Vr4300) → (count_cycle c).pipeline ≡ c.pipeline
unfolding count_cycle
count_cycle-pipeline c = ground arith

-- A cycle of the wait
abbrev spend : ℕ → Vr4300 → Vr4300
spend n c = with_pipeline (λ p. record p { cycles_to_stall = n }) (count_cycle c)

if_left :
    {A : Type 0} (k n : ℕ) (a : A) (f : ℕ → A) → k ≡ suc n → (if k == 0 then a else f (k - 1)) ≡ f n
if_left k n a f p = rw p (ground arith)

cycle_waits :
    (table : OpcodeId → Function) (n : ℕ) (c : Vr4300)
    → c.pipeline.cycles_to_stall ≡ suc n
    → vr4300_cycle table c ≡ some (spend n c)
unfolding vr4300_cycle
cycle_waits table n c p =
    let left : (count_cycle c).pipeline.cycles_to_stall ≡ suc n =
      ap (λ (q : Pipeline). q.cycles_to_stall) (count_cycle-pipeline c) ∙ p in
    if_left (count_cycle c).pipeline.cycles_to_stall n (vr4300_cycle_step table (count_cycle c))
      (λ k. some (spend k c)) left

cycle_resumes :
    (table : OpcodeId → Function) (c : Vr4300)
    → c.pipeline.cycles_to_stall ≡ 0
    → vr4300_cycle table c ≡ vr4300_cycle_step table (count_cycle c)
unfolding vr4300_cycle
cycle_resumes table c p =
    let left : (count_cycle c).pipeline.cycles_to_stall ≡ 0 =
      ap (λ (q : Pipeline). q.cycles_to_stall) (count_cycle-pipeline c) ∙ p in
    rw left refl

after-some : (o : Option Vr4300) → after o some ≡ o
after-some none = refl
after-some (some c) = refl

run_cycles_one :
    (table : OpcodeId → Function) (c : Vr4300) → run_cycles table 1 c ≡ vr4300_cycle table c
unfolding run_cycles
run_cycles_one table c = after-some (vr4300_cycle table c)

run_cycles-suc :
    (table : OpcodeId → Function) (n m : ℕ) (c : Vr4300)
    → c.pipeline.cycles_to_stall ≡ suc n
    → run_cycles table (suc m) c ≡ run_cycles table m (spend n c)
unfolding run_cycles
run_cycles-suc table n m c p = ap (λ o. after o (run_cycles table m)) (cycle_waits table n c p)

-- A wait of any length comes to its end. With n cycles left, the pipeline runs n cycles, none of them
-- an abort, in which the latches, the flag of a fault, and every register but Count and Cause stay as
-- they are, Count advances by n, and the next cycle runs a stage.
pub wait_ends :
    (table : OpcodeId → Function) (n : ℕ) (c : Vr4300)
    → c.pipeline.cycles_to_stall ≡ n
    → c.regs cp0_count < 2 ^ 64
    → (r : Vr4300) × HasWaited table n c r
unfolding run_cycles
wait_ends table zero c p low = (
  c,
  record {
    waits = refl;
    resumes = run_cycles_one table c ∙ cycle_resumes table c p;
    latches = ap (λ k. record (c.pipeline) { cycles_to_stall = k }) p;
    count = omega arith;
    others = λ i h k. refl;
  },
)
wait_ends table (suc n) c p low =
    let counted = count_cycle-count c in
    let rest = wait_ends table n (spend n c) refl (omega (arith, counted)) in
    let left = rest.1.count in
    (
      rest.0,
      record {
        waits = run_cycles-suc table n n c p ∙ rest.1.waits;
        resumes = run_cycles-suc table n (suc n) c p ∙ rest.1.resumes;
        latches =
            rest.1.latches
            ∙ ap (λ (q : Pipeline). record q { cycles_to_stall = 0 }) (count_cycle-pipeline c);
        count = omega (arith, counted, left);
        others = λ i h k. rest.1.others i h k ∙ count_cycle-others c i h k;
      },
    )
