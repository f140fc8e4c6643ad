-- ===== src/Tests/Pipes.antt =====
-- The pipeline, the decoder and the coprocessor of the small processor
use cmips_cen.Base.{
  if◌then◌else◌, ltb, ◌<◌, ℕ, ◌-◌, ◌^◌, ◌≡◌, ◌≢◌, refl, arith, false, some, bit, get_elem?,
  sext32_64,
}
use cmips_cen.Vr4300.Cp0.{give, mask_reg, vr4300_mfc0, vr4300_mtc0, vr4300_tlbr, vr4300_tlbwi}
use cmips_cen.Vr4300.Cp0.Moves.{mfc0-mtc0, tlbr-tlbwi}
use cmips_cen.Vr4300.Decoder.{decode_instruction}
use cmips_cen.Vr4300.Decoder.Opcodes.{OpcodeId}
use cmips_cen.Vr4300.Decoder.Opcodes.{opcode_of}
use cmips_cen.Vr4300.Decoder.Reference.{fields_of, decode_instruction-reference}
use cmips_cen.Vr4300.Functions.Arith.{
  vr4300_and_or_xor, vr4300_andi_ori_xori, vr4300_add_sub, vr4300_addu_subu, vr4300_dadd_dsub,
  vr4300_daddu_dsubu,
}
use cmips_cen.Vr4300.Functions.Arith.Meaning.{sum_or_difference, joined, sums, bitwise}
use cmips_cen.Vr4300.Functions.Table.{Function, function_table}
use cmips_cen.Vr4300.Functions.Words
use cmips_cen.Vr4300.Pipeline.DataStage.{interrupted, vr4300_dc_stage}
use cmips_cen.Vr4300.Pipeline.Execute.{vr4300_ex_stage}
use cmips_cen.Vr4300.Pipeline.Forwarding.{then_stage, seen, ex_stage_forwards}
use cmips_cen.Vr4300.Pipeline.Stalls.{HasWaited, wait_ends}
use cmips_cen.Vr4300.State.{Vr4300, next, cp0_entrylo0, cp0_entrylo1, cp0_pagemask, cp0_cause}
use cmips_cen.Tests.Processor.{processor}

-- The functions, with a floating-point unit that does nothing
abbrev table : OpcodeId → Function
table = function_table 0 (λ o iw rs rt c. next c)

no_reset : bit 1 0 ≡ false
unfolding bit
no_reset = refl

no_interrupt : interrupted 0x400 0 ≡ false
unfolding interrupted
no_interrupt = refl

no_cop1 : bit 2 24 ≡ false
unfolding bit
no_cop1 = refl

ex_stage_forwards_example :
    (c' : Vr4300) × (then_stage (vr4300_dc_stage processor) (vr4300_ex_stage table)
      ≡ table OpcodeId.addu 0x00221821 (seen processor 1) (seen processor 2) c')
    × ((r : ℕ) → r ≢ 0 → c'.regs r ≡ processor.regs r)
    × (c'.pipeline.dcwb_latch.dest ≡ 1)
    × (c'.pipeline.dcwb_latch.result ≡ 7)
ex_stage_forwards_example = ex_stage_forwards table processor no_reset no_interrupt refl no_cop1

wait_ends_example : (r : Vr4300) × HasWaited table 3 processor r
wait_ends_example = wait_ends table 3 processor refl (omega arith)

decode_instruction-reference_example :
    (o : OpcodeId) × (get_elem? (fields_of 0x00221821).0 (fields_of 0x00221821).1 ≡ some o)
    × (decode_instruction 0x00221821 ≡ some (opcode_of o))
decode_instruction-reference_example = decode_instruction-reference 0x00221821 (omega arith)

sums_example :
    (vr4300_add_sub 0x00221823 5 7 processor
      ≡ Words.give 3 (sext32_64 (sum_or_difference 0x00221823 5 7)) processor)
    × (vr4300_addu_subu 0x00221823 5 7 processor
        ≡ Words.give 3 (sext32_64 (sum_or_difference 0x00221823 5 7)) processor)
    × (vr4300_dadd_dsub 0x00221823 5 7 processor
        ≡ Words.give 3 (sum_or_difference 0x00221823 5 7) processor)
    × (vr4300_daddu_dsubu 0x00221823 5 7 processor
        ≡ Words.give 3 (sum_or_difference 0x00221823 5 7) processor)
sums_example = sums 0x00221823 5 7 processor (omega arith) (omega arith)

difference : sum_or_difference 0x00221823 5 7 ≡ 2 ^ 64 - 2
unfolding sum_or_difference bit
difference = refl

-- `xor r3, r1, r2` and `ori r3, r1, 0x8001`
bitwise_example :
    ((r : ℕ) × (vr4300_and_or_xor 0x00221826 12 10 processor ≡ Words.give 3 r processor)
      × ((k : ℕ) → k < 64 → bit k r ≡ joined 2 (bit k 12) (bit k 10)))
    × ((r : ℕ) × (vr4300_andi_ori_xori 0x34238001 12 10 processor ≡ Words.give 3 r processor)
        × ((k : ℕ)
            → k < 64
            → bit k r ≡ joined 1 (bit k 12) (if ltb k 16 then bit k 0x34238001 else false)))
bitwise_example = bitwise 0x00221826 0x34238001 12 10 processor (omega arith) (omega arith)

-- A move to and from EntryHi
mfc0-mtc0_example :
    (c' : Vr4300) × (vr4300_mtc0 0x00005000 0 0x12345678 processor ≡ next c')
    × (vr4300_mfc0 0x00005000 0 0 c' ≡ give 0 (mask_reg 10 0x12345678) c')
    × (◌≢◌ {A = ℕ} 10 13 → c'.regs cp0_cause ≡ processor.regs cp0_cause)
mfc0-mtc0_example = mfc0-mtc0 0x00005000 0 0x12345678 0 0 processor refl

tlbr-tlbwi_example :
    (c' c'' : Vr4300) × (vr4300_tlbwi 0 0 0 processor ≡ next c')
    × (vr4300_tlbr 0 0 0 c' ≡ next c'')
    × (c''.regs cp0_entrylo0 ≡ 0x47)
    × (c''.regs cp0_entrylo1 ≡ 0x86)
    × (c''.regs cp0_pagemask ≡ 0x6000)
tlbr-tlbwi_example = tlbr-tlbwi 0 0 0 processor (omega arith)
