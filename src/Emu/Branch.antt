-- ===== src/Emu/Branch.antt =====
-- src/emu.c: branches and jumps. One that is taken sets `delaypc`, where `step_mips` goes after
-- the delay slot; a "likely" branch that is not taken skips the slot.
use cmips_cen.Base.{
  ℕ, ◌+◌, ◌*◌, ◌/◌, ◌%◌, ◌^◌, Bool, true, not, ◌==◌, ◌&&◌, if◌then◌else◌, u32, bit,
}
use cmips_cen.Machine.{Mips, ok, exit, M}
use cmips_cen.Emu.Regs.{set_reg, get_rs, get_rt, get_imm}
use cmips_cen.Emu.Alu.{is_neg32}

-- `sext18`: `0xfffc0000 | val`, or the low 18 bits
unfoldable pub sext18 : ℕ → ℕ
sext18 val = if bit 17 val then val % 2 ^ 18 + 0xfffc0000 else val % 2 ^ 18

-- `(int32_t)(emu->pc + 4) + offset`, where every branch goes
unfoldable pub branch_target : ℕ → Mips → ℕ
branch_target op m = u32 (u32 (m.pc + 4) + sext18 (get_imm op * 4))

-- The common end of the branches
unfoldable pub branch : Bool → ℕ → Mips → Mips
branch taken op m = record m {
  delaypc = if taken then branch_target op m else u32 (m.pc + 8);
  in_delay_slot = true;
}

-- The common end of the "likely" branches
unfoldable pub branch_likely : Bool → ℕ → Mips → Mips
branch_likely taken op m =
    if taken
    then record m { delaypc = branch_target op m; in_delay_slot = true }
    else record m { pc = u32 (m.pc + 4) }

-- `emu->regs[31] = emu->pc + 8`
abbrev pub link : Mips → Mips
link m = set_reg 31 (u32 (m.pc + 8)) m

abbrev pub gtz : ℕ → Mips → Bool
gtz op m = not (is_neg32 (get_rs op m)) && not (get_rs op m == 0)

unfoldable pub op_bne : ℕ → Mips → Mips
op_bne op m = branch (not (get_rs op m == get_rt op m)) op m

unfoldable pub op_bnel : ℕ → Mips → Mips
op_bnel op m = branch_likely (not (get_rs op m == get_rt op m)) op m

unfoldable pub op_beq : ℕ → Mips → Mips
op_beq op m = branch (get_rs op m == get_rt op m) op m

unfoldable pub op_beql : ℕ → Mips → Mips
op_beql op m = branch_likely (get_rs op m == get_rt op m) op m

unfoldable pub op_bgtz : ℕ → Mips → Mips
op_bgtz op m = branch (gtz op m) op m

unfoldable pub op_bgtzl : ℕ → Mips → Mips
op_bgtzl op m = branch_likely (gtz op m) op m

unfoldable pub op_blez : ℕ → Mips → Mips
op_blez op m = branch (not (gtz op m)) op m

unfoldable pub op_blezl : ℕ → Mips → Mips
op_blezl op m = branch_likely (not (gtz op m)) op m

-- The branches that link do so whether or not they are taken, after reading `rs`.
unfoldable pub op_bgezal : ℕ → Mips → Mips
op_bgezal op m = link (branch (not (is_neg32 (get_rs op m))) op m)

unfoldable pub op_bgez : ℕ → Mips → Mips
op_bgez op m = branch (not (is_neg32 (get_rs op m))) op m

unfoldable pub op_bgezl : ℕ → Mips → Mips
op_bgezl op m = branch_likely (not (is_neg32 (get_rs op m))) op m

unfoldable pub op_bltzal : ℕ → Mips → Mips
op_bltzal op m = link (branch (is_neg32 (get_rs op m)) op m)

unfoldable pub op_bltz : ℕ → Mips → Mips
op_bltz op m = branch (is_neg32 (get_rs op m)) op m

unfoldable pub op_bltzl : ℕ → Mips → Mips
op_bltzl op m = branch_likely (is_neg32 (get_rs op m)) op m

-- `(pc & 0xf0000000) | ((op & 0x3ffffff) << 2)`
unfoldable pub jump_target : ℕ → Mips → ℕ
jump_target op m = m.pc / 2 ^ 28 * 2 ^ 28 + op % 2 ^ 26 * 4

unfoldable pub op_j : ℕ → Mips → Mips
op_j op m = record m { delaypc = jump_target op m; in_delay_slot = true }

unfoldable pub op_jal : ℕ → Mips → Mips
op_jal op m = link (record m { delaypc = jump_target op m; in_delay_slot = true })

-- `op_jalr` links to register 31, whatever `rd` is.
unfoldable pub op_jalr : ℕ → Mips → Mips
op_jalr op m = link (record m { delaypc = get_rs op m; in_delay_slot = true })

unfoldable pub op_jr : ℕ → Mips → Mips
op_jr op m = record m { delaypc = get_rs op m; in_delay_slot = true }

-- `op_tne`: a trap that is met ends the process.
unfoldable pub op_tne : ℕ → M (Unit {0})
op_tne op m = if not (get_rs op m == get_rt op m) then exit else ok tt m
