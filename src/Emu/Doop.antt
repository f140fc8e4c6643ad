-- ===== src/Emu/Doop.antt =====
-- src/gen/doop.gen.c: the choice of the operation for an instruction word. A switch is a table of
-- its cases in their order; a word that no case of a switch fits goes on to the next switch.
pub mod Decode
use cmips_cen.Base.{
  ℕ, ◌+◌, ◌*◌, ◌/◌, ◌%◌, ◌^◌, true, ◌==◌, if◌then◌else◌, List, [], ◌∷◌, Option, none, some, field,
}
use cmips_cen.Machine.{Mips, ok, M}
use cmips_cen.Emu.Exc
use cmips_cen.Emu.Exception.{raise, op_eret}
use cmips_cen.Emu.Translate.{op_tlbwi, op_tlbwr, op_tlbp}
use cmips_cen.Emu.Alu.{
  op_addiu, op_addi, op_slti, op_sltiu, op_andi, op_ori, op_xori, op_lui, op_sltu, op_slt, op_nor,
  op_xor, op_or, op_and, op_subu, op_sub, op_addu, op_add, op_divu, op_div, op_multu, op_mult,
  op_mul, op_movz, op_movn, op_mflo, op_mfhi, op_mtlo, op_mthi, op_srav, op_srlv, op_sllv, op_sra,
  op_srl, op_sll,
}
use cmips_cen.Emu.Branch.{
  op_bne, op_bnel, op_beq, op_beql, op_bgtz, op_bgtzl, op_blez, op_blezl, op_bgezal, op_bgez,
  op_bgezl, op_bltzal, op_bltz, op_bltzl, op_j, op_jal, op_jalr, op_jr, op_tne,
}
use cmips_cen.Emu.Memory.{
  op_lw, op_sw, op_lb, op_lbu, op_sb, op_lh, op_lhu, op_sh, op_swl, op_swr, op_lwl, op_lwr, op_ll,
  op_sc,
}
use cmips_cen.Emu.Cop0.{op_mfc0, op_mtc0}

-- The value of a case and the operation behind it
abbrev pub Handler : Type 0
Handler = ℕ → M (Unit {0})

abbrev pub Cases : Type 0
Cases = List (ℕ × Handler)

-- An operation that neither exits nor faults, with and without a use of the instruction word
abbrev pub lift : (ℕ → Mips → Mips) → Handler
lift f op m = ok tt (f op m)

abbrev pub still : (Mips → Mips) → Handler
still f op m = ok tt (f m)

-- `op_wait`, `op_syscall`, and the three operations that do nothing
unfoldable pub op_wait : Mips → Mips
op_wait m = record m { waiting = true }

unfoldable pub op_syscall : Mips → Mips
op_syscall m = raise Exc.sys m

unfoldable pub op_sync : Mips → Mips
op_sync m = m

unfoldable pub op_cache : Mips → Mips
op_cache m = m

unfoldable pub op_pref : Mips → Mips
op_pref m = m

-- `switch(op & 0xfc000000)`
abbrev pub major_key : ℕ → ℕ
major_key op = op / 2 ^ 26 * 2 ^ 26

unfoldable pub major_cases : Cases
major_cases =
    (0x8000000, lift op_j)
    ∷ (0xc000000, lift op_jal)
    ∷ (0x10000000, lift op_beq)
    ∷ (0x14000000, lift op_bne)
    ∷ (0x18000000, lift op_blez)
    ∷ (0x1c000000, lift op_bgtz)
    ∷ (0x20000000, lift op_addi)
    ∷ (0x24000000, lift op_addiu)
    ∷ (0x28000000, lift op_slti)
    ∷ (0x2c000000, lift op_sltiu)
    ∷ (0x30000000, lift op_andi)
    ∷ (0x34000000, lift op_ori)
    ∷ (0x38000000, lift op_xori)
    ∷ (0x3c000000, lift op_lui)
    ∷ (0x50000000, lift op_beql)
    ∷ (0x54000000, lift op_bnel)
    ∷ (0x58000000, lift op_blezl)
    ∷ (0x80000000, op_lb)
    ∷ (0x84000000, op_lh)
    ∷ (0x88000000, op_lwl)
    ∷ (0x8c000000, op_lw)
    ∷ (0x90000000, op_lbu)
    ∷ (0x94000000, op_lhu)
    ∷ (0x98000000, op_lwr)
    ∷ (0xa0000000, op_sb)
    ∷ (0xa4000000, op_sh)
    ∷ (0xa8000000, op_swl)
    ∷ (0xac000000, op_sw)
    ∷ (0xb8000000, op_swr)
    ∷ (0xbc000000, still op_cache)
    ∷ (0xc0000000, op_ll)
    ∷ (0xcc000000, still op_pref)
    ∷ (0xe0000000, op_sc)
    ∷ []

-- `switch(op & 0xfc00003f)`
abbrev pub special_key : ℕ → ℕ
special_key op = op / 2 ^ 26 * 2 ^ 26 + op % 2 ^ 6

unfoldable pub special_cases : Cases
special_cases =
    (0x0, lift op_sll)
    ∷ (0x2, lift op_srl)
    ∷ (0x3, lift op_sra)
    ∷ (0x4, lift op_sllv)
    ∷ (0x6, lift op_srlv)
    ∷ (0x7, lift op_srav)
    ∷ (0x8, lift op_jr)
    ∷ (0x9, lift op_jalr)
    ∷ (0xc, still op_syscall)
    ∷ (0xf, still op_sync)
    ∷ (0x10, lift op_mfhi)
    ∷ (0x11, lift op_mthi)
    ∷ (0x12, lift op_mflo)
    ∷ (0x13, lift op_mtlo)
    ∷ (0x18, lift op_mult)
    ∷ (0x19, lift op_multu)
    ∷ (0x1a, op_div)
    ∷ (0x1b, lift op_divu)
    ∷ (0x20, lift op_add)
    ∷ (0x21, lift op_addu)
    ∷ (0x22, lift op_sub)
    ∷ (0x23, lift op_subu)
    ∷ (0x24, lift op_and)
    ∷ (0x25, lift op_or)
    ∷ (0x26, lift op_xor)
    ∷ (0x27, lift op_nor)
    ∷ (0x2a, lift op_slt)
    ∷ (0x2b, lift op_sltu)
    ∷ (0x2d, lift op_addu)
    ∷ (0x36, op_tne)
    ∷ []

-- `switch(op & 0xfc1f0000)`
abbrev pub regimm_key : ℕ → ℕ
regimm_key op = op / 2 ^ 26 * 2 ^ 26 + field 16 5 op * 2 ^ 16

unfoldable pub regimm_cases : Cases
regimm_cases =
    (0x4000000, lift op_bltz)
    ∷ (0x4010000, lift op_bgez)
    ∷ (0x4020000, lift op_bltzl)
    ∷ (0x4030000, lift op_bgezl)
    ∷ (0x4100000, lift op_bltzal)
    ∷ (0x4110000, lift op_bgezal)
    ∷ (0x5c000000, lift op_bgtzl)
    ∷ []

-- `switch(op & 0xffffffff)`
abbrev pub cop0_word_key : ℕ → ℕ
cop0_word_key op = op

unfoldable pub cop0_word_cases : Cases
cop0_word_cases =
    (0x42000002, still op_tlbwi)
    ∷ (0x42000006, still op_tlbwr)
    ∷ (0x42000008, still op_tlbp)
    ∷ (0x42000018, still op_eret)
    ∷ []

-- `switch(op & 0xfc0007ff)`
abbrev pub special2_key : ℕ → ℕ
special2_key op = op / 2 ^ 26 * 2 ^ 26 + op % 2 ^ 11

unfoldable pub special2_cases : Cases
special2_cases = (0xa, lift op_movz) ∷ (0xb, lift op_movn) ∷ (0x70000002, lift op_mul) ∷ []

-- `switch(op & 0xffe00000)`
abbrev pub cop0_move_key : ℕ → ℕ
cop0_move_key op = op / 2 ^ 21 * 2 ^ 21

unfoldable pub cop0_move_cases : Cases
cop0_move_cases = (0x40000000, op_mfc0) ∷ (0x40800000, op_mtc0) ∷ []

-- `switch(op & 0xfe00003f)`
abbrev pub wait_word_key : ℕ → ℕ
wait_word_key op = op / 2 ^ 25 * 2 ^ 25 + op % 2 ^ 6

unfoldable pub wait_word_cases : Cases
wait_word_cases = (0x42000020, still op_wait) ∷ []

-- The handler of the first case that has the value
unfoldable pub find_case : ℕ → Cases → Option Handler
find_case key [] = none
find_case key ((value, handler) ∷ cases) =
    let rest = find_case key cases in if key == value then some handler else rest

-- A switch, and what runs where no case fits
abbrev pub choose : ℕ → Cases → Handler → Handler
choose key cases next op = elim (find_case key cases) [ none ↦ next op | some handler ↦ handler op ]

-- The end of `doop`: a reserved instruction
unfoldable pub op_reserved : Mips → Mips
op_reserved m = raise Exc.ri m

-- `doop`
unfoldable pub doop : Handler
doop op =
    choose (major_key op) major_cases
      (choose (special_key op) special_cases (
        choose (regimm_key op) regimm_cases (
          choose (cop0_word_key op) cop0_word_cases (
            choose (special2_key op) special2_cases (
              choose (cop0_move_key op) cop0_move_cases
                (choose (wait_word_key op) wait_word_cases (still op_reserved)))))))
      op
