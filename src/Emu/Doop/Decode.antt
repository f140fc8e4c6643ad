-- ===== src/Emu/Doop/Decode.antt =====
-- A decoder by the fields of the instruction, as the architecture lays them out, for
-- src/gen/doop.gen.c.
pub mod Dispatch
pub mod Tables
use cmips_cen.Base.{ℕ, ◌/◌, ◌%◌, ◌^◌, ◌==◌, ◌&&◌, leb, if◌then◌else◌, [], ◌∷◌, none, some}
use cmips_cen.Machine.{M}
use cmips_cen.Emu.Exception.{raise, op_eret}
use cmips_cen.Emu.Translate.{op_tlbwi, op_tlbwr, op_tlbp}
use cmips_cen.Emu.Alu.{
  op_addiu, op_addi, op_slti, op_sltiu, op_andi, op_ori, op_xori, op_lui, op_sltu, op_slt, op_nor,
  op_xor, op_or, op_and, op_subu, op_sub, op_addu, op_add, op_divu, op_div, op_multu, op_mult,
  op_mul, op_movz, op_movn, op_mflo, op_mfhi, op_mtlo, op_mthi, op_srav, op_srlv, op_sllv, op_sra,
  op_srl, op_sll,
}
use cmips_cen.Emu.Branch.{
  op_bne, op_bnel, op_beq, op_beql, op_bgtz, op_bgtzl, op_blez, op_blezl, op_bgezal, op_bgez,
  op_bgezl, op_bltzal, op_bltz, op_bltzl, op_j, op_jal, op_jalr, op_jr, op_tne,
}
use cmips_cen.Emu.Memory.{
  op_lw, op_sw, op_lb, op_lbu, op_sb, op_lh, op_lhu, op_sh, op_swl, op_swr, op_lwl, op_lwr, op_ll,
  op_sc,
}
use cmips_cen.Emu.Cop0.{op_mfc0, op_mtc0}
use cmips_cen.Emu.Regs.{rs_of, rt_of}
use cmips_cen.Emu.Doop.{
  Cases, lift, still, choose, find_case, op_wait, op_syscall, op_sync, op_cache, op_pref,
  op_reserved,
}

-- The operations by opcode
unfoldable pub opcodes : Cases
opcodes =
    (0x2, lift op_j)
    ∷ (0x3, lift op_jal)
    ∷ (0x4, lift op_beq)
    ∷ (0x5, lift op_bne)
    ∷ (0x6, lift op_blez)
    ∷ (0x7, lift op_bgtz)
    ∷ (0x8, lift op_addi)
    ∷ (0x9, lift op_addiu)
    ∷ (0xa, lift op_slti)
    ∷ (0xb, lift op_sltiu)
    ∷ (0xc, lift op_andi)
    ∷ (0xd, lift op_ori)
    ∷ (0xe, lift op_xori)
    ∷ (0xf, lift op_lui)
    ∷ (0x14, lift op_beql)
    ∷ (0x15, lift op_bnel)
    ∷ (0x16, lift op_blezl)
    ∷ (0x20, op_lb)
    ∷ (0x21, op_lh)
    ∷ (0x22, op_lwl)
    ∷ (0x23, op_lw)
    ∷ (0x24, op_lbu)
    ∷ (0x25, op_lhu)
    ∷ (0x26, op_lwr)
    ∷ (0x28, op_sb)
    ∷ (0x29, op_sh)
    ∷ (0x2a, op_swl)
    ∷ (0x2b, op_sw)
    ∷ (0x2e, op_swr)
    ∷ (0x2f, still op_cache)
    ∷ (0x30, op_ll)
    ∷ (0x33, still op_pref)
    ∷ (0x38, op_sc)
    ∷ []

-- The operations of SPECIAL by function
unfoldable pub functions : Cases
functions =
    (0x0, lift op_sll)
    ∷ (0x2, lift op_srl)
    ∷ (0x3, lift op_sra)
    ∷ (0x4, lift op_sllv)
    ∷ (0x6, lift op_srlv)
    ∷ (0x7, lift op_srav)
    ∷ (0x8, lift op_jr)
    ∷ (0x9, lift op_jalr)
    ∷ (0xc, still op_syscall)
    ∷ (0xf, still op_sync)
    ∷ (0x10, lift op_mfhi)
    ∷ (0x11, lift op_mthi)
    ∷ (0x12, lift op_mflo)
    ∷ (0x13, lift op_mtlo)
    ∷ (0x18, lift op_mult)
    ∷ (0x19, lift op_multu)
    ∷ (0x1a, op_div)
    ∷ (0x1b, lift op_divu)
    ∷ (0x20, lift op_add)
    ∷ (0x21, lift op_addu)
    ∷ (0x22, lift op_sub)
    ∷ (0x23, lift op_subu)
    ∷ (0x24, lift op_and)
    ∷ (0x25, lift op_or)
    ∷ (0x26, lift op_xor)
    ∷ (0x27, lift op_nor)
    ∷ (0x2a, lift op_slt)
    ∷ (0x2b, lift op_sltu)
    ∷ (0x2d, lift op_addu)
    ∷ (0x36, op_tne)
    ∷ []

-- SPECIAL: the function, and the moves, whose shift amount is 0
unfoldable pub decode_moves : ℕ → M (Unit {0})
decode_moves op =
    if op % 2 ^ 11 == 10
    then lift op_movz op
    else if op % 2 ^ 11 == 11
    then lift op_movn op
    else still op_reserved op

unfoldable pub decode_special : ℕ → M (Unit {0})
decode_special op = choose (op % 2 ^ 6) functions decode_moves op

-- REGIMM: the field rt
unfoldable pub decode_regimm : ℕ → M (Unit {0})
decode_regimm op =
    let rt = rt_of op in
    if rt == 0
    then lift op_bltz op
    else if rt == 1
    then lift op_bgez op
    else if rt == 2
    then lift op_bltzl op
    else if rt == 3
    then lift op_bgezl op
    else if rt == 16
    then lift op_bltzal op
    else if rt == 17
    then lift op_bgezal op
    else still op_reserved op

-- COP0: whole words, the moves by the field rs, and `wait` with any code
unfoldable pub decode_cop0 : ℕ → M (Unit {0})
decode_cop0 op =
    if op == 0x42000002
    then still op_tlbwi op
    else if op == 0x42000006
    then still op_tlbwr op
    else if op == 0x42000008
    then still op_tlbp op
    else if op == 0x42000018
    then still op_eret op
    else if rs_of op == 0
    then op_mfc0 op
    else if rs_of op == 4
    then op_mtc0 op
    else if leb 16 (rs_of op) && op % 2 ^ 6 == 0x20
    then still op_wait op
    else still op_reserved op

-- By the opcode in the six bits at the top
unfoldable pub decode : ℕ → M (Unit {0})
decode op =
    let opcode = op / 2 ^ 26 in
    if opcode == 0
    then decode_special op
    else if opcode == 1
    then decode_regimm op
    else if opcode == 16
    then decode_cop0 op
    else if opcode == 23
    then (if rt_of op == 0 then lift op_bgtzl op else still op_reserved op)
    else if opcode == 28
    then (if op % 2 ^ 11 == 2 then lift op_mul op else still op_reserved op)
    else choose opcode opcodes (still op_reserved) op
