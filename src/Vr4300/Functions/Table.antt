-- ===== src/Vr4300/Functions/Table.antt =====
-- vr4300/functions.c: the function of each instruction, as vr4300/opcodes_priv.h names it.
use cmips_cen.Base.{ℕ}
use cmips_cen.Vr4300.Decoder.Opcodes.{OpcodeId}
use cmips_cen.Vr4300.State.{Vr4300, Stage}
use cmips_cen.Vr4300.Cp0.{
  vr4300_dmfc0, vr4300_dmtc0, vr4300_eret, vr4300_mfc0, vr4300_mtc0, vr4300_tlbp, vr4300_tlbr,
  vr4300_tlbwi, vr4300_tlbwr,
}
use cmips_cen.Vr4300.Functions.Arith.{
  vr4300_add_sub, vr4300_addi_subi, vr4300_addiu_lui_subiu, vr4300_addu_subu, vr4300_and_or_xor,
  vr4300_andi_ori_xori, vr4300_dadd_dsub, vr4300_daddi_dsubi, vr4300_daddiu_dsubiu,
  vr4300_daddu_dsubu, vr4300_nor, vr4300_slt, vr4300_slti, vr4300_sltiu, vr4300_sltu,
}
use cmips_cen.Vr4300.Functions.Branches.{
  vr4300_beq_beql_bne_bnel, vr4300_bgez_bgezl_bltz_bltzl, vr4300_bgezal_bgezall_bltzal_bltzall,
  vr4300_bgtz_bgtzl_blez_blezl, vr4300_invalid, vr4300_j_jal, vr4300_jalr_jr, vr4300_tne,
}
use cmips_cen.Vr4300.Functions.Multiply.{
  vr4300_ddiv, vr4300_ddivu, vr4300_div_divu, vr4300_dmult, vr4300_dmultu, vr4300_mfhi_mflo,
  vr4300_mthi_mtlo, vr4300_mult_multu,
}
use cmips_cen.Vr4300.Functions.Requests.{
  vr4300_cache, vr4300_ld_sd, vr4300_ldl_ldr, vr4300_ll_sc, vr4300_load_store, vr4300_lwl_lwr,
  vr4300_sdl_sdr, vr4300_swl_swr,
}
use cmips_cen.Vr4300.Functions.Shifts.{
  vr4300_dsll_dsll32, vr4300_dsllv, vr4300_dsra_dsra32, vr4300_dsrav, vr4300_dsrl_dsrl32,
  vr4300_dsrlv, vr4300_sll_sllv, vr4300_sra, vr4300_srav, vr4300_srl, vr4300_srlv,
}

-- A function of the table: the instruction word, the values of the source registers, the state
abbrev pub Function : Type 0
Function = (iw rs rt : ℕ) → Vr4300 → Stage

-- `vr4300_function_table`, with the value of `rand()` and the functions of the floating-point unit
unfoldable pub function_table : (rand : ℕ) → (cp1 : OpcodeId → Function) → OpcodeId → Function
function_table rand cp1 OpcodeId.invalid = vr4300_invalid
function_table rand cp1 OpcodeId.add = vr4300_add_sub
function_table rand cp1 OpcodeId.addi = vr4300_addi_subi
function_table rand cp1 OpcodeId.addiu = vr4300_addiu_lui_subiu
function_table rand cp1 OpcodeId.addu = vr4300_addu_subu
function_table rand cp1 OpcodeId.and = vr4300_and_or_xor
function_table rand cp1 OpcodeId.andi = vr4300_andi_ori_xori
function_table rand cp1 OpcodeId.bc0 = vr4300_invalid
function_table rand cp1 OpcodeId.bc2 = vr4300_invalid
function_table rand cp1 OpcodeId.beq = vr4300_beq_beql_bne_bnel
function_table rand cp1 OpcodeId.beql = vr4300_beq_beql_bne_bnel
function_table rand cp1 OpcodeId.bgez = vr4300_bgez_bgezl_bltz_bltzl
function_table rand cp1 OpcodeId.bgezal = vr4300_bgezal_bgezall_bltzal_bltzall
function_table rand cp1 OpcodeId.bgezall = vr4300_bgezal_bgezall_bltzal_bltzall
function_table rand cp1 OpcodeId.bgezl = vr4300_bgez_bgezl_bltz_bltzl
function_table rand cp1 OpcodeId.bgtz = vr4300_bgtz_bgtzl_blez_blezl
function_table rand cp1 OpcodeId.bgtzl = vr4300_bgtz_bgtzl_blez_blezl
function_table rand cp1 OpcodeId.blez = vr4300_bgtz_bgtzl_blez_blezl
function_table rand cp1 OpcodeId.blezl = vr4300_bgtz_bgtzl_blez_blezl
function_table rand cp1 OpcodeId.bltz = vr4300_bgez_bgezl_bltz_bltzl
function_table rand cp1 OpcodeId.bltzal = vr4300_bgezal_bgezall_bltzal_bltzall
function_table rand cp1 OpcodeId.bltzall = vr4300_bgezal_bgezall_bltzal_bltzall
function_table rand cp1 OpcodeId.bltzl = vr4300_bgez_bgezl_bltz_bltzl
function_table rand cp1 OpcodeId.bne = vr4300_beq_beql_bne_bnel
function_table rand cp1 OpcodeId.bnel = vr4300_beq_beql_bne_bnel
function_table rand cp1 OpcodeId.break = vr4300_invalid
function_table rand cp1 OpcodeId.cache = vr4300_cache
function_table rand cp1 OpcodeId.cfc0 = vr4300_invalid
function_table rand cp1 OpcodeId.cfc2 = vr4300_invalid
function_table rand cp1 OpcodeId.ctc0 = vr4300_invalid
function_table rand cp1 OpcodeId.ctc2 = vr4300_invalid
function_table rand cp1 OpcodeId.dadd = vr4300_dadd_dsub
function_table rand cp1 OpcodeId.daddi = vr4300_daddi_dsubi
function_table rand cp1 OpcodeId.daddiu = vr4300_daddiu_dsubiu
function_table rand cp1 OpcodeId.daddu = vr4300_daddu_dsubu
function_table rand cp1 OpcodeId.ddiv = vr4300_ddiv
function_table rand cp1 OpcodeId.ddivu = vr4300_ddivu
function_table rand cp1 OpcodeId.div = vr4300_div_divu
function_table rand cp1 OpcodeId.divu = vr4300_div_divu
function_table rand cp1 OpcodeId.dmfc0 = vr4300_dmfc0
function_table rand cp1 OpcodeId.dmfc2 = vr4300_invalid
function_table rand cp1 OpcodeId.dmtc0 = vr4300_dmtc0
function_table rand cp1 OpcodeId.dmtc2 = vr4300_invalid
function_table rand cp1 OpcodeId.dmult = vr4300_dmult
function_table rand cp1 OpcodeId.dmultu = vr4300_dmultu
function_table rand cp1 OpcodeId.dsll = vr4300_dsll_dsll32
function_table rand cp1 OpcodeId.dsllv = vr4300_dsllv
function_table rand cp1 OpcodeId.dsll32 = vr4300_dsll_dsll32
function_table rand cp1 OpcodeId.dsra = vr4300_dsra_dsra32
function_table rand cp1 OpcodeId.dsrav = vr4300_dsrav
function_table rand cp1 OpcodeId.dsra32 = vr4300_dsra_dsra32
function_table rand cp1 OpcodeId.dsrl = vr4300_dsrl_dsrl32
function_table rand cp1 OpcodeId.dsrlv = vr4300_dsrlv
function_table rand cp1 OpcodeId.dsrl32 = vr4300_dsrl_dsrl32
function_table rand cp1 OpcodeId.dsub = vr4300_dadd_dsub
function_table rand cp1 OpcodeId.dsubu = vr4300_daddu_dsubu
function_table rand cp1 OpcodeId.eret = vr4300_eret
function_table rand cp1 OpcodeId.j = vr4300_j_jal
function_table rand cp1 OpcodeId.jal = vr4300_j_jal
function_table rand cp1 OpcodeId.jalr = vr4300_jalr_jr
function_table rand cp1 OpcodeId.jr = vr4300_jalr_jr
function_table rand cp1 OpcodeId.lb = vr4300_load_store
function_table rand cp1 OpcodeId.lbu = vr4300_load_store
function_table rand cp1 OpcodeId.ld = vr4300_ld_sd
function_table rand cp1 OpcodeId.ldc0 = vr4300_invalid
function_table rand cp1 OpcodeId.ldc2 = vr4300_invalid
function_table rand cp1 OpcodeId.ldl = vr4300_ldl_ldr
function_table rand cp1 OpcodeId.ldr = vr4300_ldl_ldr
function_table rand cp1 OpcodeId.lh = vr4300_load_store
function_table rand cp1 OpcodeId.lhu = vr4300_load_store
function_table rand cp1 OpcodeId.ll = vr4300_ll_sc
function_table rand cp1 OpcodeId.lld = vr4300_invalid
function_table rand cp1 OpcodeId.lui = vr4300_addiu_lui_subiu
function_table rand cp1 OpcodeId.lw = vr4300_load_store
function_table rand cp1 OpcodeId.lwc0 = vr4300_invalid
function_table rand cp1 OpcodeId.lwc2 = vr4300_invalid
function_table rand cp1 OpcodeId.lwl = vr4300_lwl_lwr
function_table rand cp1 OpcodeId.lwr = vr4300_lwl_lwr
function_table rand cp1 OpcodeId.lwu = vr4300_load_store
function_table rand cp1 OpcodeId.mfc0 = vr4300_mfc0
function_table rand cp1 OpcodeId.mfc2 = vr4300_invalid
function_table rand cp1 OpcodeId.mfhi = vr4300_mfhi_mflo
function_table rand cp1 OpcodeId.mflo = vr4300_mfhi_mflo
function_table rand cp1 OpcodeId.mtc0 = vr4300_mtc0
function_table rand cp1 OpcodeId.mtc2 = vr4300_invalid
function_table rand cp1 OpcodeId.mthi = vr4300_mthi_mtlo
function_table rand cp1 OpcodeId.mtlo = vr4300_mthi_mtlo
function_table rand cp1 OpcodeId.mult = vr4300_mult_multu
function_table rand cp1 OpcodeId.multu = vr4300_mult_multu
function_table rand cp1 OpcodeId.nor = vr4300_nor
function_table rand cp1 OpcodeId.or = vr4300_and_or_xor
function_table rand cp1 OpcodeId.ori = vr4300_andi_ori_xori
function_table rand cp1 OpcodeId.sb = vr4300_load_store
function_table rand cp1 OpcodeId.sc = vr4300_ll_sc
function_table rand cp1 OpcodeId.scd = vr4300_invalid
function_table rand cp1 OpcodeId.sd = vr4300_ld_sd
function_table rand cp1 OpcodeId.sdc0 = vr4300_invalid
function_table rand cp1 OpcodeId.sdc2 = vr4300_invalid
function_table rand cp1 OpcodeId.sdl = vr4300_sdl_sdr
function_table rand cp1 OpcodeId.sdr = vr4300_sdl_sdr
function_table rand cp1 OpcodeId.sh = vr4300_load_store
function_table rand cp1 OpcodeId.sll = vr4300_sll_sllv
function_table rand cp1 OpcodeId.sllv = vr4300_sll_sllv
function_table rand cp1 OpcodeId.slt = vr4300_slt
function_table rand cp1 OpcodeId.slti = vr4300_slti
function_table rand cp1 OpcodeId.sltiu = vr4300_sltiu
function_table rand cp1 OpcodeId.sltu = vr4300_sltu
function_table rand cp1 OpcodeId.sra = vr4300_sra
function_table rand cp1 OpcodeId.srav = vr4300_srav
function_table rand cp1 OpcodeId.srl = vr4300_srl
function_table rand cp1 OpcodeId.srlv = vr4300_srlv
function_table rand cp1 OpcodeId.sub = vr4300_add_sub
function_table rand cp1 OpcodeId.subu = vr4300_addu_subu
function_table rand cp1 OpcodeId.sw = vr4300_load_store
function_table rand cp1 OpcodeId.swc0 = vr4300_invalid
function_table rand cp1 OpcodeId.swc2 = vr4300_invalid
function_table rand cp1 OpcodeId.swl = vr4300_swl_swr
function_table rand cp1 OpcodeId.swr = vr4300_swl_swr
function_table rand cp1 OpcodeId.sync = vr4300_sll_sllv
function_table rand cp1 OpcodeId.syscall = vr4300_invalid
function_table rand cp1 OpcodeId.teq = vr4300_invalid
function_table rand cp1 OpcodeId.teqi = vr4300_invalid
function_table rand cp1 OpcodeId.tge = vr4300_invalid
function_table rand cp1 OpcodeId.tgei = vr4300_invalid
function_table rand cp1 OpcodeId.tgeiu = vr4300_invalid
function_table rand cp1 OpcodeId.tgeu = vr4300_invalid
function_table rand cp1 OpcodeId.tlbp = vr4300_tlbp
function_table rand cp1 OpcodeId.tlbr = vr4300_tlbr
function_table rand cp1 OpcodeId.tlbwi = vr4300_tlbwi
function_table rand cp1 OpcodeId.tlbwr = vr4300_tlbwr rand
function_table rand cp1 OpcodeId.tlt = vr4300_invalid
function_table rand cp1 OpcodeId.tlti = vr4300_invalid
function_table rand cp1 OpcodeId.tltiu = vr4300_invalid
function_table rand cp1 OpcodeId.tltu = vr4300_invalid
function_table rand cp1 OpcodeId.tne = vr4300_tne
function_table rand cp1 OpcodeId.tnei = vr4300_invalid
function_table rand cp1 OpcodeId.xor = vr4300_and_or_xor
function_table rand cp1 OpcodeId.xori = vr4300_andi_ori_xori
function_table rand cp1 OpcodeId.bc1 = cp1 OpcodeId.bc1
function_table rand cp1 OpcodeId.cfc1 = cp1 OpcodeId.cfc1
function_table rand cp1 OpcodeId.cp1_abs = cp1 OpcodeId.cp1_abs
function_table rand cp1 OpcodeId.cp1_add = cp1 OpcodeId.cp1_add
function_table rand cp1 OpcodeId.cp1_c_eq = cp1 OpcodeId.cp1_c_eq
function_table rand cp1 OpcodeId.cp1_c_f = cp1 OpcodeId.cp1_c_f
function_table rand cp1 OpcodeId.cp1_c_le = cp1 OpcodeId.cp1_c_le
function_table rand cp1 OpcodeId.cp1_c_lt = cp1 OpcodeId.cp1_c_lt
function_table rand cp1 OpcodeId.cp1_c_nge = cp1 OpcodeId.cp1_c_nge
function_table rand cp1 OpcodeId.cp1_c_ngl = cp1 OpcodeId.cp1_c_ngl
function_table rand cp1 OpcodeId.cp1_c_ngle = cp1 OpcodeId.cp1_c_ngle
function_table rand cp1 OpcodeId.cp1_c_ngt = cp1 OpcodeId.cp1_c_ngt
function_table rand cp1 OpcodeId.cp1_c_ole = cp1 OpcodeId.cp1_c_ole
function_table rand cp1 OpcodeId.cp1_c_olt = cp1 OpcodeId.cp1_c_olt
function_table rand cp1 OpcodeId.cp1_c_ueq = cp1 OpcodeId.cp1_c_ueq
function_table rand cp1 OpcodeId.cp1_c_ule = cp1 OpcodeId.cp1_c_ule
function_table rand cp1 OpcodeId.cp1_c_ult = cp1 OpcodeId.cp1_c_ult
function_table rand cp1 OpcodeId.cp1_c_un = cp1 OpcodeId.cp1_c_un
function_table rand cp1 OpcodeId.cp1_c_seq = cp1 OpcodeId.cp1_c_seq
function_table rand cp1 OpcodeId.cp1_c_sf = cp1 OpcodeId.cp1_c_sf
function_table rand cp1 OpcodeId.cp1_ceil_l = cp1 OpcodeId.cp1_ceil_l
function_table rand cp1 OpcodeId.cp1_ceil_w = cp1 OpcodeId.cp1_ceil_w
function_table rand cp1 OpcodeId.cp1_cvt_d = cp1 OpcodeId.cp1_cvt_d
function_table rand cp1 OpcodeId.cp1_cvt_l = cp1 OpcodeId.cp1_cvt_l
function_table rand cp1 OpcodeId.cp1_cvt_s = cp1 OpcodeId.cp1_cvt_s
function_table rand cp1 OpcodeId.cp1_cvt_w = cp1 OpcodeId.cp1_cvt_w
function_table rand cp1 OpcodeId.cp1_div = cp1 OpcodeId.cp1_div
function_table rand cp1 OpcodeId.cp1_floor_l = cp1 OpcodeId.cp1_floor_l
function_table rand cp1 OpcodeId.cp1_floor_w = cp1 OpcodeId.cp1_floor_w
function_table rand cp1 OpcodeId.cp1_mov = cp1 OpcodeId.cp1_mov
function_table rand cp1 OpcodeId.cp1_mul = cp1 OpcodeId.cp1_mul
function_table rand cp1 OpcodeId.cp1_neg = cp1 OpcodeId.cp1_neg
function_table rand cp1 OpcodeId.cp1_round_l = cp1 OpcodeId.cp1_round_l
function_table rand cp1 OpcodeId.cp1_round_w = cp1 OpcodeId.cp1_round_w
function_table rand cp1 OpcodeId.cp1_sqrt = cp1 OpcodeId.cp1_sqrt
function_table rand cp1 OpcodeId.cp1_sub = cp1 OpcodeId.cp1_sub
function_table rand cp1 OpcodeId.cp1_trunc_l = cp1 OpcodeId.cp1_trunc_l
function_table rand cp1 OpcodeId.cp1_trunc_w = cp1 OpcodeId.cp1_trunc_w
function_table rand cp1 OpcodeId.ctc1 = cp1 OpcodeId.ctc1
function_table rand cp1 OpcodeId.dmfc1 = cp1 OpcodeId.dmfc1
function_table rand cp1 OpcodeId.dmtc1 = cp1 OpcodeId.dmtc1
function_table rand cp1 OpcodeId.ldc1 = cp1 OpcodeId.ldc1
function_table rand cp1 OpcodeId.lwc1 = cp1 OpcodeId.lwc1
function_table rand cp1 OpcodeId.mfc1 = cp1 OpcodeId.mfc1
function_table rand cp1 OpcodeId.mtc1 = cp1 OpcodeId.mtc1
function_table rand cp1 OpcodeId.sdc1 = cp1 OpcodeId.sdc1
function_table rand cp1 OpcodeId.swc1 = cp1 OpcodeId.swc1
