-- ===== src/Vr4300/Decoder/Tables.antt =====
-- vr4300/decoder.c: the opcode table and the table of escapes.
use cmips_cen.Base.{ℕ, List, [], ◌∷◌, ◌++◌, ◌==◌, if◌then◌else◌}
use cmips_cen.Vr4300.Decoder.Opcodes.{OpcodeId}

unfoldable pub special_table : List OpcodeId
special_table =
    OpcodeId.sll ∷ OpcodeId.invalid ∷ OpcodeId.srl ∷ OpcodeId.sra ∷ OpcodeId.sllv ∷ OpcodeId.invalid
    ∷ OpcodeId.srlv ∷ OpcodeId.srav ∷ OpcodeId.jr ∷ OpcodeId.jalr ∷ OpcodeId.invalid
    ∷ OpcodeId.invalid ∷ OpcodeId.syscall ∷ OpcodeId.break ∷ OpcodeId.invalid ∷ OpcodeId.sync
    ∷ OpcodeId.mfhi ∷ OpcodeId.mthi ∷ OpcodeId.mflo ∷ OpcodeId.mtlo ∷ OpcodeId.dsllv
    ∷ OpcodeId.invalid ∷ OpcodeId.dsrlv ∷ OpcodeId.dsrav ∷ OpcodeId.mult ∷ OpcodeId.multu
    ∷ OpcodeId.div ∷ OpcodeId.divu ∷ OpcodeId.dmult ∷ OpcodeId.dmultu ∷ OpcodeId.ddiv
    ∷ OpcodeId.ddivu ∷ OpcodeId.add ∷ OpcodeId.addu ∷ OpcodeId.sub ∷ OpcodeId.subu ∷ OpcodeId.and
    ∷ OpcodeId.or ∷ OpcodeId.xor ∷ OpcodeId.nor ∷ OpcodeId.invalid ∷ OpcodeId.invalid ∷ OpcodeId.slt
    ∷ OpcodeId.sltu ∷ OpcodeId.dadd ∷ OpcodeId.daddu ∷ OpcodeId.dsub ∷ OpcodeId.dsubu ∷ OpcodeId.tge
    ∷ OpcodeId.tgeu ∷ OpcodeId.tlt ∷ OpcodeId.tltu ∷ OpcodeId.teq ∷ OpcodeId.invalid ∷ OpcodeId.tne
    ∷ OpcodeId.invalid ∷ OpcodeId.dsll ∷ OpcodeId.invalid ∷ OpcodeId.dsrl ∷ OpcodeId.dsra
    ∷ OpcodeId.dsll32 ∷ OpcodeId.invalid ∷ OpcodeId.dsrl32 ∷ OpcodeId.dsra32 ∷ []

unfoldable pub regimm_table : List OpcodeId
regimm_table =
    OpcodeId.bltz ∷ OpcodeId.bgez ∷ OpcodeId.bltzl ∷ OpcodeId.bgezl ∷ OpcodeId.invalid
    ∷ OpcodeId.invalid ∷ OpcodeId.invalid ∷ OpcodeId.invalid ∷ OpcodeId.tgei ∷ OpcodeId.tgeiu
    ∷ OpcodeId.tlti ∷ OpcodeId.tltiu ∷ OpcodeId.teqi ∷ OpcodeId.invalid ∷ OpcodeId.tnei
    ∷ OpcodeId.invalid ∷ OpcodeId.bltzal ∷ OpcodeId.bgezal ∷ OpcodeId.bltzall ∷ OpcodeId.bgezall
    ∷ OpcodeId.invalid ∷ OpcodeId.invalid ∷ OpcodeId.invalid ∷ OpcodeId.invalid ∷ OpcodeId.invalid
    ∷ OpcodeId.invalid ∷ OpcodeId.invalid ∷ OpcodeId.invalid ∷ OpcodeId.invalid ∷ OpcodeId.invalid
    ∷ OpcodeId.invalid ∷ OpcodeId.invalid ∷ []

unfoldable pub cop0_table : List OpcodeId
cop0_table =
    OpcodeId.mfc0 ∷ OpcodeId.dmfc0 ∷ OpcodeId.cfc0 ∷ OpcodeId.invalid ∷ OpcodeId.mtc0
    ∷ OpcodeId.dmtc0 ∷ OpcodeId.ctc0 ∷ OpcodeId.invalid ∷ OpcodeId.bc0 ∷ OpcodeId.invalid
    ∷ OpcodeId.invalid ∷ OpcodeId.invalid ∷ OpcodeId.invalid ∷ OpcodeId.invalid ∷ OpcodeId.invalid
    ∷ OpcodeId.invalid ∷ []

unfoldable pub cop0_word_table : List OpcodeId
cop0_word_table =
    OpcodeId.invalid ∷ OpcodeId.tlbr ∷ OpcodeId.tlbwi ∷ OpcodeId.invalid ∷ OpcodeId.invalid
    ∷ OpcodeId.invalid ∷ OpcodeId.tlbwr ∷ OpcodeId.invalid ∷ OpcodeId.tlbp ∷ OpcodeId.invalid
    ∷ OpcodeId.invalid ∷ OpcodeId.invalid ∷ OpcodeId.invalid ∷ OpcodeId.invalid ∷ OpcodeId.invalid
    ∷ OpcodeId.invalid ∷ OpcodeId.invalid ∷ OpcodeId.invalid ∷ OpcodeId.invalid ∷ OpcodeId.invalid
    ∷ OpcodeId.invalid ∷ OpcodeId.invalid ∷ OpcodeId.invalid ∷ OpcodeId.invalid ∷ OpcodeId.eret
    ∷ OpcodeId.invalid ∷ OpcodeId.invalid ∷ OpcodeId.invalid ∷ OpcodeId.invalid ∷ OpcodeId.invalid
    ∷ OpcodeId.invalid ∷ OpcodeId.invalid ∷ OpcodeId.invalid ∷ OpcodeId.invalid ∷ OpcodeId.invalid
    ∷ OpcodeId.invalid ∷ OpcodeId.invalid ∷ OpcodeId.invalid ∷ OpcodeId.invalid ∷ OpcodeId.invalid
    ∷ OpcodeId.invalid ∷ OpcodeId.invalid ∷ OpcodeId.invalid ∷ OpcodeId.invalid ∷ OpcodeId.invalid
    ∷ OpcodeId.invalid ∷ OpcodeId.invalid ∷ OpcodeId.invalid ∷ OpcodeId.invalid ∷ OpcodeId.invalid
    ∷ OpcodeId.invalid ∷ OpcodeId.invalid ∷ OpcodeId.invalid ∷ OpcodeId.invalid ∷ OpcodeId.invalid
    ∷ OpcodeId.invalid ∷ OpcodeId.invalid ∷ OpcodeId.invalid ∷ OpcodeId.invalid ∷ OpcodeId.invalid
    ∷ OpcodeId.invalid ∷ OpcodeId.invalid ∷ OpcodeId.invalid ∷ OpcodeId.invalid ∷ []

unfoldable pub cop1_table : List OpcodeId
cop1_table =
    OpcodeId.mfc1 ∷ OpcodeId.dmfc1 ∷ OpcodeId.cfc1 ∷ OpcodeId.invalid ∷ OpcodeId.mtc1
    ∷ OpcodeId.dmtc1 ∷ OpcodeId.ctc1 ∷ OpcodeId.invalid ∷ OpcodeId.bc1 ∷ OpcodeId.invalid
    ∷ OpcodeId.invalid ∷ OpcodeId.invalid ∷ OpcodeId.invalid ∷ OpcodeId.invalid ∷ OpcodeId.invalid
    ∷ OpcodeId.invalid ∷ []

unfoldable pub cop1_word_table : List OpcodeId
cop1_word_table =
    OpcodeId.cp1_add ∷ OpcodeId.cp1_sub ∷ OpcodeId.cp1_mul ∷ OpcodeId.cp1_div ∷ OpcodeId.cp1_sqrt
    ∷ OpcodeId.cp1_abs ∷ OpcodeId.cp1_mov ∷ OpcodeId.cp1_neg ∷ OpcodeId.cp1_round_l
    ∷ OpcodeId.cp1_trunc_l ∷ OpcodeId.cp1_ceil_l ∷ OpcodeId.cp1_floor_l ∷ OpcodeId.cp1_round_w
    ∷ OpcodeId.cp1_trunc_w ∷ OpcodeId.cp1_ceil_w ∷ OpcodeId.cp1_floor_w ∷ OpcodeId.invalid
    ∷ OpcodeId.invalid ∷ OpcodeId.invalid ∷ OpcodeId.invalid ∷ OpcodeId.invalid ∷ OpcodeId.invalid
    ∷ OpcodeId.invalid ∷ OpcodeId.invalid ∷ OpcodeId.invalid ∷ OpcodeId.invalid ∷ OpcodeId.invalid
    ∷ OpcodeId.invalid ∷ OpcodeId.invalid ∷ OpcodeId.invalid ∷ OpcodeId.invalid ∷ OpcodeId.invalid
    ∷ OpcodeId.cp1_cvt_s ∷ OpcodeId.cp1_cvt_d ∷ OpcodeId.invalid ∷ OpcodeId.invalid
    ∷ OpcodeId.cp1_cvt_w ∷ OpcodeId.cp1_cvt_l ∷ OpcodeId.invalid ∷ OpcodeId.invalid
    ∷ OpcodeId.invalid ∷ OpcodeId.invalid ∷ OpcodeId.invalid ∷ OpcodeId.invalid ∷ OpcodeId.invalid
    ∷ OpcodeId.invalid ∷ OpcodeId.invalid ∷ OpcodeId.invalid ∷ OpcodeId.cp1_c_f ∷ OpcodeId.cp1_c_un
    ∷ OpcodeId.cp1_c_eq ∷ OpcodeId.cp1_c_ueq ∷ OpcodeId.cp1_c_olt ∷ OpcodeId.cp1_c_ult
    ∷ OpcodeId.cp1_c_ole ∷ OpcodeId.cp1_c_ule ∷ OpcodeId.cp1_c_sf ∷ OpcodeId.cp1_c_ngle
    ∷ OpcodeId.cp1_c_seq ∷ OpcodeId.cp1_c_ngl ∷ OpcodeId.cp1_c_lt ∷ OpcodeId.cp1_c_nge
    ∷ OpcodeId.cp1_c_le ∷ OpcodeId.cp1_c_ngt ∷ []

unfoldable pub cop2_table : List OpcodeId
cop2_table =
    OpcodeId.mfc2 ∷ OpcodeId.dmfc2 ∷ OpcodeId.cfc2 ∷ OpcodeId.invalid ∷ OpcodeId.mtc2
    ∷ OpcodeId.dmtc2 ∷ OpcodeId.ctc2 ∷ OpcodeId.invalid ∷ OpcodeId.bc2 ∷ OpcodeId.invalid
    ∷ OpcodeId.invalid ∷ OpcodeId.invalid ∷ OpcodeId.invalid ∷ OpcodeId.invalid ∷ OpcodeId.invalid
    ∷ OpcodeId.invalid ∷ OpcodeId.invalid ∷ OpcodeId.invalid ∷ OpcodeId.invalid ∷ OpcodeId.invalid
    ∷ OpcodeId.invalid ∷ OpcodeId.invalid ∷ OpcodeId.invalid ∷ OpcodeId.invalid ∷ OpcodeId.invalid
    ∷ OpcodeId.invalid ∷ OpcodeId.invalid ∷ OpcodeId.invalid ∷ OpcodeId.invalid ∷ OpcodeId.invalid
    ∷ OpcodeId.invalid ∷ OpcodeId.invalid ∷ []

unfoldable pub major_table : List OpcodeId
major_table =
    OpcodeId.invalid ∷ OpcodeId.invalid ∷ OpcodeId.j ∷ OpcodeId.jal ∷ OpcodeId.beq ∷ OpcodeId.bne
    ∷ OpcodeId.blez ∷ OpcodeId.bgtz ∷ OpcodeId.addi ∷ OpcodeId.addiu ∷ OpcodeId.slti
    ∷ OpcodeId.sltiu ∷ OpcodeId.andi ∷ OpcodeId.ori ∷ OpcodeId.xori ∷ OpcodeId.lui
    ∷ OpcodeId.invalid ∷ OpcodeId.invalid ∷ OpcodeId.invalid ∷ OpcodeId.invalid ∷ OpcodeId.beql
    ∷ OpcodeId.bnel ∷ OpcodeId.blezl ∷ OpcodeId.bgtzl ∷ OpcodeId.daddi ∷ OpcodeId.daddiu
    ∷ OpcodeId.ldl ∷ OpcodeId.ldr ∷ OpcodeId.invalid ∷ OpcodeId.invalid ∷ OpcodeId.invalid
    ∷ OpcodeId.invalid ∷ OpcodeId.lb ∷ OpcodeId.lh ∷ OpcodeId.lwl ∷ OpcodeId.lw ∷ OpcodeId.lbu
    ∷ OpcodeId.lhu ∷ OpcodeId.lwr ∷ OpcodeId.lwu ∷ OpcodeId.sb ∷ OpcodeId.sh ∷ OpcodeId.swl
    ∷ OpcodeId.sw ∷ OpcodeId.sdl ∷ OpcodeId.sdr ∷ OpcodeId.swr ∷ OpcodeId.cache ∷ OpcodeId.ll
    ∷ OpcodeId.lwc1 ∷ OpcodeId.lwc2 ∷ OpcodeId.invalid ∷ OpcodeId.lld ∷ OpcodeId.ldc1
    ∷ OpcodeId.ldc2 ∷ OpcodeId.ld ∷ OpcodeId.sc ∷ OpcodeId.swc1 ∷ OpcodeId.swc2 ∷ OpcodeId.invalid
    ∷ OpcodeId.scd ∷ OpcodeId.sdc1 ∷ OpcodeId.sdc2 ∷ OpcodeId.sd ∷ []

-- `vr4300_opcode_table`
unfoldable pub opcode_table : List OpcodeId
opcode_table =
    special_table
    ++ (regimm_table
        ++ (cop0_table
            ++ (cop0_word_table
                ++ (cop1_table ++ (cop1_word_table ++ (cop2_table ++ major_table))))))

-- `struct vr4300_opcode_escape`
pub record OpcodeEscape : Type 0 where
  pub offset : ℕ
  pub shift : ℕ
  pub mask : ℕ

abbrev escape : (offset shift mask : ℕ) → OpcodeEscape
escape offset shift mask = record { offset = offset; shift = shift; mask = mask }

-- `vr4300_escape_table`
unfoldable pub escape_table : ℕ → OpcodeEscape
escape_table i =
    if i == 0
    then escape 0 0 0x3F
    else if i == 1
    then escape 0 0 0x3F
    else if i == 2
    then escape 64 16 0x1F
    else if i == 3
    then escape 64 16 0x1F
    else if i == 32
    then escape 96 21 0x0F
    else if i == 33
    then escape 112 0 0x3F
    else if i == 34
    then escape 176 21 0x0F
    else if i == 35
    then escape 192 0 0x3F
    else if i == 36
    then escape 256 21 0x1F
    else if i == 37
    then escape 256 21 0x1F
    else escape 288 26 0x3F
