-- ===== src/Vr4300/Decoder/Opcodes.antt =====
-- vr4300/opcodes.md and vr4300/opcodes_priv.h: the instructions, and for each the opcode that the
-- decoder has for it.
use cmips_cen.Base.{ℕ, ◌+◌, ◌^◌}

-- `enum vr4300_opcode_id`
pub data OpcodeId : Type 0 where
  invalid add addi addiu addu and andi bc0 : OpcodeId
  bc1 bc2 beq beql bgez bgezal bgezall bgezl : OpcodeId
  bgtz bgtzl blez blezl bltz bltzal bltzall bltzl : OpcodeId
  bne bnel break cache cfc0 cfc1 cfc2 cp1_abs : OpcodeId
  cp1_add cp1_c_eq cp1_c_f cp1_c_le cp1_c_lt cp1_c_nge cp1_c_ngl cp1_c_ngle : OpcodeId
  cp1_c_ngt cp1_c_ole cp1_c_olt cp1_c_ueq cp1_c_ule cp1_c_ult cp1_c_un cp1_c_seq : OpcodeId
  cp1_c_sf cp1_ceil_l cp1_ceil_w cp1_cvt_d cp1_cvt_l cp1_cvt_s cp1_cvt_w cp1_div : OpcodeId
  cp1_floor_l cp1_floor_w cp1_mov cp1_mul cp1_neg cp1_round_l cp1_round_w cp1_sqrt : OpcodeId
  cp1_sub cp1_trunc_l cp1_trunc_w ctc0 ctc1 ctc2 dadd daddi : OpcodeId
  daddiu daddu ddiv ddivu div divu dmfc0 dmfc1 : OpcodeId
  dmfc2 dmtc0 dmtc1 dmtc2 dmult dmultu dsll dsllv : OpcodeId
  dsll32 dsra dsrav dsra32 dsrl dsrlv dsrl32 dsub : OpcodeId
  dsubu eret j jal jalr jr lb lbu : OpcodeId
  ld ldc0 ldc1 ldc2 ldl ldr lh lhu : OpcodeId
  ll lld lui lw lwc0 lwc1 lwc2 lwl : OpcodeId
  lwr lwu mfc0 mfc1 mfc2 mfhi mflo mtc0 : OpcodeId
  mtc1 mtc2 mthi mtlo mult multu nor or : OpcodeId
  ori sb sc scd sd sdc0 sdc1 sdc2 : OpcodeId
  sdl sdr sh sll sllv slt slti sltiu : OpcodeId
  sltu sra srav srl srlv sub subu sw : OpcodeId
  swc0 swc1 swc2 swl swr sync syscall teq : OpcodeId
  teqi tge tgei tgeiu tgeu tlbp tlbr tlbwi : OpcodeId
  tlbwr tlt tlti tltiu tltu tne tnei xor : OpcodeId
  xori : OpcodeId

-- `struct vr4300_opcode`
pub record Opcode : Type 0 where
  pub id : OpcodeId
  pub flags : ℕ

-- The bits of `flags` in vr4300/decoder.h
abbrev pub info_none : ℕ
info_none = 0

abbrev pub info_fpu : ℕ
info_fpu = 2 ^ 2

abbrev pub info_branch : ℕ
info_branch = 2 ^ 31

abbrev pub info_needrs : ℕ
info_needrs = 2 ^ 3

abbrev pub info_needfs : ℕ
info_needfs = 2 ^ 3 + 2 ^ 0

abbrev pub info_needrt : ℕ
info_needrt = 2 ^ 4

abbrev pub info_needft : ℕ
info_needft = 2 ^ 4 + 2 ^ 1

abbrev pub info_load : ℕ
info_load = 2 ^ 5

abbrev pub info_store : ℕ
info_store = 2 ^ 6

abbrev op : OpcodeId → ℕ → Opcode
op id flags = record { id = id; flags = flags }

-- What the macro of each name gives the decoder, its flags joined
abbrev pub opcode_of : OpcodeId → Opcode
opcode_of invalid = op invalid info_none
opcode_of add = op add (info_needrs + info_needrt)
opcode_of addi = op addi (info_needrs)
opcode_of addiu = op addiu (info_needrs)
opcode_of addu = op addu (info_needrs + info_needrt)
opcode_of and = op and (info_needrs + info_needrt)
opcode_of andi = op andi (info_needrs)
opcode_of bc0 = op bc0 (info_branch)
opcode_of bc1 = op bc1 (info_fpu + info_branch)
opcode_of bc2 = op bc1 (info_branch)
opcode_of beq = op beq (info_branch + info_needrs + info_needrt)
opcode_of beql = op beql (info_branch + info_needrs + info_needrt)
opcode_of bgez = op bgez (info_branch + info_needrs)
opcode_of bgezal = op bgezal (info_branch + info_needrs)
opcode_of bgezall = op bgezall (info_branch + info_needrs)
opcode_of bgezl = op bgezl (info_branch + info_needrs)
opcode_of bgtz = op bgtz (info_branch + info_needrs)
opcode_of bgtzl = op bgtzl (info_branch + info_needrs)
opcode_of blez = op blez (info_branch + info_needrs)
opcode_of blezl = op blezl (info_branch + info_needrs)
opcode_of bltz = op bltz (info_branch + info_needrs)
opcode_of bltzal = op bltzal (info_branch + info_needrs)
opcode_of bltzall = op bltzall (info_branch + info_needrs)
opcode_of bltzl = op bltzl (info_branch + info_needrs)
opcode_of bne = op bne (info_branch + info_needrs + info_needrt)
opcode_of bnel = op bnel (info_branch + info_needrs + info_needrt)
opcode_of break = op break info_none
opcode_of cache = op cache (info_needrs)
opcode_of cfc0 = op cfc0 info_none
opcode_of cfc1 = op cfc1 (info_fpu)
opcode_of cfc2 = op cfc2 info_none
opcode_of cp1_abs = op cp1_abs (info_fpu + info_needfs)
opcode_of cp1_add = op cp1_add (info_fpu + info_needfs + info_needft)
opcode_of cp1_c_eq = op cp1_c_eq (info_fpu + info_needfs + info_needft)
opcode_of cp1_c_f = op cp1_c_f (info_fpu + info_needfs + info_needft)
opcode_of cp1_c_le = op cp1_c_le (info_fpu + info_needfs + info_needft)
opcode_of cp1_c_lt = op cp1_c_lt (info_fpu + info_needfs + info_needft)
opcode_of cp1_c_nge = op cp1_c_nge (info_fpu + info_needfs + info_needft)
opcode_of cp1_c_ngl = op cp1_c_ngl (info_fpu + info_needfs + info_needft)
opcode_of cp1_c_ngle = op cp1_c_ngle (info_fpu + info_needfs + info_needft)
opcode_of cp1_c_ngt = op cp1_c_ngt (info_fpu + info_needfs + info_needft)
opcode_of cp1_c_ole = op cp1_c_ole (info_fpu + info_needfs + info_needft)
opcode_of cp1_c_olt = op cp1_c_olt (info_fpu + info_needfs + info_needft)
opcode_of cp1_c_ueq = op cp1_c_ueq (info_fpu + info_needfs + info_needft)
opcode_of cp1_c_ule = op cp1_c_ule (info_fpu + info_needfs + info_needft)
opcode_of cp1_c_ult = op cp1_c_ult (info_fpu + info_needfs + info_needft)
opcode_of cp1_c_un = op cp1_c_un (info_fpu + info_needfs + info_needft)
opcode_of cp1_c_seq = op cp1_c_seq (info_fpu + info_needfs + info_needft)
opcode_of cp1_c_sf = op cp1_c_sf (info_fpu + info_needfs + info_needft)
opcode_of cp1_ceil_l = op cp1_ceil_l (info_fpu + info_needfs)
opcode_of cp1_ceil_w = op cp1_ceil_w (info_fpu + info_needfs)
opcode_of cp1_cvt_d = op cp1_cvt_d (info_fpu + info_needfs)
opcode_of cp1_cvt_l = op cp1_cvt_l (info_fpu + info_needfs)
opcode_of cp1_cvt_s = op cp1_cvt_s (info_fpu + info_needfs)
opcode_of cp1_cvt_w = op cp1_cvt_w (info_fpu + info_needfs)
opcode_of cp1_div = op cp1_div (info_fpu + info_needfs + info_needft)
opcode_of cp1_floor_l = op cp1_floor_l (info_fpu + info_needfs)
opcode_of cp1_floor_w = op cp1_floor_w (info_fpu + info_needfs)
opcode_of cp1_mov = op cp1_mov (info_fpu + info_needfs)
opcode_of cp1_mul = op cp1_mul (info_fpu + info_needfs + info_needft)
opcode_of cp1_neg = op cp1_neg (info_fpu + info_needfs)
opcode_of cp1_round_l = op cp1_round_l (info_fpu + info_needfs)
opcode_of cp1_round_w = op cp1_round_w (info_fpu + info_needfs)
opcode_of cp1_sqrt = op cp1_sqrt (info_fpu + info_needfs)
opcode_of cp1_sub = op cp1_sub (info_fpu + info_needfs + info_needft)
opcode_of cp1_trunc_l = op cp1_trunc_l (info_fpu + info_needfs)
opcode_of cp1_trunc_w = op cp1_trunc_w (info_fpu + info_needfs)
opcode_of ctc0 = op ctc0 info_none
opcode_of ctc1 = op ctc1 (info_fpu)
opcode_of ctc2 = op ctc2 info_none
opcode_of dadd = op dadd (info_needrs + info_needrt)
opcode_of daddi = op daddi (info_needrs)
opcode_of daddiu = op daddiu (info_needrs)
opcode_of daddu = op daddu (info_needrs + info_needrt)
opcode_of ddiv = op ddiv (info_needrs + info_needrt)
opcode_of ddivu = op ddivu (info_needrs + info_needrt)
opcode_of div = op div (info_needrs + info_needrt)
opcode_of divu = op divu (info_needrs + info_needrt)
opcode_of dmfc0 = op dmfc0 info_none
opcode_of dmfc1 = op dmfc1 (info_fpu + info_needfs)
opcode_of dmfc2 = op dmfc2 info_none
opcode_of dmtc0 = op dmtc0 (info_needrt)
opcode_of dmtc1 = op dmtc1 (info_fpu + info_needrt)
opcode_of dmtc2 = op dmtc2 info_none
opcode_of dmult = op dmult (info_needrs + info_needrt)
opcode_of dmultu = op dmultu (info_needrs + info_needrt)
opcode_of dsll = op dsll (info_needrt)
opcode_of dsllv = op dsllv (info_needrs + info_needrt)
opcode_of dsll32 = op dsll32 (info_needrt)
opcode_of dsra = op dsra (info_needrt)
opcode_of dsrav = op dsrav (info_needrs + info_needrt)
opcode_of dsra32 = op dsra32 (info_needrt)
opcode_of dsrl = op dsrl (info_needrt)
opcode_of dsrlv = op dsrlv (info_needrs + info_needrt)
opcode_of dsrl32 = op dsrl32 (info_needrt)
opcode_of dsub = op dsub (info_needrs + info_needrt)
opcode_of dsubu = op dsubu (info_needrs + info_needrt)
opcode_of eret = op eret info_none
opcode_of j = op j (info_branch)
opcode_of jal = op jal (info_branch)
opcode_of jalr = op jalr (info_branch + info_needrs)
opcode_of jr = op jr (info_branch + info_needrs)
opcode_of lb = op lb (info_needrs + info_load)
opcode_of lbu = op lbu (info_needrs + info_load)
opcode_of ld = op ld (info_needrs + info_load)
opcode_of ldc0 = op ldc0 (info_load)
opcode_of ldc1 = op ldc1 (info_fpu + info_needrs + info_load)
opcode_of ldc2 = op ldc2 info_none
opcode_of ldl = op ldl (info_needrs + info_needrt + info_load)
opcode_of ldr = op ldr (info_needrs + info_needrt + info_load)
opcode_of lh = op lh (info_needrs + info_load)
opcode_of lhu = op lhu (info_needrs + info_load)
opcode_of ll = op ll (info_needrs + info_load)
opcode_of lld = op lld info_none
opcode_of lui = op lui info_none
opcode_of lw = op lw (info_needrs + info_load)
opcode_of lwc0 = op lwc0 (info_load)
opcode_of lwc1 = op lwc1 (info_fpu + info_needrs + info_needft + info_load)
opcode_of lwc2 = op lwc2 info_none
opcode_of lwl = op lwl (info_needrs + info_needrt + info_load)
opcode_of lwr = op lwr (info_needrs + info_needrt + info_load)
opcode_of lwu = op lwu (info_needrs + info_load)
opcode_of mfc0 = op mfc0 info_none
opcode_of mfc1 = op mfc1 (info_fpu + info_needfs)
opcode_of mfc2 = op mfc2 info_none
opcode_of mfhi = op mfhi info_none
opcode_of mflo = op mflo info_none
opcode_of mtc0 = op mtc0 (info_needrt)
opcode_of mtc1 = op mtc1 (info_fpu + info_needfs + info_needrt)
opcode_of mtc2 = op mtc2 info_none
opcode_of mthi = op mthi (info_needrs)
opcode_of mtlo = op mtlo (info_needrs)
opcode_of mult = op mult (info_needrs + info_needrt)
opcode_of multu = op multu (info_needrs + info_needrt)
opcode_of nor = op nor (info_needrs + info_needrt)
opcode_of or = op or (info_needrs + info_needrt)
opcode_of ori = op ori (info_needrs)
opcode_of sb = op sb (info_needrs + info_needrt + info_store)
opcode_of sc = op sc (info_needrs + info_needrt + info_store)
opcode_of scd = op scd info_none
opcode_of sd = op sd (info_needrs + info_needrt + info_store)
opcode_of sdc0 = op sdc0 (info_store)
opcode_of sdc1 = op sdc1 (info_fpu + info_needrs + info_needft + info_store)
opcode_of sdc2 = op sdc2 info_none
opcode_of sdl = op sdl (info_needrs + info_needrt + info_store)
opcode_of sdr = op sdr (info_needrs + info_needrt + info_store)
opcode_of sh = op sh (info_needrs + info_needrt + info_store)
opcode_of sll = op sll (info_needrt)
opcode_of sllv = op sllv (info_needrs + info_needrt)
opcode_of slt = op slt (info_needrs + info_needrt)
opcode_of slti = op slti (info_needrs)
opcode_of sltiu = op sltiu (info_needrs)
opcode_of sltu = op sltu (info_needrs + info_needrt)
opcode_of sra = op sra (info_needrt)
opcode_of srav = op srav (info_needrs + info_needrt)
opcode_of srl = op srl (info_needrt)
opcode_of srlv = op srlv (info_needrs + info_needrt)
opcode_of sub = op sub (info_needrs + info_needrt)
opcode_of subu = op subu (info_needrs)
opcode_of sw = op sw (info_needrs + info_needrt + info_store)
opcode_of swc0 = op swc0 (info_store)
opcode_of swc1 = op swc1 (info_fpu + info_needrs + info_needft + info_store)
opcode_of swc2 = op swc2 info_none
opcode_of swl = op swl (info_needrs + info_needrt + info_store)
opcode_of swr = op swr (info_needrs + info_needrt + info_store)
opcode_of sync = op sync info_none
opcode_of syscall = op syscall info_none
opcode_of teq = op teq info_none
opcode_of teqi = op teqi info_none
opcode_of tge = op tge info_none
opcode_of tgei = op tgei info_none
opcode_of tgeiu = op tgeiu info_none
opcode_of tgeu = op tgeu info_none
opcode_of tlbp = op tlbp info_none
opcode_of tlbr = op tlbr info_none
opcode_of tlbwi = op tlbwi info_none
opcode_of tlbwr = op tlbwr info_none
opcode_of tlt = op tlt info_none
opcode_of tlti = op tlti info_none
opcode_of tltiu = op tltiu info_none
opcode_of tltu = op tltu info_none
opcode_of tne = op tne (info_needrs + info_needrt)
opcode_of tnei = op tnei info_none
opcode_of xor = op xor (info_needrs + info_needrt)
opcode_of xori = op xori (info_needrs)
