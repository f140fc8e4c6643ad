-- ===== src/Emu/Alu.antt =====
-- src/emu.c: arithmetic, logic, shifts, moves, multiplication and division. Signed sums and
-- products are taken to wrap, as the compiler of the Makefile makes them.
pub mod Division
use cmips_cen.Base.{
  ℕ, ◌+◌, ◌-◌, ◌*◌, ◌/◌, ◌%◌, ◌^◌, Bool, ◌==◌, ltb, if◌then◌else◌, ◌&&◌, not, u32, u64, sub32,
  sext16, sext32_64, lt_s32, bit_and, bit_or, bit_xor,
}
use cmips_cen.Machine.{Mips, ok, fault, M}
use cmips_cen.Emu.Regs.{set_rt, set_rd, get_rs, get_rt, get_imm, get_shamt}

-- Immediate operands
unfoldable pub op_addiu : ℕ → Mips → Mips
op_addiu op m = set_rt op (u32 (get_rs op m + sext16 (get_imm op))) m

-- `addi` raises no overflow exception.
unfoldable pub op_addi : ℕ → Mips → Mips
op_addi op m = set_rt op (u32 (get_rs op m + sext16 (get_imm op))) m

unfoldable pub op_slti : ℕ → Mips → Mips
op_slti op m = set_rt op (if lt_s32 (get_rs op m) (sext16 (get_imm op)) then 1 else 0) m

unfoldable pub op_sltiu : ℕ → Mips → Mips
op_sltiu op m = set_rt op (if ltb (get_rs op m) (sext16 (get_imm op)) then 1 else 0) m

unfoldable pub op_andi : ℕ → Mips → Mips
op_andi op m = set_rt op (bit_and (get_rs op m) (get_imm op)) m

unfoldable pub op_ori : ℕ → Mips → Mips
op_ori op m = set_rt op (bit_or (get_rs op m) (get_imm op)) m

unfoldable pub op_xori : ℕ → Mips → Mips
op_xori op m = set_rt op (bit_xor (get_rs op m) (get_imm op)) m

unfoldable pub op_lui : ℕ → Mips → Mips
op_lui op m = set_rt op (get_imm op * 2 ^ 16) m

-- Register operands
unfoldable pub op_sltu : ℕ → Mips → Mips
op_sltu op m = set_rd op (if ltb (get_rs op m) (get_rt op m) then 1 else 0) m

unfoldable pub op_slt : ℕ → Mips → Mips
op_slt op m = set_rd op (if lt_s32 (get_rs op m) (get_rt op m) then 1 else 0) m

-- `~x` is 2 ^ 32 - 1 - x.
unfoldable pub op_nor : ℕ → Mips → Mips
op_nor op m = set_rd op (2 ^ 32 - 1 - bit_or (get_rs op m) (get_rt op m)) m

unfoldable pub op_xor : ℕ → Mips → Mips
op_xor op m = set_rd op (bit_xor (get_rs op m) (get_rt op m)) m

unfoldable pub op_or : ℕ → Mips → Mips
op_or op m = set_rd op (bit_or (get_rs op m) (get_rt op m)) m

unfoldable pub op_and : ℕ → Mips → Mips
op_and op m = set_rd op (bit_and (get_rs op m) (get_rt op m)) m

unfoldable pub op_subu : ℕ → Mips → Mips
op_subu op m = set_rd op (sub32 (get_rs op m) (get_rt op m)) m

unfoldable pub op_sub : ℕ → Mips → Mips
op_sub op m = set_rd op (sub32 (get_rs op m) (get_rt op m)) m

unfoldable pub op_addu : ℕ → Mips → Mips
op_addu op m = set_rd op (u32 (get_rs op m + get_rt op m)) m

unfoldable pub op_add : ℕ → Mips → Mips
op_add op m = set_rd op (u32 (get_rs op m + get_rt op m)) m

-- Division; a division by 0 changes nothing.
unfoldable pub op_divu : ℕ → Mips → Mips
op_divu op m =
    let rs = get_rs op m in
    let rt = get_rt op m in if rt == 0 then m else record m { lo = rs / rt; hi = rs % rt }

abbrev pub is_neg32 : ℕ → Bool
is_neg32 x = not (ltb x (2 ^ 31))

abbrev pub abs32 : ℕ → ℕ
abs32 x = if is_neg32 x then 2 ^ 32 - x else x

abbrev pub neg32 : ℕ → ℕ
neg32 x = sub32 0 x

-- `rs / rt` and `rs % rt` of C on int32_t round towards 0.
unfoldable pub quot32 : ℕ → ℕ → ℕ
quot32 rs rt =
    let q = abs32 rs / abs32 rt in
    if is_neg32 rs then (if is_neg32 rt then q else neg32 q) else if is_neg32 rt then neg32 q else q

unfoldable pub rem32 : ℕ → ℕ → ℕ
rem32 rs rt = let r = abs32 rs % abs32 rt in if is_neg32 rs then neg32 r else r

-- INT32_MIN / -1 overflows, which C leaves undefined (the processor of the host traps).
unfoldable pub op_div : ℕ → M (Unit {0})
op_div op m =
    let rs = get_rs op m in
    let rt = get_rt op m in
    if rt == 0
    then ok tt m
    else if rs == 2 ^ 31 && rt == 2 ^ 32 - 1
    then fault
    else ok tt (record m { lo = quot32 rs rt; hi = rem32 rs rt })

-- Multiplication
unfoldable pub op_multu : ℕ → Mips → Mips
op_multu op m =
    let result = u64 (get_rs op m * get_rt op m) in
    record m { hi = result / 2 ^ 32; lo = result % 2 ^ 32 }

-- The product of the sign extensions, as a 64-bit pattern
unfoldable pub op_mult : ℕ → Mips → Mips
op_mult op m =
    let result = u64 (sext32_64 (get_rs op m) * sext32_64 (get_rt op m)) in
    record m { hi = result / 2 ^ 32; lo = result % 2 ^ 32 }

unfoldable pub op_mul : ℕ → Mips → Mips
op_mul op m = set_rd op (u32 (get_rs op m * get_rt op m)) m

-- Moves
unfoldable pub op_movz : ℕ → Mips → Mips
op_movz op m = if get_rt op m == 0 then set_rd op (get_rs op m) m else m

unfoldable pub op_movn : ℕ → Mips → Mips
op_movn op m = if not (get_rt op m == 0) then set_rd op (get_rs op m) m else m

unfoldable pub op_mflo : ℕ → Mips → Mips
op_mflo op m = set_rd op m.lo m

unfoldable pub op_mfhi : ℕ → Mips → Mips
op_mfhi op m = set_rd op m.hi m

unfoldable pub op_mtlo : ℕ → Mips → Mips
op_mtlo op m = record m { lo = get_rs op m }

unfoldable pub op_mthi : ℕ → Mips → Mips
op_mthi op m = record m { hi = get_rs op m }

-- Shifts; `sra32` is `>>` on int32_t.
unfoldable pub sra32 : ℕ → ℕ → ℕ
sra32 x k = if ltb x (2 ^ 31) then x / 2 ^ k else 2 ^ 32 - 1 - (2 ^ 32 - 1 - x) / 2 ^ k

unfoldable pub op_srav : ℕ → Mips → Mips
op_srav op m = set_rd op (sra32 (get_rt op m) (get_rs op m % 2 ^ 5)) m

unfoldable pub op_srlv : ℕ → Mips → Mips
op_srlv op m = set_rd op (get_rt op m / 2 ^ (get_rs op m % 2 ^ 5)) m

unfoldable pub op_sllv : ℕ → Mips → Mips
op_sllv op m = set_rd op (u32 (get_rt op m * 2 ^ (get_rs op m % 2 ^ 5))) m

unfoldable pub op_sra : ℕ → Mips → Mips
op_sra op m = set_rd op (sra32 (get_rt op m) (get_shamt op)) m

unfoldable pub op_srl : ℕ → Mips → Mips
op_srl op m = set_rd op (get_rt op m / 2 ^ get_shamt op) m

unfoldable pub op_sll : ℕ → Mips → Mips
op_sll op m = set_rd op (u32 (get_rt op m * 2 ^ get_shamt op)) m
