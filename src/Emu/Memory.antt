-- ===== src/Emu/Memory.antt =====
-- src/emu.c: loads and stores. One whose access raises an exception stops there.
pub mod Pairs
pub mod Unaligned
use cmips_cen.Base.{ℕ, ◌+◌, ◌*◌, ◌/◌, ◌%◌, ◌^◌, not, ◌==◌, if◌then◌else◌, u8, u32, sext8, sext16}
use cmips_cen.Machine.{Mips, ok, M, pure, ◌>>=◌, ◌>>◌, modify, gets}
use cmips_cen.Emu.Regs.{set_rt, get_rs, get_rt, get_imm}
use cmips_cen.Emu.Access.{read_virt_word, write_virt_word, read_virt_byte, write_virt_byte}

-- `(int32_t) getRs(emu,op) + (int16_t) getImm(op)`
unfoldable pub address : ℕ → Mips → ℕ
address op m = u32 (get_rs op m + sext16 (get_imm op))

-- `if (emu->exceptionOccured) return;` before the rest `k`
abbrev pub unless_exception : M (Unit {0}) → M (Unit {0})
unless_exception k m = if m.exception_occured then ok tt m else k m

-- `addr & (~3)`
abbrev pub align_word : ℕ → ℕ
align_word addr = addr / 4 * 4

unfoldable pub op_lw : ℕ → M (Unit {0})
op_lw op = do
  addr ← gets (address op)
  v ← read_virt_word addr
  unless_exception (modify (set_rt op v))

unfoldable pub op_sw : ℕ → M (Unit {0})
op_sw op = do addr ← gets (address op); v ← gets (get_rt op); write_virt_word addr v

-- `(int32_t)(int8_t) v`
unfoldable pub op_lb : ℕ → M (Unit {0})
op_lb op = do
  addr ← gets (address op)
  v ← read_virt_byte addr
  unless_exception (modify (set_rt op (sext8 v)))

unfoldable pub op_lbu : ℕ → M (Unit {0})
op_lbu op = do
  addr ← gets (address op)
  v ← read_virt_byte addr
  unless_exception (modify (set_rt op v))

unfoldable pub op_sb : ℕ → M (Unit {0})
op_sb op = do addr ← gets (address op); v ← gets (get_rt op); write_virt_byte addr (u8 v)

-- `op_lh` and `op_lhu` read the low byte first, and differ in the extension of the result.
unfoldable pub load_half : (ℕ → ℕ) → ℕ → M (Unit {0})
load_half extend op = do
  addr ← gets (address op)
  vlo ← read_virt_byte (u32 (addr + 1))
  unless_exception do
    vhi ← read_virt_byte addr
    unless_exception (modify (set_rt op (extend (vhi * 2 ^ 8 + vlo))))

unfoldable pub op_lh : ℕ → M (Unit {0})
op_lh = load_half sext16

unfoldable pub op_lhu : ℕ → M (Unit {0})
op_lhu = load_half (λ v. v)

unfoldable pub op_sh : ℕ → M (Unit {0})
op_sh op = do
  addr ← gets (address op)
  v ← gets (get_rt op)
  write_virt_byte addr (v / 2 ^ 8 % 2 ^ 8)
  unless_exception (write_virt_byte (u32 (addr + 1)) (u8 v))

-- The four merges of a word of memory with a register, by the offset in the word
unfoldable pub swl_merge : (offset word rt : ℕ) → ℕ
swl_merge offset word rt =
    if offset == 0
    then rt
    else if offset == 1
    then word / 2 ^ 24 * 2 ^ 24 + rt / 2 ^ 8 % 2 ^ 24
    else if offset == 2
    then word / 2 ^ 16 * 2 ^ 16 + rt / 2 ^ 16 % 2 ^ 16
    else word / 2 ^ 8 * 2 ^ 8 + rt / 2 ^ 24 % 2 ^ 8

unfoldable pub swr_merge : (offset word rt : ℕ) → ℕ
swr_merge offset word rt =
    if offset == 3
    then rt
    else if offset == 2
    then u32 (rt * 2 ^ 8) + word % 2 ^ 8
    else if offset == 1
    then u32 (rt * 2 ^ 16) + word % 2 ^ 16
    else u32 (rt * 2 ^ 24) + word % 2 ^ 24

unfoldable pub lwl_merge : (offset word rt : ℕ) → ℕ
lwl_merge offset word rt =
    if offset == 0
    then word
    else if offset == 1
    then u32 (word * 2 ^ 8) + rt % 2 ^ 8
    else if offset == 2
    then u32 (word * 2 ^ 16) + rt % 2 ^ 16
    else u32 (word * 2 ^ 24) + rt % 2 ^ 24

unfoldable pub lwr_merge : (offset word rt : ℕ) → ℕ
lwr_merge offset word rt =
    if offset == 3
    then word
    else if offset == 2
    then rt / 2 ^ 24 * 2 ^ 24 + word / 2 ^ 8
    else if offset == 1
    then rt / 2 ^ 16 * 2 ^ 16 + word / 2 ^ 16
    else rt / 2 ^ 8 * 2 ^ 8 + word / 2 ^ 24

-- `op_lwl` and `op_lwr` after the choice of the merge
unfoldable pub load_part : (ℕ → ℕ → ℕ → ℕ) → ℕ → M (Unit {0})
load_part merge op = do
  addr ← gets (address op)
  rt_val ← gets (get_rt op)
  word_val ← read_virt_word (align_word addr)
  unless_exception (modify (set_rt op (merge (addr % 4) word_val rt_val)))

-- `op_swl` and `op_swr`
unfoldable pub store_part : (ℕ → ℕ → ℕ → ℕ) → ℕ → M (Unit {0})
store_part merge op = do
  addr ← gets (address op)
  rt_val ← gets (get_rt op)
  word_val ← read_virt_word (align_word addr)
  unless_exception (write_virt_word (align_word addr) (merge (addr % 4) word_val rt_val))

unfoldable pub op_swl : ℕ → M (Unit {0})
op_swl = store_part swl_merge

unfoldable pub op_swr : ℕ → M (Unit {0})
op_swr = store_part swr_merge

unfoldable pub op_lwl : ℕ → M (Unit {0})
op_lwl = load_part lwl_merge

unfoldable pub op_lwr : ℕ → M (Unit {0})
op_lwr = load_part lwr_merge

unfoldable pub op_ll : ℕ → M (Unit {0})
op_ll op = do
  addr ← gets (address op)
  v ← read_virt_word addr
  unless_exception (modify (λ m. set_rt op v (record m { llbit = 1 })))

-- The register is set whether or not the store went through, and `llbit` is kept.
unfoldable pub op_sc : ℕ → M (Unit {0})
op_sc op = do
  addr ← gets (address op)
  v ← gets (get_rt op)
  set ← gets (λ m. not (m.llbit == 0))
  if set then write_virt_word addr v else pure tt
  modify (λ m. set_rt op m.llbit m)
