-- ===== src/Emu/Regs.antt =====
-- src/emu.c: the fields of an instruction word, and the registers that they name.
use cmips_cen.Base.{ℕ, ◌%◌, ◌^◌, field, update}
use cmips_cen.Machine.{Mips}

abbrev pub rs_of : ℕ → ℕ
rs_of op = field 21 5 op

abbrev pub rt_of : ℕ → ℕ
rt_of op = field 16 5 op

abbrev pub rd_of : ℕ → ℕ
rd_of op = field 11 5 op

-- `getImm`
abbrev pub get_imm : ℕ → ℕ
get_imm op = op % 2 ^ 16

-- `getShamt`
abbrev pub get_shamt : ℕ → ℕ
get_shamt op = field 6 5 op

abbrev pub set_reg : ℕ → ℕ → Mips → Mips
set_reg i val m = record m { regs = update m.regs i val }

-- `setRt`
unfoldable pub set_rt : ℕ → ℕ → Mips → Mips
set_rt op val m = set_reg (rt_of op) val m

-- `setRd`
unfoldable pub set_rd : ℕ → ℕ → Mips → Mips
set_rd op val m = set_reg (rd_of op) val m

-- `getRs`
abbrev pub get_rs : ℕ → Mips → ℕ
get_rs op m = m.regs (rs_of op)

-- `getRt`
abbrev pub get_rt : ℕ → Mips → ℕ
get_rt op m = m.regs (rt_of op)
