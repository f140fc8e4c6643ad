-- ===== src/Emu/Exc.antt =====
-- src/emu.c, EXC_…: values of the exception code field of the Cause register.
use cmips_cen.Base.{ℕ}

abbrev pub int : ℕ
int = 0

abbrev pub modified : ℕ
modified = 1

abbrev pub tlbl : ℕ
tlbl = 2

abbrev pub tlbs : ℕ
tlbs = 3

abbrev pub dbe : ℕ
dbe = 7

abbrev pub sys : ℕ
sys = 8

abbrev pub ri : ℕ
ri = 10
