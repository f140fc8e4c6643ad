-- ===== src/Tests/Words.antt =====
-- Loads, stores and arithmetic on the small machine
use cmips_cen.Base.{◌⊎◌, ℕ, ◌<◌, ◌≡◌, refl, arith, ◌==◌, if◌then◌else◌}
use cmips_cen.Machine.{Mips, ok, ◌>>◌}
use cmips_cen.Emu.Access.{read_virt_byte, write_virt_byte}
use cmips_cen.Emu.Access.Ram.{InRam, kseg0, byte_at, read_virt_byte-write_virt_byte}
use cmips_cen.Emu.Alu.{quot32, rem32, op_div}
use cmips_cen.Emu.Alu.Division.{DivResult, op_div_truncates}
use cmips_cen.Emu.Memory.{address, op_lwl, op_lwr, op_swl, op_swr}
use cmips_cen.Emu.Memory.Pairs.{IsPair, op_lwr-op_lwl, op_swr-op_swl}
use cmips_cen.Emu.Memory.Unaligned.{be_word}
use cmips_cen.Emu.Regs.{set_rt}
use cmips_cen.Tests.{machine}

in_ram : (p : ℕ) → p < 256 → InRam machine p
in_ram p h = record {
  in_memory = h;
  in_kseg0 = omega arith;
  no_uart = ground arith;
  no_power = ground arith;
}

read_virt_byte-write_virt_byte_example :
    (m' : Mips) × (write_virt_byte (kseg0 6) 0xab machine ≡ ok tt m')
    × (read_virt_byte (kseg0 6) m' ≡ ok 0xab m')
    × (read_virt_byte (kseg0 5) m' ≡ ok (byte_at machine 5) m')
read_virt_byte-write_virt_byte_example =
    read_virt_byte-write_virt_byte machine 6 5 0xab (in_ram 6 (omega arith))
      (in_ram 5 (omega arith)) (omega arith) (omega arith)

-- Register 1 holds the start of the memory; `lwl r2, 2(r1)` and `lwr r2, 5(r1)`.
abbrev based : Mips
based = record machine {
  regs = λ i. if i == 1 then 0x80000000 else if i == 2 then 0x12345678 else 0;
}

loads-IsPair : IsPair 0x88220002 0x98220005 2 based
unfolding address
loads-IsPair = record {
  same_register = refl;
  first_at = refl;
  second_at = refl;
  quiet = refl;
  in_memory = omega arith;
  low = omega arith;
}

op_lwr-op_lwl_example :
    (op_lwl 0x88220002 >> op_lwr 0x98220005) based
    ≡ ok tt (set_rt 0x88220002 (be_word based 2) based)
op_lwr-op_lwl_example =
    op_lwr-op_lwl 0x88220002 0x98220005 2 based loads-IsPair (omega arith) (omega arith)
      (omega arith)

-- The same with `swl` and `swr`
stores-IsPair : IsPair 0xa8220002 0xb8220005 2 based
unfolding address
stores-IsPair = record {
  same_register = refl;
  first_at = refl;
  second_at = refl;
  quiet = refl;
  in_memory = omega arith;
  low = omega arith;
}

op_swr-op_swl_example :
    (mem' : ℕ → ℕ) × ((op_swl 0xa8220002 >> op_swr 0xb8220005) based
      ≡ ok tt (record based { mem = mem' }))
    × (be_word (record based { mem = mem' }) 2 ≡ 0x12345678)
    × ((q : ℕ) → (q < 2) ⊎ (5 < q) → byte_at (record based { mem = mem' }) q ≡ byte_at based q)
op_swr-op_swl_example = op_swr-op_swl 0xa8220002 0xb8220005 2 based stores-IsPair (omega arith)

-- Registers 1 and 2 hold -7 and 2.
abbrev divided : Mips
divided = record machine { regs = λ i. if i == 1 then 0xfffffff9 else if i == 2 then 2 else 0 }

op_div_truncates_example : DivResult 0xfffffff9 2 divided (op_div 0x0022001a divided)
op_div_truncates_example = op_div_truncates 0x0022001a divided (omega arith) (omega arith)

-- The quotient is -3 and the remainder -1.
op_div_rounds :
    op_div 0x0022001a divided ≡ ok tt (record divided { lo = 0xfffffffd; hi = 0xffffffff })
unfolding op_div quot32 rem32
op_div_rounds = refl
