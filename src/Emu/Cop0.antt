-- ===== src/Emu/Cop0.antt =====
-- src/emu.c: the moves from and to the registers of coprocessor 0.
pub mod Masks
use cmips_cen.Base.{
  ℕ, ◌+◌, ◌-◌, ◌*◌, ◌/◌, ◌%◌, ◌^◌, ◌==◌, if◌then◌else◌, Option, none, some, bit_and, bit_or,
}
use cmips_cen.Machine.{Cp0, ok, exit, M, clear_external_interrupt}
use cmips_cen.Emu.Regs.{set_rt, get_rt, rd_of}

-- `op & 7`
abbrev pub sel_of : ℕ → ℕ
sel_of op = op % 8

-- Most cases begin with `if(sel != 0) goto unhandled;`.
abbrev only_sel0 {ℓ} : {A : Type ℓ} → ℕ → A → Option A
only_sel0 sel v = if sel == 0 then some v else none

-- The switch of `op_mfc0`; `none` is the label `unhandled`.
unfoldable pub cp0_read : (reg_num sel : ℕ) → Cp0 → Option ℕ
cp0_read reg_num sel c =
    if reg_num == 0
    then only_sel0 sel c.index
    else if reg_num == 2
    then some c.entry_lo0
    else if reg_num == 3
    then some c.entry_lo1
    else if reg_num == 4
    then only_sel0 sel c.context
    else if reg_num == 5
    then only_sel0 sel c.page_mask
    else if reg_num == 6
    then only_sel0 sel c.wired
    else if reg_num == 8
    then only_sel0 sel c.bad_vaddr
    else if reg_num == 9
    then only_sel0 sel c.count
    else if reg_num == 10
    then only_sel0 sel c.entry_hi
    else if reg_num == 11
    then only_sel0 sel c.compare
    else if reg_num == 12
    then only_sel0 sel c.status
    else if reg_num == 13
    then only_sel0 sel c.cause
    else if reg_num == 14
    then only_sel0 sel c.epc
    else if reg_num == 15
    then some 0x00018000
    else if reg_num == 16
    then (if sel == 0 then some 0x80008082 else if sel == 1 then some 0x1e190c8a else none)
    else if reg_num == 18
    then some 0
    else if reg_num == 19
    then some 0
    else none

-- `op_mfc0`
unfoldable pub op_mfc0 : ℕ → M (Unit {0})
op_mfc0 op m = elim (cp0_read (rd_of op) (sel_of op) m.cp0) [
  | none ↦ exit
  | some retval ↦ ok tt (set_rt op retval m)
]

abbrev pub status_mask : ℕ
status_mask = 0x7d7cff17

-- `(1 << 23) | (1 << 22) | (3 << 8)`
abbrev pub cause_mask : ℕ
cause_mask = 0xc00300

-- `(old & ~mask) | (rt & mask)`
abbrev pub masked_write : (mask old rt : ℕ) → ℕ
masked_write mask old rt = bit_or (bit_and old (2 ^ 32 - 1 - mask)) (bit_and rt mask)

-- `emu->CP0_Context &= …`: the new value is also masked by the old one.
unfoldable pub context_write : (old rt : ℕ) → ℕ
context_write old rt =
    bit_and old (bit_or (bit_and old (2 ^ 32 - 1 - 0xff800000)) (bit_and rt 0xff800000))

-- The switch of `op_mtc0` without Compare; `none` is an exit.
unfoldable pub cp0_write : (reg_num sel rt : ℕ) → Cp0 → Option Cp0
cp0_write reg_num sel rt c =
    if reg_num == 0
    then only_sel0 sel (record c { index = c.index / 2 ^ 31 * 2 ^ 31 + rt % 2 ^ 4 })
    else if reg_num == 2
    then some (record c { entry_lo0 = rt % 2 ^ 26 })
    else if reg_num == 3
    then some (record c { entry_lo1 = rt % 2 ^ 26 })
    else if reg_num == 4
    then some (record c { context = context_write c.context rt })
    else if reg_num == 5
    then (if rt == 0 then only_sel0 sel (record c { page_mask = bit_and rt 0x1ffe000 }) else none)
    else if reg_num == 6
    then only_sel0 sel (record c { wired = rt % 2 ^ 4 })
    else if reg_num == 9
    then only_sel0 sel (record c { count = rt })
    else if reg_num == 10
    then only_sel0 sel (record c { entry_hi = bit_and rt (2 ^ 32 - 1 - 0x1f00) })
    else if reg_num == 12
    then only_sel0 sel (record c { status = masked_write status_mask c.status rt })
    else if reg_num == 13
    then only_sel0 sel (record c { cause = masked_write cause_mask c.cause rt })
    else if reg_num == 14
    then only_sel0 sel (record c { epc = rt })
    else if reg_num == 16
    then some c
    else if reg_num == 18
    then some c
    else if reg_num == 19
    then some c
    else none

-- `op_mtc0`. A write of Compare (11) also withdraws the interrupt of the timer.
unfoldable pub op_mtc0 : ℕ → M (Unit {0})
op_mtc0 op m =
    if rd_of op == 11
    then (if sel_of op == 0
        then (let m' = clear_external_interrupt 5 m in
            ok tt (record m' { cp0 = record (m'.cp0) { compare = get_rt op m } }))
        else exit)
    else elim (cp0_write (rd_of op) (sel_of op) (get_rt op m) m.cp0) [
      | none ↦ exit
      | some c ↦ ok tt (record m { cp0 = c })
    ]
