-- ===== src/Emu/Translate.antt =====
-- src/emu.c: the sixteen entries of the TLB, and the translation of virtual addresses.
pub mod Lookup
pub mod Mapping
use cmips_cen.Base.{
  ℕ, zero, suc, ◌+◌, ◌-◌, ◌*◌, ◌/◌, ◌%◌, ◌^◌, Bool, true, false, not, ◌&&◌, ◌||◌, ◌==◌, leb,
  if◌then◌else◌, Option, none, some, u32, field, bit, bit_or, update,
}
use cmips_cen.Machine.{TlbEntry, Cp0, Mips, ok, exit, M, pure, ◌>>=◌}
use cmips_cen.Emu.Exc
use cmips_cen.Emu.Exception.{raise, is_kernel_mode}

-- `writeTlbExceptionExtraData`
unfoldable pub write_tlb_exception_extra_data : ℕ → Mips → Mips
write_tlb_exception_extra_data vaddr m =
    let c = m.cp0 in
    record m {
      cp0 = record c {
        bad_vaddr = vaddr;
        context = c.context / 2 ^ 23 * 2 ^ 23 + field 13 19 vaddr * 2 ^ 4;
        entry_hi = c.entry_hi % 2 ^ 8 + vaddr / 2 ^ 13 * 2 ^ 13;
      };
    }

-- TLBRET_…: a physical address, or why there is none.
pub data TlbRet : Type 0 where
  hit : ℕ → TlbRet
  no_match : TlbRet
  dirty : TlbRet
  invalid : TlbRet

-- The condition of the loops of `tlb_lookup` and `op_tlbp`: `G == 1 || ASID matches`, and the page.
unfoldable pub entry_matches : TlbEntry → ℕ → ℕ → Bool
entry_matches e asid tag = (e.g || e.asid == asid) && e.vpn2 == tag

-- A failed lookup: `exceptionOccured`, the code, and the address for the handler.
unfoldable pub raise_tlb : ℕ → ℕ → Mips → Mips
raise_tlb code vaddr m = write_tlb_exception_extra_data vaddr (raise code m)

-- The body of the loop of `tlb_lookup` for an entry that matches.
unfoldable pub check_access : TlbEntry → ℕ → Bool → M TlbRet
check_access e vaddr write m =
    let n = bit 12 vaddr in
    let v = if n then e.v1 else e.v0 in
    let d = if n then e.d1 else e.d0 in
    let pfn = if n then e.pfn1 else e.pfn0 in
    if not v
    then ok invalid (raise_tlb (if write then Exc.tlbs else Exc.tlbl) vaddr m)
    else if not write || d
    then ok (hit (bit_or pfn (vaddr % 2 ^ 12))) m
    else ok dirty (raise_tlb Exc.modified vaddr m)

-- The loop from entry `i` over the `left` entries that remain, and what follows it.
unfoldable pub tlb_lookup_from : (left i vaddr : ℕ) → Bool → M TlbRet
tlb_lookup_from zero i vaddr write m =
    let m' = record m { tlb = record (m.tlb) { exception_was_no_match = true } } in
    ok no_match (raise_tlb (if write then Exc.tlbs else Exc.tlbl) vaddr m')
tlb_lookup_from (suc left) i vaddr write m =
    let rest = tlb_lookup_from left (i + 1) vaddr write m in
    let e = m.tlb.entries i in
    if entry_matches e (m.cp0.entry_hi % 2 ^ 8) (vaddr / 2 ^ 13)
    then check_access e vaddr write m
    else rest

-- `tlb_lookup`; the tag `(vaddress & 0xfffff000) >> 13` is `vaddr / 2 ^ 13`.
unfoldable pub tlb_lookup : ℕ → Bool → M TlbRet
tlb_lookup vaddr write m =
    tlb_lookup_from 16 0 vaddr write
      (record m { tlb = record (m.tlb) { exception_was_no_match = false } })

-- A lookup as `translateAddress` passes it on: `none` is a code other than TLBRET_MATCH.
unfoldable pub paddr_of : TlbRet → Option ℕ
paddr_of (hit paddr) = some paddr
paddr_of no_match = none
paddr_of dirty = none
paddr_of invalid = none

unfoldable pub translate_by_tlb : ℕ → Bool → M (Option ℕ)
translate_by_tlb vaddr write = do r ← tlb_lookup vaddr write; pure (paddr_of r)

-- `translateAddress`, at a 32-bit address. Its last two lines are not reached.
unfoldable pub translate_address : ℕ → Bool → M (Option ℕ)
translate_address vaddr write m =
    if leb vaddr 0x7FFFFFFF
    then (if bit 2 m.cp0.status then ok (some vaddr) m else translate_by_tlb vaddr write m)
    else if leb 0x80000000 vaddr && leb vaddr 0x9fffffff
    then ok (some (vaddr - 0x80000000)) m
    else if leb 0xa0000000 vaddr && leb vaddr 0xbfffffff
    then ok (some (vaddr - 0xa0000000)) m
    else if is_kernel_mode m
    then translate_by_tlb vaddr write m
    else exit

-- The entry that `helper_writeTlbEntry` fills from the registers
unfoldable pub entry_of : Cp0 → TlbEntry
entry_of c = record {
  vpn2 = c.entry_hi / 2 ^ 13;
  asid = c.entry_hi % 2 ^ 8;
  g = bit 0 c.entry_lo0 && bit 0 c.entry_lo1;
  c0 = field 3 3 c.entry_lo0;
  c1 = field 3 3 c.entry_lo1;
  v0 = bit 1 c.entry_lo0;
  v1 = bit 1 c.entry_lo1;
  d0 = bit 2 c.entry_lo0;
  d1 = bit 2 c.entry_lo1;
  pfn0 = field 6 20 c.entry_lo0 * 2 ^ 12;
  pfn1 = field 6 20 c.entry_lo1 * 2 ^ 12;
}

-- `helper_writeTlbEntry`
unfoldable pub helper_write_tlb_entry : ℕ → Mips → Mips
helper_write_tlb_entry idx m = record m {
  tlb = record (m.tlb) { entries = update m.tlb.entries (idx % 2 ^ 4) (entry_of m.cp0) };
}

-- `op_tlbwi`
unfoldable pub op_tlbwi : Mips → Mips
op_tlbwi m = helper_write_tlb_entry m.cp0.index m

-- `randomInRange`, a counter in place of a random number
unfoldable pub random_in_range : ℕ → ℕ → Mips → ℕ × Mips
random_in_range a b m =
    let n = u32 (m.counter + 1) in
    (u32 (a + n % u32 (1 + b + 2 ^ 32 - a)), record m { counter = n })

-- `op_tlbwr`; CP0_Wired is at most 15, so the range is not empty.
unfoldable pub op_tlbwr : Mips → Mips
op_tlbwr m = let (idx, m') = random_in_range m.cp0.wired 15 m in helper_write_tlb_entry idx m'

-- The loop of `op_tlbp`
unfoldable pub tlb_probe_from : (left i : ℕ) → Mips → Mips
tlb_probe_from zero i m = m
tlb_probe_from (suc left) i m =
    let rest = tlb_probe_from left (i + 1) m in
    if entry_matches (m.tlb.entries i) (m.cp0.entry_hi % 2 ^ 8) (m.cp0.entry_hi / 2 ^ 13)
    then record m { cp0 = record (m.cp0) { index = i } }
    else rest

-- `op_tlbp`
unfoldable pub op_tlbp : Mips → Mips
op_tlbp m = tlb_probe_from 16 0 (record m { cp0 = record (m.cp0) { index = 0x80000000 } })
