-- ===== src/Emu/Translate/Mapping.antt =====
-- `op_tlbwi` of src/emu.c, followed by a lookup.
use cmips_cen.Base.{
  ℕ, ◌+◌, ◌*◌, ◌/◌, ◌%◌, ◌^◌, ◌<◌, ◌≡◌, ap, ◌∙◌, arith, Bool, not, ◌||◌, if◌then◌else◌, Bool-cases,
  inl, inr, bit, field, update, update_self, update_ne,
}
use cmips_cen.Base.Bits.{bit_or_disjoint}
use cmips_cen.Machine.{Mips, ok}
use cmips_cen.Emu.Exc
use cmips_cen.Emu.Translate.{
  hit, dirty, invalid, entry_matches, check_access, raise_tlb, tlb_lookup, op_tlbwi,
  helper_write_tlb_entry, entry_of,
}
use cmips_cen.Emu.Translate.Lookup.{Hits, Misses, tlb_lookup_first, reset_no_match}

-- The EntryLo register for the even or the odd page of a pair
abbrev pub lo_of : ℕ → Mips → ℕ
lo_of vaddr m = if bit 12 vaddr then m.cp0.entry_lo1 else m.cp0.entry_lo0

-- The entry that `tlbwi` writes: the index has 16 values.
abbrev pub slot : Mips → ℕ
slot m = m.cp0.index % 2 ^ 4

-- The entry written matches the addresses of its page pair, and the earlier entries stay.
entry_matches-new :
    (vaddr : ℕ) (m : Mips)
    → vaddr / 2 ^ 13 ≡ m.cp0.entry_hi / 2 ^ 13
    → Hits (op_tlbwi m) (vaddr / 2 ^ 13) (slot m)
unfolding op_tlbwi helper_write_tlb_entry entry_matches update entry_of
entry_matches-new vaddr m page = ground arith

entry_matches-old :
    (j vaddr : ℕ) (m : Mips)
    → j < slot m
    → Misses m (vaddr / 2 ^ 13) j
    → Misses (op_tlbwi m) (vaddr / 2 ^ 13) j
unfolding op_tlbwi helper_write_tlb_entry
entry_matches-old j vaddr m below miss =
    rw (update_ne m.tlb.entries (slot m) j _ (omega arith)) miss

entries-new : (m : Mips) → (op_tlbwi m).tlb.entries (slot m) ≡ entry_of m.cp0
unfolding op_tlbwi helper_write_tlb_entry
entries-new m = update_self m.tlb.entries (slot m) (entry_of m.cp0)

-- The access check of an entry just filled, by the EntryLo register of the page
check_access-entry_of :
    (vaddr : ℕ) (write : Bool) (m m' : Mips)
    → let lo = lo_of vaddr m in
      check_access (entry_of m.cp0) vaddr write m' ≡ (
        if not (bit 1 lo)
        then ok invalid (raise_tlb (if write then Exc.tlbs else Exc.tlbl) vaddr m')
        else if not write || bit 2 lo
        then ok (hit (field 6 20 lo * 2 ^ 12 + vaddr % 2 ^ 12)) m'
        else ok dirty (raise_tlb Exc.modified vaddr m'))
unfolding check_access entry_of
check_access-entry_of vaddr write m m' = elim (Bool-cases (bit 12 vaddr)) [
  | inl odd ↦
      rw (odd, bit_or_disjoint 12 (field 6 20 m.cp0.entry_lo1) (vaddr % 2 ^ 12) (omega arith))
  | inr even ↦
      rw (even, bit_or_disjoint 12 (field 6 20 m.cp0.entry_lo0) (vaddr % 2 ^ 12) (omega arith))
]

-- After `tlbwi` with any Index, an address of the page pair in EntryHi, with no entry in its way
-- before the one of the low four bits of Index, is translated by the EntryLo register of its page: to that frame at the same offset if the page is
-- valid and, for a write, dirty; else the lookup ends as an invalid or a clean page.
pub tlb_lookup-op_tlbwi :
    (vaddr : ℕ) (write : Bool) (m : Mips)
    → vaddr / 2 ^ 13 ≡ m.cp0.entry_hi / 2 ^ 13
    → ((j : ℕ) → j < m.cp0.index % 2 ^ 4 → Misses m (vaddr / 2 ^ 13) j)
    → let m' = reset_no_match (op_tlbwi m) in
      let lo = lo_of vaddr m in
      tlb_lookup vaddr write (op_tlbwi m) ≡ (
        if not (bit 1 lo)
        then ok invalid (raise_tlb (if write then Exc.tlbs else Exc.tlbl) vaddr m')
        else if not write || bit 2 lo
        then ok (hit (field 6 20 lo * 2 ^ 12 + vaddr % 2 ^ 12)) m'
        else ok dirty (raise_tlb Exc.modified vaddr m'))
tlb_lookup-op_tlbwi vaddr write m page clear =
    tlb_lookup_first (slot m) vaddr write (op_tlbwi m) (record {
      in_range = omega arith;
      found = entry_matches-new vaddr m page;
      before = λ j below. entry_matches-old j vaddr m below (clear j below);
    })
    ∙ ap (λ e. check_access e vaddr write (reset_no_match (op_tlbwi m))) (entries-new m)
    ∙ check_access-entry_of vaddr write m (reset_no_match (op_tlbwi m))
