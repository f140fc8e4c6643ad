-- ===== src/Tests/Pages.antt =====
-- The TLB of the small machine
use cmips_cen.Base.{
  ℕ, ◌+◌, ◌*◌, ◌%◌, ◌^◌, ◌≡◌, refl, arith, true, not, ◌||◌, ◌==◌, if◌then◌else◌, bit, field,
}
use cmips_cen.Machine.{Mips, TlbEntry, ok}
use cmips_cen.Emu.Exc
use cmips_cen.Emu.Exception.{blank_entry}
use cmips_cen.Emu.Translate.{hit, dirty, invalid, raise_tlb, entry_matches, tlb_lookup, op_tlbwi}
use cmips_cen.Emu.Translate.Lookup.{IsFirst, Misses, reset_no_match}
use cmips_cen.Emu.Translate.Mapping.{lo_of, tlb_lookup-op_tlbwi}
use cmips_cen.Tests.{machine}

-- Entries 3 and 4 map the page pair 5, which is in EntryHi as well.
abbrev page_five : TlbEntry
page_five = record blank_entry { vpn2 = 5; v0 = true; pfn0 = 0x7000 }

abbrev mapped : Mips
mapped = record machine {
  cp0 = record (machine.cp0) { entry_hi = 0xa000; index = 2; entry_lo0 = 0x1c6 };
  tlb = record (machine.tlb) { entries = λ i. if i == 3 || i == 4 then page_five else blank_entry };
}

mapped-IsFirst : IsFirst mapped 5 3
unfolding entry_matches
mapped-IsFirst = record { in_range = omega arith; found = refl; before = λ j h. ground arith }

-- No entry of a fresh TLB maps the page pair 5.
abbrev unmapped : Mips
unmapped = record machine {
  cp0 = record (machine.cp0) { entry_hi = 0xa000; entry_lo0 = 0x1c6; index = 0x80000002 };
}

unmapped-Misses : (j : ℕ) → Misses unmapped 5 j
unfolding entry_matches
unmapped-Misses j = refl

-- EntryLo0 is of frame 7, valid and dirty.
tlb_lookup-op_tlbwi_example :
    let m' = reset_no_match (op_tlbwi unmapped) in
    let lo = lo_of 0xa004 unmapped in
    tlb_lookup 0xa004 true (op_tlbwi unmapped) ≡ (
      if not (bit 1 lo)
      then ok invalid (raise_tlb Exc.tlbs 0xa004 m')
      else if bit 2 lo
      then ok (hit (field 6 20 lo * 2 ^ 12 + 0xa004 % 2 ^ 12)) m'
      else ok dirty (raise_tlb Exc.modified 0xa004 m'))
tlb_lookup-op_tlbwi_example =
    tlb_lookup-op_tlbwi 0xa004 true unmapped refl (λ j h. unmapped-Misses j)
