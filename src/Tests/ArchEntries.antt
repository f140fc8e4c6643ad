-- ===== src/Tests/ArchEntries.antt =====
-- A TLB of the VR4300
use cmips_cen.Base.{◌+◌, ◌*◌, ◌/◌, ◌%◌, ◌^◌, ◌≡◌, refl, arith, ◌&&◌, ◌==◌, if◌then◌else◌, some}
use cmips_cen.ArchTlb.{Cen64Tlb, tlb_probe, tlb_read, tlb_write}
use cmips_cen.ArchTlb.Entries.{tlb_read-tlb_write, tlb_probe-tlb_write}
use cmips_cen.ArchTlb.Probe.{tlb_probe_one}

-- Entry 3 maps page pair 5 of address space 7, and no other entry maps any.
abbrev entries : Cen64Tlb
entries = record {
  page_mask = λ _. 0xffffffff;
  vpn2 = λ i. if i == 3 then 5 else 0xffffffff;
  global = λ _. 0;
  asid = λ i. if i == 3 then 7 else 1;
}

tlb_probe_one_example : tlb_probe entries 0xa000 7 ≡ some 3
tlb_probe_one_example =
    tlb_probe_one entries 0xa000 7 3 (omega arith) refl refl (λ j h ne. ground arith)

tlb_read-tlb_write_example :
    tlb_read (tlb_write entries 9 0xa007 1 1 0) 9
    ≡ 0xa007 / 2 ^ 62 % 2 ^ 2 * 2 ^ 62
      + 0xa007 / 2 ^ 13 % 2 ^ 27 * 2 ^ 13
      + (if 1 % 2 == 1 && 1 % 2 == 1 then 2 ^ 12 else 0)
      + 0xa007 % 2 ^ 8
tlb_read-tlb_write_example = tlb_read-tlb_write entries 9 0xa007 1 1 0

tlb_probe-tlb_write_example :
    tlb_probe (tlb_write entries 9 0xc007 1 1 0) 0xc000 7 ≡ tlb_probe entries 0xc000 7
tlb_probe-tlb_write_example = tlb_probe-tlb_write entries 9 0xc007 1 1 0 0xc000 7 (omega arith)
