-- ===== src/Emu/Translate/Lookup.antt =====
-- The loops of `tlb_lookup` and `op_tlbp` of src/emu.c over the sixteen entries.
use cmips_cen.Base.{
  ℕ, zero, suc, ◌+◌, ◌/◌, ◌%◌, ◌^◌, ◌<◌, ◌≤◌, ◌≡◌, refl, arith, Bool, true, false, ◌==◌,
  if◌then◌else◌, ==_iff, Bool-cases, inl, inr,
}
use cmips_cen.Machine.{Mips, ok}
use cmips_cen.Emu.Exc
use cmips_cen.Emu.Translate.{
  no_match, entry_matches, check_access, raise_tlb, tlb_lookup_from, tlb_lookup, tlb_probe_from,
  op_tlbp,
}

-- Entry `j` matches a page tag under the current address space.
abbrev pub Hits : Mips → ℕ → ℕ → Type 0
Hits m tag j = entry_matches (m.tlb.entries j) (m.cp0.entry_hi % 2 ^ 8) tag ≡ true

abbrev pub Misses : Mips → ℕ → ℕ → Type 0
Misses m tag j = entry_matches (m.tlb.entries j) (m.cp0.entry_hi % 2 ^ 8) tag ≡ false

abbrev pub reset_no_match : Mips → Mips
reset_no_match m = record m { tlb = record (m.tlb) { exception_was_no_match = false } }

-- Entry `i` is the first that matches.
pub record IsFirst (m : Mips) (tag i : ℕ) : Type 0 where
  pub in_range : i < 16
  pub found : Hits m tag i
  pub before : (j : ℕ) → j < i → Misses m tag j

lookup_from_first :
    (left start i vaddr : ℕ) (write : Bool) (m : Mips)
    → start ≤ i
    → i < start + left
    → Hits m (vaddr / 2 ^ 13) i
    → ((j : ℕ) → start ≤ j → j < i → Misses m (vaddr / 2 ^ 13) j)
    → tlb_lookup_from left start vaddr write m ≡ check_access (m.tlb.entries i) vaddr write m
unfolding tlb_lookup_from
lookup_from_first zero start i vaddr write m lo hi found before = absurd (omega arith)
lookup_from_first (suc left) start i vaddr write m lo hi found before =
    elim (Bool-cases (start == i)) [
      | inl same ↦ rw ((==_iff start i).0 same, found)
      | inr other ↦
          (let lt : start < i = ground arith in
            rw (before start (omega arith) lt) (
              lookup_from_first left (start + 1) i vaddr write m (omega arith) (omega arith) found
                (λ j p q. before j (omega arith) q)))
    ]

lookup_from_none :
    (left start vaddr : ℕ) (write : Bool) (m : Mips)
    → ((j : ℕ) → start ≤ j → j < start + left → Misses m (vaddr / 2 ^ 13) j)
    → tlb_lookup_from left start vaddr write m
      ≡ ok no_match (
          raise_tlb
            (if write then Exc.tlbs else Exc.tlbl)
            vaddr
            (record m { tlb = record (m.tlb) { exception_was_no_match = true } }))
unfolding tlb_lookup_from
lookup_from_none zero start vaddr write m none = refl
lookup_from_none (suc left) start vaddr write m none =
    rw (none start (omega arith) (omega arith)) (
      lookup_from_none left (start + 1) vaddr write m (λ j p q. none j (omega arith) (omega arith)))

-- The result of a lookup is that of the access check of the first entry that matches.
pub tlb_lookup_first :
    (i vaddr : ℕ) (write : Bool) (m : Mips)
    → IsFirst m (vaddr / 2 ^ 13) i
    → tlb_lookup vaddr write m ≡ check_access (m.tlb.entries i) vaddr write (reset_no_match m)
unfolding tlb_lookup
tlb_lookup_first i vaddr write m h =
    lookup_from_first 16 0 i vaddr write (reset_no_match m) (omega arith) h.in_range h.found
      (λ j p q. h.before j q)

-- Where no entry matches the lookup raises the refill exception for the kind of the access.
pub tlb_lookup_none :
    (vaddr : ℕ) (write : Bool) (m : Mips)
    → ((j : ℕ) → j < 16 → Misses m (vaddr / 2 ^ 13) j)
    → tlb_lookup vaddr write m
      ≡ ok no_match (
          raise_tlb
            (if write then Exc.tlbs else Exc.tlbl)
            vaddr
            (record m { tlb = record (m.tlb) { exception_was_no_match = true } }))
unfolding tlb_lookup
tlb_lookup_none vaddr write m none =
    lookup_from_none 16 0 vaddr write (reset_no_match m) (λ j p q. none j q)

probe_from_first :
    (left start i : ℕ) (m : Mips)
    → start ≤ i
    → i < start + left
    → Hits m (m.cp0.entry_hi / 2 ^ 13) i
    → ((j : ℕ) → start ≤ j → j < i → Misses m (m.cp0.entry_hi / 2 ^ 13) j)
    → tlb_probe_from left start m ≡ record m { cp0 = record (m.cp0) { index = i } }
unfolding tlb_probe_from
probe_from_first zero start i m lo hi found before = absurd (omega arith)
probe_from_first (suc left) start i m lo hi found before = elim (Bool-cases (start == i)) [
  | inl same ↦ rw ((==_iff start i).0 same, found)
  | inr other ↦
      (let lt : start < i = ground arith in
        rw (before start (omega arith) lt) (
          probe_from_first left (start + 1) i m (omega arith) (omega arith) found
            (λ j p q. before j (omega arith) q)))
]

probe_from_none :
    (left start : ℕ) (m : Mips)
    → ((j : ℕ) → start ≤ j → j < start + left → Misses m (m.cp0.entry_hi / 2 ^ 13) j)
    → tlb_probe_from left start m ≡ m
unfolding tlb_probe_from
probe_from_none zero start m none = refl
probe_from_none (suc left) start m none =
    rw (none start (omega arith) (omega arith))
      (probe_from_none left (start + 1) m (λ j p q. none j (omega arith) (omega arith)))

-- A probe puts the number of the first entry that matches EntryHi into Index, with bit 31 clear.
pub op_tlbp_first :
    (i : ℕ) (m : Mips)
    → IsFirst m (m.cp0.entry_hi / 2 ^ 13) i
    → op_tlbp m ≡ record m { cp0 = record (m.cp0) { index = i } }
unfolding op_tlbp
op_tlbp_first i m h =
    probe_from_first 16 0 i (record m { cp0 = record (m.cp0) { index = 0x80000000 } }) (omega arith)
      h.in_range h.found (λ j p q. h.before j q)

-- Where none matches, Index has bit 31 set alone.
pub op_tlbp_none :
    (m : Mips)
    → ((j : ℕ) → j < 16 → Misses m (m.cp0.entry_hi / 2 ^ 13) j)
    → op_tlbp m ≡ record m { cp0 = record (m.cp0) { index = 0x80000000 } }
unfolding op_tlbp
op_tlbp_none m none =
    probe_from_none 16 0 (record m { cp0 = record (m.cp0) { index = 0x80000000 } })
      (λ j p q. none j q)
