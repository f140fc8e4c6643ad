-- ===== src/ArchTlb/Entries.antt =====
-- Writes of the entries of arch/tlb/tlb.c, and which of them the probe sees.
use cmips_cen.Base.{
  ℕ, ◌+◌, ◌-◌, ◌*◌, ◌/◌, ◌%◌, ◌^◌, ◌<◌, ◌≤◌, ◌≡◌, ◌≢◌, refl, ap, ap₂, sym, ◌∙◌, arith, ◌&&◌, ◌==◌,
  if◌then◌else◌, none, some, u32, update_self, update_ne,
}
use cmips_cen.ArchTlb.{
  Cen64Tlb, cen64_one_hot_lut, vpn2_of, vpn_check, asid_check, probe_block, tlb_probe, tlb_read,
  tlb_write,
}
use cmips_cen.ArchTlb.Probe.{movemask_ext, tlb_probe-block}

abbrev global_of : ℕ → ℕ → ℕ
global_of lo0 lo1 = if lo0 % 2 == 1 && lo1 % 2 == 1 then 0xFF else 0

-- What is written into an entry is read back: the region and the page number, the address space,
-- and in bit 12 whether both halves were global. The other bits of EntryHi are dropped.
pub tlb_read-tlb_write :
    (t : Cen64Tlb) (index hi lo0 lo1 mask : ℕ)
    → tlb_read (tlb_write t index hi lo0 lo1 mask) index
      ≡ hi / 2 ^ 62 % 2 ^ 2 * 2 ^ 62
        + hi / 2 ^ 13 % 2 ^ 27 * 2 ^ 13
        + (if lo0 % 2 == 1 && lo1 % 2 == 1 then 2 ^ 12 else 0)
        + hi % 2 ^ 8
unfolding tlb_read tlb_write
tlb_read-tlb_write t index hi lo0 lo1 mask =
    rw
      (
        update_self t.vpn2 index (vpn2_of hi),
        update_self t.global index (global_of lo0 lo1),
        update_self t.asid index (hi % 2 ^ 8),
      )
      (ground arith)

-- A write of an entry leaves what is read of another.
pub tlb_read-tlb_write_ne :
    (t : Cen64Tlb) (index other hi lo0 lo1 mask : ℕ)
    → other ≢ index
    → tlb_read (tlb_write t index hi lo0 lo1 mask) other ≡ tlb_read t other
unfolding tlb_read tlb_write
tlb_read-tlb_write_ne t index other hi lo0 lo1 mask ne =
    rw
      (
        update_ne t.vpn2 index other (vpn2_of hi) ne,
        update_ne t.global index other (global_of lo0 lo1) ne,
        update_ne t.asid index other (hi % 2 ^ 8) ne,
      )
      refl

vpn_check-tlb_write :
    (t : Cen64Tlb) (index j hi lo0 lo1 mask vpn : ℕ)
    → j ≢ index
    → vpn_check (tlb_write t index hi lo0 lo1 mask) vpn j ≡ vpn_check t vpn j
unfolding tlb_write
vpn_check-tlb_write t index j hi lo0 lo1 mask vpn ne =
    rw
      (
        update_ne t.vpn2 index j (vpn2_of hi) ne,
        update_ne t.page_mask index j (2 ^ 32 - 1 - mask / 2 ^ 13) ne,
      )
      refl

asid_check-tlb_write :
    (t : Cen64Tlb) (index j hi lo0 lo1 mask vasid : ℕ)
    → j ≢ index
    → asid_check (tlb_write t index hi lo0 lo1 mask) vasid j ≡ asid_check t vasid j
unfolding tlb_write
asid_check-tlb_write t index j hi lo0 lo1 mask vasid ne =
    rw (update_ne t.global index j (global_of lo0 lo1) ne, update_ne t.asid index j (hi % 2 ^ 8) ne)
      refl

-- An entry from number 8 on is never found: whatever is written into it, every probe has the result
-- that it had before.
pub tlb_probe-tlb_write :
    (t : Cen64Tlb) (index hi lo0 lo1 mask vaddr vasid : ℕ)
    → 8 ≤ index
    → tlb_probe (tlb_write t index hi lo0 lo1 mask) vaddr vasid ≡ tlb_probe t vaddr vasid
unfolding probe_block
tlb_probe-tlb_write t index hi lo0 lo1 mask vaddr vasid high =
    let t' = tlb_write t index hi lo0 lo1 mask in
    let vpn = vpn2_of vaddr in
    let pages = λ (j : ℕ) (p : j < 8).
      vpn_check-tlb_write t index (0 + j) hi lo0 lo1 mask vpn (omega arith) in
    let spaces = λ (j : ℕ) (p : j < 8).
      asid_check-tlb_write t index (0 + j) hi lo0 lo1 mask vasid (omega arith) in
    let low =
      movemask_ext 8 (λ j. vpn_check t' vpn (0 + j) && asid_check t' vasid (0 + j))
        (λ j. vpn_check t vpn (0 + j) && asid_check t vasid (0 + j))
        (λ j p. ap₂ ◌&&◌ (pages j p) (spaces j p)) in
    let upper =
      movemask_ext 8 (λ j. vpn_check t' vpn (0 + j) && vasid == 0)
        (λ j. vpn_check t vpn (0 + j) && vasid == 0)
        (λ j p. ap (λ b. b && vasid == 0) (pages j p)) in
    tlb_probe-block t' vaddr vasid
    ∙ ap₂ (λ x y. if x + y * 2 ^ 8 == 0 then none else some (u32 (0 + cen64_one_hot_lut x))) low
        upper
    ∙ sym (tlb_probe-block t vaddr vasid)
