-- ===== src/ArchTlb.antt =====
-- arch/tlb/tlb.c and common/one_hot.c: the TLB of the VR4300, whose probe compares eight entries at
-- once by the vector instructions of the host.
pub mod Entries
pub mod Probe
use cmips_cen.Base.{
  ℕ, zero, suc, ◌+◌, ◌-◌, ◌*◌, ◌/◌, ◌%◌, ◌^◌, Bool, true, false, not, Option, none, some, ◌&&◌,
  ◌||◌, ◌==◌, leb, ltb, if◌then◌else◌, update, u32, bit, bit_and,
}

-- `struct cen64_tlb`
pub record Cen64Tlb : Type 0 where
  pub page_mask : ℕ → ℕ
  pub vpn2 : ℕ → ℕ
  pub global : ℕ → ℕ
  pub asid : ℕ → ℕ

-- The loop of `tlb_init`, from the last entry down
unfoldable pub tlb_init_entries : ℕ → (ℕ → ℕ) → ℕ → ℕ
tlb_init_entries zero f = f
tlb_init_entries (suc n) f = update (tlb_init_entries n f) n (2 ^ 32 - 1)

-- `tlb_init`
unfoldable pub tlb_init : Cen64Tlb → Cen64Tlb
tlb_init t = record t { vpn2 = tlb_init_entries 32 t.vpn2 }

-- `cen64_one_hot_lut`; -1 is 2 ^ 32 - 1, which is what the sum with `i` makes of it.
unfoldable pub cen64_one_hot_lut : ℕ → ℕ
cen64_one_hot_lut x =
    if x == 1
    then 0
    else if x == 2
    then 1
    else if x == 4
    then 2
    else if x == 8
    then 3
    else if x == 16
    then 4
    else if x == 32
    then 5
    else if x == 64
    then 6
    else if x == 128
    then 7
    else 2 ^ 32 - 1

-- `(x >> 35 & 0x18000000U) | (x >> 13 & 0x7FFFFFF)`
abbrev pub vpn2_of : ℕ → ℕ
vpn2_of x = x / 2 ^ 62 % 2 ^ 2 * 2 ^ 27 + x / 2 ^ 13 % 2 ^ 27

-- A lane of `vpn_check`
abbrev pub vpn_check : Cen64Tlb → ℕ → ℕ → Bool
vpn_check t vpn i = bit_and vpn (t.page_mask i) == t.vpn2 i

-- The top bit of a lane of `check_g | (check_a == asid)`
abbrev pub asid_check : Cen64Tlb → ℕ → ℕ → Bool
asid_check t vasid i = leb 128 (t.global i) || t.asid i == vasid

-- `_mm_movemask_epi8` on `n` lanes
unfoldable pub movemask : ℕ → (ℕ → Bool) → ℕ
movemask zero f = 0
movemask (suc n) f = (if f n then 2 ^ n else 0) + movemask n f

-- The body of the loop of `tlb_probe`. The check has sixteen lanes: the eight entries, and eight more
-- in which `vpn_check` is repeated (`_mm_packs_epi16` of a vector with itself), the global bits are 0
-- and 0 is compared with the address space (`_mm_loadl_epi64` clears them).
unfoldable pub probe_block : Cen64Tlb → (vpn vasid i : ℕ) → Option ℕ
probe_block t vpn vasid i =
    let low = movemask 8 (λ j. vpn_check t vpn (i + j) && asid_check t vasid (i + j)) in
    let high = movemask 8 (λ j. vpn_check t vpn (i + j) && vasid == 0) in
    if low + high * 2 ^ 8 == 0 then none else some (u32 (i + cen64_one_hot_lut low))

-- The loop `for (i = 0; i < 32 / 8; i += 8)`, with fuel, of which two rounds are enough
unfoldable pub probe_from : (fuel : ℕ) → Cen64Tlb → (vpn vasid i : ℕ) → Option ℕ
probe_from zero t vpn vasid i = none
probe_from (suc fuel) t vpn vasid i =
    let rest = probe_from fuel t vpn vasid (i + 8) in
    if ltb i (32 / 8)
    then elim (probe_block t vpn vasid i) [ none ↦ rest | some index ↦ some index ]
    else none

-- `tlb_probe`; the result 1 with index 0 is `none`.
unfoldable pub tlb_probe : Cen64Tlb → (vaddr vasid : ℕ) → Option ℕ
tlb_probe t vaddr vasid = probe_from 2 t (vpn2_of vaddr) vasid 0

-- `tlb_read`
unfoldable pub tlb_read : Cen64Tlb → ℕ → ℕ
tlb_read t index =
    t.vpn2 index / 2 ^ 27 % 2 ^ 2 * 2 ^ 62
    + t.vpn2 index % 2 ^ 27 * 2 ^ 13
    + t.global index % 2 * 2 ^ 12
    + t.asid index

-- `tlb_write`
unfoldable pub tlb_write :
    Cen64Tlb → (index entry_hi entry_lo_0 entry_lo_1 page_mask : ℕ) → Cen64Tlb
tlb_write t index entry_hi entry_lo_0 entry_lo_1 page_mask = record t {
  page_mask = update t.page_mask index (2 ^ 32 - 1 - page_mask / 2 ^ 13);
  vpn2 = update t.vpn2 index (vpn2_of entry_hi);
  global = update t.global index (if entry_lo_0 % 2 == 1 && entry_lo_1 % 2 == 1 then 0xFF else 0);
  asid = update t.asid index (entry_hi % 2 ^ 8);
}
