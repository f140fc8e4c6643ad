-- ===== src/Vr4300/Dcache/Probe.antt =====
-- vr4300/dcache.c: what a probe finds after each operation, and the tag register.
use cmips_cen.Base.{
  ℕ, ◌+◌, ◌*◌, ◌/◌, ◌%◌, ◌^◌, ◌≡◌, arith, Bool, true, false, Option, none, some, ◌==◌, ◌&&◌,
  if◌then◌else◌,
}
use cmips_cen.Vr4300.Dcache.{
  Dcache, DcacheLine, index, page, get_line, is_valid, is_dirty, create_dirty_exclusive, fill,
  invalidate_hit, probe, set_taglo, get_taglo, wb_invalidate, put_line, invalidate_line, set_dirty,
}

-- The words that a load reads from the cache, and whether the line is dirty
abbrev pub seen : Option DcacheLine → Option ((ℕ → ℕ) × Bool)
seen none = none
seen (some line) = some (line.words, is_dirty line)

abbrev pub load : Dcache → (vaddr paddr : ℕ) → Option ((ℕ → ℕ) × Bool)
load dcache vaddr paddr = seen (probe dcache vaddr paddr)

-- After each of these seven operations on the line of an address, a load at any address does this: at
-- another line it finds what it found before. A filled line hits exactly for its page, clean, with the new words. An
-- invalidation on a hit, a write-back with invalidation, and an invalidation of the line make a miss.
-- A line that is created dirty keeps its words and whether it is valid, so it hits for its page only if
-- the line was valid. A line whose tag register is written hits with its old words exactly for that
-- tag and if the state bit 7 is set, and is dirty by the state bit 6. A line that is set dirty hits as
-- before, and is dirty.
pub load_after :
    (dcache : Dcache) (vaddr paddr taglo v p : ℕ) (words : ℕ → ℕ)
    → let here = index v == index vaddr in
      let before = load dcache v p in
      let old = get_line dcache vaddr in
      (load (fill vaddr paddr words dcache) v p
        ≡ (if here then if page p == page paddr then some (words, false) else none else before))
      × (load (invalidate_hit vaddr paddr dcache) v p
          ≡ (if here && page p == page paddr then none else before))
      × (load (wb_invalidate vaddr dcache).1 v p ≡ (if here then none else before))
      × (load (create_dirty_exclusive vaddr paddr dcache) v p ≡ (
          if here
          then if page p == page paddr && is_valid old then some (old.words, true) else none
          else before))
      × (load (put_line vaddr (invalidate_line old) dcache) v p ≡ (if here then none else before))
      × (load (set_taglo vaddr taglo dcache) v p ≡ (
          if here
          then if page p == taglo / 2 ^ 8 % 2 ^ 20 * 2 ^ 12 && taglo / 2 ^ 7 % 2 == 1
            then some (old.words, taglo / 2 ^ 6 % 2 == 1)
            else none
          else before))
      × (load (put_line vaddr (set_dirty old) dcache) v p ≡ (
          if here
          then if page p == page old.metadata && is_valid old then some (old.words, true) else none
          else before))
unfolding probe fill invalidate_hit wb_invalidate create_dirty_exclusive is_dirty set_taglo
    set_dirty put_line invalidate_line
load_after dcache vaddr paddr taglo v p words = (
  ground arith,
  ground arith,
  ground arith,
  ground arith,
  ground arith,
  ground arith,
  ground arith,
)

-- The tag register that is read after a write of it has the tag of bits 8 to 27, but the two state
-- bits come back in bits 1 and 0, and not in the bits 7 and 6 that were written.
pub get_taglo-set_taglo :
    (dcache : Dcache) (vaddr taglo : ℕ)
    → get_taglo (set_taglo vaddr taglo dcache) vaddr
      ≡ taglo / 2 ^ 8 % 2 ^ 20 * 2 ^ 8 + taglo / 2 ^ 7 % 2 * 2 + taglo / 2 ^ 6 % 2
unfolding get_taglo set_taglo
get_taglo-set_taglo dcache vaddr taglo = ground arith
