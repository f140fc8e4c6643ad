-- ===== src/Vr4300/Icache/Probe.antt =====
-- vr4300/icache.c: what a probe finds after each operation.
use cmips_cen.Base.{
  ℕ, ◌*◌, ◌/◌, ◌%◌, ◌^◌, ◌≡◌, arith, Option, none, some, ◌==◌, ◌&&◌, if◌then◌else◌,
}
use cmips_cen.Vr4300.Icache.{
  Icache, IcacheLine, index, page, get_line, fill, invalidate, invalidate_hit, probe, set_taglo,
}

abbrev words_of : Option IcacheLine → Option (ℕ → ℕ)
words_of none = none
words_of (some line) = some line.words

-- The words that a fetch reads from the cache, if it hits
abbrev pub fetch : Icache → (vaddr paddr : ℕ) → Option (ℕ → ℕ)
fetch icache vaddr paddr = words_of (probe icache vaddr paddr)

-- After each operation of the cache a fetch at any address does this: at another line it finds what
-- it found before. At the line of a fill it finds the new words exactly when the page is the one
-- filled. An invalidated line is a miss for every page; an invalidation on a hit makes a miss for
-- its page and changes nothing for others; a line whose tag is written hits with its old words
-- exactly when the tag is the page and the state bit 7 is set.
pub fetch_after :
    (icache : Icache) (vaddr paddr taglo v p : ℕ) (words : ℕ → ℕ)
    → let here = index v == index vaddr in
      let before = fetch icache v p in
      (fetch (fill vaddr paddr words icache) v p
        ≡ (if here then if page p == page paddr then some words else none else before))
      × (fetch (invalidate vaddr icache) v p ≡ (if here then none else before))
      × (fetch (invalidate_hit vaddr paddr icache) v p
          ≡ (if here && page p == page paddr then none else before))
      × (fetch (set_taglo vaddr taglo icache) v p ≡ (
          if here
          then if taglo / 2 ^ 8 % 2 ^ 20 * 2 ^ 12 == page p && taglo / 2 ^ 7 % 2 == 1
            then some (get_line icache vaddr).words
            else none
          else before))
unfolding probe fill invalidate invalidate_hit set_taglo
fetch_after icache vaddr paddr taglo v p words =
    (ground arith, ground arith, ground arith, ground arith)
