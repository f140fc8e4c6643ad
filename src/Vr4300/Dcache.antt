-- ===== src/Vr4300/Dcache.antt =====
-- vr4300/dcache.c: the data cache, virtually indexed and physically tagged. A line holds four
-- words; the two low bits of its metadata are the states valid and dirty. A function that takes or
-- returns a pointer to a line works on the line, which its caller writes back by `put_line`.
pub mod Probe
use cmips_cen.Base.{
  ℕ, ◌+◌, ◌*◌, ◌/◌, ◌%◌, ◌^◌, Bool, Option, none, some, ◌==◌, ◌&&◌, if◌then◌else◌, update, bit,
  set_bit, clear_bit,
}

-- `struct vr4300_dcache_line`
pub record DcacheLine : Type 0 where
  pub words : ℕ → ℕ
  pub metadata : ℕ

-- `struct vr4300_dcache`
abbrev pub Dcache : Type 0
Dcache = ℕ → DcacheLine

-- `vaddr >> 4 & 0x1FF`
abbrev pub index : ℕ → ℕ
index vaddr = vaddr / 2 ^ 4 % 2 ^ 9

-- `paddr & ~0xFFFU`
abbrev pub page : ℕ → ℕ
page paddr = paddr / 2 ^ 12 * 2 ^ 12

-- `get_line`
abbrev pub get_line : Dcache → ℕ → DcacheLine
get_line dcache vaddr = dcache (index vaddr)

-- A write through the pointer that `get_line` returns
unfoldable pub put_line : ℕ → DcacheLine → Dcache → Dcache
unfolding update
put_line vaddr line dcache = update dcache (index vaddr) line

-- `get_tag`
abbrev pub get_tag : DcacheLine → ℕ
get_tag line = page line.metadata

-- `invalidate_line` and `vr4300_dcache_invalidate`
unfoldable pub invalidate_line : DcacheLine → DcacheLine
unfolding clear_bit bit
invalidate_line line = record line { metadata = clear_bit 0 line.metadata }

-- `is_dirty`
unfoldable pub is_dirty : DcacheLine → Bool
unfolding bit
is_dirty line = bit 1 line.metadata

-- `is_valid`
unfoldable pub is_valid : DcacheLine → Bool
unfolding bit
is_valid line = bit 0 line.metadata

-- `set_dirty` and `vr4300_dcache_set_dirty`
unfoldable pub set_dirty : DcacheLine → DcacheLine
unfolding set_bit bit
set_dirty line = record line { metadata = set_bit 1 line.metadata }

-- `set_tag`
unfoldable pub set_tag : ℕ → DcacheLine → DcacheLine
set_tag tag line = record line { metadata = tag + line.metadata % 2 }

-- `set_taglo`
unfoldable pub set_line_taglo : ℕ → DcacheLine → DcacheLine
set_line_taglo taglo line = record line {
  metadata = taglo / 2 ^ 8 % 2 ^ 20 * 2 ^ 12 + taglo / 2 ^ 7 % 2 + taglo / 2 ^ 6 % 2 * 2;
}

-- `validate_line`
unfoldable pub validate_line : ℕ → DcacheLine → DcacheLine
unfolding set_bit bit
validate_line tag line = record line { metadata = set_bit 0 tag }

-- `vr4300_dcache_create_dirty_exclusive`
unfoldable pub create_dirty_exclusive : (vaddr paddr : ℕ) → Dcache → Dcache
unfolding set_tag set_dirty put_line
create_dirty_exclusive vaddr paddr dcache =
    put_line vaddr (set_dirty (set_tag (page paddr) (get_line dcache vaddr))) dcache

-- `vr4300_dcache_fill`
unfoldable pub fill : (vaddr paddr : ℕ) → (ℕ → ℕ) → Dcache → Dcache
unfolding validate_line put_line
fill vaddr paddr words dcache =
    put_line vaddr (validate_line (page paddr) (record (get_line dcache vaddr) { words = words }))
      dcache

-- `vr4300_dcache_get_tag`
unfoldable pub line_address : DcacheLine → ℕ → ℕ
line_address line vaddr = get_tag line + vaddr / 2 ^ 4 % 2 ^ 8 * 2 ^ 4

-- `vr4300_dcache_get_taglo`
unfoldable pub get_taglo : Dcache → ℕ → ℕ
get_taglo dcache vaddr =
    let m = (get_line dcache vaddr).metadata in m % 2 * 2 + m / 2 % 2 + m / 2 ^ 12 % 2 ^ 20 * 2 ^ 8

abbrev pub hits : DcacheLine → ℕ → Bool
hits line paddr = get_tag line == page paddr && is_valid line

-- `vr4300_dcache_invalidate_hit`
unfoldable pub invalidate_hit : (vaddr paddr : ℕ) → Dcache → Dcache
unfolding invalidate_line is_valid put_line
invalidate_hit vaddr paddr dcache =
    if hits (get_line dcache vaddr) paddr
    then put_line vaddr (invalidate_line (get_line dcache vaddr)) dcache
    else dcache

-- `vr4300_dcache_probe`
unfoldable pub probe : Dcache → (vaddr paddr : ℕ) → Option DcacheLine
unfolding is_valid
probe dcache vaddr paddr =
    let line = get_line dcache vaddr in if hits line paddr then some line else none

-- `vr4300_dcache_set_taglo`
unfoldable pub set_taglo : (vaddr taglo : ℕ) → Dcache → Dcache
unfolding set_line_taglo put_line
set_taglo vaddr taglo dcache = put_line vaddr (set_line_taglo taglo (get_line dcache vaddr)) dcache

-- `vr4300_dcache_should_flush_line`
unfoldable pub should_flush_line : Dcache → ℕ → Option DcacheLine
unfolding is_dirty is_valid
should_flush_line dcache vaddr =
    let line = get_line dcache vaddr in if is_dirty line && is_valid line then some line else none

-- `vr4300_dcache_wb_invalidate`: the line as the caller sees it through the pointer, which is no
-- longer valid, and the cache
unfoldable pub wb_invalidate : ℕ → Dcache → Option DcacheLine × Dcache
unfolding is_valid invalidate_line put_line
wb_invalidate vaddr dcache =
    let line = get_line dcache vaddr in
    if is_valid line
    then (some (invalidate_line line), put_line vaddr (invalidate_line line) dcache)
    else (none, dcache)
