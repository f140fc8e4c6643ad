-- ===== src/Vr4300/Icache.antt =====
-- vr4300/icache.c: the instruction cache, virtually indexed and physically tagged. The address of a
-- line in `lines` is the line itself; a word of a line is four bytes in the order of the host.
pub mod Probe
use cmips_cen.Base.{
  ℕ, ◌+◌, ◌*◌, ◌/◌, ◌%◌, ◌^◌, Bool, Option, none, some, ◌==◌, ◌&&◌, if◌then◌else◌, update, bit,
  set_bit, clear_bit,
}

-- `struct vr4300_icache_line`
pub record IcacheLine : Type 0 where
  pub words : ℕ → ℕ
  pub metadata : ℕ

-- `struct vr4300_icache`
abbrev pub Icache : Type 0
Icache = ℕ → IcacheLine

-- `vaddr >> 5 & 0x1FF`
abbrev pub index : ℕ → ℕ
index vaddr = vaddr / 2 ^ 5 % 2 ^ 9

-- `paddr & ~0xFFFU`
abbrev pub page : ℕ → ℕ
page paddr = paddr / 2 ^ 12 * 2 ^ 12

-- `get_line` and `get_line_const`
abbrev pub get_line : Icache → ℕ → IcacheLine
get_line icache vaddr = icache (index vaddr)

-- A write through the pointer that `get_line` returns
abbrev pub put_line : ℕ → IcacheLine → Icache → Icache
put_line vaddr line icache = update icache (index vaddr) line

-- `get_tag`
abbrev pub get_tag : IcacheLine → ℕ
get_tag line = page line.metadata

-- `invalidate_line`
unfoldable pub invalidate_line : IcacheLine → IcacheLine
unfolding clear_bit bit
invalidate_line line = record line { metadata = clear_bit 0 line.metadata }

-- `is_valid`
unfoldable pub is_valid : IcacheLine → Bool
unfolding bit
is_valid line = bit 0 line.metadata

-- `set_taglo`
unfoldable pub set_line_taglo : ℕ → IcacheLine → IcacheLine
set_line_taglo taglo line = record line {
  metadata = taglo / 2 ^ 8 % 2 ^ 20 * 2 ^ 12 + taglo / 2 ^ 7 % 2;
}

-- `validate_line`
unfoldable pub validate_line : ℕ → IcacheLine → IcacheLine
unfolding set_bit bit
validate_line tag line = record line { metadata = set_bit 0 tag }

-- `vr4300_icache_fill`
unfoldable pub fill : (vaddr paddr : ℕ) → (ℕ → ℕ) → Icache → Icache
unfolding validate_line update
fill vaddr paddr words icache =
    put_line vaddr (validate_line (page paddr) (record (get_line icache vaddr) { words = words }))
      icache

-- `vr4300_icache_get_tag`
unfoldable pub line_address : Icache → ℕ → ℕ
line_address icache vaddr = get_tag (get_line icache vaddr) + vaddr / 2 ^ 5 % 2 ^ 7 * 2 ^ 5

-- `vr4300_icache_invalidate`
unfoldable pub invalidate : ℕ → Icache → Icache
unfolding invalidate_line update
invalidate vaddr icache = put_line vaddr (invalidate_line (get_line icache vaddr)) icache

abbrev pub hits : IcacheLine → ℕ → Bool
hits line paddr = get_tag line == page paddr && is_valid line

-- `vr4300_icache_invalidate_hit`
unfoldable pub invalidate_hit : (vaddr paddr : ℕ) → Icache → Icache
unfolding invalidate_line is_valid update
invalidate_hit vaddr paddr icache =
    if hits (get_line icache vaddr) paddr
    then put_line vaddr (invalidate_line (get_line icache vaddr)) icache
    else icache

-- `vr4300_icache_probe`
unfoldable pub probe : Icache → (vaddr paddr : ℕ) → Option IcacheLine
unfolding is_valid
probe icache vaddr paddr =
    let line = get_line icache vaddr in if hits line paddr then some line else none

-- `vr4300_icache_set_taglo`
unfoldable pub set_taglo : (vaddr taglo : ℕ) → Icache → Icache
unfolding set_line_taglo update
set_taglo vaddr taglo icache = put_line vaddr (set_line_taglo taglo (get_line icache vaddr)) icache
