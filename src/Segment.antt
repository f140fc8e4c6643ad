-- ===== src/Segment.antt =====
-- vr4300/segment.c: the segment of a 64-bit virtual address.
pub mod Found
pub mod Mode
use cmips_cen.Base.{
  ℕ, ◌+◌, ◌*◌, ◌/◌, ◌%◌, ◌^◌, Bool, true, false, not, List, [], ◌∷◌, Option, none, some, ◌&&◌, ◌==◌,
  leb, ltb, if◌then◌else◌, get_elem?, sub64,
}

-- `struct segment`
pub record Segment : Type 0 where
  pub start : ℕ
  pub length : ℕ
  pub offset : ℕ
  pub xmode_mask : ℕ
  pub mapped : Bool
  pub cached : Bool

-- `USEGs`
abbrev pub useg : Segment
useg = record {
  start = 0;
  length = 0x80000000;
  offset = 0;
  xmode_mask = 0x20;
  mapped = true;
  cached = false;
}

abbrev pub xuseg : Segment
xuseg = record {
  start = 0;
  length = 0x10000000000;
  offset = 0;
  xmode_mask = 0x20;
  mapped = true;
  cached = true;
}

-- `XSSEG`
abbrev pub xsseg : Segment
xsseg = record {
  start = 0x4000000000000000;
  length = 0x10000000000;
  offset = 0;
  xmode_mask = 0x40;
  mapped = true;
  cached = true;
}

-- The entries of `KSEGs`
abbrev pub kseg : (start offset : ℕ) → (mapped cached : Bool) → Segment
kseg start offset mapped cached = record {
  start = start;
  length = 0x20000000;
  offset = offset;
  xmode_mask = 0x80;
  mapped = mapped;
  cached = cached;
}

unfoldable pub ksegs : ℕ → Segment
ksegs i =
    if i == 0
    then kseg 0xFFFFFFFF80000000 0xFFFFFFFF80000000 false true
    else if i == 1
    then kseg 0xFFFFFFFFA0000000 0xFFFFFFFFA0000000 false false
    else if i == 2
    then kseg 0xFFFFFFFFC0000000 0 true true
    else kseg 0xFFFFFFFFE0000000 0 true true

-- `XKSEG`
abbrev pub xkseg : Segment
xkseg = record {
  start = 0xC000000000000000;
  length = 0x10000000000;
  offset = 0;
  xmode_mask = 0x80;
  mapped = true;
  cached = true;
}

-- `XKPHYS0` to `XKPHYS7`, which are alike but for the start and the cache
abbrev pub xkphys : ℕ → Bool → Segment
xkphys start cached = record {
  start = start;
  length = 0x100000000;
  offset = start;
  xmode_mask = 0x80;
  mapped = false;
  cached = cached;
}

-- `kernel_segs_lut`
unfoldable pub kernel_segs_lut : ℕ → Segment
kernel_segs_lut i =
    if i == 0
    then xkphys 0x8000000000000000 true
    else if i == 1
    then xkphys 0x8800000000000000 true
    else if i == 2
    then xkphys 0x9000000000000000 false
    else if i == 3
    then xkphys 0x9800000000000000 true
    else if i == 4
    then xkphys 0xA000000000000000 true
    else if i == 5
    then xkphys 0xA800000000000000 true
    else if i == 6
    then xkphys 0xB000000000000000 true
    else if i == 7
    then xkphys 0xB800000000000000 true
    else xkseg

-- `get_default_segment`
abbrev pub get_default_segment : Segment
get_default_segment = record {
  start = 1;
  length = 0;
  offset = 0;
  xmode_mask = 0;
  mapped = false;
  cached = false;
}

-- The two values of `segment_mode_lut`: 0, and the size of an entry of `USEGs`
abbrev o : Bool
o = false

abbrev x : Bool
x = true

-- `segment_mode_lut`
unfoldable pub segment_mode_lut : List Bool
segment_mode_lut =
    o ∷ o ∷ o ∷ o ∷ o ∷ o ∷ o ∷ o ∷ o ∷ o ∷ o ∷ o ∷ o ∷ o ∷ o ∷ o ∷ o ∷ o ∷ o ∷ o ∷ o ∷ o ∷ o ∷ o
    ∷ o ∷ o ∷ o ∷ o ∷ o ∷ o ∷ o ∷ o ∷ o ∷ o ∷ o ∷ o ∷ o ∷ o ∷ o ∷ o ∷ o ∷ o ∷ o ∷ o ∷ o ∷ o ∷ o ∷ o
    ∷ x ∷ x ∷ o ∷ o ∷ o ∷ o ∷ o ∷ o ∷ o ∷ o ∷ o ∷ o ∷ o ∷ o ∷ o ∷ o ∷ o ∷ o ∷ o ∷ o ∷ o ∷ o ∷ o ∷ o
    ∷ x ∷ x ∷ o ∷ o ∷ o ∷ o ∷ o ∷ o ∷ o ∷ o ∷ o ∷ o ∷ o ∷ o ∷ o ∷ o ∷ o ∷ o ∷ o ∷ o ∷ o ∷ o ∷ o ∷ o
    ∷ o ∷ o ∷ o ∷ o ∷ o ∷ o ∷ o ∷ o ∷ x ∷ x ∷ o ∷ o ∷ o ∷ o ∷ o ∷ o ∷ x ∷ x ∷ o ∷ o ∷ o ∷ o ∷ o ∷ o
    ∷ o ∷ o ∷ o ∷ o ∷ o ∷ o ∷ o ∷ o ∷ x ∷ x ∷ x ∷ x ∷ x ∷ x ∷ x ∷ x ∷ o ∷ o ∷ x ∷ x ∷ x ∷ x ∷ x ∷ x
    ∷ o ∷ o ∷ x ∷ x ∷ x ∷ x ∷ x ∷ x ∷ o ∷ o ∷ x ∷ x ∷ x ∷ x ∷ x ∷ x ∷ x ∷ x ∷ x ∷ x ∷ x ∷ x ∷ x ∷ x
    ∷ o ∷ o ∷ x ∷ x ∷ x ∷ x ∷ x ∷ x ∷ x ∷ x ∷ x ∷ x ∷ x ∷ x ∷ x ∷ x ∷ o ∷ o ∷ x ∷ x ∷ x ∷ x ∷ x ∷ x
    ∷ x ∷ x ∷ x ∷ x ∷ x ∷ x ∷ x ∷ x ∷ x ∷ x ∷ x ∷ x ∷ x ∷ x ∷ x ∷ x ∷ o ∷ o ∷ x ∷ x ∷ x ∷ x ∷ x ∷ x
    ∷ o ∷ o ∷ x ∷ x ∷ x ∷ x ∷ x ∷ x ∷ x ∷ x ∷ x ∷ x ∷ x ∷ x ∷ x ∷ x ∷ x ∷ x ∷ x ∷ x ∷ x ∷ x ∷ x ∷ x
    ∷ x ∷ x ∷ x ∷ x ∷ x ∷ x ∷ x ∷ x ∷ o ∷ o ∷ x ∷ x ∷ x ∷ x ∷ x ∷ x ∷ []

-- `segment_mode_lut[cp0_status & 0xFF]`
unfoldable pub segment_mode : ℕ → Bool
segment_mode cp0_status = elim (get_elem? segment_mode_lut (cp0_status % 2 ^ 8)) [
  | none ↦ false
  | some wide ↦ wide
]

-- `cp0_status & 0x1E`
abbrev pub mode_and_flags : ℕ → ℕ
mode_and_flags cp0_status = cp0_status / 2 % 2 ^ 4 * 2

-- The segment that `get_segment` tries last, outside of user mode
unfoldable pub candidate : (address mode : ℕ) → Segment
candidate address mode =
    if not (mode == 8) && ltb (sub64 address 0x8000000000000000) 0x400000FF80000000
    then kernel_segs_lut (address / 2 ^ 59 % 2 ^ 4)
    else ksegs 2

-- `get_segment`; `none` is NULL.
unfoldable pub get_segment : (address cp0_status : ℕ) → Option Segment
get_segment address cp0_status =
    let mode = mode_and_flags cp0_status in
    let user = if segment_mode cp0_status then xuseg else useg in
    if ltb address user.length
    then some user
    else if mode == 0x10
    then none
    else if address / 2 ^ 40 == 0x400000
    then some xsseg
    else if not (mode == 8) && leb 0xFFFFFFFF80000000 address
    then some (ksegs (address / 2 ^ 29 % 4))
    else (let seg = candidate address mode in
        if ltb (sub64 address seg.start) seg.length then some seg else none)
