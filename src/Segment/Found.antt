-- ===== src/Segment/Found.antt =====
-- The segment that `get_segment` of vr4300/segment.c finds.
use cmips_cen.Base.{
  ℕ, ◌+◌, ◌-◌, ◌/◌, ◌%◌, ◌^◌, ◌<◌, ◌≤◌, ◌≡◌, refl, arith, Bool, true, false, not, ◌&&◌, ◌==◌, leb,
  ltb, if◌then◌else◌, if_ind, if_cases, Option, none, some, sub64, bit,
}
use cmips_cen.Segment.Mode.{kernel}
use cmips_cen.Segment.{
  Segment, useg, xuseg, ksegs, kernel_segs_lut, segment_mode, mode_and_flags, candidate,
  get_segment,
}

-- An address in the range of a segment
pub record IsWithin (address : ℕ) (seg : Segment) : Type 0 where
  pub from_start : seg.start ≤ address
  pub to_end : address < seg.start + seg.length

-- What `get_segment` promises of the segment that it returns
pub Holds : ℕ → Option Segment → Type 0
Holds address none = Unit
Holds address (some seg) = IsWithin address seg

-- Segments end in the address space.
bounded_lut : (i : ℕ) → (kernel_segs_lut i).start + (kernel_segs_lut i).length ≤ 2 ^ 64
unfolding kernel_segs_lut
bounded_lut i = ground arith

bounded_candidate :
    (address mode : ℕ) → (candidate address mode).start + (candidate address mode).length ≤ 2 ^ 64
unfolding candidate ksegs
bounded_candidate address mode =
    if_ind (λ (s : Segment). s.start + s.length ≤ 2 ^ 64)
      (not (mode == 8) && ltb (sub64 address 0x8000000000000000) 0x400000FF80000000)
      (bounded_lut (address / 2 ^ 59 % 2 ^ 4)) (omega arith)

-- The test of the last branch, in which the difference wraps
last-IsWithin :
    (address : ℕ) (seg : Segment)
    → address < 2 ^ 64
    → seg.start + seg.length ≤ 2 ^ 64
    → ltb (sub64 address seg.start) seg.length ≡ true
    → IsWithin address seg
last-IsWithin address seg h b t = record { from_start = ground arith; to_end = ground arith }

kseg-IsWithin :
    (address : ℕ)
    → address < 2 ^ 64
    → 0xFFFFFFFF80000000 ≤ address
    → IsWithin address (ksegs (address / 2 ^ 29 % 4))
unfolding ksegs
kseg-IsWithin address h b = record { from_start = ground arith; to_end = ground arith }

low-IsWithin :
    (address : ℕ) (wide : Bool)
    → ltb address (if wide then xuseg else useg).length ≡ true
    → IsWithin address (if wide then xuseg else useg)
low-IsWithin address true t = record { from_start = omega arith; to_end = ground arith }
low-IsWithin address false t = record { from_start = omega arith; to_end = ground arith }

high_user :
    (address : ℕ) (wide : Bool)
    → 2 ^ 41 ≤ address
    → ltb address (if wide then xuseg else useg).length ≡ false
high_user address true t = ground arith
high_user address false t = ground arith

-- Whatever the mode, a segment that is found holds the address: it starts at or before it and ends
-- after it.
pub get_segment-Holds :
    (address status : ℕ) → address < 2 ^ 64 → Holds address (get_segment address status)
unfolding get_segment Holds
get_segment-Holds address status h =
    let P = Holds address in
    let mode = mode_and_flags status in
    let wide = segment_mode status in
    let seg = candidate address mode in
    if_cases P (ltb address (if wide then xuseg else useg).length)
      (λ t. low-IsWithin address wide t)
      (λ _. if_ind P (mode == 0x10) tt (
        if_cases P (address / 2 ^ 40 == 0x400000)
          (λ t. record { from_start = ground arith; to_end = ground arith })
          (λ _.
            if_cases P (not (mode == 8) && leb 0xFFFFFFFF80000000 address)
              (λ t. kseg-IsWithin address h (ground arith))
              (λ _.
                if_cases P (ltb (sub64 address seg.start) seg.length)
                  (last-IsWithin address seg h (bounded_candidate address mode)) (λ _. tt)))))

-- In kernel mode the two unmapped segments of the 32-bit address space are found at their places, and
-- an address less the offset of its segment is below 512 MB, kept in its low 29 bits.
pub get_segment_unmapped :
    (address status : ℕ)
    → 0xFFFFFFFF80000000 ≤ address
    → address < 0xFFFFFFFFC0000000
    → kernel status ≡ true
    → (seg : Segment) × (get_segment address status ≡ some seg)
      × (seg.mapped ≡ false)
      × (seg.cached ≡ ltb address 0xFFFFFFFFA0000000)
      × (address - seg.offset ≡ address % 2 ^ 29)
unfolding get_segment ksegs bit
get_segment_unmapped address status lo hi k =
    let i = address / 2 ^ 29 % 4 in
    let user : ltb address (if segment_mode status then xuseg else useg).length ≡ false =
      high_user address (segment_mode status) (omega arith) in
    let a : mode_and_flags status == 0x10 ≡ false = ground arith in
    let b : mode_and_flags status == 8 ≡ false = ground arith in
    let c : address / 2 ^ 40 == 0x400000 ≡ false = ground arith in
    let d : leb 0xFFFFFFFF80000000 address ≡ true = ground arith in
    (ksegs i, rw (user, a, b, c, d) refl, ground arith, ground arith, ground arith)
