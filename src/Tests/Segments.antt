-- ===== src/Tests/Segments.antt =====
-- Addresses in kernel mode
use cmips_cen.Base.{◌≡◌, refl, arith, true, bit}
use cmips_cen.Segment.{get_segment, segment_mode}
use cmips_cen.Segment.Found.{Holds, get_segment-Holds}
use cmips_cen.Segment.Mode.{kernel, use_64, segment_mode-use_64}

get_segment-Holds_example : Holds 0xFFFFFFFFA0001000 (get_segment 0xFFFFFFFFA0001000 0)
get_segment-Holds_example = get_segment-Holds 0xFFFFFFFFA0001000 0 (omega arith)

status_kernel : kernel 0 ≡ true
unfolding bit
status_kernel = refl

segment_mode-use_64_example : segment_mode 0x90 ≡ use_64 0x90
segment_mode-use_64_example = segment_mode-use_64 0x90
