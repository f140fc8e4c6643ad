-- ===== src/Srec/Rests.antt =====
-- What each function of src/srec.c does with the result of the reader that it calls, for a file.
use cmips_cen.Base.{ℕ, ◌+◌, ◌*◌, Option, none, some, u32, sub32}
use cmips_cen.Machine.{Mips}
use cmips_cen.Srec.{
  Stream, file_loader, writeb, after_store, Loading, going, failed, overran, stuck, LoadResult,
  rejected, undefined, out_of_fuel, read_hex, srec_read_address, srec_load_data, end_record,
  load_srec_mips,
}

-- `read_hex` once a character is tested
abbrev pub after_digit : (n acc : ℕ) → Stream → Option ℕ → Option (ℕ × Stream)
after_digit n acc s o = elim o [ none ↦ none | some d ↦ read_hex file_loader n (acc * 16 + d) s ]

abbrev pub after_byte : (n a : ℕ) → Mips → Option (ℕ × Stream) → Loading Stream
after_byte n a m o = elim o [
  | none ↦ failed m
  | some r ↦
      after_store a m (writeb a r.0 m) (λ m1. srec_load_data file_loader n (u32 (a + 1)) r.1 m1)
]

abbrev pub after_skip : Mips → Option Stream → Loading Stream
after_skip m o = elim o [ none ↦ stuck | some s ↦ going s m ]

abbrev pub after_address : ℕ → Option (ℕ × Stream) → Option ((ℕ × ℕ) × Stream)
after_address n o = elim o [ none ↦ none | some a ↦ some ((n, a.0), a.1) ]

abbrev pub after_count : Option (ℕ × Stream) → Option ((ℕ × ℕ) × Stream)
after_count o = elim o [
  | none ↦ none
  | some c ↦ after_address c.0 (srec_read_address file_loader c.1)
]

abbrev pub after_load : ℕ → Loading Stream → Loading Stream
after_load fuel l = elim l [
  | going s m ↦ end_record file_loader fuel s m
  | failed m ↦ failed m
  | overran a m ↦ overran a m
  | stuck ↦ stuck
]

abbrev pub after_s3 : ℕ → Mips → Option ((ℕ × ℕ) × Stream) → Loading Stream
after_s3 fuel m o = elim o [
  | none ↦ failed m
  | some h ↦ after_load fuel (srec_load_data file_loader (sub32 h.0.0 5) h.0.1 h.1 m)
]

abbrev pub after_s7 : ℕ → Mips → Option ((ℕ × ℕ) × Stream) → Loading Stream
after_s7 fuel m o = elim o [
  | none ↦ failed m
  | some h ↦ end_record file_loader fuel h.1 (record m { pc = h.0.1 })
]

abbrev pub after_record : ℕ → Loading Stream → LoadResult
after_record fuel l = elim l [
  | going s m ↦ load_srec_mips file_loader fuel s m
  | failed m ↦ rejected m
  | overran a m ↦ undefined a m
  | stuck ↦ out_of_fuel
]
