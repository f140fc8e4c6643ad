-- ===== src/Srec/Print/Load.antt =====
-- The loader of src/srec.c on a file of well-formed records.
use cmips_cen.Base.{
  ℕ, zero, suc, ◌+◌, ◌%◌, ◌^◌, ◌<◌, ◌≤◌, ◌≡◌, inl, inr, refl, ap, sym, ◌∙◌, arith, List, [], ◌∷◌,
  sub32, length,
}
use cmips_cen.Machine.{Mips}
use cmips_cen.Srec.{
  fnext_char, file_loader, going, loaded, srec_read_type, srec_load_data, load_s3, load_s7,
  load_record, load_srec_mips, load_srec_from_file_mips,
}
use cmips_cen.Emu.Access.Ram.{byte_at}
use cmips_cen.Srec.Rests.{after_load, after_s3, after_s7, after_record}
use cmips_cen.Srec.Print.{
  Record, header, data_at, start, digits2, print_bytes, sum, checksum, sum_bytes, print_record,
  print, FitsIn, IsRecord, AreRecords, AreBytes, bytes_of, start_of, write_all, apply, apply_all,
  size, total,
}
use cmips_cen.Srec.Print.Digits.{
  at, IsUnmapped, load_data-print, end_record-print, digits2-IsLine, read_header-print,
}
use cmips_cen.Srec.Print.Image.{byte_at-apply_all, pmemsz-apply, OnlyLoaded-apply_all, pc-apply_all}

-- An address of kseg0 or kseg1 is a start and a place.
split_address :
    (size a n : ℕ)
    → FitsIn size a n
    → (segment : ℕ) × IsUnmapped segment × (a ≡ segment + a % 2 ^ 29)
unfolding FitsIn IsUnmapped
split_address size a n (inl e, _, _) = (0x80000000, inl refl, omega (arith, e))
split_address size a n (inr e, _, _) = (0xa0000000, inr refl, omega (arith, e))

fits_place :
    (size a n : ℕ)
    → FitsIn size a n
    → (a < 2 ^ 32) × (a % 2 ^ 29 + n ≤ size) × (a % 2 ^ 29 + n ≤ 2 ^ 29)
unfolding FitsIn
fits_place size a n h = (let e = h.0 in omega (arith, e), h.1, h.2)

load_data-write_all :
    (size a : ℕ) (bs r : List ℕ) (m : Mips)
    → size ≡ m.pmemsz
    → FitsIn size a (length bs)
    → AreBytes bs
    → srec_load_data file_loader (length bs) a (at (print_bytes bs r)) m
      ≡ going (at r) (write_all (a % 2 ^ 29) bs m)
load_data-write_all size a bs r m e fit h =
    let p = a % 2 ^ 29 in
    let s = split_address size a (length bs) fit in
    let f = fits_place size a (length bs) fit in
    ap (λ k. srec_load_data file_loader (length bs) k (at (print_bytes bs r)) m) s.2
    ∙ load_data-print s.0 p bs r m s.1 (let f1 = f.1 in omega (arith, f1, e)) f.2 h

-- The record that is printed is the record that is loaded.
load_record-print :
    (z : ℕ) (x : Record) (r : List ℕ) (fuel : ℕ) (m : Mips)
    → z ≡ m.pmemsz
    → IsRecord z x
    → size x ≤ suc fuel
    → let s = at (print_record x r) in
      load_record file_loader fuel
        (srec_read_type file_loader s).0
        (srec_read_type file_loader s).1
        m
      ≡ going (at r) (apply x m)
unfolding load_record srec_read_type fnext_char print_record load_s3 load_s7 IsRecord size apply
load_record-print z (header text) r fuel m same h enough =
    end_record-print fuel text r m (omega arith) h
load_record-print z (data_at a bs) r fuel m same h enough =
    let c = checksum (length bs + 5 + sum_bytes a + sum bs) in
    let tail = digits2 c (10 ∷ r) in
    let count : sub32 (length bs + 5) 5 ≡ length bs = (let short = h.1 in omega (arith, short)) in
    ap (after_s3 fuel m) (
      read_header-print (length bs + 5) a (print_bytes bs tail) h.1
        (fits_place z a (length bs) h.0).0)
    ∙ ap (λ n. after_load fuel (srec_load_data file_loader n a (at (print_bytes bs tail)) m)) count
    ∙ ap (after_load fuel) (load_data-write_all z a bs tail m same h.0 h.2)
    ∙ end_record-print fuel (digits2 c []) r (write_all (a % 2 ^ 29) bs m) (omega arith)
        (digits2-IsLine c)
load_record-print z (start a) r fuel m same h enough =
    let c = checksum (5 + sum_bytes a) in
    ap (after_s7 fuel m) (read_header-print 5 a (digits2 c (10 ∷ r)) (omega arith) h)
    ∙ end_record-print fuel (digits2 c []) r (record m { pc = a }) (omega arith) (digits2-IsLine c)

size_pos : (x : Record) → 1 ≤ size x
unfolding size
size_pos (header text) = omega arith
size_pos (data_at a bs) = omega arith
size_pos (start a) = omega arith

load_srec-apply_all :
    (z : ℕ) (xs : List Record) (fuel : ℕ) (m : Mips)
    → z ≡ m.pmemsz
    → AreRecords z xs
    → total xs ≤ fuel
    → load_srec_from_file_mips fuel (print xs) m ≡ loaded (apply_all xs m)
unfolding load_srec_mips print apply_all AreRecords total srec_read_type fnext_char load_record
load_srec-apply_all z [] zero m same h enough = absurd (omega arith)
load_srec-apply_all z [] (suc zero) m same h enough = absurd (omega arith)
load_srec-apply_all z [] (suc (suc fuel)) m same h enough = refl
load_srec-apply_all z (x ∷ xs) zero m same h enough =
    let e : size x + total xs ≤ 0 = enough in absurd (omega (arith, size_pos x, e))
load_srec-apply_all z (x ∷ xs) (suc fuel) m same h enough =
    let e : size x + total xs ≤ suc fuel = enough in
    ap (after_record fuel) (load_record-print z x (print xs) fuel m same h.0 (omega (arith, e)))
    ∙ load_srec-apply_all z xs fuel (apply x m) (same ∙ sym (pmemsz-apply x m)) h.1
        (omega (arith, size_pos x, e))

-- Loading the text of any list of records whose data lies in the memory, at addresses of kseg0 or
-- kseg1, with enough fuel, succeeds. Every byte of the memory is then the one that the last record
-- for its place holds, or the one from before where no record has it; the program counter is the
-- address of the last start record, or the one from before; nothing else of the machine is changed,
-- and comments and checksums are passed over.
pub load_srec-print :
    (xs : List Record) (fuel : ℕ) (m : Mips)
    → AreRecords m.pmemsz xs
    → total xs ≤ fuel
    → (m' : Mips) × (load_srec_from_file_mips fuel (print xs) m ≡ loaded m')
      × ((q : ℕ) → byte_at m' q ≡ bytes_of xs (byte_at m) q)
      × (m'.pc ≡ start_of xs m.pc)
      × (m' ≡ record m { mem = m'.mem; pc = m'.pc })
load_srec-print xs fuel m h enough = (
  apply_all xs m,
  load_srec-apply_all m.pmemsz xs fuel m refl h enough,
  (λ q. ap (λ f. f q) (byte_at-apply_all m.pmemsz xs m h)),
  pc-apply_all xs m,
  OnlyLoaded-apply_all xs m,
)
