-- ===== src/Tests/Loader.antt =====
-- Files of S-records for the small machine
use cmips_cen.Base.{ℕ, ◌%◌, ◌^◌, inl, update, ◌+◌, ◌≤◌, ◌≡◌, refl, arith, ◌⊎◌, List, [], ◌∷◌}
use cmips_cen.Machine.{Mips, ok}
use cmips_cen.Emu.Access.{read_virt_byte}
use cmips_cen.Emu.Access.Ram.{kseg0, byte_at}
use cmips_cen.Srec.{
  loaded, rejected, undefined, load_srec_mips, load_record, load_s3, read_header, srec_read_type,
  srec_read_byte, srec_read_address, read_hex, hex_digit, fnext_char, srec_load_data, writeb,
  load_srec_from_file_mips,
}
use cmips_cen.Srec.Print.{
  Record, header, data_at, start, print, FitsIn, bytes_of, put_bytes, start_of, print_bytes,
  AreBytes, AreRecords, IsRecord, IsLine, total, size, print_record,
}
use cmips_cen.Srec.Print.Load.{load_srec-print}
use cmips_cen.Srec.Readback.{load_srec-read}
use cmips_cen.Srec.Total.{load_srec_returns}
use cmips_cen.Tests.{machine}

abbrev file : List Record
file = header (72 ∷ []) ∷ data_at 0x80000010 (1 ∷ 0xff ∷ []) ∷ start 0x80000010 ∷ []

file-AreRecords : AreRecords machine.pmemsz file
unfolding AreRecords IsRecord FitsIn IsLine AreBytes
file-AreRecords = (
  (refl, tt),
  (
    ((inl (omega arith), omega arith, omega arith), omega arith, (omega arith, (omega arith, tt))),
    (omega arith, tt),
  ),
)

file_fuel : total file ≤ 20
unfolding total size
file_fuel = omega arith

load_srec-print_example :
    (m' : Mips) × (load_srec_from_file_mips 20 (print file) machine ≡ loaded m')
    × ((q : ℕ) → byte_at m' q ≡ bytes_of file (byte_at machine) q)
    × (m'.pc ≡ start_of file machine.pc)
    × (m' ≡ record machine { mem = m'.mem; pc = m'.pc })
load_srec-print_example = load_srec-print file 20 machine file-AreRecords file_fuel

file-bytes : (bytes_of file (byte_at machine) 17 ≡ 0xff) × (start_of file machine.pc ≡ 0x80000010)
unfolding bytes_of put_bytes start_of update
file-bytes = (refl, refl)

-- The text is that of `S7 05 80000010 6A`.
print-start :
    print (start 0x80000010 ∷ [])
    ≡ 83 ∷ 55 ∷ 48 ∷ 53 ∷ 56 ∷ 48 ∷ 48 ∷ 48 ∷ 48 ∷ 48 ∷ 49 ∷ 48 ∷ 54 ∷ 65 ∷ 10 ∷ []
unfolding print print_record
print-start = refl

-- "S9\n" is not supported.
load_srec_returns_example :
    (m' : Mips) × ((load_srec_from_file_mips 5 (83 ∷ 57 ∷ 10 ∷ []) machine ≡ loaded m')
      ⊎ (load_srec_from_file_mips 5 (83 ∷ 57 ∷ 10 ∷ []) machine ≡ rejected m')
      ⊎ ((a : ℕ) × (load_srec_from_file_mips 5 (83 ∷ 57 ∷ 10 ∷ []) machine ≡ undefined a m')
          × (a % 2 ^ 29 ≡ m'.pmemsz)))
load_srec_returns_example = load_srec_returns 5 (83 ∷ 57 ∷ 10 ∷ []) machine (omega arith)

-- The memory of 256 bytes is overrun by a byte at its end.
load-overran :
    load_srec_from_file_mips 20 (print (data_at 0x80000100 (7 ∷ []) ∷ [])) machine
    ≡ undefined 0x80000100 machine
unfolding load_srec_mips load_record load_s3 read_header srec_read_type srec_read_byte
    srec_read_address read_hex hex_digit fnext_char srec_load_data writeb print print_record
    print_bytes
load-overran = refl

two-AreBytes : AreBytes (1 ∷ 0xff ∷ [])
unfolding AreBytes
two-AreBytes = (omega arith, (omega arith, tt))

load_srec-read_example :
    (m' : Mips) × (load_srec_from_file_mips 6
        (print (data_at (kseg0 16) (1 ∷ 0xff ∷ []) ∷ []))
        machine
      ≡ loaded m')
    × (read_virt_byte (kseg0 (16 + 1)) m' ≡ ok 0xff m')
load_srec-read_example =
    load_srec-read 16 1 0xff 6 (1 ∷ 0xff ∷ []) machine refl two-AreBytes (omega arith) (omega arith)
      (omega arith) (omega arith)
