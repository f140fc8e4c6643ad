-- ===== src/Srec/Print.antt =====
-- Files of S-records as the loader of src/srec.c expects them, and what they mean.
pub mod Digits
pub mod Image
pub mod Load
use cmips_cen.Base.{
  ℕ, zero, suc, ◌+◌, ◌-◌, ◌*◌, ◌/◌, ◌%◌, ◌^◌, ◌<◌, ◌≤◌, ◌≡◌, ◌⊎◌, update, ◌≢◌, refl, ap, ap₂, sym,
  ◌∙◌, arith, Bool, true, false, not, List, [], ◌∷◌, ◌++◌, Option, none, some, ◌&&◌, ◌==◌, leb,
  if◌then◌else◌, u32, sub32, length,
}
use cmips_cen.Machine.{Mips}
use cmips_cen.Emu.Access.Ram.{set_byte}
use cmips_cen.Srec.{
  SrecLoader, Stream, fnext_char, file_loader, writeb, hex_digit, SrecType, end_of_file, bad, type,
  Loading, going, failed, stuck, LoadResult, loaded, rejected, out_of_fuel, srec_read_type,
  read_hex, srec_read_byte, srec_read_address, srec_skip_to_next_line, srec_load_data, end_record,
  read_header, load_s3, load_s7, load_record, load_srec_mips, load_srec_from_file_mips,
}

-- A record of a file: a comment, bytes for an address, or the place to start
pub data Record : Type 0 where
  header : List ℕ → Record
  data_at : ℕ → List ℕ → Record
  start : ℕ → Record

-- Upper-case digits
abbrev pub hex_char : ℕ → ℕ
hex_char d = if leb d 9 then 48 + d else 55 + d

-- Text before other text
abbrev pub digits2 : ℕ → List ℕ → List ℕ
digits2 b r = hex_char (b / 16) ∷ hex_char (b % 16) ∷ r

abbrev pub digits8 : ℕ → List ℕ → List ℕ
digits8 a r =
    digits2 (a / 2 ^ 24)
      (digits2 (a / 2 ^ 16 % 2 ^ 8) (digits2 (a / 2 ^ 8 % 2 ^ 8) (digits2 (a % 2 ^ 8) r)))

unfoldable pub print_bytes : List ℕ → List ℕ → List ℕ
print_bytes [] r = r
print_bytes (b ∷ bs) r = digits2 b (print_bytes bs r)

pub sum : List ℕ → ℕ
sum [] = 0
sum (b ∷ bs) = b + sum bs

-- The complement of the sum of all bytes of a record, which the loader does not read
abbrev pub checksum : ℕ → ℕ
checksum total = 255 - total % 2 ^ 8

abbrev pub sum_bytes : ℕ → ℕ
sum_bytes a = a / 2 ^ 24 + a / 2 ^ 16 % 2 ^ 8 + a / 2 ^ 8 % 2 ^ 8 + a % 2 ^ 8

unfoldable pub print_record : Record → List ℕ → List ℕ
print_record (header text) r = 83 ∷ 48 ∷ (text ++ (10 ∷ r))
print_record (data_at a bs) r =
    83
    ∷ 51
    ∷ digits2 (length bs + 5) (
        digits8 a
          (print_bytes bs (digits2 (checksum (length bs + 5 + sum_bytes a + sum bs)) (10 ∷ r))))
print_record (start a) r =
    83 ∷ 55 ∷ digits2 5 (digits8 a (digits2 (checksum (5 + sum_bytes a)) (10 ∷ r)))

unfoldable pub print : List Record → List ℕ
print [] = []
print (x ∷ xs) = print_record x (print xs)

-- Bytes, and text on one line
unfoldable pub AreBytes : List ℕ → Type 0
AreBytes [] = Unit
AreBytes (b ∷ bs) = (b < 2 ^ 8) × AreBytes bs

unfoldable pub IsLine : List ℕ → Type 0
IsLine [] = Unit
IsLine (c ∷ cs) = (c == 10 ≡ false) × IsLine cs

-- Data that lies in a memory of `size` bytes, seen through kseg0 or kseg1
unfoldable pub FitsIn : (size a n : ℕ) → Type 0
FitsIn size a n =
    ((a / 2 ^ 29 ≡ 4) ⊎ (a / 2 ^ 29 ≡ 5)) × (a % 2 ^ 29 + n ≤ size) × (a % 2 ^ 29 + n ≤ 2 ^ 29)

-- What a record may hold: data for the memory with a count that fits a byte, and a place to start of
-- 32 bits
unfoldable pub IsRecord : ℕ → Record → Type 0
IsRecord size (header text) = IsLine text
IsRecord size (data_at a bs) = FitsIn size a (length bs) × (length bs + 5 < 2 ^ 8) × AreBytes bs
IsRecord size (start a) = a < 2 ^ 32

unfoldable pub AreRecords : ℕ → List Record → Type 0
AreRecords size [] = Unit
AreRecords size (x ∷ xs) = IsRecord size x × AreRecords size xs

-- What records mean: the bytes of the memory and the place to start, after those from before
unfoldable pub put_bytes : ℕ → List ℕ → (ℕ → ℕ) → ℕ → ℕ
put_bytes p [] f = f
put_bytes p (b ∷ bs) f = put_bytes (p + 1) bs (update f p b)

unfoldable pub bytes_of : List Record → (ℕ → ℕ) → ℕ → ℕ
bytes_of [] f = f
bytes_of (header text ∷ xs) f = bytes_of xs f
bytes_of (data_at a bs ∷ xs) f = bytes_of xs (put_bytes (a % 2 ^ 29) bs f)
bytes_of (start a ∷ xs) f = bytes_of xs f

unfoldable pub start_of : List Record → ℕ → ℕ
start_of [] pc = pc
start_of (header text ∷ xs) pc = start_of xs pc
start_of (data_at a bs ∷ xs) pc = start_of xs pc
start_of (start a ∷ xs) pc = start_of xs a

-- What a record does to the state
unfoldable pub write_all : ℕ → List ℕ → Mips → Mips
write_all p [] m = m
write_all p (b ∷ bs) m = write_all (p + 1) bs (set_byte p b m)

unfoldable pub apply : Record → Mips → Mips
apply (header text) m = m
apply (data_at a bs) m = write_all (a % 2 ^ 29) bs m
apply (start a) m = record m { pc = a }

unfoldable pub apply_all : List Record → Mips → Mips
apply_all [] m = m
apply_all (x ∷ xs) m = apply_all xs (apply x m)

-- Fuel that is enough: one for each record and one for each character skipped in it
unfoldable pub size : Record → ℕ
size (header text) = length text + 2
size (data_at a bs) = 4
size (start a) = 4

unfoldable pub total : List Record → ℕ
total [] = 2
total (x ∷ xs) = size x + total xs
