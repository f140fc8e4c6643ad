-- ===== src/Srec/Print/Digits.antt =====
-- The readers of src/srec.c on printed bytes, addresses and line ends.
use cmips_cen.Base.{
  ℕ, zero, suc, ◌+◌, ◌*◌, ◌/◌, ◌%◌, ◌^◌, ◌<◌, ◌≡◌, ◌≤◌, ◌⊎◌, inl, inr, refl, ap, ◌∙◌, arith, false,
  List, [], ◌∷◌, ◌++◌, some, u32, length,
}
use cmips_cen.Machine.{Mips, ok}
use cmips_cen.Emu.Access.Ram.{set_byte}
use cmips_cen.Srec.{
  Stream, Loading, fnext_char, file_loader, writeb, after_store, hex_digit, going, read_hex,
  srec_read_byte, srec_read_address, srec_skip_to_next_line, srec_load_data, end_record,
  read_header,
}
use cmips_cen.Srec.Rests.{after_digit, after_byte, after_skip, after_address, after_count}
use cmips_cen.Srec.Print.{hex_char, digits2, digits8, print_bytes, AreBytes, IsLine, write_all}

abbrev pub at : List ℕ → Stream
at r = record { rest = r; at_eof = false }

hex_digit-hex_char : (d : ℕ) → d < 16 → hex_digit (hex_char d) ≡ some d
unfolding hex_digit
hex_digit-hex_char d h = ground arith

read_hex-hex_char :
    (n acc d : ℕ) (r : List ℕ)
    → d < 16
    → read_hex file_loader (suc n) acc (at (hex_char d ∷ r))
      ≡ read_hex file_loader n (acc * 16 + d) (at r)
unfolding read_hex fnext_char
read_hex-hex_char n acc d r h = ap (after_digit n acc (at r)) (hex_digit-hex_char d h)

read_hex-digits2 :
    (n acc b : ℕ) (r : List ℕ)
    → b < 2 ^ 8
    → read_hex file_loader (suc (suc n)) acc (at (digits2 b r))
      ≡ read_hex file_loader n (acc * 2 ^ 8 + b) (at r)
read_hex-digits2 n acc b r h =
    read_hex-hex_char (suc n) acc (b / 16) (hex_char (b % 16) ∷ r) (omega arith)
    ∙ read_hex-hex_char n (acc * 16 + b / 16) (b % 16) r (omega arith)
    ∙ ap (λ k. read_hex file_loader n k (at r)) (omega arith)

read_byte-print :
    (b : ℕ) (r : List ℕ)
    → b < 2 ^ 8
    → srec_read_byte file_loader (at (digits2 b r)) ≡ some (b, at r)
unfolding srec_read_byte read_hex
read_byte-print b r h = read_hex-digits2 0 0 b r h ∙ ap (λ k. some (k, at r)) (omega arith)

read_address-print :
    (a : ℕ) (r : List ℕ)
    → a < 2 ^ 32
    → srec_read_address file_loader (at (digits8 a r)) ≡ some (a, at r)
unfolding srec_read_address read_hex
read_address-print a r h =
    let b3 = a / 2 ^ 24 in
    let b2 = a / 2 ^ 16 % 2 ^ 8 in
    let b1 = a / 2 ^ 8 % 2 ^ 8 in
    let b0 = a % 2 ^ 8 in
    read_hex-digits2 6 0 b3 (digits2 b2 (digits2 b1 (digits2 b0 r))) (omega arith)
    ∙ read_hex-digits2 4 (0 * 2 ^ 8 + b3) b2 (digits2 b1 (digits2 b0 r)) (omega arith)
    ∙ read_hex-digits2 2 ((0 * 2 ^ 8 + b3) * 2 ^ 8 + b2) b1 (digits2 b0 r) (omega arith)
    ∙ read_hex-digits2 0 (((0 * 2 ^ 8 + b3) * 2 ^ 8 + b2) * 2 ^ 8 + b1) b0 r (omega arith)
    ∙ ap (λ k. some (k, at r)) (omega arith)

-- The start of kseg0 or of kseg1
unfoldable pub IsUnmapped : ℕ → Type 0
IsUnmapped segment = (segment ≡ 0x80000000) ⊎ (segment ≡ 0xa0000000)

writeb_place :
    (segment p v : ℕ) (m : Mips)
    → IsUnmapped segment
    → p < m.pmemsz
    → p < 2 ^ 29
    → writeb (segment + p) v m ≡ ok tt (set_byte p v m)
unfolding writeb IsUnmapped
writeb_place segment p v m (inl e) h low = rw e (ground arith)
writeb_place segment p v m (inr e) h low = rw e (ground arith)

-- The loops over the data and to the end of the line
pub load_data-print :
    (segment p : ℕ) (bs r : List ℕ) (m : Mips)
    → IsUnmapped segment
    → p + length bs ≤ m.pmemsz
    → p + length bs ≤ 2 ^ 29
    → AreBytes bs
    → srec_load_data file_loader (length bs) (segment + p) (at (print_bytes bs r)) m
      ≡ going (at r) (write_all p bs m)
unfolding srec_load_data print_bytes write_all AreBytes IsUnmapped
load_data-print segment p [] r m u fit low h = refl
load_data-print segment p (b ∷ bs) r m u fit low h =
    let next : u32 (segment + p + 1) ≡ segment + (p + 1) = omega (arith, u) in
    let go : ℕ → Mips → Loading Stream =
      λ a m1. srec_load_data file_loader (length bs) a (at (print_bytes bs r)) m1 in
    ap (after_byte (length bs) (segment + p) m) (read_byte-print b (print_bytes bs r) h.0)
    ∙ ap (λ o. after_store (segment + p) m o (go (u32 (segment + p + 1))))
        (writeb_place segment p b m u (omega arith) (omega arith))
    ∙ ap (λ a. go a (set_byte p b m)) next
    ∙ load_data-print segment (p + 1) bs r (set_byte p b m) u (omega arith) (omega arith) h.1

skip-print :
    (fuel : ℕ) (cs r : List ℕ)
    → length cs < fuel
    → IsLine cs
    → srec_skip_to_next_line file_loader fuel (at (cs ++ (10 ∷ r))) ≡ some (at r)
unfolding srec_skip_to_next_line fnext_char IsLine
skip-print zero cs r h line = absurd (omega arith)
skip-print (suc fuel) [] r h line = refl
skip-print (suc fuel) (c ∷ cs) r h line = rw (line.0) (skip-print fuel cs r (omega arith) line.1)

pub end_record-print :
    (fuel : ℕ) (cs r : List ℕ) (m : Mips)
    → length cs < fuel
    → IsLine cs
    → end_record file_loader fuel (at (cs ++ (10 ∷ r))) m ≡ going (at r) m
unfolding end_record
end_record-print fuel cs r m h line = ap (after_skip m) (skip-print fuel cs r h line)

-- A digit does not end the line.
pub digits2-IsLine : (b : ℕ) → IsLine (digits2 b [])
unfolding IsLine
digits2-IsLine b = (ground arith, (ground arith, tt))

pub read_header-print :
    (n a : ℕ) (r : List ℕ)
    → n < 2 ^ 8
    → a < 2 ^ 32
    → read_header file_loader (at (digits2 n (digits8 a r))) ≡ some ((n, a), at r)
unfolding read_header
read_header-print n a r hn ha =
    ap after_count (read_byte-print n (digits8 a r) hn)
    ∙ ap (after_address n) (read_address-print a r ha)
