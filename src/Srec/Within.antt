-- ===== src/Srec/Within.antt =====
-- How much of a file each function of src/srec.c leaves.
use cmips_cen.Base.{
  ℕ, zero, suc, ◌+◌, ◌*◌, ◌-◌, ◌%◌, ◌^◌, ltb, leb, ◌&&◌, if◌then◌else◌, if_cases, ◌<◌, ◌≤◌, ◌≡◌,
  arith, Bool, not, List, [], ◌∷◌, Option, none, some, ◌==◌, if_ind, u32, sub32, length,
}
use cmips_cen.Machine.{Mips, Outcome, ok, fault}
use cmips_cen.Srec.{
  Stream, fnext_char, file_loader, writeb, after_store, hex_digit, SrecType, end_of_file, bad, type,
  Loading, going, failed, overran, stuck, srec_read_type, read_hex, srec_read_byte,
  srec_read_address, srec_skip_to_next_line, srec_load_data, end_record, read_header, load_s3,
  load_s7, load_record,
}
use cmips_cen.Srec.Rests.{
  after_digit, after_address, after_count, after_byte, after_skip, after_load, after_s3, after_s7,
}

abbrev pub st : List ℕ → Bool → Stream
st cs e = record { rest = cs; at_eof = e }

-- How much of the file is left
abbrev pub left : Stream → ℕ
left s = length s.rest

-- A result of a reader with at most `k` bytes left, unless it is an error
WithinOption : {A : Type 0} → ℕ → Option (A × Stream) → Type 0
WithinOption k none = Unit
WithinOption k (some r) = left r.1 ≤ k

-- The same of a loader that is not stuck, and the address of a store that goes past the memory
unfoldable pub Within : ℕ → Loading Stream → Type 0
Within k (going s m) = left s ≤ k
Within k (failed m) = Unit
Within k (overran a m) = a % 2 ^ 29 ≡ m.pmemsz
Within k stuck = ⊥

digit-Within :
    (n acc k : ℕ) (d : Option ℕ) (s : Stream)
    → ((acc' : ℕ) → WithinOption k (read_hex file_loader n acc' s))
    → WithinOption k (after_digit n acc s d)
unfolding WithinOption
digit-Within n acc k none s ih = tt
digit-Within n acc k (some d) s ih = ih (acc * 16 + d)

read_hex-Within :
    (n acc k : ℕ) (cs : List ℕ) (e : Bool)
    → length cs ≤ k
    → WithinOption k (read_hex file_loader n acc (st cs e))
unfolding WithinOption read_hex fnext_char
read_hex-Within zero acc k cs e h = h
read_hex-Within (suc n) acc k [] e h = tt
read_hex-Within (suc n) acc k (c ∷ cs) e h =
    digit-Within n acc k (hex_digit c) (st cs e)
      (λ acc'. read_hex-Within n acc' k cs e (omega arith))

WithinOption-trans :
    {A : Type 0} (j k : ℕ) (o : Option (A × Stream)) → j ≤ k → WithinOption j o → WithinOption k o
unfolding WithinOption
WithinOption-trans j k none h w = tt
WithinOption-trans j k (some r) h w = omega (arith, w)

address-Within :
    (n k : ℕ) (o : Option (ℕ × Stream)) → WithinOption k o → WithinOption k (after_address n o)
unfolding WithinOption
address-Within n k none w = tt
address-Within n k (some a) w = w

count-Within : (k : ℕ) (o : Option (ℕ × Stream)) → WithinOption k o → WithinOption k (after_count o)
unfolding WithinOption srec_read_address
count-Within k none w = tt
count-Within k (some c) w =
    address-Within c.0 k (srec_read_address file_loader c.1)
      (read_hex-Within 8 0 k c.1.rest c.1.at_eof w)

read_header-Within : (k : ℕ) (s : Stream) → left s ≤ k → WithinOption k (read_header file_loader s)
unfolding read_header srec_read_byte
read_header-Within k s h =
    count-Within k (srec_read_byte file_loader s) (read_hex-Within 2 0 k s.rest s.at_eof h)

place-Within :
    (a p k : ℕ) (m m1 : Mips) (next : Mips → Loading Stream)
    → p ≡ a % 2 ^ 29
    → ((m2 : Mips) → Within k (next m2))
    → Within k (
        after_store a m
          (if ltb m.pmemsz p then ok tt m else if p == m.pmemsz then fault else ok tt m1)
          next)
unfolding Within
place-Within a p k m m1 next e go =
    let P = λ (o : Outcome Unit). Within k (after_store a m o next) in
    if_cases P (ltb m.pmemsz p) (λ _. go m)
      (λ _. if_cases P (p == m.pmemsz) (λ h. ground (arith, e, h)) (λ _. go m1))

store-Within :
    (a k v : ℕ) (m : Mips) (next : Mips → Loading Stream)
    → ((m1 : Mips) → Within k (next m1))
    → Within k (after_store a m (writeb a v m) next)
unfolding writeb
store-Within a k v m next go =
    let P = λ (o : Outcome Unit). Within k (after_store a m o next) in
    if_cases P (leb 0x80000000 a && leb a 0x9fffffff)
      (λ h. place-Within a (a - 0x80000000) k m _ next (ground (arith, h)) go)
      (λ _.
        if_cases P (leb 0xa0000000 a && leb a 0xbfffffff)
          (λ h. place-Within a (a - 0xa0000000) k m _ next (ground (arith, h)) go) (λ _. go m))

byte-Within :
    (n a k : ℕ) (m : Mips) (o : Option (ℕ × Stream))
    → WithinOption k o
    → ((a' : ℕ) (s : Stream) (m' : Mips)
        → left s ≤ k
        → Within k (srec_load_data file_loader n a' s m'))
    → Within k (after_byte n a m o)
unfolding WithinOption Within
byte-Within n a k m none w ih = tt
byte-Within n a k m (some r) w ih =
    store-Within a k r.0 m (λ m1. srec_load_data file_loader n (u32 (a + 1)) r.1 m1)
      (λ m1. ih (u32 (a + 1)) r.1 m1 w)

load_data-Within :
    (n a k : ℕ) (s : Stream) (m : Mips) → left s ≤ k → Within k (srec_load_data file_loader n a s m)
unfolding srec_load_data srec_read_byte Within
load_data-Within zero a k s m h = h
load_data-Within (suc n) a k s m h =
    byte-Within n a k m (srec_read_byte file_loader s) (read_hex-Within 2 0 k s.rest s.at_eof h)
      (λ a' s' m' h'. load_data-Within n a' k s' m' h')

-- With more fuel than bytes the search for the end of the line succeeds.
skip-Within :
    (fuel k : ℕ) (cs : List ℕ) (e : Bool) (m : Mips)
    → length cs < fuel
    → length cs ≤ k
    → Within k (after_skip m (srec_skip_to_next_line file_loader fuel (st cs e)))
unfolding srec_skip_to_next_line fnext_char Within
skip-Within zero k cs e m f h = absurd (omega arith)
skip-Within (suc fuel) k [] e m f h = omega arith
skip-Within (suc fuel) k (c ∷ cs) e m f h =
    if_ind (λ o. Within k (after_skip m o)) (c == 10) (omega arith)
      (skip-Within fuel k cs e m (omega arith) (omega arith))

end_record-Within :
    (fuel k : ℕ) (s : Stream) (m : Mips)
    → k < fuel
    → left s ≤ k
    → Within k (end_record file_loader fuel s m)
unfolding end_record
end_record-Within fuel k s m f h = skip-Within fuel k s.rest s.at_eof m (omega arith) h

load-Within :
    (fuel k : ℕ) (l : Loading Stream) → k < fuel → Within k l → Within k (after_load fuel l)
unfolding Within
load-Within fuel k (going s m) f w = end_record-Within fuel k s m f w
load-Within fuel k (failed m) f w = tt
load-Within fuel k (overran a m) f w = w
load-Within fuel k stuck f w = w

s3-Within :
    (fuel k : ℕ) (m : Mips) (o : Option ((ℕ × ℕ) × Stream))
    → k < fuel
    → WithinOption k o
    → Within k (after_s3 fuel m o)
unfolding WithinOption Within
s3-Within fuel k m none f w = tt
s3-Within fuel k m (some h) f w =
    load-Within fuel k (srec_load_data file_loader (sub32 h.0.0 5) h.0.1 h.1 m) f
      (load_data-Within (sub32 h.0.0 5) h.0.1 k h.1 m w)

s7-Within :
    (fuel k : ℕ) (m : Mips) (o : Option ((ℕ × ℕ) × Stream))
    → k < fuel
    → WithinOption k o
    → Within k (after_s7 fuel m o)
unfolding WithinOption Within
s7-Within fuel k m none f w = tt
s7-Within fuel k m (some h) f w = end_record-Within fuel k h.1 (record m { pc = h.0.1 }) f w

-- No record needs more fuel than there are bytes.
pub load_record-Within :
    (fuel k : ℕ) (t : SrecType) (s : Stream) (m : Mips)
    → k < fuel
    → left s ≤ k
    → Within k (load_record file_loader fuel t s m)
unfolding load_record load_s3 load_s7 Within
load_record-Within fuel k end_of_file s m f h = h
load_record-Within fuel k bad s m f h = tt
load_record-Within fuel k (type t) s m f h =
    if_ind (Within k) (t == 0) (end_record-Within fuel k s m f h) (
      if_ind (Within k) (t == 3)
        (s3-Within fuel k m (read_header file_loader s) f (read_header-Within k s h))
        (if_ind (Within k) (t == 7)
          (s7-Within fuel k m (read_header file_loader s) f (read_header-Within k s h)) tt))

pub read_type-left :
    (c : ℕ) (cs : List ℕ) (e : Bool)
    → left (srec_read_type file_loader (st (c ∷ cs) e)).1 ≤ length cs
unfolding srec_read_type fnext_char
read_type-left c [] e =
    if_ind (λ (r : SrecType × Stream). left r.1 ≤ 0) (not (c == 83)) (omega arith) (omega arith)
read_type-left c (d ∷ cs) e =
    if_ind (λ (r : SrecType × Stream). left r.1 ≤ suc (length cs)) (not (c == 83)) (omega arith)
      (omega arith)
