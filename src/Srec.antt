-- ===== src/Srec.antt =====
-- src/srec.c: the loader of S-records into the memory, over the two callbacks that read characters.
pub mod Print
pub mod Readback
pub mod Rests
pub mod Total
pub mod Within
use cmips_cen.Base.{
  ℕ, zero, suc, ◌+◌, ◌-◌, ◌*◌, ◌/◌, ◌%◌, ◌^◌, Bool, true, false, not, List, [], ◌∷◌, Option, none,
  some, ◌&&◌, ◌||◌, ◌==◌, leb, ltb, if◌then◌else◌, update, u32, sub32,
}
use cmips_cen.Machine.{Mips, Outcome, ok, exit, fault, M}
use cmips_cen.Emu.Access.{byte_shift, put_byte}

-- `SrecLoader`: `none` is the -1 of `nextChar`.
pub record SrecLoader (S : Type 0) : Type 0 where
  pub next_char : S → Option ℕ × S
  pub is_eof : S → Bool

-- A stream of C: the bytes that are left, and whether a read has met the end
pub record Stream : Type 0 where
  pub rest : List ℕ
  pub at_eof : Bool

-- `fnextChar`
unfoldable pub fnext_char : Stream → Option ℕ × Stream
fnext_char s = elim s.rest [
  | [] ↦ (none, record s { at_eof = true })
  | c ∷ cs ↦ (some c, record s { rest = cs })
]

abbrev pub file_loader : SrecLoader Stream
file_loader = record { next_char = fnext_char; is_eof = λ s. s.at_eof }

-- A C string and a place in it; `char` has a sign, so that the byte 0xff is -1 as well.
pub record Cursor : Type 0 where
  pub text : ℕ → ℕ
  pub place : ℕ

-- `snextChar`, which goes on past the end
unfoldable pub snext_char : Cursor → Option ℕ × Cursor
snext_char s =
    let c = s.text s.place in
    (if c == 0 || c == 255 then none else some c, record s { place = s.place + 1 })

-- `sisEof`
unfoldable pub s_is_eof : Cursor → Bool
s_is_eof s = s.text s.place == 0

abbrev pub string_loader : SrecLoader Cursor
string_loader = record { next_char = snext_char; is_eof = s_is_eof }

-- `writeb`: the test is `addr > emu->pmemsz`, so that an address equal to `pmemsz` is stored to,
-- past the end of the memory.
unfoldable pub writeb : ℕ → ℕ → M Unit
writeb addr v m =
    let store = λ (a : ℕ).
      (if ltb m.pmemsz a
        then ok tt m
        else if a == m.pmemsz
        then fault
        else ok tt (record m {
          mem = update m.mem (a / 4) (put_byte (m.mem (a / 4)) (byte_shift a) v);
        })) in
    if leb 0x80000000 addr && leb addr 0x9fffffff
    then store (addr - 0x80000000)
    else if leb 0xa0000000 addr && leb addr 0xbfffffff
    then store (addr - 0xa0000000)
    else ok tt m

-- `isHexChar`, with the value that `strtoul` gives the digit
unfoldable pub hex_digit : ℕ → Option ℕ
hex_digit c =
    if leb 48 c && leb c 57
    then some (c - 48)
    else if leb 97 c && leb c 102
    then some (c - 87)
    else if leb 65 c && leb c 70
    then some (c - 55)
    else none

-- What `srecReadType` returns: -1, -2 or a digit
pub data SrecType : Type 0 where
  end_of_file : SrecType
  bad : SrecType
  type : ℕ → SrecType

-- A loader on its way: to the next record, stopped by an error (`return 1`), past the memory with
-- the store to an address (undefined in C), or out of fuel
pub data Loading (S : Type 0) : Type 0 where
  going : S → Mips → Loading S
  failed : Mips → Loading S
  overran : ℕ → Mips → Loading S
  stuck : Loading S

-- What `loadSrec_mips` returns: 0 or 1, with the state; or the store past the memory, with the state
-- before it
pub data LoadResult : Type 0 where
  loaded : Mips → LoadResult
  rejected : Mips → LoadResult
  undefined : ℕ → Mips → LoadResult
  out_of_fuel : LoadResult

-- `srecLoadData` goes on after a store that returns.
abbrev pub after_store : {S : Type 0} → ℕ → Mips → Outcome Unit → (Mips → Loading S) → Loading S
after_store a m o next = elim o [ ok _ m1 ↦ next m1 | exit ↦ overran a m | fault ↦ overran a m ]

module _ {S : Type 0} (loader : SrecLoader S) where
  -- `srecReadType`
  unfoldable pub srec_read_type : S → SrecType × S
  srec_read_type s =
      let (c, s1) = loader.next_char s in
      elim c [
        | none ↦ (end_of_file, s1)
        | some c ↦
            if not (c == 83)
            then (bad, s1)
            else (let (d, s2) = loader.next_char s1 in
                elim d [
                  | none ↦ (bad, s2)
                  | some d ↦ (if leb 48 d && leb d 57 then type (d - 48) else bad, s2)
                ])
      ]

  -- The loops of `srecReadByte` and `srecReadAddress`: `n` digits more after the value `acc`;
  -- `none` is an error.
  unfoldable pub read_hex : (n acc : ℕ) → S → Option (ℕ × S)
  read_hex zero acc s = some (acc, s)
  read_hex (suc n) acc s =
      let (c, s1) = loader.next_char s in
      elim c [
        | none ↦ none
        | some c ↦ elim (hex_digit c) [ none ↦ none | some d ↦ read_hex n (acc * 16 + d) s1 ]
      ]

  -- `srecReadByte`
  unfoldable pub srec_read_byte : S → Option (ℕ × S)
  srec_read_byte = read_hex 2 0

  -- `srecReadAddress`
  unfoldable pub srec_read_address : S → Option (ℕ × S)
  srec_read_address = read_hex 8 0

  -- `srecSkipToNextLine`; `none` is the lack of fuel.
  unfoldable pub srec_skip_to_next_line : ℕ → S → Option S
  srec_skip_to_next_line zero s = none
  srec_skip_to_next_line (suc fuel) s =
      let (c, s1) = loader.next_char s in
      let rest = srec_skip_to_next_line fuel s1 in
      elim c [ none ↦ some s1 | some c ↦ if c == 10 then some s1 else rest ]

  -- `srecLoadData`
  unfoldable pub srec_load_data : (count addr : ℕ) → S → Mips → Loading S
  srec_load_data zero addr s m = going s m
  srec_load_data (suc count) addr s m = elim (srec_read_byte s) [
    | none ↦ failed m
    | some r ↦
        after_store addr m (writeb addr r.0 m) (λ m1. srec_load_data count (u32 (addr + 1)) r.1 m1)
  ]

  -- `srecSkipToNextLine` at the end of a record
  unfoldable pub end_record : ℕ → S → Mips → Loading S
  end_record fuel s m = elim (srec_skip_to_next_line fuel s) [ none ↦ stuck | some s1 ↦ going s1 m ]

  -- The count and the address that `case 3` and `case 7` begin with
  unfoldable pub read_header : S → Option ((ℕ × ℕ) × S)
  read_header s = elim (srec_read_byte s) [
    | none ↦ none
    | some c ↦ elim (srec_read_address c.1) [ none ↦ none | some a ↦ some ((c.0, a.0), a.1) ]
  ]

  -- `case 3`: `count - 5` is on uint32_t.
  unfoldable pub load_s3 : ℕ → S → Mips → Loading S
  load_s3 fuel s m = elim (read_header s) [
    | none ↦ failed m
    | some h ↦ elim (srec_load_data (sub32 h.0.0 5) h.0.1 h.1 m) [
      | going s1 m1 ↦ end_record fuel s1 m1
      | failed m1 ↦ failed m1
      | overran a m1 ↦ overran a m1
      | stuck ↦ stuck
    ]
  ]

  -- `case 7`
  unfoldable pub load_s7 : ℕ → S → Mips → Loading S
  load_s7 fuel s m = elim (read_header s) [
    | none ↦ failed m
    | some h ↦ end_record fuel h.1 (record m { pc = h.0.1 })
  ]

  -- The switch of `loadSrec_mips`
  unfoldable pub load_record : ℕ → SrecType → S → Mips → Loading S
  load_record fuel end_of_file s m = going s m
  load_record fuel bad s m = failed m
  load_record fuel (type k) s m =
      if k == 0
      then end_record fuel s m
      else if k == 3
      then load_s3 fuel s m
      else if k == 7
      then load_s7 fuel s m
      else failed m

  -- `loadSrec_mips`
  unfoldable pub load_srec_mips : ℕ → S → Mips → LoadResult
  load_srec_mips zero s m = out_of_fuel
  load_srec_mips (suc fuel) s m =
      if loader.is_eof s
      then loaded m
      else elim (load_record fuel (srec_read_type s).0 (srec_read_type s).1 m) [
        | going s1 m1 ↦ load_srec_mips fuel s1 m1
        | failed m1 ↦ rejected m1
        | overran a m1 ↦ undefined a m1
        | stuck ↦ out_of_fuel
      ]

-- `loadSrecFromFile_mips` on a file that was opened, and `loadSrecFromString_mips`
abbrev pub load_srec_from_file_mips : ℕ → List ℕ → Mips → LoadResult
load_srec_from_file_mips fuel bytes m =
    load_srec_mips file_loader fuel (record { rest = bytes; at_eof = false }) m

abbrev pub load_srec_from_string_mips : ℕ → (ℕ → ℕ) → Mips → LoadResult
load_srec_from_string_mips fuel text m =
    load_srec_mips string_loader fuel (record { text = text; place = 0 }) m
