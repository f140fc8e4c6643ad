-- ===== src/Srec/Print/Image.antt =====
-- The state after the stores of src/srec.c for a list of records, byte by byte.
use cmips_cen.Base.{
  ℕ, ◌+◌, ◌%◌, ◌^◌, ◌<◌, ◌≡◌, ◌≢◌, refl, ap, sym, ◌∙◌, fun_ext, arith, Bool-cases, inl, inr, ◌==◌,
  ==_iff, List, [], ◌∷◌, update, update_self, update_ne,
}
use cmips_cen.Machine.{Mips}
use cmips_cen.Emu.Access.Ram.{byte_at, set_byte, byte_at-set_byte_self, byte_at-set_byte_ne}
use cmips_cen.Srec.Print.{
  Record, header, data_at, start, AreBytes, IsRecord, AreRecords, put_bytes, bytes_of, start_of,
  write_all, apply, apply_all,
}

byte_at-set_byte :
    (m : Mips) (p v : ℕ) → v < 2 ^ 8 → byte_at (set_byte p v m) ≡ update (byte_at m) p v
byte_at-set_byte m p v b = fun_ext λ q. elim (Bool-cases (q == p)) [
  | inl same ↦
      (let e : q ≡ p = (==_iff q p).0 same in
        ap (byte_at (set_byte p v m)) e
        ∙ byte_at-set_byte_self m p v b
        ∙ sym (update_self (byte_at m) p v)
        ∙ ap (update (byte_at m) p v) (sym e))
  | inr other ↦
      (let ne : q ≢ p = ground (arith, other) in
        byte_at-set_byte_ne m p q v ne b ∙ sym (update_ne (byte_at m) p q v ne))
]

byte_at-write_all :
    (bs : List ℕ) (p : ℕ) (m : Mips)
    → AreBytes bs
    → byte_at (write_all p bs m) ≡ put_bytes p bs (byte_at m)
unfolding write_all put_bytes AreBytes
byte_at-write_all [] p m h = refl
byte_at-write_all (b ∷ bs) p m h =
    byte_at-write_all bs (p + 1) (set_byte p b m) h.1
    ∙ ap (put_bytes (p + 1) bs) (byte_at-set_byte m p b h.0)

pub byte_at-apply_all :
    (size : ℕ) (xs : List Record) (m : Mips)
    → AreRecords size xs
    → byte_at (apply_all xs m) ≡ bytes_of xs (byte_at m)
unfolding apply_all apply bytes_of AreRecords IsRecord
byte_at-apply_all size [] m h = refl
byte_at-apply_all size (header text ∷ xs) m h = byte_at-apply_all size xs m h.1
byte_at-apply_all size (data_at a bs ∷ xs) m h =
    byte_at-apply_all size xs (write_all (a % 2 ^ 29) bs m) h.1
    ∙ ap (bytes_of xs) (byte_at-write_all bs (a % 2 ^ 29) m h.0.2)
byte_at-apply_all size (start a ∷ xs) m h = byte_at-apply_all size xs (record m { pc = a }) h.1

-- A state that differs from another in the memory and the program counter alone
abbrev pub OnlyLoaded : Mips → Mips → Type 0
OnlyLoaded m m' = m' ≡ record m { mem = m'.mem; pc = m'.pc }

write_all-mem :
    (bs : List ℕ) (p : ℕ) (m : Mips) → write_all p bs m ≡ record m { mem = (write_all p bs m).mem }
unfolding write_all
write_all-mem [] p m = refl
write_all-mem (b ∷ bs) p m = write_all-mem bs (p + 1) (set_byte p b m)

pub pmemsz-apply : (x : Record) (m : Mips) → (apply x m).pmemsz ≡ m.pmemsz
unfolding apply
pmemsz-apply (header text) m = refl
pmemsz-apply (data_at a bs) m = ap (λ s. s.pmemsz) (write_all-mem bs (a % 2 ^ 29) m)
pmemsz-apply (start a) m = refl

pub OnlyLoaded-apply_all : (xs : List Record) (m : Mips) → OnlyLoaded m (apply_all xs m)
unfolding apply_all apply
OnlyLoaded-apply_all [] m = refl
OnlyLoaded-apply_all (header text ∷ xs) m = OnlyLoaded-apply_all xs m
OnlyLoaded-apply_all (data_at a bs ∷ xs) m =
    let m1 = write_all (a % 2 ^ 29) bs m in
    let m' = apply_all xs m1 in
    OnlyLoaded-apply_all xs m1
    ∙ ap (λ (s : Mips). record s { mem = m'.mem; pc = m'.pc }) (write_all-mem bs (a % 2 ^ 29) m)
OnlyLoaded-apply_all (start a ∷ xs) m = OnlyLoaded-apply_all xs (record m { pc = a })

pub pc-apply_all : (xs : List Record) (m : Mips) → (apply_all xs m).pc ≡ start_of xs m.pc
unfolding apply_all apply start_of
pc-apply_all [] m = refl
pc-apply_all (header text ∷ xs) m = pc-apply_all xs m
pc-apply_all (data_at a bs ∷ xs) m =
    pc-apply_all xs (write_all (a % 2 ^ 29) bs m)
    ∙ ap (λ (s : Mips). start_of xs s.pc) (write_all-mem bs (a % 2 ^ 29) m)
pc-apply_all (start a ∷ xs) m = pc-apply_all xs (record m { pc = a })
