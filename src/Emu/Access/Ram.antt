-- ===== src/Emu/Access/Ram.antt =====
-- Loads and stores at the addresses of the memory, through the unmapped segment kseg0.
use cmips_cen.Base.{
  ℕ, ◌+◌, ◌/◌, ◌%◌, ◌^◌, ◌<◌, ◌≡◌, ◌≢◌, ap, ◌∙◌, arith, Bool, true, false, Bool-cases, inl, inr,
  ◌==◌, ==_iff, update, update_self, update_ne, some,
}
use cmips_cen.Machine.{Mips, ok}
use cmips_cen.Emu.Translate.{translate_address}
use cmips_cen.Emu.Access.{
  in_uart, in_power, byte_of, put_byte, byte_shift, read_phys_byte, write_phys_byte, read_virt_byte,
  write_virt_byte, read_phys_word, write_phys_word, read_virt_word, write_virt_word,
}
use cmips_cen.Emu.Access.Bytes.{byte_of-put_byte_self, byte_of-put_byte_ne}

-- A physical address of the memory that no device claims
pub record InRam (m : Mips) (p : ℕ) : Type 0 where
  pub in_memory : p < m.pmemsz
  pub in_kseg0 : p < 0x20000000
  pub no_uart : in_uart p ≡ false
  pub no_power : in_power p ≡ false

-- The kernel's unmapped and cached view of the memory
abbrev pub kseg0 : ℕ → ℕ
kseg0 p = 0x80000000 + p

-- What the memory holds at a byte
abbrev pub byte_at : Mips → ℕ → ℕ
byte_at m p = byte_of (m.mem (p / 4)) (byte_shift p)

abbrev pub set_byte : ℕ → ℕ → Mips → Mips
set_byte p v m = record m { mem = update m.mem (p / 4) (put_byte (m.mem (p / 4)) (byte_shift p) v) }

pub translate_kseg0 :
    (p : ℕ) (write : Bool) (m : Mips)
    → p < 0x20000000
    → translate_address (kseg0 p) write m ≡ ok (some p) m
unfolding translate_address
translate_kseg0 p write m h = ground arith

pub read_byte_ram : (m : Mips) (p : ℕ) → InRam m p → read_virt_byte (kseg0 p) m ≡ ok (byte_at m p) m
unfolding read_virt_byte read_phys_byte
read_byte_ram m p h = rw (translate_kseg0 p false m h.in_kseg0) (ground (arith, h.no_uart))

pub write_byte_ram :
    (m : Mips) (p v : ℕ) → InRam m p → write_virt_byte (kseg0 p) v m ≡ ok tt (set_byte p v m)
unfolding write_virt_byte write_phys_byte
write_byte_ram m p v h =
    rw (translate_kseg0 p true m h.in_kseg0) (ground (arith, h.no_uart, h.no_power))

pub byte_at-set_byte_self : (m : Mips) (p v : ℕ) → v < 2 ^ 8 → byte_at (set_byte p v m) p ≡ v
byte_at-set_byte_self m p v b =
    rw (update_self m.mem (p / 4) (put_byte (m.mem (p / 4)) (byte_shift p) v))
      (byte_of-put_byte_self (p % 4) (m.mem (p / 4)) v (omega arith) b)

pub byte_at-set_byte_ne :
    (m : Mips) (p q v : ℕ) → q ≢ p → v < 2 ^ 8 → byte_at (set_byte p v m) q ≡ byte_at m q
byte_at-set_byte_ne m p q v ne b = elim (Bool-cases (q / 4 == p / 4)) [
  | inl same ↦
      (let e : q / 4 ≡ p / 4 = (==_iff (q / 4) (p / 4)).0 same in
        rw (e, update_self m.mem (p / 4) (put_byte (m.mem (p / 4)) (byte_shift p) v))
          (byte_of-put_byte_ne (p % 4) (q % 4) (m.mem (p / 4)) v (omega arith) (omega arith)
            (omega arith) b))
  | inr other ↦
      rw
        (update_ne m.mem (p / 4) (q / 4) (put_byte (m.mem (p / 4)) (byte_shift p) v) (ground arith))
]

abbrev keep_ram : {m : Mips} {p : ℕ} (q v : ℕ) → InRam m p → InRam (set_byte q v m) p
keep_ram q v h = record {
  in_memory = h.in_memory;
  in_kseg0 = h.in_kseg0;
  no_uart = h.no_uart;
  no_power = h.no_power;
}

-- A byte stored in the memory is the byte loaded from there, and another byte is loaded as before.
pub read_virt_byte-write_virt_byte :
    (m : Mips) (p q v : ℕ)
    → InRam m p
    → InRam m q
    → q ≢ p
    → v < 2 ^ 8
    → (m' : Mips) × (write_virt_byte (kseg0 p) v m ≡ ok tt m')
      × (read_virt_byte (kseg0 p) m' ≡ ok v m')
      × (read_virt_byte (kseg0 q) m' ≡ ok (byte_at m q) m')
read_virt_byte-write_virt_byte m p q v hp hq ne b =
    let m' = set_byte p v m in
    (
      m',
      write_byte_ram m p v hp,
      read_byte_ram m' p (keep_ram p v hp) ∙ ap (λ w. ok w m') (byte_at-set_byte_self m p v b),
      read_byte_ram m' q (keep_ram p v hq) ∙ ap (λ w. ok w m') (byte_at-set_byte_ne m p q v ne b),
    )

-- Words at aligned addresses below the devices
pub read_word_ram :
    (m : Mips) (a : ℕ)
    → a % 4 ≡ 0
    → a < m.pmemsz
    → a < 0x14000000
    → read_virt_word (kseg0 a) m ≡ ok (m.mem (a / 4)) m
unfolding read_virt_word read_phys_word
read_word_ram m a al h low = rw (translate_kseg0 a false m (omega arith)) (ground arith)

pub write_word_ram :
    (m : Mips) (a v : ℕ)
    → a % 4 ≡ 0
    → a < m.pmemsz
    → a < 0x14000000
    → write_virt_word (kseg0 a) v m ≡ ok tt (record m { mem = update m.mem (a / 4) v })
unfolding write_virt_word write_phys_word
write_word_ram m a v al h low = rw (translate_kseg0 a true m (omega arith)) (ground arith)
