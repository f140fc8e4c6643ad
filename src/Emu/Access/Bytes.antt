-- ===== src/Emu/Access/Bytes.antt =====
-- The bytes of a word, most significant first, and a write of one of them.
use cmips_cen.Base.{ℕ, zero, suc, ◌-◌, ◌*◌, ◌^◌, ◌<◌, ◌≡◌, ◌≢◌, arith}
use cmips_cen.Emu.Access.{byte_of, put_byte}

-- The shift of the byte at offset `r` of a word
abbrev pub shift_at : ℕ → ℕ
shift_at r = 8 * (3 - r)

pub byte_of-put_byte_self :
    (r w v : ℕ) → r < 4 → v < 2 ^ 8 → byte_of (put_byte w (shift_at r) v) (shift_at r) ≡ v
byte_of-put_byte_self zero w v h k = omega arith
byte_of-put_byte_self (suc zero) w v h k = omega arith
byte_of-put_byte_self (suc (suc zero)) w v h k = omega arith
byte_of-put_byte_self (suc (suc (suc zero))) w v h k = omega arith
byte_of-put_byte_self (suc (suc (suc (suc r)))) w v h k = absurd (omega arith)

-- One case for each pair of offsets
pub byte_of-put_byte_ne :
    (r q w v : ℕ)
    → r < 4
    → q < 4
    → q ≢ r
    → v < 2 ^ 8
    → byte_of (put_byte w (shift_at r) v) (shift_at q) ≡ byte_of w (shift_at q)
byte_of-put_byte_ne zero zero w v h k ne b = absurd (omega arith)
byte_of-put_byte_ne zero (suc zero) w v h k ne b = omega arith
byte_of-put_byte_ne zero (suc (suc zero)) w v h k ne b = omega arith
byte_of-put_byte_ne zero (suc (suc (suc zero))) w v h k ne b = omega arith
byte_of-put_byte_ne (suc zero) zero w v h k ne b = omega arith
byte_of-put_byte_ne (suc zero) (suc zero) w v h k ne b = absurd (omega arith)
byte_of-put_byte_ne (suc zero) (suc (suc zero)) w v h k ne b = omega arith
byte_of-put_byte_ne (suc zero) (suc (suc (suc zero))) w v h k ne b = omega arith
byte_of-put_byte_ne (suc (suc zero)) zero w v h k ne b = omega arith
byte_of-put_byte_ne (suc (suc zero)) (suc zero) w v h k ne b = omega arith
byte_of-put_byte_ne (suc (suc zero)) (suc (suc zero)) w v h k ne b = absurd (omega arith)
byte_of-put_byte_ne (suc (suc zero)) (suc (suc (suc zero))) w v h k ne b = omega arith
byte_of-put_byte_ne (suc (suc (suc zero))) zero w v h k ne b = omega arith
byte_of-put_byte_ne (suc (suc (suc zero))) (suc zero) w v h k ne b = omega arith
byte_of-put_byte_ne (suc (suc (suc zero))) (suc (suc zero)) w v h k ne b = omega arith
byte_of-put_byte_ne (suc (suc (suc zero))) (suc (suc (suc zero))) w v h k ne b =
    absurd (omega arith)
byte_of-put_byte_ne (suc (suc (suc (suc r)))) q w v h k ne b = absurd (omega arith)
byte_of-put_byte_ne r (suc (suc (suc (suc q)))) w v h k ne b = absurd (omega arith)
