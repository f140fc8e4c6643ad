-- ===== src/Emu/Memory/Pairs.antt =====
-- The pairs of instructions `lwl`, `lwr` and `swl`, `swr` of src/emu.c.
use cmips_cen.Base.{
  ℕ, ◌+◌, ◌*◌, ◌/◌, ◌%◌, ◌^◌, ◌<◌, ◌≡◌, ◌≢◌, ◌⊎◌, ap, ap₂, sym, ◌∙◌, arith, false, Bool-cases, inl,
  inr, ◌==◌, if◌then◌else◌, update, update_self, update_ne, update-update,
}
use cmips_cen.Machine.{Mips, ok, M, and_then, ◌>>◌}
use cmips_cen.Emu.Regs.{set_rt, get_rt, rs_of, rt_of}
use cmips_cen.Emu.Access.Ram.{kseg0, byte_at, read_word_ram, write_word_ram}
use cmips_cen.Emu.Memory.{
  address, load_part, store_part, op_lwl, op_lwr, op_swl, op_swr, swl_merge, swr_merge, lwl_merge,
  lwr_merge, align_word, unless_exception,
}
use cmips_cen.Emu.Access.{byte_of, byte_shift, read_virt_word, write_virt_word}
use cmips_cen.Emu.Memory.Unaligned.{
  be_word, across, be_word-across, load_parts, store_parts, swl_merge-byte, swr_merge-byte,
}

-- Two instruction words that name one register, and the four bytes from `p` on by the same base
pub record IsPair (first second p : ℕ) (m : Mips) : Type 0 where
  pub same_register : rt_of second ≡ rt_of first
  pub first_at : address first m ≡ kseg0 p
  pub second_at : address second m ≡ kseg0 (p + 3)
  pub quiet : m.exception_occured ≡ false
  pub in_memory : p + 3 < m.pmemsz
  pub low : p + 3 < 0x14000000

load_part_ram :
    (merge : ℕ → ℕ → ℕ → ℕ) (op p : ℕ) (m : Mips)
    → address op m ≡ kseg0 p
    → m.exception_occured ≡ false
    → p < m.pmemsz
    → p < 0x14000000
    → load_part merge op m ≡ ok tt (set_rt op (merge (p % 4) (m.mem (p / 4)) (get_rt op m)) m)
unfolding load_part
load_part_ram merge op p m at quiet inm low =
    let al : align_word (kseg0 p) ≡ kseg0 (p / 4 * 4) = omega arith in
    let off : kseg0 p % 4 ≡ p % 4 = omega arith in
    let word : p / 4 * 4 / 4 ≡ p / 4 = omega arith in
    rw (
      at,
      al,
      read_word_ram m (p / 4 * 4) (omega arith) (omega arith) (omega arith),
      quiet,
      off,
      word,
    )

-- `lwl` at an address of kseg0 and `lwr` three bytes on, into one register that is not the base, with
-- all four bytes in the memory and below the devices (physical address 0x14000000), load the
-- big-endian word at that address, aligned or not, and change nothing else.
pub op_lwr-op_lwl :
    (first second p : ℕ) (m : Mips)
    → IsPair first second p m
    → rs_of second ≢ rt_of first
    → m.mem (p / 4) < 2 ^ 32
    → m.mem ((p + 3) / 4) < 2 ^ 32
    → (op_lwl first >> op_lwr second) m ≡ ok tt (set_rt first (be_word m p) m)
unfolding op_lwl op_lwr set_rt address
op_lwr-op_lwl first second p m h base w0 w1 =
    let x = lwl_merge (p % 4) (m.mem (p / 4)) (get_rt first m) in
    let m1 = set_rt first x m in
    let at : address second m1 ≡ kseg0 (p + 3) =
      (rw (update_ne m.regs (rt_of first) (rs_of second) x base)) ∙ h.second_at in
    let got : get_rt second m1 ≡ x = rw h.same_register (update_self m.regs (rt_of first) x) in
    let below : p < m.pmemsz = omega (arith, h.in_memory) in
    let low : p < 0x14000000 = omega (arith, h.low) in
    let y = lwr_merge ((p + 3) % 4) (m.mem ((p + 3) / 4)) (get_rt second m1) in
    let value : y ≡ be_word m p =
      (let off : (p + 3) % 4 ≡ (p % 4 + 3) % 4 = omega arith in
        let w = m.mem ((p + 3) / 4) in
        ap (λ t. lwr_merge ((p + 3) % 4) w t) got
        ∙ ap (λ o. lwr_merge o w x) off
        ∙ load_parts (p % 4) (m.mem (p / 4)) w (get_rt first m) (omega arith) w0 w1
            (λ z. ap m.mem (omega arith))
        ∙ sym (be_word-across m p)) in
    rw (load_part_ram lwl_merge first p m h.first_at h.quiet below low) (
      load_part_ram lwr_merge second (p + 3) m1 at h.quiet h.in_memory h.low
      ∙ ap (λ z. ok tt (set_rt second z m1)) value
      ∙ (rw h.same_register (
          ap (λ f. ok tt (record m { regs = f }))
            (update-update m.regs (rt_of first) x (be_word m p)))))

unless_quiet :
    (k : M (Unit {0})) (m : Mips) → m.exception_occured ≡ false → unless_exception k m ≡ k m
unless_quiet k m quiet = ap (λ b. if b then ok tt m else k m) quiet

-- A partial store at an address of the memory
store_part_ram :
    (merge : ℕ → ℕ → ℕ → ℕ) (op p : ℕ) (m : Mips)
    → address op m ≡ kseg0 p
    → m.exception_occured ≡ false
    → p < m.pmemsz
    → p < 0x14000000
    → store_part merge op m
      ≡ ok tt
          (record m { mem = update m.mem (p / 4) (merge (p % 4) (m.mem (p / 4)) (get_rt op m)) })
unfolding store_part
store_part_ram merge op p m at quiet inm low =
    let rt = get_rt op m in
    let al : align_word (kseg0 p) ≡ kseg0 (p / 4 * 4) = omega arith in
    let off : kseg0 p % 4 ≡ p % 4 = omega arith in
    let word : p / 4 * 4 / 4 ≡ p / 4 = omega arith in
    let rest =
      λ (a w : ℕ). unless_exception (write_virt_word (align_word a) (merge (a % 4) w rt)) in
    let store = λ (o i : ℕ). write_virt_word (kseg0 (p / 4 * 4)) (merge o (m.mem i) rt) m in
    ap (λ a. and_then (read_virt_word (align_word a) m) (rest a)) at
    ∙ ap (λ a. and_then (read_virt_word a m) (rest (kseg0 p))) al
    ∙ ap (λ o. and_then o (rest (kseg0 p)))
        (read_word_ram m (p / 4 * 4) (omega arith) (omega arith) (omega arith))
    ∙ unless_quiet
        (write_virt_word (align_word (kseg0 p)) (merge (kseg0 p % 4) (m.mem (p / 4 * 4 / 4)) rt)) m
        quiet
    ∙ ap (λ a. write_virt_word a (merge (kseg0 p % 4) (m.mem (p / 4 * 4 / 4)) rt) m) al
    ∙ ap₂ store off word
    ∙ write_word_ram m (p / 4 * 4) (merge (p % 4) (m.mem (p / 4)) rt) (omega arith) (omega arith)
        (omega arith)
    ∙ ap (λ i. ok tt (record m { mem = update m.mem i (merge (p % 4) (m.mem (p / 4)) rt) })) word

abbrev first_store : (f : ℕ → ℕ) (p v : ℕ) → ℕ → ℕ
first_store f p v = update f (p / 4) (swl_merge (p % 4) (f (p / 4)) v)

abbrev both_stores : (f : ℕ → ℕ) (p v : ℕ) → ℕ → ℕ
both_stores f p v =
    let f1 = first_store f p v in
    update f1 ((p + 3) / 4) (swr_merge ((p + 3) % 4) (f1 ((p + 3) / 4)) v)

-- The two words in memory after the pair of stores hold the register's bytes from `p` on.
stored_word :
    (f : ℕ → ℕ) (p v : ℕ)
    → v < 2 ^ 32
    → across (p % 4) (both_stores f p v (p / 4)) (both_stores f p v ((p + 3) / 4)) ≡ v
unfolding swr_merge
stored_word f p v b =
    let f1 = first_store f p v in
    let y = swr_merge ((p + 3) % 4) (f1 ((p + 3) / 4)) v in
    let off : (p + 3) % 4 ≡ (p % 4 + 3) % 4 = omega arith in
    let right : both_stores f p v ((p + 3) / 4) ≡ y = update_self f1 ((p + 3) / 4) y in
    elim (Bool-cases (p % 4 == 0)) [
      | inl aligned ↦
          (let same : p / 4 ≡ (p + 3) / 4 = ground arith in
            let zeroth : p % 4 ≡ 0 = ground arith in
            let whole : y ≡ v = ground arith in
            ap₂ (across (p % 4)) (ap (both_stores f p v) same ∙ right ∙ whole) (right ∙ whole)
            ∙ ap (λ r. across r v v) zeroth
            ∙ (omega arith))
      | inr unaligned ↦
          (let left : both_stores f p v (p / 4) ≡ swl_merge (p % 4) (f (p / 4)) v =
              update_ne f1 ((p + 3) / 4) (p / 4) y (ground arith)
              ∙ update_self f (p / 4) (swl_merge (p % 4) (f (p / 4)) v) in
            ap₂ (across (p % 4)) left (right ∙ ap (λ o. swr_merge o (f1 ((p + 3) / 4)) v) off)
            ∙ store_parts (p % 4) (f (p / 4)) (f1 ((p + 3) / 4)) v (omega arith) b)
    ]

-- The byte of a memory at an address
abbrev stored_byte : (ℕ → ℕ) → ℕ → ℕ
stored_byte f q = byte_of (f (q / 4)) (byte_shift q)

first_store-byte :
    (f : ℕ → ℕ) (p v q : ℕ)
    → v < 2 ^ 32
    → (q < p) ⊎ (p + 3 < q)
    → stored_byte (first_store f p v) q ≡ stored_byte f q
first_store-byte f p v q b apart = elim (Bool-cases (q / 4 == p / 4)) [
  | inl same ↦
      (let e : q / 4 ≡ p / 4 = ground arith in
        let before : q % 4 < p % 4 = ground arith in
        ap (λ i. byte_of (first_store f p v i) (byte_shift q)) e
        ∙ ap (λ w. byte_of w (byte_shift q))
            (update_self f (p / 4) (swl_merge (p % 4) (f (p / 4)) v))
        ∙ swl_merge-byte (p % 4) (q % 4) (f (p / 4)) v (omega arith) before b
        ∙ ap (λ i. byte_of (f i) (byte_shift q)) (sym e))
  | inr other ↦
      ap (λ w. byte_of w (byte_shift q))
        (update_ne f (p / 4) (q / 4) (swl_merge (p % 4) (f (p / 4)) v) (ground arith))
]

second_store-byte :
    (f : ℕ → ℕ) (p v q : ℕ)
    → (q < p) ⊎ (p + 3 < q)
    → stored_byte (update f ((p + 3) / 4) (swr_merge ((p + 3) % 4) (f ((p + 3) / 4)) v)) q
      ≡ stored_byte f q
second_store-byte f p v q apart =
    let n = (p + 3) / 4 in
    let y = swr_merge ((p + 3) % 4) (f n) v in
    elim (Bool-cases (q / 4 == n)) [
      | inl same ↦
          (let e : q / 4 ≡ n = ground arith in
            let after : (p + 3) % 4 < q % 4 = ground arith in
            ap (λ i. byte_of (update f n y i) (byte_shift q)) e
            ∙ ap (λ w. byte_of w (byte_shift q)) (update_self f n y)
            ∙ swr_merge-byte ((p + 3) % 4) (q % 4) (f n) v (omega arith) after
            ∙ ap (λ i. byte_of (f i) (byte_shift q)) (sym e))
      | inr other ↦ ap (λ w. byte_of w (byte_shift q)) (update_ne f n (q / 4) y (ground arith))
    ]

-- `swl` at an address of kseg0 and `swr` three bytes on, of one register, with all four bytes in the
-- memory and below the devices (physical address 0x14000000), change these four bytes alone: the
-- big-endian word then at that address, aligned or not, is the register, and every other byte of the
-- memory is as it was.
pub op_swr-op_swl :
    (first second p : ℕ) (m : Mips)
    → IsPair first second p m
    → get_rt first m < 2 ^ 32
    → (mem' : ℕ → ℕ) × ((op_swl first >> op_swr second) m ≡ ok tt (record m { mem = mem' }))
      × (be_word (record m { mem = mem' }) p ≡ get_rt first m)
      × ((q : ℕ) → (q < p) ⊎ (p + 3 < q) → byte_at (record m { mem = mem' }) q ≡ byte_at m q)
unfolding op_swl op_swr address
op_swr-op_swl first second p m h b =
    let v = get_rt first m in
    let m1 = record m { mem = first_store m.mem p v } in
    let below : p < m.pmemsz = omega (arith, h.in_memory) in
    let low : p < 0x14000000 = omega (arith, h.low) in
    let got : get_rt second m ≡ v = ap m.regs h.same_register in
    let after =
      λ (w : ℕ). update m1.mem ((p + 3) / 4) (swr_merge ((p + 3) % 4) (m1.mem ((p + 3) / 4)) w) in
    (
      both_stores m.mem p v,
      ap (λ o. and_then o (λ _. op_swr second))
            (store_part_ram swl_merge first p m h.first_at h.quiet below low)
          ∙ store_part_ram swr_merge second (p + 3) m1 h.second_at h.quiet h.in_memory h.low
          ∙ ap (λ w. ok tt (record m { mem = after w })) got,
      be_word-across (record m { mem = both_stores m.mem p v }) p ∙ stored_word m.mem p v b,
      λ q apart. second_store-byte m1.mem p v q apart ∙ first_store-byte m.mem p v q b apart,
    )
