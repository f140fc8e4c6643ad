-- ===== src/Vr4300/Fault/Lines.antt =====
-- vr4300/fault.c: the loops that move the words of a line, at addresses of the memory.
use cmips_cen.Base.{
  ℕ, zero, suc, ◌+◌, ◌-◌, ◌*◌, ◌%◌, ◌^◌, ◌≤◌, ◌<◌, ◌≡◌, ◌⊎◌, inl, inr, refl, ap, sym, ◌∙◌, arith,
  true, Bool-cases, ltb, ◌==◌, update, u32, bit_and, bit_or,
}
use cmips_cen.Base.Bits.{bit_and-mask, bit_and-lt, bit_or-zero_left}
use cmips_cen.Bus.Controller.{
  BusController, done, word_at, put_word, merge_word, bus_read_word, bus_write_word,
}
use cmips_cen.Bus.Controller.Words.{IsBytes, word_at-put_word, word_at-put_word_ne}
use cmips_cen.Vr4300.Dcache
use cmips_cen.Vr4300.Dcache.{DcacheLine}
use cmips_cen.Vr4300.Fault.Refill.{and_then, swapped, write_words, read_words, write_line}

-- A write with a full mask replaces the word.
full_mask : (orig word : ℕ) → word < 2 ^ 32 → merge_word orig word (2 ^ 32 - 1) ≡ word
unfolding merge_word
full_mask orig word h =
    let none : bit_and orig (2 ^ 32 - 1 - (2 ^ 32 - 1)) ≡ 0 =
      (let small = bit_and-lt 0 orig 0 (omega arith) in omega (arith, small)) in
    let all = bit_and-mask 32 word in
    ap (λ x. bit_or x (bit_and word (2 ^ 32 - 1))) none
    ∙ ap (bit_or 0) all
    ∙ bit_or-zero_left (word % 2 ^ 32)
    ∙ (omega arith)

-- The memory after the words of a line are written
pub put_words : ℕ → (address : ℕ) → (ℕ → ℕ) → (ℕ → ℕ) → ℕ → ℕ
put_words zero address words mem = mem
put_words (suc n) address words mem =
    put_word (address + n * 4) (words (swapped n)) (put_words n address words mem)

put_word-IsBytes : (a w : ℕ) (mem : ℕ → ℕ) → IsBytes mem → IsBytes (put_word a w mem)
unfolding put_word update
put_word-IsBytes a w mem b j = let h = b j in ground arith

pub put_words-IsBytes :
    (n address : ℕ) (words mem : ℕ → ℕ) → IsBytes mem → IsBytes (put_words n address words mem)
unfolding put_words
put_words-IsBytes zero address words mem b = b
put_words-IsBytes (suc n) address words mem b =
    put_word-IsBytes (address + n * 4) (words (swapped n)) (put_words n address words mem)
      (put_words-IsBytes n address words mem b)

pub word_at-put_words_ne :
    (n address b : ℕ) (words mem : ℕ → ℕ)
    → (b + 3 < address) ⊎ (address + n * 4 ≤ b)
    → word_at (put_words n address words mem) b ≡ word_at mem b
unfolding put_words
word_at-put_words_ne zero address b words mem h = refl
word_at-put_words_ne (suc n) address b words mem h =
    word_at-put_word_ne (address + n * 4) b (words (swapped n)) (put_words n address words mem)
      (ground arith)
    ∙ word_at-put_words_ne n address b words mem (ground arith)

pub word_at-put_words :
    (n i address : ℕ) (words mem : ℕ → ℕ)
    → ((j : ℕ) → words j < 2 ^ 32)
    → i < n
    → word_at (put_words n address words mem) (address + i * 4) ≡ words (swapped i)
unfolding put_words
word_at-put_words zero i address words mem small h = absurd (omega arith)
word_at-put_words (suc n) i address words mem small h = elim (Bool-cases (i == n)) [
  | inl e ↦
      (let same : i ≡ n = ground arith in
        ap (λ k. word_at (put_words (suc n) address words mem) (address + k * 4)) same
        ∙ word_at-put_word (address + n * 4) (words (swapped n)) (put_words n address words mem)
            (small (swapped n))
        ∙ ap (λ k. words (swapped k)) (sym same))
  | inr e ↦
      word_at-put_word_ne (address + n * 4) (address + i * 4) (words (swapped n))
        (put_words n address words mem) (ground arith)
      ∙ word_at-put_words n i address words mem small (ground arith)
]

write_memory :
    (address word : ℕ) (bus : BusController)
    → word < 2 ^ 32
    → address + 3 < bus.mem_size
    → bus_write_word address word (2 ^ 32 - 1) bus
      ≡ done tt (record bus { mem = put_word address word bus.mem })
unfolding bus_write_word
write_memory address word bus small fits =
    let full = full_mask (word_at bus.mem address) word small in
    let in_start : ltb address bus.mem_size ≡ true = ground arith in
    let in_end : ltb (address + 3) bus.mem_size ≡ true = ground arith in
    rw (in_start, in_end) (ap (λ w. done tt (record bus { mem = put_word address w bus.mem })) full)

pub write_words_lem :
    (n address : ℕ) (words : ℕ → ℕ) (bus : BusController)
    → ((j : ℕ) → words j < 2 ^ 32)
    → address + n * 4 ≤ bus.mem_size
    → bus.mem_size ≤ 2 ^ 32
    → write_words n address words bus
      ≡ done tt (record bus { mem = put_words n address words bus.mem })
unfolding write_words put_words
write_words_lem zero address words bus small fits room = refl
write_words_lem (suc n) address words bus small fits room =
    let bus1 : BusController = record bus { mem = put_words n address words bus.mem } in
    let word = words (swapped n) in
    let inside : u32 (address + n * 4) ≡ address + n * 4 = omega arith in
    ap (λ r. and_then r (λ _. bus_write_word (u32 (address + n * 4)) word (2 ^ 32 - 1)))
      (write_words_lem n address words bus small (omega arith) room)
    ∙ ap (λ a. bus_write_word a word (2 ^ 32 - 1) bus1) inside
    ∙ write_memory (address + n * 4) word bus1 (small (swapped n)) (omega arith)

pub write_line_lem :
    (line : DcacheLine) (vaddr address : ℕ) (bus : BusController)
    → Dcache.line_address line vaddr ≡ address
    → ((j : ℕ) → line.words j < 2 ^ 32)
    → address + 16 ≤ bus.mem_size
    → bus.mem_size ≤ 2 ^ 32
    → write_line line vaddr bus
      ≡ done tt (record bus { mem = put_words 4 address line.words bus.mem })
unfolding write_line
write_line_lem line vaddr address bus same small fits room =
    ap (λ a. write_words 4 a line.words bus) same
    ∙ write_words_lem 4 address line.words bus small fits room

read_memory :
    (address : ℕ) (bus : BusController)
    → address + 3 < bus.mem_size
    → bus.mem_size ≤ 2 ^ 32
    → bus_read_word (u32 address) bus ≡ done (word_at bus.mem address) bus
unfolding bus_read_word
read_memory address bus fits room =
    let inside : u32 address ≡ address = omega arith in
    let in_start : ltb address bus.mem_size ≡ true = ground arith in
    let in_end : ltb (address + 3) bus.mem_size ≡ true = ground arith in
    ap (λ a. bus_read_word a bus) inside ∙ rw (in_start, in_end) refl

-- What a loop of reads leaves in the places `slot`
pub read_memory_words : ℕ → (slot : ℕ → ℕ) → (address : ℕ) → (words mem : ℕ → ℕ) → ℕ → ℕ
unfolding update
read_memory_words zero slot address words mem = words
read_memory_words (suc n) slot address words mem =
    update (read_memory_words n slot address words mem) (slot n) (word_at mem (address + n * 4))

pub read_words_lem :
    (n : ℕ) (slot : ℕ → ℕ) (address : ℕ) (words : ℕ → ℕ) (bus : BusController)
    → address + n * 4 ≤ bus.mem_size
    → bus.mem_size ≤ 2 ^ 32
    → read_words n slot address words bus
      ≡ done (read_memory_words n slot address words bus.mem) bus
unfolding read_words read_memory_words
read_words_lem zero slot address words bus fits room = refl
read_words_lem (suc n) slot address words bus fits room =
    let at_end = λ (read : ℕ → ℕ) (bus1 : BusController).
      and_then (bus_read_word (u32 (address + n * 4)) bus1) (λ w. done (update read (slot n) w)) in
    ap (λ r. and_then r at_end) (read_words_lem n slot address words bus (omega arith) room)
    ∙ ap
        (λ r.
          and_then r
            (λ w. done (update (read_memory_words n slot address words bus.mem) (slot n) w)))
        (read_memory (address + n * 4) bus (omega arith) room)

pub line_words : (address : ℕ) → (ℕ → ℕ) → ℕ → ℕ
unfolding read_memory_words
line_words address mem = read_memory_words 4 swapped address (λ _. 0) mem

pub read_line_lem :
    (address : ℕ) (bus : BusController)
    → address + 16 ≤ bus.mem_size
    → bus.mem_size ≤ 2 ^ 32
    → read_words 4 swapped address (λ _. 0) bus ≡ done (line_words address bus.mem) bus
unfolding line_words
read_line_lem address bus fits room = read_words_lem 4 swapped address (λ _. 0) bus fits room

-- The word of a line in the place of the cache that belongs to it
pub line_words-swapped :
    (i address : ℕ) (mem : ℕ → ℕ)
    → i < 4
    → line_words address mem (swapped i) ≡ word_at mem (address + i * 4)
unfolding line_words
line_words-swapped i address mem h = ground arith

pub word_at-lt : (a : ℕ) (mem : ℕ → ℕ) → IsBytes mem → word_at mem a < 2 ^ 32
unfolding word_at
word_at-lt a mem b = omega (arith, b a, b (a + 1), b (a + 2), b (a + 3))

pub line_words-lt : (j address : ℕ) (mem : ℕ → ℕ) → IsBytes mem → line_words address mem j < 2 ^ 32
unfolding line_words update
line_words-lt j address mem b = ground (
  arith,
  word_at-lt (address + 0 * 4) mem b,
  word_at-lt (address + 1 * 4) mem b,
  word_at-lt (address + 2 * 4) mem b,
  word_at-lt (address + 3 * 4) mem b,
)
