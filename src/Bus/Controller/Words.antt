-- ===== src/Bus/Controller/Words.antt =====
-- bus/controller.c: reads of the memory after writes with a byte mask.
use cmips_cen.Base.{
  ℕ, ◌+◌, ◌-◌, ◌^◌, ◌<◌, ◌≡◌, ◌⊎◌, refl, ap, ap₂, ◌∙◌, arith, Bool, true, false, not, ◌&&◌, ◌||◌,
  if◌then◌else◌, update, bit, bit_and,
}
use cmips_cen.Base.Bits.{bit-bit_or, bit-bit_and, bit_complement, bit_or-lt, bit_and-lt}
use cmips_cen.Bus.Controller.{
  BusController, BusResult, done, stopped, word_at, put_word, merge_word, bus_read_word,
  bus_write_word,
}

-- The memory is made of bytes.
abbrev pub IsBytes : (ℕ → ℕ) → Type 0
IsBytes mem = (a : ℕ) → mem a < 2 ^ 8

pub word_at-put_word : (a w : ℕ) (mem : ℕ → ℕ) → w < 2 ^ 32 → word_at (put_word a w mem) a ≡ w
unfolding word_at put_word update
word_at-put_word a w mem h = ground arith

pub word_at-put_word_ne :
    (a b w : ℕ) (mem : ℕ → ℕ)
    → (b + 3 < a) ⊎ (a + 3 < b)
    → word_at (put_word a w mem) b ≡ word_at mem b
unfolding word_at put_word update
word_at-put_word_ne a b w mem h = ground arith

pub merge_word-lt : (orig word dqm : ℕ) → dqm < 2 ^ 32 → merge_word orig word dqm < 2 ^ 32
unfolding merge_word
merge_word-lt orig word dqm h =
    bit_or-lt 32 (bit_and orig (2 ^ 32 - 1 - dqm)) (bit_and word dqm)
      (bit_and-lt 32 orig (2 ^ 32 - 1 - dqm) (omega arith)) (bit_and-lt 32 word dqm h)

choose : (o w d : Bool) → ((o && not d) || (w && d)) ≡ (if d then w else o)
choose true true true = refl
choose true true false = refl
choose true false true = refl
choose true false false = refl
choose false true true = refl
choose false true false = refl
choose false false true = refl
choose false false false = refl

-- A merged word has the bits of the new word where the mask is set, and those of the old elsewhere.
pub bit-merge_word :
    (k orig word dqm : ℕ)
    → k < 32
    → dqm < 2 ^ 32
    → bit k (merge_word orig word dqm) ≡ (if bit k dqm then bit k word else bit k orig)
unfolding merge_word
bit-merge_word k orig word dqm h d =
    bit-bit_or k (bit_and orig (2 ^ 32 - 1 - dqm)) (bit_and word dqm)
    ∙ ap₂ ◌||◌
        (bit-bit_and k orig (2 ^ 32 - 1 - dqm)
          ∙ ap (λ b. bit k orig && b) (bit_complement 32 k dqm h d))
        (bit-bit_and k word dqm)
    ∙ choose (bit k orig) (bit k word) (bit k dqm)

-- The bus that a write leaves
abbrev pub after : BusResult (Unit {0}) → BusController → BusController
after (done _ bus) old = bus
after stopped old = old

-- A write of a word that lies in the memory succeeds. A read of the address then gives a word with
-- the bits written where the mask is set and those from before elsewhere, and a read of any word of
-- the memory that does not overlap gives what it gave before.
pub bus_read_word-bus_write_word :
    (address word dqm : ℕ) (bus : BusController)
    → address + 3 < bus.mem_size
    → dqm < 2 ^ 32
    → (bus' : BusController) × (bus_write_word address word dqm bus ≡ done tt bus')
      × ((w : ℕ) × (bus_read_word address bus' ≡ done w bus')
          × ((k : ℕ)
              → k < 32
              → bit k w ≡ (if bit k dqm then bit k word else bit k (word_at bus.mem address))))
      × ((b : ℕ)
          → b + 3 < bus.mem_size
          → (b + 3 < address) ⊎ (address + 3 < b)
          → bus_read_word b bus' ≡ done (word_at bus.mem b) bus')
unfolding bus_read_word bus_write_word
bus_read_word-bus_write_word address word dqm bus h d =
    let w = merge_word (word_at bus.mem address) word dqm in
    let bus' : BusController = record bus { mem = put_word address w bus.mem } in
    let small = merge_word-lt (word_at bus.mem address) word dqm d in
    let same = word_at-put_word address w bus.mem small in
    (
      bus',
      ground arith,
      (w, ground (arith, same), λ k p. bit-merge_word k (word_at bus.mem address) word dqm p d),
      λ b q apart. let e = word_at-put_word_ne address b w bus.mem apart in ground (arith, e),
    )
