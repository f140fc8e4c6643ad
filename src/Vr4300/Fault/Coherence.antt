-- ===== src/Vr4300/Fault/Coherence.antt =====
-- vr4300/fault.c: a refill of the data cache is invisible to the loads of a program.
use cmips_cen.Base.{
  ℕ, ◌+◌, ◌*◌, ◌/◌, ◌%◌, ◌^◌, ◌≤◌, ◌<◌, ◌≡◌, ◌≢◌, inl, inr, refl, ap, sym, subst, ◌∙◌, arith, Bool,
  true, false, Bool-cases, Option, some, ◌==◌, ◌&&◌, if◌then◌else◌, if_ind,
}
use cmips_cen.Bus.Controller.{done, word_at}
use cmips_cen.Bus.Controller.Words.{IsBytes}
use cmips_cen.Vr4300.Dcache
use cmips_cen.Vr4300.Dcache.{DcacheLine}
use cmips_cen.Vr4300.Dcache.Probe.{load, load_after}
use cmips_cen.Vr4300.Fault.{common_interlocks}
use cmips_cen.Vr4300.Fault.Refill.{dcache_access_delay, on_bus, swapped, read_words, flush, refill}
use cmips_cen.Vr4300.Fault.Lines.{
  put_words-IsBytes, word_at-put_words, word_at-put_words_ne, write_line_lem, read_line_lem,
  line_words, line_words-swapped, line_words-lt,
}
use cmips_cen.Vr4300.State.{Vr4300}
use cmips_cen.Vr4300.Fault.View.{
  address_of, IsCoherent, of_line, of_line_memory, load_word, flushed, refilled, with_memory,
}

and_parts : (a b : Bool) → (a && b) ≡ true → (a ≡ true) × (b ≡ true)
and_parts true b h = (refl, h)
and_parts false b h = cc

module _ (vaddr : ℕ) (c : Vr4300) (h : IsCoherent c) where
  k : ℕ
  k = Dcache.index vaddr

  old : DcacheLine
  old = c.dcache k

  flush_lem :
      flush (Dcache.should_flush_line c.dcache vaddr) vaddr c.bus
      ≡ done tt (record (c.bus) { mem = flushed k old c.bus.mem })
  unfolding k old Dcache.should_flush_line flushed Dcache.line_address
  flush_lem = elim (Bool-cases (Dcache.is_dirty (c.dcache k) && Dcache.is_valid (c.dcache k))) [
    | inl yes_dirty ↦
        (let valid : Dcache.is_valid (c.dcache k) ≡ true = (and_parts _ _ yes_dirty).1 in
          let at = h.inside k (omega arith) valid in
          rw yes_dirty (
            write_line_lem (c.dcache k) vaddr (address_of k (c.dcache k)) c.bus (omega arith)
              (h.words k) at.0 h.room))
    | inr no_dirty ↦ rw no_dirty refl
  ]

  refill-refilled :
      (paddr : ℕ)
      → paddr / 2 ^ 4 * 2 ^ 4 + 16 ≤ c.bus.mem_size
      → refill vaddr paddr c ≡ some (refilled vaddr paddr c)
  unfolding k old refill
  refill-refilled paddr fits =
      let line = paddr / 2 ^ 4 * 2 ^ 4 in
      let mem = flushed k old c.bus.mem in
      let c2 = common_interlocks dcache_access_delay 1 (with_memory c mem) in
      let finish = λ (words : ℕ → ℕ) (c3 : Vr4300).
        some (record c3 { dcache = Dcache.fill vaddr line words c3.dcache }) in
      let start = λ (_ : Unit {0}) (c1 : Vr4300).
        (let c2 = common_interlocks dcache_access_delay 1 c1 in
          on_bus c2 (read_words 4 swapped line (λ _. 0) c2.bus) finish) in
      ap (λ r. on_bus c r start) flush_lem
      ∙ ap (λ r. on_bus c2 r finish) (read_line_lem line c2.bus fits h.room)

  flushed_word :
      (a i : ℕ)
      → i < 4
      → a % 2 ^ 4 ≡ 0
      → word_at (flushed k old c.bus.mem) (a + i * 4) ≡ (
          if (Dcache.is_dirty old && Dcache.is_valid old) && address_of k old == a
          then old.words (swapped i)
          else word_at c.bus.mem (a + i * 4))
  unfolding flushed old
  flushed_word a i lt aligned =
      let there = address_of k old in
      let hit = word_at-put_words 4 i there old.words c.bus.mem (h.words k) lt in
      let miss = word_at-put_words_ne 4 there (a + i * 4) old.words c.bus.mem in
      ground (arith, hit, miss)

  -- What a load sees of an unfilled cache, with the memory after the flush
  seen_after_flush :
      (a i : ℕ)
      → i < 4
      → a % 2 ^ 4 ≡ 0
      → Dcache.index a ≢ k
      → of_line (load c.dcache a a) (flushed k old c.bus.mem) a i ≡ load_word c a i
  unfolding k old
  seen_after_flush a i lt aligned ne =
      let word = flushed_word a i lt aligned in
      let at = h.inside k (omega arith) in
      of_line_memory (load c.dcache a a) (flushed k old c.bus.mem) c.bus.mem a i
        (ground (arith, word, at))

  -- At the index of the refilled line, the old line was the one of the address, or it was not.
  seen_at_line :
      (a i : ℕ)
      → i < 4
      → a % 2 ^ 4 ≡ 0
      → Dcache.index a ≡ k
      → word_at (flushed k old c.bus.mem) (a + i * 4) ≡ load_word c a i
  unfolding k old Dcache.probe
  seen_at_line a i lt aligned here =
      let word = flushed_word a i lt aligned in
      let at = h.inside k (omega arith) in
      let same : Dcache.get_line c.dcache a ≡ c.dcache k = ap c.dcache here in
      let clean = h.clean k i (omega arith) lt in rw same (ground (arith, word, at, clean))

  load_word-refilled :
      (paddr a i : ℕ)
      → Dcache.index vaddr ≡ Dcache.index paddr
      → i < 4
      → a % 2 ^ 4 ≡ 0
      → load_word (refilled vaddr paddr c) a i ≡ load_word c a i
  unfolding k old common_interlocks
  load_word-refilled paddr a i colour lt aligned =
      let line = paddr / 2 ^ 4 * 2 ^ 4 in
      let mem = flushed k old c.bus.mem in
      let view = λ (l : Option ((ℕ → ℕ) × Bool)). of_line l mem a i in
      let after = (load_after c.dcache vaddr line 0 a a (line_words line mem)).0 in
      elim (Bool-cases (Dcache.index a == k)) [
        | inl here ↦
            (let at : Dcache.index a ≡ k = ground arith in
              elim (Bool-cases (Dcache.page a == Dcache.page line)) [
                | inl page ↦
                    (let same : line ≡ a = ground arith in
                      ap view after
                      ∙ rw (here, page)
                          (line_words-swapped i line mem lt
                            ∙ ap (λ x. word_at mem (x + i * 4)) same
                            ∙ seen_at_line a i lt aligned at))
                | inr page ↦ ap view after ∙ rw (here, page) (seen_at_line a i lt aligned at)
              ])
        | inr there ↦ ap view after ∙ rw there (seen_after_flush a i lt aligned (ground arith))
      ]

  flushed-IsBytes : IsBytes (flushed k old c.bus.mem)
  unfolding flushed
  flushed-IsBytes =
      if_ind IsBytes (Dcache.is_dirty old && Dcache.is_valid old)
        (put_words-IsBytes 4 (address_of k old) old.words c.bus.mem h.bytes) h.bytes

  module _ (paddr : ℕ) (colour : Dcache.index vaddr ≡ Dcache.index paddr) where
    new_line : ℕ → DcacheLine → DcacheLine
    new_line j line =
        if j == k
        then Dcache.validate_line (Dcache.page (paddr / 2 ^ 4 * 2 ^ 4))
            (record line { words = line_words (paddr / 2 ^ 4 * 2 ^ 4) (flushed k old c.bus.mem) })
        else line

    dcache_line : (j : ℕ) → (refilled vaddr paddr c).dcache j ≡ new_line j (c.dcache j)
    unfolding Dcache.fill new_line k old
    dcache_line j = ground arith

    line_at_k : (j : ℕ) → j ≡ k → address_of j (new_line j (c.dcache j)) ≡ paddr / 2 ^ 4 * 2 ^ 4
    unfolding new_line k Dcache.validate_line
    line_at_k j here = ground arith

    new_line_other : (j : ℕ) → j ≢ k → new_line j (c.dcache j) ≡ c.dcache j
    unfolding new_line
    new_line_other j ne = ground arith

    new_inside :
        (j : ℕ)
        → paddr / 2 ^ 4 * 2 ^ 4 + 16 ≤ c.bus.mem_size
        → j < 2 ^ 9
        → Dcache.is_valid (new_line j (c.dcache j)) ≡ true
        → (address_of j (new_line j (c.dcache j)) + 16 ≤ c.bus.mem_size)
          × (Dcache.index (address_of j (new_line j (c.dcache j))) ≡ j)
    unfolding k
    new_inside j fits lt valid = elim (Bool-cases (j == k)) [
      | inl here ↦
          (let same : j ≡ k = ground arith in
            let at = line_at_k j same in rw at ((fits, omega (arith, same, colour))))
      | inr there ↦
          subst
            (λ l.
              Dcache.is_valid l ≡ true
              → (address_of j l + 16 ≤ c.bus.mem_size) × (Dcache.index (address_of j l) ≡ j))
            (sym (new_line_other j (ground arith))) (h.inside j lt) valid
    ]

    -- The flush does not touch the memory of another line.
    word_of_other :
        (j i : ℕ)
        → j < 2 ^ 9
        → i < 4
        → j ≢ k
        → Dcache.is_valid (c.dcache j) ≡ true
        → word_at (flushed k old c.bus.mem) (address_of j (c.dcache j) + i * 4)
          ≡ word_at c.bus.mem (address_of j (c.dcache j) + i * 4)
    unfolding k old
    word_of_other j i lt lt4 ne valid =
        let word = flushed_word (address_of j (c.dcache j)) i lt4 (omega arith) in
        let at = h.inside j lt valid in
        let at_old = h.inside k (omega arith) in ground (arith, word, at, at_old)

    new_clean :
        (j i : ℕ)
        → j < 2 ^ 9
        → i < 4
        → Dcache.is_valid (new_line j (c.dcache j)) ≡ true
        → Dcache.is_dirty (new_line j (c.dcache j)) ≡ false
        → (new_line j (c.dcache j)).words (swapped i)
          ≡ word_at (flushed k old c.bus.mem) (address_of j (new_line j (c.dcache j)) + i * 4)
    unfolding new_line Dcache.validate_line
    new_clean j i lt lt4 valid dirty = elim (Bool-cases (j == k)) [
      | inl here ↦
          (let same : j ≡ k = ground arith in
            let at = line_at_k j same in
            rw at (
              rw here (line_words-swapped i (paddr / 2 ^ 4 * 2 ^ 4) (flushed k old c.bus.mem) lt4)))
      | inr there ↦
          subst
            (λ l.
              Dcache.is_valid l ≡ true
              → Dcache.is_dirty l ≡ false
              → l.words (swapped i) ≡ word_at (flushed k old c.bus.mem) (address_of j l + i * 4))
            (sym (new_line_other j (ground arith)))
            (λ v d. h.clean j i lt lt4 v d ∙ sym (word_of_other j i lt lt4 (ground arith) v)) valid
            dirty
    ]

    new_words : (j n : ℕ) → (new_line j (c.dcache j)).words n < 2 ^ 32
    unfolding new_line Dcache.validate_line
    new_words j n =
        let old_word = h.words j n in
        let new_word =
          line_words-lt n (paddr / 2 ^ 4 * 2 ^ 4) (flushed k old c.bus.mem) flushed-IsBytes in
        ground (arith, old_word, new_word)

    refilled-IsCoherent :
        paddr / 2 ^ 4 * 2 ^ 4 + 16 ≤ c.bus.mem_size → IsCoherent (refilled vaddr paddr c)
    unfolding common_interlocks k old
    refilled-IsCoherent fits = record {
      inside = λ j lt. rw (dcache_line j) (new_inside j fits lt);
      clean = λ j i lt lt4. rw (dcache_line j) (new_clean j i lt lt4);
      words = λ j n. rw (dcache_line j) (new_words j n);
      bytes = flushed-IsBytes;
      room = h.room;
    }

-- A refill of the data cache is invisible to a program. From a cache whose valid lines lie in the
-- memory at the index of their address, and whose clean lines hold what the memory holds, the refill
-- of any line of the memory, whose virtual and physical addresses have one index, succeeds. Every
-- word of every line is then read as before, from the cache or from the memory, and the cache is
-- again one of this kind.
pub refill-IsCoherent :
    (vaddr paddr : ℕ) (c : Vr4300)
    → IsCoherent c
    → Dcache.index vaddr ≡ Dcache.index paddr
    → paddr / 2 ^ 4 * 2 ^ 4 + 16 ≤ c.bus.mem_size
    → (c' : Vr4300) × (refill vaddr paddr c ≡ some c')
      × IsCoherent c'
      × ((a i : ℕ) → i < 4 → a % 2 ^ 4 ≡ 0 → load_word c' a i ≡ load_word c a i)
refill-IsCoherent vaddr paddr c h colour fits = (
  refilled vaddr paddr c,
  refill-refilled vaddr c h paddr fits,
  refilled-IsCoherent vaddr c h paddr colour fits,
  λ a i lt aligned. load_word-refilled vaddr c h paddr a i colour lt aligned,
)
