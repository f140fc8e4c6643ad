-- ===== src/Vr4300/Fault/View.antt =====
-- vr4300/fault.c: the data cache and the memory behind it, as a program sees them.
use cmips_cen.Base.{
  ℕ, ◌+◌, ◌*◌, ◌/◌, ◌%◌, ◌^◌, ◌≤◌, ◌<◌, ◌≡◌, refl, Bool, true, false, Option, none, some, ◌&&◌,
  if◌then◌else◌,
}
use cmips_cen.Bus.Controller.{word_at}
use cmips_cen.Bus.Controller.Words.{IsBytes}
use cmips_cen.Vr4300.Dcache
use cmips_cen.Vr4300.Dcache.{DcacheLine}
use cmips_cen.Vr4300.Dcache.Probe.{load}
use cmips_cen.Vr4300.Fault.{common_interlocks}
use cmips_cen.Vr4300.Fault.Refill.{dcache_access_delay, swapped}
use cmips_cen.Vr4300.Fault.Lines.{put_words, line_words}
use cmips_cen.Vr4300.State.{Vr4300}

-- The physical address of the line with index `k`
abbrev pub address_of : (k : ℕ) → DcacheLine → ℕ
address_of k line = Dcache.page line.metadata + k % 2 ^ 8 * 2 ^ 4

-- The cache and the memory of a program whose virtual and physical addresses have the same index
pub record IsCoherent (c : Vr4300) : Type 0 where
  -- A valid line lies in the memory, at the index of its address.
  pub inside :
      (k : ℕ)
      → k < 2 ^ 9
      → Dcache.is_valid (c.dcache k) ≡ true
      → (address_of k (c.dcache k) + 16 ≤ c.bus.mem_size)
        × (Dcache.index (address_of k (c.dcache k)) ≡ k)
  -- A line that is valid and not dirty holds what the memory holds.
  pub clean :
      (k i : ℕ)
      → k < 2 ^ 9
      → i < 4
      → Dcache.is_valid (c.dcache k) ≡ true
      → Dcache.is_dirty (c.dcache k) ≡ false
      → (c.dcache k).words (swapped i) ≡ word_at c.bus.mem (address_of k (c.dcache k) + i * 4)
  pub words : (k j : ℕ) → (c.dcache k).words j < 2 ^ 32
  pub bytes : IsBytes c.bus.mem
  pub room : c.bus.mem_size ≤ 2 ^ 32

-- The word `i` of the line at a physical address, as a load sees it
abbrev pub of_line : Option ((ℕ → ℕ) × Bool) → (ℕ → ℕ) → (address i : ℕ) → ℕ
of_line none mem address i = word_at mem (address + i * 4)
of_line (some line) mem address i = line.0 (swapped i)

pub of_line_memory :
    (line : Option ((ℕ → ℕ) × Bool)) (mem mem' : ℕ → ℕ) (a i : ℕ)
    → word_at mem (a + i * 4) ≡ word_at mem' (a + i * 4)
    → of_line line mem a i ≡ of_line line mem' a i
of_line_memory none mem mem' a i e = e
of_line_memory (some line) mem mem' a i e = refl

abbrev pub load_word : Vr4300 → (address i : ℕ) → ℕ
load_word c address i = of_line (load c.dcache address address) c.bus.mem address i

-- The memory after the flush of a line
unfoldable pub flushed : (k : ℕ) → DcacheLine → (ℕ → ℕ) → ℕ → ℕ
unfolding Dcache.is_valid Dcache.is_dirty
flushed k line mem =
    if Dcache.is_dirty line && Dcache.is_valid line
    then put_words 4 (address_of k line) line.words mem
    else mem

-- The state after a refill
abbrev pub refilled : (vaddr paddr : ℕ) → Vr4300 → Vr4300
refilled vaddr paddr c =
    let k = Dcache.index vaddr in
    let line = paddr / 2 ^ 4 * 2 ^ 4 in
    let mem = flushed k (c.dcache k) c.bus.mem in
    let c1 =
      common_interlocks dcache_access_delay 1 (record c { bus = record (c.bus) { mem = mem } }) in
    record c1 { dcache = Dcache.fill vaddr line (line_words line mem) c.dcache }

abbrev pub with_memory : Vr4300 → (ℕ → ℕ) → Vr4300
with_memory c mem = record c { bus = record (c.bus) { mem = mem } }
