-- ===== src/Vr4300/Fault/Refill.antt =====
-- vr4300/fault.c: the interlocks that read and write lines over the bus, `VR4300_DCM` and
-- `VR4300_ICB`. The trace to `out.log` is left out.
use cmips_cen.Base.{
  ℕ, zero, suc, ◌+◌, ◌-◌, ◌*◌, ◌/◌, ◌%◌, ◌^◌, Bool, Option, none, some, ◌&&◌, ◌==◌, leb, ltb,
  if◌then◌else◌, update, u32, u64, bit_and, bit_or,
}
use cmips_cen.Emu.Access.{uartbase, uartsize}
use cmips_cen.Bus.Controller.{
  BusController, BusResult, done, stopped, bus_read_word, bus_write_word,
}
use cmips_cen.Vr4300.Dcache
use cmips_cen.Vr4300.Dcache.{DcacheLine}
use cmips_cen.Vr4300.Icache
use cmips_cen.Vr4300.Fault.{common_interlocks}
use cmips_cen.Vr4300.State.{Vr4300, with_dcwb, with_rfex, access_dword, request_read}

-- `DCACHE_ACCESS_DELAY`, `ICACHE_ACCESS_DELAY` and `MEMORY_WORD_DELAY`
abbrev pub dcache_access_delay : ℕ
dcache_access_delay = 46 - 2

abbrev pub icache_access_delay : ℕ
icache_access_delay = 50 - 2

abbrev pub memory_word_delay : ℕ
memory_word_delay = 38

-- Another access after one that returned
abbrev pub and_then : {A B : Type 0} → BusResult A → (A → BusController → BusResult B) → BusResult B
and_then (done a bus) k = k a bus
and_then stopped k = stopped

-- The processor goes on with the bus of an access.
abbrev pub on_bus :
    {A : Type 0} → Vr4300 → BusResult A → (A → Vr4300 → Option Vr4300) → Option Vr4300
on_bus c (done a bus) k = k a (record c { bus = bus })
on_bus c stopped k = none

-- `i ^ (WORD_ADDR_XOR >> 2)`, on a host whose low byte comes first
abbrev pub swapped : ℕ → ℕ
swapped i = if i % 2 == 0 then i + 1 else i - 1

-- The loop that writes the words of a line, from the first on
unfoldable pub write_words : ℕ → (address : ℕ) → (ℕ → ℕ) → BusController → BusResult (Unit {0})
write_words zero address words bus = done tt bus
write_words (suc n) address words bus =
    and_then (write_words n address words bus)
      (λ _. bus_write_word (u32 (address + n * 4)) (words (swapped n)) (2 ^ 32 - 1))

-- The loop that reads the words of a line into the places `slot`
unfoldable pub read_words :
    ℕ → (slot : ℕ → ℕ) → (address : ℕ) → (ℕ → ℕ) → BusController → BusResult (ℕ → ℕ)
read_words zero slot address words bus = done words bus
read_words (suc n) slot address words bus =
    and_then (read_words n slot address words bus) (λ read bus1.
      and_then (bus_read_word (u32 (address + n * 4)) bus1) (λ w. done (update read (slot n) w)))

-- The four words of a line of the data cache, to the bus
unfoldable pub write_line : DcacheLine → (vaddr : ℕ) → BusController → BusResult (Unit {0})
unfolding write_words Dcache.line_address
write_line line vaddr bus = write_words 4 (Dcache.line_address line vaddr) line.words bus

-- The cached part of `VR4300_DCM`: an old line that is dirty goes to the bus, and the new one comes.
abbrev pub flush : Option DcacheLine → (vaddr : ℕ) → BusController → BusResult (Unit {0})
flush none vaddr bus = done tt bus
flush (some line) vaddr bus = write_line line vaddr bus

unfoldable pub refill : (vaddr paddr : ℕ) → Vr4300 → Option Vr4300
unfolding write_line read_words Dcache.should_flush_line Dcache.fill common_interlocks
refill vaddr paddr c =
    on_bus c (flush (Dcache.should_flush_line c.dcache vaddr) vaddr c.bus) (λ _ c1.
      let c2 = common_interlocks dcache_access_delay 1 c1 in
      let line = paddr / 2 ^ 4 * 2 ^ 4 in
      on_bus c2 (read_words 4 swapped line (λ _. 0) c2.bus)
        (λ words c3. some (record c3 { dcache = Dcache.fill vaddr line words c3.dcache })))

-- `(int64_t) x >> s`
abbrev pub sra64 : (x s : ℕ) → ℕ
sra64 x s = if ltb x (2 ^ 63) then x / 2 ^ s else 2 ^ 64 - 1 - (2 ^ 64 - 1 - x) / 2 ^ s

abbrev pub claims_port : ℕ → Bool
claims_port paddr = leb uartbase paddr && leb paddr (uartbase + uartsize)

-- `access_type == VR4300_ACCESS_DWORD ? 0x7 : 0x3`, and one more
abbrev pub access_bytes : ℕ → ℕ
access_bytes access_type = if access_type == access_dword then 8 else 4

-- `dcwb_latch->result |= (sdata >> rshiftamt & request->data) << request->postshift`
abbrev pub put_result : (sdata : ℕ) → Vr4300 → Vr4300
put_result sdata c =
    let request = c.pipeline.exdc_latch.request in
    let part = bit_and (sra64 sdata ((8 - request.size) * 8)) request.content in
    with_dcwb (λ l. record l { result = bit_or l.result (u64 (part * 2 ^ request.postshift)) }) c

-- The service of an uncached read
unfoldable pub read_uncached : Vr4300 → Option Vr4300
unfolding common_interlocks
read_uncached c =
    let request = c.pipeline.exdc_latch.request in
    let paddr = request.paddr in
    let bytes = access_bytes request.access_type in
    let start = paddr / bytes * bytes in
    let shift = paddr % bytes * 8 in
    let finish = λ (c1 : Vr4300). some (common_interlocks memory_word_delay 2 c1) in
    if claims_port paddr
    then on_bus c (bus_read_word paddr c.bus)
        (λ word c1. finish (with_dcwb (λ l. record l { result = word }) c1))
    else on_bus c (bus_read_word start c.bus) (λ hiword c1.
      if request.access_type == access_dword
      then on_bus c1 (bus_read_word (u32 (start + 4)) c1.bus)
          (λ loword c2. finish (put_result (u64 ((hiword * 2 ^ 32 + loword) * 2 ^ shift)) c2))
      else finish (put_result (u64 (hiword * 2 ^ (shift + 32))) c1))

-- The service of an uncached write
unfoldable pub write_uncached : Vr4300 → Option Vr4300
unfolding common_interlocks
write_uncached c =
    let request = c.pipeline.exdc_latch.request in
    let paddr = request.paddr in
    let bytes = access_bytes request.access_type in
    let start = paddr / bytes * bytes in
    let finish = λ (_ : Unit {0}) (c1 : Vr4300). some (common_interlocks memory_word_delay 2 c1) in
    let low = λ (address : ℕ) (c1 : Vr4300).
      on_bus c1 (bus_write_word address (u32 request.content) (u32 request.wdqm) c1.bus) finish in
    if claims_port paddr
    then on_bus c (bus_write_word paddr (u32 (request.content / 2 ^ 24)) (2 ^ 32 - 1) c.bus) finish
    else if request.access_type == access_dword
    then on_bus c (bus_write_word start (request.content / 2 ^ 32) (request.wdqm / 2 ^ 32) c.bus)
        (λ _ c1. low (u32 (start + 4)) c1)
    else low start c

-- `VR4300_DCM`
unfoldable pub vr4300_dcm : Vr4300 → Option Vr4300
unfolding read_uncached write_uncached refill
vr4300_dcm c =
    let exdc = c.pipeline.exdc_latch in
    if exdc.cached
    then refill exdc.request.vaddr exdc.request.paddr c
    else if exdc.request.type == request_read
    then read_uncached c
    else write_uncached c

-- `VR4300_ICB`
unfoldable pub vr4300_icb : Vr4300 → Option Vr4300
unfolding read_words Icache.fill common_interlocks
vr4300_icb c =
    let vaddr = c.pipeline.icrf_latch.common.pc in
    let rfex = c.pipeline.rfex_latch in
    let paddr = rfex.paddr in
    let line = paddr / 2 ^ 5 * 2 ^ 5 + paddr % 2 ^ 2 in
    if rfex.cached
    then on_bus c (read_words 8 (λ i. i) line (λ _. 0) c.bus) (λ words c1.
      let c2 = with_rfex (λ l. record l { iw = words (vaddr / 2 ^ 2 % 2 ^ 3) }) c1 in
      some (
        common_interlocks icache_access_delay 4
          (record c2 { icache = Icache.fill vaddr line words c2.icache })))
    else on_bus c (bus_read_word paddr c.bus) (λ word c1.
      some (common_interlocks memory_word_delay 4 (with_rfex (λ l. record l { iw = word }) c1)))
