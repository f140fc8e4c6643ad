-- ===== src/Bus/Controller/Ports.antt =====
-- bus/controller.c: where an access of an initialised bus goes.
use cmips_cen.Base.{
  ℕ, ◌+◌, ◌≡◌, refl, ap, ◌∙◌, arith, Bool, some, ltb, leb, ◌&&◌, if◌then◌else◌, bit_and,
}
use cmips_cen.Machine.{Mips}
use cmips_cen.Emu.Access.{uartbase, uartsize}
use cmips_cen.Uart.{uart_reset}
use cmips_cen.Bus.MemoryMap.{found, missing}
use cmips_cen.Bus.MemoryMap.Capacity.{range, map_address_range_once}
use cmips_cen.Bus.Controller.{
  BusController, uart, done, stopped, on_read, on_write, read_uart, write_uart, with_map, word_at,
  put_word, merge_word, bus_init, bus_read_word, bus_write_word,
}

-- The twenty bytes of the port
abbrev pub is_port : ℕ → Bool
is_port address = leb uartbase address && ltb address (uartbase + uartsize)

on_read_found :
    (address : ℕ) (bus : BusController)
    → on_read
        (if leb uartbase address && leb address (range uartbase uartsize uart).end
          then found (range uartbase uartsize uart)
          else missing)
        address
        bus
      ≡ (if is_port address then read_uart address bus else stopped)
on_read_found address bus = ground arith

on_write_found :
    (address word dqm : ℕ) (bus : BusController)
    → on_write
        (if leb uartbase address && leb address (range uartbase uartsize uart).end
          then found (range uartbase uartsize uart)
          else missing)
        address
        word
        dqm
        bus
      ≡ (if is_port address then done tt (write_uart address word dqm bus) else stopped)
on_write_found address word dqm bus = ground arith

-- An initialised bus has a fresh serial port. A read below the size of the memory gives the word
-- there if it lies in the memory whole; above, a read or a write of one of the twenty bytes of the
-- port goes to the port, the write with its word masked, and any other ends the process.
pub bus_init_lem :
    (mem : ℕ → ℕ) (mem_size : ℕ) (emu : Mips)
    → (bus : BusController) × (bus_init mem mem_size emu ≡ some bus)
      × (bus.emu ≡ uart_reset emu)
      × ((address : ℕ)
          → bus_read_word address bus ≡ (
              if ltb address mem_size
              then if ltb (address + 3) mem_size then done (word_at mem address) bus else stopped
              else if is_port address
              then read_uart address bus
              else stopped))
      × ((address word dqm : ℕ)
          → bus_write_word address word dqm bus ≡ (
              if ltb address mem_size
              then if ltb (address + 3) mem_size
                then done tt (record bus {
                  mem = put_word address (merge_word (word_at mem address) word dqm) mem;
                })
                else stopped
              else if is_port address
              then done tt (write_uart address (bit_and word dqm) dqm bus)
              else stopped))
unfolding bus_init bus_read_word bus_write_word
bus_init_lem mem mem_size emu =
    let (m, mapped, full, resolves) = map_address_range_once uartbase uartsize uart in
    let bus : BusController = record {
      emu = uart_reset emu;
      mem_size = mem_size;
      mem = mem;
      map = m;
    } in
    (
      bus,
      ap (with_map mem mem_size emu) mapped,
      refl,
      λ address.
          let inside =
            if ltb (address + 3) mem_size then done (word_at mem address) bus else stopped in
          ap (λ r. if ltb address mem_size then inside else r)
            (ap (λ r. on_read r address bus) (resolves address) ∙ on_read_found address bus),
      λ address word dqm.
          let inside =
            (if ltb (address + 3) mem_size
              then done tt (record bus {
                mem = put_word address (merge_word (word_at mem address) word dqm) mem;
              })
              else stopped) in
          ap (λ r. if ltb address mem_size then inside else r)
            (ap (λ r. on_write r address (bit_and word dqm) dqm bus) (resolves address)
              ∙ on_write_found address (bit_and word dqm) dqm bus),
    )
