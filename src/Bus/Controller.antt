-- ===== src/Bus/Controller.antt =====
-- bus/controller.c: words of the memory and of the serial port by physical address.
pub mod Words
pub mod Ports
use cmips_cen.Base.{
  ℕ, ◌+◌, ◌-◌, ◌*◌, ◌/◌, ◌%◌, ◌^◌, Option, none, some, ltb, if◌then◌else◌, update, bit_and, bit_or,
}
use cmips_cen.Machine.{Mips, Outcome, ok, exit, fault}
use cmips_cen.Emu.Access.{uartbase, uartsize}
use cmips_cen.Uart.{uart_reset, uart_readb, uart_writeb}
use cmips_cen.Bus.MemoryMap.{
  MemoryMap, MemoryMapping, Resolved, found, missing, crash, blank_map, create_memory_map,
  map_address_range, resolve_mapped_address,
}

-- The devices on the bus: `read_uart` and `write_uart` with the interpreter's machine
pub data Device : Type 0 where
  uart : Device

-- `struct bus_controller`; the memory is an array of bytes.
pub record BusController : Type 0 where
  pub emu : Mips
  pub mem_size : ℕ
  pub mem : ℕ → ℕ
  pub map : MemoryMap Device

-- An access returns, or ends in `abort()`, in the exit of the port, or in what C leaves undefined.
pub data BusResult (A : Type 0) : Type 0 where
  done : A → BusController → BusResult A
  stopped : BusResult A

abbrev pub of_port : {A : Type 0} → BusController → Outcome A → BusResult A
of_port bus (ok a m) = done a (record bus { emu = m })
of_port bus exit = stopped
of_port bus fault = stopped

-- `read_uart`
unfoldable pub read_uart : ℕ → BusController → BusResult ℕ
read_uart address bus = of_port bus (uart_readb (address - uartbase) bus.emu)

-- `write_uart`; the port takes the low byte of the word.
unfoldable pub write_uart : (address word dqm : ℕ) → BusController → BusController
write_uart address word dqm bus = record bus {
  emu = uart_writeb (address - uartbase) (word % 2 ^ 8) bus.emu;
}

-- `memcpy` of a word, whose low byte comes first
unfoldable pub word_at : (ℕ → ℕ) → ℕ → ℕ
word_at mem a = mem a + mem (a + 1) * 2 ^ 8 + mem (a + 2) * 2 ^ 16 + mem (a + 3) * 2 ^ 24

unfoldable pub put_word : (a w : ℕ) → (ℕ → ℕ) → ℕ → ℕ
put_word a w mem =
    update
      (update (update (update mem a (w % 2 ^ 8)) (a + 1) (w / 2 ^ 8 % 2 ^ 8)) (a + 2)
        (w / 2 ^ 16 % 2 ^ 8))
      (a + 3) (w / 2 ^ 24 % 2 ^ 8)

-- The bus with the map that `map_address_range` returned
abbrev pub with_map :
    (mem : ℕ → ℕ) → ℕ → Mips → Option (ℕ × MemoryMap Device) → Option BusController
with_map mem mem_size emu none = none
with_map mem mem_size emu (some (code, m)) =
    some (record { emu = uart_reset emu; mem_size = mem_size; mem = mem; map = m })

-- `bus_init`; the map of a cleared controller is blank. `none` stands for a rebalancing that does
-- not end.
unfoldable pub bus_init : (mem : ℕ → ℕ) → (mem_size : ℕ) → Mips → Option BusController
bus_init mem mem_size emu =
    with_map mem mem_size emu
      (map_address_range uartbase uartsize uart (create_memory_map blank_map))

-- `node->on_read(node->instance, address, word)`
abbrev pub on_read : Resolved Device → ℕ → BusController → BusResult ℕ
on_read missing address bus = stopped
on_read crash address bus = stopped
on_read (found node) address bus = elim node.device [
  | none ↦ stopped
  | some uart ↦ read_uart address bus
]

abbrev pub on_write :
    Resolved Device → (address word dqm : ℕ) → BusController → BusResult (Unit {0})
on_write missing address word dqm bus = stopped
on_write crash address word dqm bus = stopped
on_write (found node) address word dqm bus = elim node.device [
  | none ↦ stopped
  | some uart ↦ done tt (write_uart address word dqm bus)
]

-- `bus_read_word`; a word that starts below `mem_size` and ends above it is undefined.
unfoldable pub bus_read_word : ℕ → BusController → BusResult ℕ
unfolding word_at
bus_read_word address bus =
    if ltb address bus.mem_size
    then if ltb (address + 3) bus.mem_size then done (word_at bus.mem address) bus else stopped
    else on_read (resolve_mapped_address bus.map address) address bus

-- `(orig_word & ~dqm) | (word & dqm)`
unfoldable pub merge_word : (orig word dqm : ℕ) → ℕ
merge_word orig word dqm = bit_or (bit_and orig (2 ^ 32 - 1 - dqm)) (bit_and word dqm)

-- `bus_write_word`
unfoldable pub bus_write_word : (address word dqm : ℕ) → BusController → BusResult (Unit {0})
unfolding word_at put_word merge_word
bus_write_word address word dqm bus =
    if ltb address bus.mem_size
    then if ltb (address + 3) bus.mem_size
      then done tt (record bus {
        mem = put_word address (merge_word (word_at bus.mem address) word dqm) bus.mem;
      })
      else stopped
    else on_write (resolve_mapped_address bus.map address) address (bit_and word dqm) dqm bus
