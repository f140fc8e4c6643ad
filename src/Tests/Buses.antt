-- ===== src/Tests/Buses.antt =====
-- The bus and the caches
use cmips_cen.Base.{
  ℕ, ◌+◌, ◌<◌, ◌≡◌, ◌⊎◌, refl, arith, some, ◌==◌, ◌&&◌, ltb, leb, bit, bit_and, if◌then◌else◌,
}
use cmips_cen.Bus.Controller.{
  BusController, Device, done, stopped, bus_init, bus_read_word, bus_write_word, word_at, put_word,
  merge_word, read_uart, write_uart,
}
use cmips_cen.Bus.Controller.Ports.{is_port, bus_init_lem}
use cmips_cen.Bus.Controller.Words.{bus_read_word-bus_write_word}
use cmips_cen.Bus.MemoryMap.{
  MemoryMap, MemoryMapNode, found, missing, blank_map, blank_node, create_memory_map,
  map_address_range, resolve_mapped_address,
}
use cmips_cen.Bus.MemoryMap.Capacity.{range, map_address_range_once}
use cmips_cen.Bus.MemoryMap.Resolve.{Tree, leaf, node, scan, resolve_mapped_address-scan}
use cmips_cen.Uart.{uart_reset}
use cmips_cen.Tests.{machine}
use cmips_cen.Tests.Processor.{bus}

bus_read_word-bus_write_word_example :
    (bus' : BusController) × (bus_write_word 0x100 0xAABBCCDD 0xFF00 bus ≡ done tt bus')
    × ((w : ℕ) × (bus_read_word 0x100 bus' ≡ done w bus')
        × ((k : ℕ)
            → k < 32
            → bit k w ≡ (if bit k 0xFF00 then bit k 0xAABBCCDD else bit k (word_at bus.mem 0x100))))
    × ((b : ℕ)
        → b + 3 < 0x4000
        → (b + 3 < 0x100) ⊎ (0x103 < b)
        → bus_read_word b bus' ≡ done (word_at bus.mem b) bus')
bus_read_word-bus_write_word_example =
    bus_read_word-bus_write_word 0x100 0xAABBCCDD 0xFF00 bus (omega arith) (omega arith)

bus_init_lem_example :
    (b : BusController) × (bus_init (λ i. 1) 64 machine ≡ some b)
    × (b.emu ≡ uart_reset machine)
    × ((address : ℕ)
        → bus_read_word address b ≡ (
            if ltb address 64
            then if ltb (address + 3) 64 then done (word_at (λ i. 1) address) b else stopped
            else if is_port address
            then read_uart address b
            else stopped))
    × ((address word dqm : ℕ)
        → bus_write_word address word dqm b ≡ (
            if ltb address 64
            then if ltb (address + 3) 64
              then done tt (record b {
                mem = put_word address (merge_word (word_at (λ i. 1) address) word dqm) (λ i. 1);
              })
              else stopped
            else if is_port address
            then done tt (write_uart address (bit_and word dqm) dqm b)
            else stopped))
bus_init_lem_example = bus_init_lem (λ i. 1) 64 machine

-- Two ranges, the second at the root
abbrev area : (left start length : ℕ) → MemoryMapNode Device
area left start length = record blank_node {
  left = left;
  right = 0;
  mapping = range start length Device.uart;
}

abbrev two : MemoryMap Device
two = record blank_map {
  mappings = λ i. if i == 1 then area 0 0 16 else if i == 2 then area 1 32 16 else blank_node;
  root = 2;
}

abbrev two_shape : Tree
two_shape = node (node leaf 1 leaf) 2 leaf

resolve_mapped_address-scan_example : resolve_mapped_address two 40 ≡ scan two 40 two_shape
resolve_mapped_address-scan_example =
    resolve_mapped_address-scan 40 two two_shape
      (refl, omega arith, omega arith, (refl, omega arith, omega arith, refl, refl), refl)
      (omega arith, (tt, (omega arith, omega arith), tt), tt, (omega arith, tt, tt, tt, tt), tt)
      (omega arith) (omega arith)

map_address_range_once_example :
    (m : MemoryMap Device) × (map_address_range 16 8 Device.uart (create_memory_map blank_map)
      ≡ some (0, m))
    × ((s l : ℕ) (d : Device) → map_address_range s l d m ≡ some (1, m))
    × ((address : ℕ)
        → resolve_mapped_address m address ≡ (
            if leb 16 address && leb address (range 16 8 Device.uart).end
            then found (range 16 8 Device.uart)
            else missing))
map_address_range_once_example = map_address_range_once 16 8 Device.uart
