-- ===== src/Bus/MemoryMap/Capacity.antt =====
-- bus/memorymap.c: how many ranges the array of nodes takes.
use cmips_cen.Base.{
  ℕ, ◌+◌, ◌-◌, ◌%◌, ◌^◌, ◌≡◌, refl, arith, Option, none, some, leb, ◌&&◌, if◌then◌else◌, update,
}
use cmips_cen.Bus.MemoryMap.{
  MemoryMap, MemoryMapping, found, missing, blank_map, create_memory_map, map_address_range,
  resolve_mapped_address,
}

module _ {D : Type 0} where
  abbrev pub range : (start length : ℕ) → D → MemoryMapping D
  range start length device = record {
    device = some device;
    length = length;
    start = start;
    end = (start + length + 2 ^ 32 - 1) % 2 ^ 32;
  }

  abbrev map_of : Option (ℕ × MemoryMap D) → MemoryMap D
  map_of none = blank_map
  map_of (some r) = r.1

  -- The first range of a new map is accepted, whatever it is, and every later one is refused with
  -- the map as it was: of the three nodes one is `nil` and one is never given out. Addresses of the
  -- range are then found, and for all others the result is NULL.
  pub map_address_range_once :
      (start length : ℕ) (device : D)
      → (m : MemoryMap D) × (map_address_range start length device (create_memory_map blank_map)
          ≡ some (0, m))
        × ((s l : ℕ) (d : D) → map_address_range s l d m ≡ some (1, m))
        × ((address : ℕ)
            → resolve_mapped_address m address ≡ (
                if leb start address && leb address (range start length device).end
                then found (range start length device)
                else missing))
  unfolding map_address_range create_memory_map resolve_mapped_address update
  map_address_range_once start length device = (
    map_of (map_address_range start length device (create_memory_map blank_map)),
    refl,
    λ s l d. refl,
    λ address. ground arith,
  )
