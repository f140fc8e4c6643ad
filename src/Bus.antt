-- ===== src/Bus.antt =====
-- bus/memorymap.c and bus/controller.c: the system bus of the VR4300.
pub mod MemoryMap
pub mod Controller
