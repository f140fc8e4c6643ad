-- ===== src/Vr4300.antt =====
-- vr4300: the cycle-accurate model of the processor that the simulation steps beside the
-- interpreter.
pub mod Icache
pub mod Dcache
pub mod Decoder
pub mod State
pub mod Fault
pub mod Cp0
pub mod Functions
pub mod Pipeline
