-- ===== src/Emu.antt =====
-- src/emu.c and src/gen/doop.gen.c: the interpreter.
pub mod Exc
pub mod Exception
pub mod Translate
pub mod Access
pub mod Regs
pub mod Alu
pub mod Branch
pub mod Memory
pub mod Cop0
pub mod Doop
pub mod Step
