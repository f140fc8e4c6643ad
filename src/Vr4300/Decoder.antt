-- ===== src/Vr4300/Decoder.antt =====
-- vr4300/decoder.c: the decoder, which picks a table by the seven high bits of the word.
pub mod Opcodes
pub mod Tables
pub mod Ids
pub mod Groups
pub mod Reference
use cmips_cen.Base.{ℕ, ◌+◌, ◌*◌, ◌/◌, ◌%◌, ◌^◌, Option, none, some, get_elem?, bit_and}
use cmips_cen.Vr4300.Decoder.Opcodes.{Opcode, OpcodeId, opcode_of}
use cmips_cen.Vr4300.Decoder.Tables.{OpcodeEscape, escape_table, opcode_table}

-- `GET_RS`, `GET_RT` and `GET_RD`
abbrev pub get_rs : ℕ → ℕ
get_rs iw = iw / 2 ^ 21 % 2 ^ 5

abbrev pub get_rt : ℕ → ℕ
get_rt iw = iw / 2 ^ 16 % 2 ^ 5

abbrev pub get_rd : ℕ → ℕ
get_rd iw = iw / 2 ^ 11 % 2 ^ 5

abbrev pub of_entry : Option OpcodeId → Option Opcode
of_entry none = none
of_entry (some id) = some (opcode_of id)

-- `vr4300_decode_instruction`; `none` is a read past the end of the table.
unfoldable pub decode_instruction : ℕ → Option Opcode
decode_instruction iw =
    let e = escape_table (iw / 2 ^ 25) in
    of_entry (get_elem? opcode_table (e.offset + bit_and (iw / 2 ^ e.shift) e.mask))
