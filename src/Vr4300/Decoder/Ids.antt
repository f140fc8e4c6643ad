-- ===== src/Vr4300/Decoder/Ids.antt =====
-- vr4300/opcodes_priv.h: the opcode that each instruction is given.
use cmips_cen.Base.{◌≡◌, ◌⊎◌, inl, inr, refl}
use cmips_cen.Vr4300.Decoder.Opcodes.{OpcodeId, bc1, bc2, opcode_of}

-- Every instruction is given its own opcode, but for BC2, which is given the opcode of BC1, the
-- branch on the condition of the floating-point unit.
pub opcode_of-id : (o : OpcodeId) → ((opcode_of o).id ≡ o) ⊎ ((o ≡ bc2) × ((opcode_of o).id ≡ bc1))
opcode_of-id bc2 = inr (refl, refl)
opcode_of-id _ = inl refl
