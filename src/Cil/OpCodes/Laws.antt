-- ===== src/Cil/OpCodes/Laws.antt =====
-- crates/cecil-cil/src/opcodes.rs, the decode tables against the descriptors.
use cecil_rs.Base.{◌≡◌, refl, some, if◌then◌else◌}
use cecil_rs.Cil.Code.{Code}
use cecil_rs.Cil.OpCode.{is_single_byte}
use cecil_rs.Cil.OpCodes.{opcode_of, one_byte, two_byte}

-- Each descriptor is what its own bytes decode to: a single-byte instruction by its byte in the one
-- table, any other by the byte after the escape in the other.
pub decode-opcode_of :
    (c : Code)
    → (if is_single_byte (opcode_of c)
        then one_byte (opcode_of c).byte2
        else two_byte (opcode_of c).byte2)
      ≡ some (opcode_of c)
unfolding opcode_of one_byte two_byte
decode-opcode_of Code.nop = refl
decode-opcode_of _ = refl
