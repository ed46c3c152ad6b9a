-- ===== src/Cil/OpCode.antt =====
-- crates/cecil-cil/src/opcode.rs: the descriptor of an instruction.
use Prim.Native.String.{String}
use cecil_rs.Base.{ℕ, ◌+◌, ◌*◌, ◌^◌, Bool, bit_or, Option, none, some, ◌==◌, if◌then◌else◌}
use cecil_rs.Cil.Code.{Code}

pub data OperandType : Type 0 where
  inline_br_target inline_field inline_i inline_i8 inline_method inline_none : OperandType
  inline_r inline_sig inline_string inline_switch inline_tok inline_type : OperandType
  inline_var inline_arg short_inline_br_target short_inline_i short_inline_r : OperandType
  short_inline_var short_inline_arg : OperandType

-- The width of the operand; a switch has no fixed width.
unfoldable pub operand_size : OperandType → Option ℕ
operand_size inline_none = some 0
operand_size short_inline_br_target = some 1
operand_size short_inline_i = some 1
operand_size short_inline_var = some 1
operand_size short_inline_arg = some 1
operand_size inline_var = some 2
operand_size inline_arg = some 2
operand_size inline_br_target = some 4
operand_size inline_field = some 4
operand_size inline_i = some 4
operand_size inline_method = some 4
operand_size inline_sig = some 4
operand_size inline_string = some 4
operand_size inline_tok = some 4
operand_size inline_type = some 4
operand_size short_inline_r = some 4
operand_size inline_i8 = some 8
operand_size inline_r = some 8
operand_size inline_switch = none

pub record OpCode : Type 0 where
  pub code : Code
  pub name : String
  pub operand_type : OperandType
  pub size : ℕ
  pub byte1 : ℕ
  pub byte2 : ℕ

unfoldable pub new : Code → String → ℕ → ℕ → OperandType → OpCode
new code name byte1 byte2 operand_type = record {
  code = code;
  name = name;
  operand_type = operand_type;
  size = if byte1 == 0xFF then 1 else 2;
  byte1 = byte1;
  byte2 = byte2;
}

unfoldable pub encoding : OpCode → ℕ
encoding op = bit_or (op.byte1 * 2 ^ 8) op.byte2

abbrev pub is_single_byte : OpCode → Bool
is_single_byte op = op.byte1 == 0xFF

-- `op.operand_type.size()`, and four bytes for the count of a switch.
abbrev pub fixed_operand : Option ℕ → ℕ
fixed_operand (some n) = n
fixed_operand none = 4

unfoldable pub instruction_size : OpCode → ℕ
unfolding operand_size
instruction_size op = op.size + fixed_operand (operand_size op.operand_type)
