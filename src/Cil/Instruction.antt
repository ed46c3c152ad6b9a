-- ===== src/Cil/Instruction.antt =====
-- crates/cecil-cil/src/instruction.rs: an instruction is an offset, a descriptor and an operand.
use cecil_rs.Base.{ℕ, ◌+◌, ◌*◌, List, length}
use cecil_rs.Base.Int.{ℤ}
use cecil_rs.Core.Token.{Token}
use cecil_rs.Cil.OpCode.{OpCode, instruction_size}

-- A float is the pattern of its bits. Branch targets are absolute offsets.
pub data Operand : Type 0 where
  absent : Operand
  int8 int32 int64 : ℤ → Operand
  float32 float64 : ℕ → Operand
  branch : ℤ → Operand
  switch : List ℤ → Operand
  token : Token → Operand
  user_string : ℕ → Operand
  var : ℕ → Operand
  rva : ℕ → Operand

pub record Instruction : Type 0 where
  pub offset : ℤ
  pub opcode : OpCode
  pub operand : Operand

unfoldable pub operand_bytes : OpCode → Operand → ℕ
unfolding instruction_size
operand_bytes op (switch targets) = op.size + 4 * (1 + length targets)
operand_bytes op _ = instruction_size op

-- The encoded length, the table of switch targets included.
unfoldable pub size : Instruction → ℕ
unfolding operand_bytes
size i = operand_bytes i.opcode i.operand
