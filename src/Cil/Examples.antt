-- ===== src/Cil/Examples.antt =====
-- The theorems on method bodies at concrete instructions and bytes.
use cecil_rs.Base.{ℕ, ◌≡◌, refl, List, [], ◌∷◌, ◌++◌, true, length, some, arith, if◌then◌else◌}
use cecil_rs.Base.Int.{ℤ, pos}
use cecil_rs.Core.Error.{ok, Returns}
use cecil_rs.Cil.Code.{Code}
use cecil_rs.Cil.OpCode.{is_single_byte}
use cecil_rs.Cil.OpCodes.{opcode_of, one_byte, two_byte}
use cecil_rs.Cil.OpCodes.Laws.{decode-opcode_of}
use cecil_rs.Cil.Instruction.{absent, branch, switch, Instruction}
use cecil_rs.Cil.Read.{read_code}
use cecil_rs.Cil.Write.{write_code}
use cecil_rs.Cil.RoundTrip.Code.{IsWellFormed, read-write_code}
use cecil_rs.Cil.Safety.{read_code-Returns}
use cecil_rs.Cil.Encoding.{write_code-Returns}

decode-opcode_of_example :
    (if is_single_byte (opcode_of Code.ceq)
      then one_byte (opcode_of Code.ceq).byte2
      else two_byte (opcode_of Code.ceq).byte2)
    ≡ some (opcode_of Code.ceq)
decode-opcode_of_example = decode-opcode_of Code.ceq

-- A switch of two targets, a branch back and a return.
abbrev switch_i : Instruction
switch_i = record {
  offset = pos 0;
  opcode = opcode_of Code.switch;
  operand = switch (pos 15 ∷ pos 0 ∷ []);
}

abbrev branch_i : Instruction
branch_i = record { offset = pos 13; opcode = opcode_of Code.br_s; operand = branch (pos 0) }

abbrev return_i : Instruction
return_i = record { offset = pos 15; opcode = opcode_of Code.ret; operand = absent }

abbrev a_body : List Instruction
a_body = switch_i ∷ branch_i ∷ return_i ∷ []

abbrev its_bytes : List ℕ
its_bytes =
    0x45 ∷ 2 ∷ 0 ∷ 0 ∷ 0 ∷ 2 ∷ 0 ∷ 0 ∷ 0 ∷ 0xF3 ∷ 0xFF ∷ 0xFF ∷ 0xFF ∷ 0x2B ∷ 0xF1 ∷ 0x2A ∷ []

switch_i-IsWellFormed : IsWellFormed switch_i
unfolding opcode_of
switch_i-IsWellFormed = record {
  code = Code.switch;
  known = refl;
  fits = (omega arith, (omega arith, tt));
}

branch_i-IsWellFormed : IsWellFormed branch_i
unfolding opcode_of
branch_i-IsWellFormed = record { code = Code.br_s; known = refl; fits = omega arith }

return_i-IsWellFormed : IsWellFormed return_i
unfolding opcode_of
return_i-IsWellFormed = record { code = Code.ret; known = refl; fits = tt }

read-write_code_example : read_code its_bytes (length its_bytes) ≡ ok a_body
unfolding write_code opcode_of cecil_rs.Base.Int.checked_i32 cecil_rs.Base.Int.◌+ℤ◌
    cecil_rs.Base.Int.◌-ℤ◌
read-write_code_example =
    read-write_code a_body
      (switch_i-IsWellFormed, (branch_i-IsWellFormed, (return_i-IsWellFormed, tt)))
      (refl, (refl, (refl, tt))) refl

read_code-Returns_example : Returns (read_code (0x45 ∷ 0xFF ∷ []) 2)
read_code-Returns_example = read_code-Returns (0x45 ∷ 0xFF ∷ []) 2

write_code-Returns_example : Returns (write_code a_body)
write_code-Returns_example = write_code-Returns a_body
