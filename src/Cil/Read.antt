-- ===== src/Cil/Read.antt =====
-- crates/cecil-cil/src/body.rs, `read_code` and what it calls: an IL stream is decoded one
-- instruction after the other.
use cecil_rs.Base.{
  ℕ, zero, suc, ◌-◌, ◌*◌, ◌/◌, ◌%◌, ◌^◌, bit_and, Bool, true, false, ◌||◌, List, [], ◌∷◌, ◌++◌,
  length, take, ltb, ◌==◌, if◌then◌else◌,
}
use cecil_rs.Base.Int.{ℤ, pos, negsuc, ◌+ℤ◌, to_signed, half32, checked_i32}
use cecil_rs.Core.Error.{Result, ok, err, out_of_fuel, Error, bad_image, ok_or}
use cecil_rs.Core.Error
use cecil_rs.Core.Reader
use cecil_rs.Core.Reader.{ByteReader, Read, ◌>>=◌, return, fail, lift, new, is_empty, remaining}
use cecil_rs.Cil.OpCode.{
  OpCode, OperandType, instruction_size, inline_br_target, inline_field, inline_i, inline_i8,
  inline_method, inline_none, inline_r, inline_sig, inline_string, inline_switch, inline_tok,
  inline_type, inline_var, inline_arg, short_inline_br_target, short_inline_i, short_inline_r,
  short_inline_var, short_inline_arg,
}
use cecil_rs.Cil.OpCodes.{one_byte, two_byte}
use cecil_rs.Cil.Instruction.{
  Operand, absent, int8, int32, int64, float32, float64, branch, switch, token, user_string, var,
  Instruction,
}

-- The byte after the escape 0xFE.
unfoldable pub read_escaped : Read OpCode
unfolding Reader.u8
read_escaped = do second ← Reader.u8; lift (ok_or (two_byte second) bad_image)

unfoldable pub read_opcode : Read OpCode
unfolding Reader.u8 read_escaped
read_opcode = do
  first ← Reader.u8
  if first == 0xFE then read_escaped else lift (ok_or (one_byte first) bad_image)

-- `a.checked_add(b).ok_or_else(..)?`
abbrev pub add_i32 : ℤ → ℤ → Read ℤ
add_i32 a b = lift (ok_or (checked_i32 (a +ℤ b)) bad_image)

-- The loop over the targets of a switch.
unfoldable pub read_targets : ℕ → ℤ → Read (List ℤ)
unfolding Reader.i32
read_targets zero base = return []
read_targets (suc count) base = do
  delta ← Reader.i32
  target ← add_i32 base delta
  targets ← read_targets count base
  return (target ∷ targets)

unfoldable pub switch_targets : ℕ → ℤ → Read Operand
unfolding read_targets
switch_targets count next_offset = do
  scaled ← lift (ok_or (checked_i32 (pos (count * 4))) bad_image)
  base ← add_i32 next_offset scaled
  targets ← read_targets count base
  return (switch targets)

-- A negative count is refused, and one of more targets than the bytes left can hold.
unfoldable pub read_switch : ℤ → ℤ → Read Operand
unfolding switch_targets remaining
read_switch next_offset (negsuc n) r = err bad_image
read_switch next_offset (pos count) r =
    if ltb (remaining r / 4) count then err bad_image else switch_targets count next_offset r

unfoldable pub read_typed : OperandType → ℤ → Read Operand
unfolding Reader.i8 Reader.i32 Reader.i64 Reader.f32 Reader.f64 Reader.u8 Reader.u16 Reader.u32
    read_switch
read_typed inline_switch next_offset = do count ← Reader.i32; read_switch next_offset count
read_typed short_inline_br_target next_offset = do
  delta ← Reader.i8
  target ← add_i32 next_offset delta
  return (branch target)
read_typed inline_br_target next_offset = do
  delta ← Reader.i32
  target ← add_i32 next_offset delta
  return (branch target)
read_typed short_inline_i next_offset = do v ← Reader.i8; return (int8 v)
read_typed inline_i next_offset = do v ← Reader.i32; return (int32 v)
read_typed inline_i8 next_offset = do v ← Reader.i64; return (int64 v)
read_typed short_inline_r next_offset = do v ← Reader.f32; return (float32 v)
read_typed inline_r next_offset = do v ← Reader.f64; return (float64 v)
read_typed short_inline_var next_offset = do v ← Reader.u8; return (var v)
read_typed short_inline_arg next_offset = do v ← Reader.u8; return (var v)
read_typed inline_var next_offset = do v ← Reader.u16; return (var v)
read_typed inline_arg next_offset = do v ← Reader.u16; return (var v)
read_typed inline_string next_offset = do
  v ← Reader.u32
  return (user_string (bit_and v 0x00ff_ffff))
read_typed inline_sig next_offset = do v ← Reader.u32; return (token (record { raw = v }))
read_typed inline_tok next_offset = do v ← Reader.u32; return (token (record { raw = v }))
read_typed inline_type next_offset = do v ← Reader.u32; return (token (record { raw = v }))
read_typed inline_method next_offset = do v ← Reader.u32; return (token (record { raw = v }))
read_typed inline_field next_offset = do v ← Reader.u32; return (token (record { raw = v }))
read_typed inline_none next_offset = return absent

-- `instruction_fixed_size` is `instruction_size`.
unfoldable pub read_operand : OpCode → ℤ → Read Operand
unfolding read_typed instruction_size
read_operand op offset = do
  next_offset ← add_i32 offset (pos (instruction_size op))
  read_typed op.operand_type next_offset

-- `position() as i32`
abbrev pub as_i32 : ℕ → ℤ
as_i32 n = to_signed half32 (n % 2 ^ 32)

abbrev pub is_inline_none : OperandType → Bool
is_inline_none inline_none = true
is_inline_none _ = false

-- One round of the loop of `read_code_with`, with the offset of the instruction.
unfoldable pub instruction_at : ℤ → Read Instruction
unfolding read_opcode read_operand
instruction_at offset = do
  op ← read_opcode
  operand ← (if is_inline_none op.operand_type then return absent else read_operand op offset)
  return (record { offset = offset; opcode = op; operand = operand })

unfoldable pub read_instruction : Read Instruction
unfolding instruction_at
read_instruction r = instruction_at (as_i32 r.position) r

-- The loop; its callback appends to the vector. Each round takes a byte, so the length of the code
-- is fuel enough.
unfoldable pub read_loop : ℕ → ByteReader → List Instruction → Result (List Instruction)
unfolding is_empty
read_loop zero r instructions = if is_empty r then ok instructions else out_of_fuel
read_loop (suc fuel) r instructions =
    let rest : Result (List Instruction) =
      Error.◌>>=◌ (read_instruction r) λ p. read_loop fuel p.1 (instructions ++ p.0 ∷ []) in
    if is_empty r then ok instructions else rest

unfoldable pub read_code : List ℕ → ℕ → Result (List Instruction)
unfolding read_loop
read_code bytes code_size =
    if ltb (length bytes) code_size || ltb (2 ^ 31 - 1) code_size
    then err bad_image
    else read_loop code_size (new (take code_size bytes)) []
