-- ===== src/Cil/Write.antt =====
-- crates/cecil-cil/src/body.rs, `write_code` and what it calls: offsets are counted anew, and
-- absolute branch targets become distances.
use Prim.Native.Nat.{bit_or}
use cecil_rs.Base.{ℕ, ◌+◌, ◌-◌, ◌*◌, ◌%◌, ◌^◌, List, [], ◌∷◌, length, ltb, if◌then◌else◌}
use cecil_rs.Base.Int.{ℤ, pos, ◌+ℤ◌, ◌-ℤ◌, in_range, checked_i32}
use cecil_rs.Core.Error.{
  Result, ok, err, panic, argument, invalid_operation, ok_or, guard, ◌>>=◌, ◌>>◌,
}
use cecil_rs.Core.Writer
use cecil_rs.Core.Writer.{ByteWriter}
use cecil_rs.Cil.OpCode.{
  OpCode, OperandType, is_single_byte, instruction_size, inline_br_target, inline_field, inline_i,
  inline_i8, inline_method, inline_none, inline_r, inline_sig, inline_string, inline_switch,
  inline_tok, inline_type, inline_var, inline_arg, short_inline_br_target, short_inline_i,
  short_inline_r, short_inline_var, short_inline_arg,
}
use cecil_rs.Cil.Instruction.{
  Operand, int8, int32, int64, float32, float64, branch, switch, token, user_string, var,
  Instruction, size,
}
use cecil_rs.Cil.Read.{as_i32}

abbrev pub Write : Type 0
Write = ByteWriter → Result ByteWriter

-- A `?` on a checked operation: `None` is an invalid operation.
abbrev pub checked : ℤ → Result ℤ
checked z = ok_or (checked_i32 z) invalid_operation

-- The first loop: the offset of each instruction, while the total fits `i32`.
unfoldable pub offsets : ℕ → List Instruction → Result (List ℤ)
unfolding size
offsets offset [] = ok []
offsets offset (i ∷ is) = do
  next ←
      (if ltb (2 ^ 31 - 1) (offset + size i) then err invalid_operation else ok (offset + size i))
  rest ← offsets next is
  ok (as_i32 offset ∷ rest)

unfoldable pub write_opcode : OpCode → ByteWriter → ByteWriter
unfolding Writer.u8
write_opcode op w =
    if is_single_byte op then Writer.u8 op.byte2 w else Writer.u8 op.byte2 (Writer.u8 op.byte1 w)

unfoldable pub write_targets : ℤ → List ℤ → Write
unfolding Writer.i32
write_targets base [] w = ok w
write_targets base (target ∷ targets) w = do
  delta ← checked (target -ℤ base)
  write_targets base targets (Writer.i32 delta w)

unfoldable pub write_switch : List ℤ → ℤ → Write
unfolding write_targets Writer.i32
write_switch targets rel_base w = do
  count ← checked (pos (length targets))
  scaled ← checked (pos (length targets * 4))
  base ← checked (rel_base +ℤ scaled)
  write_targets base targets (Writer.i32 count w)

unfoldable pub write_short_branch : ℤ → ℤ → Write
unfolding Writer.i8
write_short_branch target rel_base w = do
  delta ← checked (target -ℤ rel_base)
  guard (in_range 128 delta) invalid_operation
  ok (Writer.i8 delta w)

unfoldable pub write_branch : ℤ → ℤ → Write
unfolding Writer.i32
write_branch target rel_base w = do delta ← checked (target -ℤ rel_base); ok (Writer.i32 delta w)

unfoldable pub write_byte_var : ℕ → Write
unfolding Writer.u8
write_byte_var v w = if ltb 255 v then err invalid_operation else ok (Writer.u8 (v % 256) w)

-- An operand of the wrong kind is a bad argument; an instruction without an operand writes none,
-- whatever it carries.
unfoldable pub write_simple_operand : OperandType → Operand → Write
unfolding write_byte_var Writer.i8 Writer.i32 Writer.i64 Writer.f32 Writer.f64 Writer.u16 Writer.u32
write_simple_operand inline_none o w = ok w
write_simple_operand short_inline_i (int8 v) w = ok (Writer.i8 v w)
write_simple_operand inline_i (int32 v) w = ok (Writer.i32 v w)
write_simple_operand inline_i8 (int64 v) w = ok (Writer.i64 v w)
write_simple_operand short_inline_r (float32 v) w = ok (Writer.f32 v w)
write_simple_operand inline_r (float64 v) w = ok (Writer.f64 v w)
write_simple_operand short_inline_var (var v) w = write_byte_var v w
write_simple_operand short_inline_arg (var v) w = write_byte_var v w
write_simple_operand inline_var (var v) w = ok (Writer.u16 v w)
write_simple_operand inline_arg (var v) w = ok (Writer.u16 v w)
write_simple_operand inline_string (user_string v) w = ok (Writer.u32 (bit_or 0x7000_0000 v) w)
write_simple_operand inline_sig (token t) w = ok (Writer.u32 t.raw w)
write_simple_operand inline_tok (token t) w = ok (Writer.u32 t.raw w)
write_simple_operand inline_type (token t) w = ok (Writer.u32 t.raw w)
write_simple_operand inline_method (token t) w = ok (Writer.u32 t.raw w)
write_simple_operand inline_field (token t) w = ok (Writer.u32 t.raw w)
write_simple_operand _ _ w = err argument

unfoldable pub write_operand : OperandType → Operand → ℤ → Write
unfolding write_switch write_short_branch write_branch write_simple_operand
write_operand inline_switch (switch targets) rel_base w = write_switch targets rel_base w
write_operand short_inline_br_target (branch target) rel_base w =
    write_short_branch target rel_base w
write_operand inline_br_target (branch target) rel_base w = write_branch target rel_base w
write_operand ot o rel_base w = write_simple_operand ot o w

-- One round of the second loop. `instruction_fixed_size` is `instruction_size`.
unfoldable pub write_instruction : ℤ → Instruction → Write
unfolding write_opcode write_operand instruction_size
write_instruction offset i w = do
  let opened = write_opcode i.opcode w
  rel_base ← checked (offset +ℤ pos (instruction_size i.opcode))
  write_operand i.opcode.operand_type i.operand rel_base opened

-- The second loop; an index past the offsets would panic.
unfoldable pub write_all : List ℤ → List Instruction → Write
unfolding write_instruction
write_all offs [] w = ok w
write_all [] (i ∷ is) w = panic
write_all (offset ∷ offs) (i ∷ is) w = do w' ← write_instruction offset i w; write_all offs is w'

unfoldable pub write_code : List Instruction → Result (List ℕ)
unfolding offsets write_all
write_code is = do offs ← offsets 0 is; w ← write_all offs is Writer.new; ok w.buf
