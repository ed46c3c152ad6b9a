-- ===== src/Cil/Encoding.antt =====
-- crates/cecil-cil/src/body.rs, `write_code` on any instructions.
use cecil_rs.Base.{
  ℕ, suc, ◌+◌, ◌-◌, ◌*◌, ◌^◌, ◌≡◌, sym, ap, ◌∙◌, Option, some, none, List, [], ◌∷◌, length, Bool,
  true, false, ltb, Bool-cases, inl, inr, arith,
}
use cecil_rs.Base.Int.{ℤ, pos, ◌+ℤ◌, ◌-ℤ◌, checked_i32, in_range}
use cecil_rs.Core.Error.{
  Result, ok, err, Error, ok_or, guard, invalid_operation, Returns, value, error, >>=-Returns,
  >>=-eq-ok, ◌>>=◌,
}
use cecil_rs.Core.Writer
use cecil_rs.Core.Writer.{ByteWriter}
use cecil_rs.Cil.OpCode.{
  OperandType, instruction_size, inline_br_target, inline_switch, short_inline_br_target,
  short_inline_var, short_inline_arg, inline_field, inline_i, inline_i8, inline_method, inline_none,
  inline_r, inline_sig, inline_string, inline_tok, inline_type, inline_var, inline_arg,
  short_inline_i, short_inline_r,
}
use cecil_rs.Cil.Instruction.{
  Operand, int8, int32, int64, float32, float64, branch, switch, token, user_string, var,
  Instruction, size,
}
use cecil_rs.Cil.Read.{as_i32}
use cecil_rs.Cil.Write.{
  checked, offsets, write_targets, write_switch, write_short_branch, write_branch, write_byte_var,
  write_simple_operand, write_operand, write_instruction, write_all, write_code, write_opcode,
}

ok_or-Returns {ℓ} : {A : Type ℓ} (o : Option A) (e : Error) → Returns (ok_or o e)
ok_or-Returns (some a) e = value a
ok_or-Returns none e = error e

-- A checked operation, and after it a computation that returns from any value.
checked-Returns {ℓ} :
    {B : Type ℓ} (z : ℤ) (f : ℤ → Result B) → ((y : ℤ) → Returns (f y)) → Returns (checked z >>= f)
checked-Returns z f h = >>=-Returns (ok_or-Returns (checked_i32 z) invalid_operation) λ y _. h y

guard-Returns : (b : Bool) (e : Error) → Returns (guard b e)
guard-Returns true e = value tt
guard-Returns false e = error e

write_targets-Returns :
    (base : ℤ) (targets : List ℤ) (w : ByteWriter) → Returns (write_targets base targets w)
unfolding write_targets
write_targets-Returns base [] w = value w
write_targets-Returns base (t ∷ ts) w =
    checked-Returns (t -ℤ base) _ λ delta. write_targets-Returns base ts (Writer.i32 delta w)

write_switch-Returns :
    (targets : List ℤ) (rel_base : ℤ) (w : ByteWriter) → Returns (write_switch targets rel_base w)
unfolding write_switch
write_switch-Returns targets rel_base w = checked-Returns (pos (length targets)) _ λ count.
    checked-Returns (pos (length targets * 4)) _ λ scaled.
      checked-Returns (rel_base +ℤ scaled) _
        λ base. write_targets-Returns base targets (Writer.i32 count w)

write_short_branch-Returns :
    (target rel_base : ℤ) (w : ByteWriter) → Returns (write_short_branch target rel_base w)
unfolding write_short_branch
write_short_branch-Returns target rel_base w = checked-Returns (target -ℤ rel_base) _ λ delta.
    >>=-Returns (guard-Returns (in_range 128 delta) invalid_operation)
      λ _ _. value (Writer.i8 delta w)

write_branch-Returns :
    (target rel_base : ℤ) (w : ByteWriter) → Returns (write_branch target rel_base w)
unfolding write_branch
write_branch-Returns target rel_base w =
    checked-Returns (target -ℤ rel_base) _ λ delta. value (Writer.i32 delta w)

write_byte_var-Returns : (v : ℕ) (w : ByteWriter) → Returns (write_byte_var v w)
unfolding write_byte_var
write_byte_var-Returns v w = elim (Bool-cases (ltb 255 v)) [
  | inl wide ↦ rw wide (error _)
  | inr narrow ↦ rw narrow (value _)
]

write_simple_operand-Returns :
    (ot : OperandType) (o : Operand) (w : ByteWriter) → Returns (write_simple_operand ot o w)
unfolding write_simple_operand
write_simple_operand-Returns inline_none o w = value _
write_simple_operand-Returns short_inline_i (int8 v) w = value _
write_simple_operand-Returns inline_i (int32 v) w = value _
write_simple_operand-Returns inline_i8 (int64 v) w = value _
write_simple_operand-Returns short_inline_r (float32 v) w = value _
write_simple_operand-Returns inline_r (float64 v) w = value _
write_simple_operand-Returns short_inline_var (var v) w = write_byte_var-Returns v w
write_simple_operand-Returns short_inline_arg (var v) w = write_byte_var-Returns v w
write_simple_operand-Returns inline_var (var v) w = value _
write_simple_operand-Returns inline_arg (var v) w = value _
write_simple_operand-Returns inline_string (user_string v) w = value _
write_simple_operand-Returns inline_sig (token t) w = value _
write_simple_operand-Returns inline_tok (token t) w = value _
write_simple_operand-Returns inline_type (token t) w = value _
write_simple_operand-Returns inline_method (token t) w = value _
write_simple_operand-Returns inline_field (token t) w = value _
write_simple_operand-Returns _ _ w = error _

write_operand-Returns :
    (ot : OperandType) (o : Operand) (rel_base : ℤ) (w : ByteWriter)
    → Returns (write_operand ot o rel_base w)
unfolding write_operand
write_operand-Returns inline_switch (switch targets) rel_base w =
    write_switch-Returns targets rel_base w
write_operand-Returns short_inline_br_target (branch target) rel_base w =
    write_short_branch-Returns target rel_base w
write_operand-Returns inline_br_target (branch target) rel_base w =
    write_branch-Returns target rel_base w
write_operand-Returns ot o rel_base w = write_simple_operand-Returns ot o w

write_instruction-Returns :
    (offset : ℤ) (i : Instruction) (w : ByteWriter) → Returns (write_instruction offset i w)
unfolding write_instruction
write_instruction-Returns offset i w =
    checked-Returns (offset +ℤ pos (instruction_size i.opcode)) _ λ rel_base.
      write_operand-Returns i.opcode.operand_type i.operand rel_base (write_opcode i.opcode w)

offsets-Returns : (p : ℕ) (is : List Instruction) → Returns (offsets p is)
unfolding offsets
offsets-Returns p [] = value []
offsets-Returns p (i ∷ is) = elim (Bool-cases (ltb (2 ^ 31 - 1) (p + size i))) [
  | inl over ↦ rw over (error invalid_operation)
  | inr fit ↦ rw fit (>>=-Returns (offsets-Returns (p + size i) is) λ rest _. value _)
]

-- The offsets counted are as many as the instructions.
length-offsets :
    (p : ℕ) (is : List Instruction) {offs : List ℤ}
    → offsets p is ≡ ok offs
    → length offs ≡ length is
unfolding offsets
length-offsets p [] {offs} e = let same : [] ≡ offs = cc in ap length (sym same)
length-offsets p (i ∷ is) {offs} e = elim (Bool-cases (ltb (2 ^ 31 - 1) (p + size i))) [
  | inl over ↦ let refused : err invalid_operation ≡ ok offs = rw over at e in cc
  | inr fit ↦
      let (rest, counted, built) =
        >>=-eq-ok (offsets (p + size i) is) (λ rest. ok (as_i32 p ∷ rest)) {b = offs}
          (rw fit at e) in
      let same : as_i32 p ∷ rest ≡ offs = cc in
      ap length (sym same) ∙ ap suc (length-offsets (p + size i) is counted)
]

write_all-Returns :
    (offs : List ℤ) (is : List Instruction) (w : ByteWriter)
    → length offs ≡ length is
    → Returns (write_all offs is w)
unfolding write_all
write_all-Returns offs [] w h = value w
write_all-Returns [] (i ∷ is) w h = absurd (omega (arith, h))
write_all-Returns (offset ∷ offs) (i ∷ is) w h =
    >>=-Returns (write_instruction-Returns offset i w)
      λ w' _. write_all-Returns offs is w' (omega (arith, h))

-- `write_code` ends in bytes or an error on any instructions, however malformed: the index into the
-- offsets that its first loop counted never goes out of range.
pub write_code-Returns : (is : List Instruction) → Returns (write_code is)
unfolding write_code
write_code-Returns is = >>=-Returns (offsets-Returns 0 is) λ offs counted.
    >>=-Returns (write_all-Returns offs is Writer.new (length-offsets 0 is counted))
      λ w _. value w.buf
