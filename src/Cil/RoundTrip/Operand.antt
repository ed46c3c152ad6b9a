-- ===== src/Cil/RoundTrip/Operand.antt =====
-- One operand, written and read.
use cecil_rs.Base.{
  ℕ, ◌%◌, ◌^◌, ◌<◌, ◌≡◌, bit_and, bit_or, [], arith, ltb, Bool-cases, inl, inr, some, true, All,
  Option-cases,
}
use cecil_rs.Base.Bits.{bit_or_disjoint, bit_and_mask}
use cecil_rs.Base.Int.{
  ℤ, IsSigned, IsI32, ◌-ℤ◌, in_range, checked_i32, checked_i32-IsI32, checked_i32-eq_some,
  +ℤ-sub_cancel, IsSigned-in_range,
}
use cecil_rs.Core.Error.{Result, ok, >>=-eq-ok, ◌>>=◌, guard, guard-eq_ok, invalid_operation}
use cecil_rs.Core.Reader
use cecil_rs.Core.Reader.{Read, return}
use cecil_rs.Core.Reader.Laws.{Decodes, u8-Decodes, >>=-Decodes_last, return-Decodes}
use cecil_rs.Core.Writer
use cecil_rs.Core.Writer.{ByteWriter, le_bytes}
use cecil_rs.Core.Writer.Laws.{u8-Writes, i8-Writes, i32-Writes, i8-bytes, i32-bytes}
use cecil_rs.Cil.OpCode.{
  OperandType, inline_br_target, inline_field, inline_i, inline_i8, inline_method, inline_none,
  inline_r, inline_sig, inline_string, inline_switch, inline_tok, inline_type, inline_var,
  inline_arg, short_inline_br_target, short_inline_i, short_inline_r, short_inline_var,
  short_inline_arg,
}
use cecil_rs.Cil.Instruction.{
  Operand, absent, int8, int32, int64, float32, float64, branch, switch, token, user_string, var,
}
use cecil_rs.Cil.Read.{read_typed, add_i32}
use cecil_rs.Cil.Write.{write_short_branch, write_branch, write_byte_var, checked}
use cecil_rs.Cil.RoundTrip.Round.{Round, round, Round-map}

-- The operand is of the kind that the type wants, and lies in the range of its Rust type; the index
-- of a user string has 24 bits.
abbrev pub Fits : OperandType → Operand → Type 0
Fits inline_none absent = Unit
Fits short_inline_i (int8 z) = IsSigned 128 z
Fits inline_i (int32 z) = IsI32 z
Fits inline_i8 (int64 z) = IsSigned (2 ^ 63) z
Fits short_inline_r (float32 b) = b < 2 ^ 32
Fits inline_r (float64 b) = b < 2 ^ 64
Fits short_inline_var (var v) = v < 2 ^ 16
Fits short_inline_arg (var v) = v < 2 ^ 16
Fits inline_var (var v) = v < 2 ^ 16
Fits inline_arg (var v) = v < 2 ^ 16
Fits inline_string (user_string v) = v < 2 ^ 24
Fits inline_sig (token t) = t.raw < 2 ^ 32
Fits inline_tok (token t) = t.raw < 2 ^ 32
Fits inline_type (token t) = t.raw < 2 ^ 32
Fits inline_method (token t) = t.raw < 2 ^ 32
Fits inline_field (token t) = t.raw < 2 ^ 32
Fits short_inline_br_target (branch z) = IsI32 z
Fits inline_br_target (branch z) = IsI32 z
Fits inline_switch (switch zs) = All IsI32 zs
Fits _ _ = ⊥

-- Adding the distance back to the base gives the target.
pub add-sub-Decodes :
    (base target : ℤ) → IsI32 target → Decodes (add_i32 base (target -ℤ base)) [] target
add-sub-Decodes base target h =
    rw (+ℤ-sub_cancel target base, checked_i32-IsI32 target h) (return-Decodes target)

-- A checked value is the value itself.
checked-eq_ok : (z : ℤ) {y : ℤ} → checked z ≡ ok y → (y ≡ z) × IsI32 z
checked-eq_ok z {y} h = elim (Option-cases (checked_i32 z)) [
  | inl bad ↦ cc
  | inr (x, good) ↦
      let e : ok x ≡ ok y = rw good at h in
      let same : checked_i32 z ≡ some y = cc in checked_i32-eq_some z same
]

-- A checked value passes on as it is, where the chain succeeds.
pub checked-bind {ℓ} :
    {B : Type ℓ} (z : ℤ) (f : ℤ → Result B) {b : B}
    → (checked z >>= f) ≡ ok b
    → IsI32 z × (f z ≡ ok b)
checked-bind z f e =
    let (y, is, rest) = >>=-eq-ok (checked z) f e in
    let (same, fits) = checked-eq_ok z is in (fits, rw same at rest)

pub branch-Round :
    (base target : ℤ) {w w' : ByteWriter}
    → IsI32 target
    → write_branch target base w ≡ ok w'
    → Round (read_typed inline_br_target base) (branch target) 4 w w'
unfolding write_branch read_typed
branch-Round base target h e =
    let (fits, done) = checked-bind (target -ℤ base) _ e in
    Round-map _ (round (i32-Writes (target -ℤ base)) (i32-bytes (target -ℤ base) fits) done)
      (>>=-Decodes_last _ (add-sub-Decodes base target h) (return-Decodes (branch target)))

pub short_branch-Round :
    (base target : ℤ) {w w' : ByteWriter}
    → IsI32 target
    → write_short_branch target base w ≡ ok w'
    → Round (read_typed short_inline_br_target base) (branch target) 1 w w'
unfolding write_short_branch read_typed
short_branch-Round base target h e =
    let (fits, rest) = checked-bind (target -ℤ base) _ e in
    let (u, small, done) =
      >>=-eq-ok (guard (in_range 128 (target -ℤ base)) invalid_operation) _ rest in
    let short : in_range 128 (target -ℤ base) ≡ true = guard-eq_ok _ invalid_operation small in
    Round-map _
      (round (i8-Writes (target -ℤ base))
        (i8-bytes (target -ℤ base) (IsSigned-in_range 128 (target -ℤ base) short)) done)
      (>>=-Decodes_last _ (add-sub-Decodes base target h) (return-Decodes (branch target)))

pub byte_var-Round :
    (v : ℕ) {w w' : ByteWriter} → write_byte_var v w ≡ ok w' → Round Reader.u8 v 1 w w'
unfolding write_byte_var
byte_var-Round v {w} {w'} e = elim (Bool-cases (ltb 255 v)) [
  | inl wide ↦ absurd (ground arith)
  | inr narrow ↦
      let same : v % 256 ≡ v = ground arith in
      let done : ok (Writer.u8 v w) ≡ ok w' = rw (narrow, same) at e in
      round (u8-Writes v) (u8-Decodes v) done
]

-- The high byte of a user string's token is dropped again.
pub string_bits : (v : ℕ) → v < 2 ^ 24 → bit_and (bit_or 0x7000_0000 v) 0x00ff_ffff ≡ v
string_bits v h = omega (arith, bit_and_mask 24 (bit_or 0x7000_0000 v), bit_or_disjoint 24 0x70 v h)

pub string-lt : (v : ℕ) → v < 2 ^ 24 → bit_or 0x7000_0000 v < 2 ^ 32
string-lt v h = omega (arith, bit_or_disjoint 24 0x70 v h)
