-- ===== src/Cil/RoundTrip/Simple.antt =====
-- The operands without a branch target, written and read.
use cecil_rs.Base.{ℕ, ◌+◌, ◌*◌, ◌<◌, ◌≡◌, ◌^◌, ◌∙◌, refl, sym, ap, bit_or, [], length, append-nil}
use cecil_rs.Base.Int.{ℤ}
use cecil_rs.Core.Error.{ok}
use cecil_rs.Core.Reader
use cecil_rs.Core.Reader.{◌>>=◌, return}
use cecil_rs.Core.Reader.Laws.{return-Decodes}
use cecil_rs.Core.Token.{Token}
use cecil_rs.Core.Writer
use cecil_rs.Core.Writer.{ByteWriter}
use cecil_rs.Core.Writer.Laws.{
  i8-Writes, u16-Writes, u32-Writes, u64-Writes, i32-Writes, i64-Writes, i8-bytes, i32-bytes,
  i64-bytes, u16-le_bytes, u32-le_bytes, u64-le_bytes,
}
use cecil_rs.Cil.OpCode.{
  OperandType, operand_size, fixed_operand, inline_field, inline_i, inline_i8, inline_method,
  inline_none, inline_r, inline_sig, inline_string, inline_tok, inline_type, inline_switch,
  inline_br_target, short_inline_br_target, inline_var, inline_arg, short_inline_i, short_inline_r,
  short_inline_var, short_inline_arg,
}
use cecil_rs.Cil.Instruction.{
  Operand, absent, int8, int32, int64, float32, float64, token, user_string, var, branch, switch,
}
use cecil_rs.Cil.Read.{read_typed}
use cecil_rs.Cil.RoundTrip.Round.{Round, round, Round-map}
use cecil_rs.Cil.RoundTrip.Operand.{
  Fits, byte_var-Round, string_bits, string-lt, branch-Round, short_branch-Round,
}
use cecil_rs.Cil.RoundTrip.Switch.{switch_targets-Round}
use cecil_rs.Cil.Write.{write_operand, write_byte_var}

-- The bytes of an operand: its width, and for a switch the count and the table of its targets.
abbrev pub operand_total : OperandType → Operand → ℕ
unfolding operand_size
operand_total ot (switch targets) = 4 + 4 * length targets
operand_total ot o = fixed_operand (operand_size ot)

token-Round :
    {w w' : ByteWriter} (t : Token)
    → t.raw < 2 ^ 32
    → ok (Writer.u32 t.raw w) ≡ ok w'
    → Round (Reader.u32 >>= λ v. return (token (record { raw = v }))) (token t) 4 w w'
token-Round t h e =
    Round-map _ (round (u32-Writes t.raw) (u32-le_bytes t.raw h) e) (return-Decodes (token t))

var-Round :
    {w w' : ByteWriter} (v : ℕ)
    → v < 2 ^ 16
    → ok (Writer.u16 v w) ≡ ok w'
    → Round (Reader.u16 >>= λ v. return (var v)) (var v) 2 w w'
var-Round v h e = Round-map _ (round (u16-Writes v) (u16-le_bytes v h) e) (return-Decodes (var v))

byte_var-Round' :
    {w w' : ByteWriter} (v : ℕ)
    → write_byte_var v w ≡ ok w'
    → Round (Reader.u8 >>= λ v. return (var v)) (var v) 1 w w'
byte_var-Round' v e = Round-map _ (byte_var-Round v e) (return-Decodes (var v))

-- Whatever operand of the right kind has been written, it is read back from the bytes written.
pub operand-Round :
    (ot : OperandType) (o : Operand) (base : ℤ) {w w' : ByteWriter}
    → Fits ot o
    → write_operand ot o base w ≡ ok w'
    → Round (read_typed ot base) o (operand_total ot o) w w'
unfolding write_operand read_typed operand_size
operand-Round inline_none absent base {w} {w'} h e = record {
  bytes = [];
  appended = ap (λ (v : ByteWriter). v.buf) same ∙ sym (append-nil w.buf);
  decodes = return-Decodes absent;
  width = refl;
}
  where
    same : w' ≡ w
    same = cc
operand-Round inline_switch (switch zs) base h e = switch_targets-Round zs base h e
operand-Round short_inline_br_target (branch z) base h e = short_branch-Round base z h e
operand-Round inline_br_target (branch z) base h e = branch-Round base z h e
operand-Round short_inline_i (int8 z) base h e =
    Round-map _ (round (i8-Writes z) (i8-bytes z h) e) (return-Decodes (int8 z))
operand-Round inline_i (int32 z) base h e =
    Round-map _ (round (i32-Writes z) (i32-bytes z h) e) (return-Decodes (int32 z))
operand-Round inline_i8 (int64 z) base h e =
    Round-map _ (round (i64-Writes z) (i64-bytes z h) e) (return-Decodes (int64 z))
operand-Round short_inline_r (float32 b) base h e =
    Round-map _ (round (u32-Writes b) (u32-le_bytes b h) e) (return-Decodes (float32 b))
operand-Round inline_r (float64 b) base h e =
    Round-map _ (round (u64-Writes b) (u64-le_bytes b h) e) (return-Decodes (float64 b))
operand-Round short_inline_var (var v) base h e = byte_var-Round' v e
operand-Round short_inline_arg (var v) base h e = byte_var-Round' v e
operand-Round inline_var (var v) base h e = var-Round v h e
operand-Round inline_arg (var v) base h e = var-Round v h e
operand-Round inline_string (user_string v) base h e =
    Round-map _ (round (u32-Writes (bit_or 0x7000_0000 v)) (u32-le_bytes _ (string-lt v h)) e)
      (rw (string_bits v h) (return-Decodes (user_string v)))
operand-Round inline_sig (token t) base h e = token-Round t h e
operand-Round inline_tok (token t) base h e = token-Round t h e
operand-Round inline_type (token t) base h e = token-Round t h e
operand-Round inline_method (token t) base h e = token-Round t h e
operand-Round inline_field (token t) base h e = token-Round t h e
operand-Round _ _ base h e = absurd h
