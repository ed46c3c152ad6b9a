-- ===== src/Cil/RoundTrip/Instruction.antt =====
-- One instruction, written and read.
use cecil_rs.Base.{
  ◌+◌, ◌≤◌, ◌<◌, ◌≡◌, refl, sym, ap, subst, [], ◌∷◌, true, false, ◌==◌, some, if◌then◌else◌,
  Bool-cases, inl, inr, arith,
}
use cecil_rs.Base.Int.{ℤ, pos, ◌+ℤ◌, IsI32, checked_i32-IsI32}
use cecil_rs.Core.Error.{ok}
use cecil_rs.Core.Reader.{return}
use cecil_rs.Core.Reader.Laws.{Decodes, u8-Decodes, >>=-Decodes, >>=-Decodes_last, return-Decodes}
use cecil_rs.Core.Writer.{ByteWriter}
use cecil_rs.Core.Writer.Laws.{u8-Writes, Writes-compose}
use cecil_rs.Cil.Code.{Code}
use cecil_rs.Cil.OpCode.{
  OpCode, OperandType, is_single_byte, instruction_size, inline_none, operand_size,
}
use cecil_rs.Cil.OpCodes.{opcode_of, one_byte, two_byte}
use cecil_rs.Cil.OpCodes.Laws.{decode-opcode_of}
use cecil_rs.Cil.Instruction.{
  Operand, absent, int8, int32, int64, float32, float64, branch, switch, token, user_string, var,
  rva, Instruction, operand_bytes, size,
}
use cecil_rs.Cil.Read.{
  read_opcode, read_escaped, read_operand, read_typed, add_i32, is_inline_none, instruction_at,
}
use cecil_rs.Cil.Write.{write_opcode, write_instruction}
use cecil_rs.Cil.RoundTrip.Round.{Round, round, Round-seq, Round-map, Round-before, Round-width}
use cecil_rs.Cil.RoundTrip.Operand.{Fits, checked-bind}
use cecil_rs.Cil.RoundTrip.Simple.{operand_total, operand-Round}

-- No single byte is the escape, and the first of two bytes is.
escapes :
    (c : Code)
    → (if is_single_byte (opcode_of c)
        then (opcode_of c).byte2 == 0xFE
        else (opcode_of c).byte1 == 0xFE)
      ≡ (if is_single_byte (opcode_of c) then false else true)
unfolding opcode_of
escapes Code.nop = refl
escapes _ = refl

sizes : (c : Code) → (opcode_of c).size ≡ (if is_single_byte (opcode_of c) then 1 else 2)
unfolding opcode_of
sizes Code.nop = refl
sizes _ = refl

single-Round :
    (op : OpCode) (w : ByteWriter)
    → is_single_byte op ≡ true
    → (op.byte2 == 0xFE) ≡ false
    → one_byte op.byte2 ≡ some op
    → Round read_opcode op 1 w (write_opcode op w)
unfolding read_opcode write_opcode
single-Round op w one plain known =
    let decodes : Decodes read_opcode (op.byte2 ∷ []) op =
      >>=-Decodes_last _ (u8-Decodes op.byte2) (rw (plain, known) (return-Decodes op)) in
    round (u8-Writes op.byte2) decodes (rw one refl)

escaped-Round :
    (op : OpCode) (w : ByteWriter)
    → is_single_byte op ≡ false
    → (op.byte1 == 0xFE) ≡ true
    → two_byte op.byte2 ≡ some op
    → Round read_opcode op 2 w (write_opcode op w)
unfolding read_opcode write_opcode read_escaped
escaped-Round op w two escape known =
    let second : Decodes read_escaped (op.byte2 ∷ []) op =
      >>=-Decodes_last _ (u8-Decodes op.byte2) (rw known (return-Decodes op)) in
    let decodes : Decodes read_opcode (op.byte1 ∷ op.byte2 ∷ []) op =
      >>=-Decodes _ (u8-Decodes op.byte1) (rw escape second) in
    round (Writes-compose (u8-Writes op.byte1) (u8-Writes op.byte2)) decodes (rw two refl)

pub opcode-Round :
    (c : Code) (w : ByteWriter)
    → Round read_opcode (opcode_of c) (opcode_of c).size w (write_opcode (opcode_of c) w)
opcode-Round c w = elim (Bool-cases (is_single_byte (opcode_of c))) [
  | inl one ↦
      let plain : ((opcode_of c).byte2 == 0xFE) ≡ false = rw one at (escapes c) in
      let known : one_byte (opcode_of c).byte2 ≡ some (opcode_of c) =
        rw one at (decode-opcode_of c) in
      let width : (opcode_of c).size ≡ 1 = rw one at (sizes c) in
      Round-width (single-Round (opcode_of c) w one plain known) (sym width)
  | inr two ↦
      let escape : ((opcode_of c).byte1 == 0xFE) ≡ true = rw two at (escapes c) in
      let known : two_byte (opcode_of c).byte2 ≡ some (opcode_of c) =
        rw two at (decode-opcode_of c) in
      let width : (opcode_of c).size ≡ 2 = rw two at (sizes c) in
      Round-width (escaped-Round (opcode_of c) w two escape known) (sym width)
]

-- The bytes counted for an instruction are those of its descriptor and its operand.
total :
    (op : OpCode) (o : Operand)
    → Fits op.operand_type o
    → op.size + operand_total op.operand_type o ≡ operand_bytes op o
unfolding operand_bytes instruction_size operand_size
total op (switch targets) h = omega arith
total op absent h = refl
total op (int8 z) h = refl
total op (int32 z) h = refl
total op (int64 z) h = refl
total op (float32 z) h = refl
total op (float64 z) h = refl
total op (branch z) h = refl
total op (token z) h = refl
total op (user_string z) h = refl
total op (var z) h = refl
total op (rva z) h = refl

none-read_typed :
    (ot : OperandType) (base : ℤ) → is_inline_none ot ≡ true → read_typed ot base ≡ return absent
unfolding read_typed
none-read_typed inline_none base h = refl
none-read_typed _ base h = absurd (ground arith)

-- The operand behind the test for none.
choose-Round :
    (op : OpCode) (o : Operand) (offset : ℤ) {w w' : ByteWriter}
    → IsI32 (offset +ℤ pos (instruction_size op))
    → Round
        (read_typed op.operand_type (offset +ℤ pos (instruction_size op)))
        o
        (operand_total op.operand_type o)
        w
        w'
    → Round
        (if is_inline_none op.operand_type then return absent else read_operand op offset)
        o
        (operand_total op.operand_type o)
        w
        w'
unfolding read_operand
choose-Round op o offset {w} {w'} fits r = elim (Bool-cases (is_inline_none op.operand_type)) [
  | inl bare ↦
      let r' : Round (return absent) o (operand_total op.operand_type o) w w' =
        rw (none-read_typed op.operand_type (offset +ℤ pos (instruction_size op)) bare) at r in
      rw bare r'
  | inr carried ↦
      let base : Decodes (add_i32 offset (pos (instruction_size op))) []
          (offset +ℤ pos (instruction_size op)) =
        rw (checked_i32-IsI32 _ fits) (return-Decodes (offset +ℤ pos (instruction_size op))) in
      rw carried (Round-before _ base r)
]

pub instruction-Round :
    (c : Code) (offset : ℤ) (i : Instruction) {w w' : ByteWriter}
    → i.opcode ≡ opcode_of c
    → Fits i.opcode.operand_type i.operand
    → i.offset ≡ offset
    → write_instruction offset i w ≡ ok w'
    → Round (instruction_at offset) i (size i) w w'
unfolding write_instruction instruction_at size
instruction-Round c offset i {w} {w'} known fits placed e =
    let (ranged, rest) = checked-bind (offset +ℤ pos (instruction_size i.opcode)) _ e in
    let opened : Round read_opcode i.opcode i.opcode.size w (write_opcode i.opcode w) =
      rw known (opcode-Round c w) in
    let operand =
      choose-Round i.opcode i.operand offset ranged
        (operand-Round i.opcode.operand_type i.operand _ fits rest) in
    let finished : Decodes
        (return (record { offset = offset; opcode = i.opcode; operand = i.operand })) [] i =
      subst
        (λ z. Decodes (return (record { offset = z; opcode = i.opcode; operand = i.operand })) [] i)
        placed (return-Decodes i) in
    Round-width (Round-seq _ opened (Round-map _ operand finished)) (total i.opcode i.operand fits)

operand_bytes-le : (op : OpCode) (o : Operand) → op.size ≤ operand_bytes op o
unfolding operand_bytes instruction_size
operand_bytes-le op (switch targets) = omega arith
operand_bytes-le op _ = omega arith

pub size-positive : (c : Code) (i : Instruction) → i.opcode ≡ opcode_of c → 0 < size i
unfolding size
size-positive c i known = elim (Bool-cases (is_single_byte (opcode_of c))) [
  | inl one ↦
      let width : (opcode_of c).size ≡ 1 = rw one at (sizes c) in
      omega (arith, width, ap (λ (op : OpCode). op.size) known, operand_bytes-le i.opcode i.operand)
  | inr two ↦
      let width : (opcode_of c).size ≡ 2 = rw two at (sizes c) in
      omega (arith, width, ap (λ (op : OpCode). op.size) known, operand_bytes-le i.opcode i.operand)
]
