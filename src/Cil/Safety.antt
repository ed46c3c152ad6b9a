-- ===== src/Cil/Safety.antt =====
-- crates/cecil-cil/src/body.rs, `read_code` on any bytes.
use cecil_rs.Base.{
  ℕ, zero, suc, ◌-◌, ◌*◌, ◌/◌, ◌≤◌, ◌^◌, ◌≡◌, ap, Option, some, none, List, [], ◌∷◌, ◌++◌, length,
  take, Bool, true, false, ◌||◌, ltb, ◌==◌, if◌then◌else◌, Bool-cases, inl, inr, arith, length-take,
}
use cecil_rs.Base.Int.{ℤ, pos, negsuc, checked_i32}
use cecil_rs.Core.Error
use cecil_rs.Core.Error.{
  Result, ok, err, out_of_fuel, Error, bad_image, ok_or, Returns, value, error,
}
use cecil_rs.Core.Reader
use cecil_rs.Core.Reader.{ByteReader, Read, ◌>>=◌, return, lift, new, is_empty, remaining}
use cecil_rs.Core.Reader.Safety.{
  Takes, Outcome, moved, failed, >>=-Takes_last, return-Takes, weaken, u8-Takes, i8-Takes,
  u16-Takes, u32-Takes, i32-Takes, i64-Takes, u64-Takes,
}
use cecil_rs.Cil.OpCode.{
  OpCode, OperandType, inline_br_target, inline_i, inline_i8, inline_none, inline_r, inline_switch,
  inline_var, inline_arg, short_inline_br_target, short_inline_i, short_inline_r, short_inline_var,
  short_inline_arg,
}
use cecil_rs.Cil.OpCodes.{one_byte, two_byte}
use cecil_rs.Cil.Instruction.{Operand, Instruction}
use cecil_rs.Cil.Read.{
  read_escaped, read_opcode, add_i32, read_targets, switch_targets, read_switch, read_typed,
  read_operand, as_i32, is_inline_none, instruction_at, read_instruction, read_loop, read_code,
}

pub ok_or-Takes {ℓ} : {A : Type ℓ} (o : Option A) (e : Error) → Takes 0 (lift (ok_or o e))
ok_or-Takes (some a) e = record { runs = (return-Takes a).runs }
ok_or-Takes none e = record { runs = λ r h. failed e }

-- A read, and after it one whose outcome is a value of the first.
map-Takes {ℓ κ} :
    {A : Type ℓ} {B : Type κ} (k : ℕ) {m : Read A} (f : A → B)
    → Takes k m
    → Takes 0 (m >>= λ a. return (f a))
map-Takes k f h = weaken k 0 (>>=-Takes_last _ h (λ a. return-Takes (f a))) (omega arith)

read_escaped-Takes : Takes 1 read_escaped
unfolding read_escaped
read_escaped-Takes = >>=-Takes_last _ u8-Takes (λ b. ok_or-Takes (two_byte b) bad_image)

read_opcode-Takes : Takes 1 read_opcode
unfolding read_opcode
read_opcode-Takes = >>=-Takes_last _ u8-Takes λ first. elim (Bool-cases (first == 0xFE)) [
  | inl escape ↦ rw escape (weaken 1 0 read_escaped-Takes (omega arith))
  | inr plain ↦ rw plain (ok_or-Takes (one_byte first) bad_image)
]

read_targets-Takes : (count : ℕ) (base : ℤ) → Takes 0 (read_targets count base)
unfolding read_targets
read_targets-Takes zero base = return-Takes []
read_targets-Takes (suc count) base =
    weaken 4 0
      (>>=-Takes_last _ i32-Takes λ delta.
        >>=-Takes_last _ (ok_or-Takes _ bad_image)
          λ target. >>=-Takes_last _ (read_targets-Takes count base) λ targets. return-Takes _)
      (omega arith)

switch_targets-Takes : (count : ℕ) (next_offset : ℤ) → Takes 0 (switch_targets count next_offset)
unfolding switch_targets
switch_targets-Takes count next_offset =
    >>=-Takes_last _ (ok_or-Takes (checked_i32 (pos (count * 4))) bad_image) λ scaled.
      >>=-Takes_last _ (ok_or-Takes _ bad_image) λ base.
        >>=-Takes_last _ (read_targets-Takes count base)
          λ targets. return-Takes (Operand.switch targets)

read_switch-Takes : (next_offset count : ℤ) → Takes 0 (read_switch next_offset count)
unfolding read_switch
read_switch-Takes next_offset (negsuc n) = record { runs = λ r h. failed bad_image }
read_switch-Takes next_offset (pos count) = record {
  runs = λ r h. elim (Bool-cases (ltb (remaining r / 4) count)) [
    | inl over ↦ rw over (failed bad_image)
    | inr fits ↦ rw fits ((switch_targets-Takes count next_offset).runs r h)
  ];
}

branch-Takes :
    (k : ℕ) {m : Read ℤ} (next_offset : ℤ)
    → Takes k m
    → Takes 0
        (m >>= λ delta. add_i32 next_offset delta >>= λ target. return (Operand.branch target))
branch-Takes k next_offset h =
    weaken k 0
      (>>=-Takes_last _ h
        λ delta. >>=-Takes_last _ (ok_or-Takes _ bad_image) λ target. return-Takes _)
      (omega arith)

read_typed-Takes : (ot : OperandType) (next_offset : ℤ) → Takes 0 (read_typed ot next_offset)
unfolding read_typed Reader.f32 Reader.f64
read_typed-Takes inline_switch next_offset =
    weaken 4 0 (>>=-Takes_last _ i32-Takes (λ count. read_switch-Takes next_offset count))
      (omega arith)
read_typed-Takes short_inline_br_target next_offset = branch-Takes 1 next_offset i8-Takes
read_typed-Takes inline_br_target next_offset = branch-Takes 4 next_offset i32-Takes
read_typed-Takes short_inline_i next_offset = map-Takes 1 _ i8-Takes
read_typed-Takes inline_i next_offset = map-Takes 4 _ i32-Takes
read_typed-Takes inline_i8 next_offset = map-Takes 8 _ i64-Takes
read_typed-Takes short_inline_r next_offset = map-Takes 4 _ u32-Takes
read_typed-Takes inline_r next_offset = map-Takes 8 _ u64-Takes
read_typed-Takes short_inline_var next_offset = map-Takes 1 _ u8-Takes
read_typed-Takes short_inline_arg next_offset = map-Takes 1 _ u8-Takes
read_typed-Takes inline_var next_offset = map-Takes 2 _ u16-Takes
read_typed-Takes inline_arg next_offset = map-Takes 2 _ u16-Takes
read_typed-Takes inline_none next_offset = return-Takes _
read_typed-Takes _ next_offset = map-Takes 4 _ u32-Takes

read_operand-Takes : (op : OpCode) (offset : ℤ) → Takes 0 (read_operand op offset)
unfolding read_operand
read_operand-Takes op offset =
    >>=-Takes_last _ (ok_or-Takes _ bad_image) (λ base. read_typed-Takes op.operand_type base)

choose-Takes :
    (b : Bool) {read read' : Read Operand}
    → Takes 0 read
    → Takes 0 read'
    → Takes 0 (if b then read else read')
choose-Takes true h h' = h
choose-Takes false h h' = h'

instruction_at-Takes : (offset : ℤ) → Takes 1 (instruction_at offset)
unfolding instruction_at
instruction_at-Takes offset = >>=-Takes_last _ read_opcode-Takes λ op.
    >>=-Takes_last _
      (choose-Takes (is_inline_none op.operand_type) (return-Takes _)
        (read_operand-Takes op offset))
      λ operand. return-Takes _

-- A round, and after it a loop that returns from any reader with less to read.
after_round :
    (fuel : ℕ) (r : ByteReader) (acc : List Instruction) {p : Result (Instruction × ByteReader)}
    → ((r' : ByteReader) (acc' : List Instruction)
        → r'.position ≤ length r'.bytes
        → length r'.bytes - r'.position ≤ fuel
        → Returns (read_loop fuel r' acc'))
    → Outcome 1 r p
    → length r.bytes - r.position ≤ suc fuel
    → Returns (Error.◌>>=◌ p λ q. read_loop fuel q.1 (acc ++ q.0 ∷ []))
after_round fuel r acc loop (failed e) enough = error e
after_round fuel r acc loop (moved i r' same far within) enough =
    loop r' (acc ++ i ∷ []) (omega (arith, ap length same)) (omega (arith, ap length same))

-- Each round takes a byte at least, so fuel for every byte left is enough.
read_loop-Returns :
    (fuel : ℕ) (r : ByteReader) (acc : List Instruction)
    → r.position ≤ length r.bytes
    → length r.bytes - r.position ≤ fuel
    → Returns (read_loop fuel r acc)
unfolding read_loop read_instruction is_empty remaining
read_loop-Returns zero r acc within enough =
    let e : length r.bytes - r.position ≡ 0 = omega arith in rw e (value acc)
read_loop-Returns (suc fuel) r acc within enough = elim (Bool-cases (is_empty r)) [
  | inl done ↦ rw done (value acc)
  | inr more ↦ rw more (
      after_round fuel r acc (read_loop-Returns fuel)
        ((instruction_at-Takes (as_i32 r.position)).runs r within) enough)
]

-- `read_code` ends in a list of instructions or an error on any bytes and any claimed size: it
-- never panics, and the size of the code is fuel enough for its loop.
pub read_code-Returns : (bytes : List ℕ) (code_size : ℕ) → Returns (read_code bytes code_size)
unfolding read_code
read_code-Returns bytes code_size =
    elim (Bool-cases (ltb (length bytes) code_size || ltb (2 ^ 31 - 1) code_size)) [
      | inl refused ↦ rw refused (error bad_image)
      | inr taken ↦
          let fits : code_size ≤ length bytes = ground arith in
          rw taken (
            read_loop-Returns code_size (new (take code_size bytes)) [] (omega arith)
              (omega (arith, length-take code_size bytes fits)))
    ]
