-- ===== src/Cil/RoundTrip/Code.antt =====
-- A whole body, written by `write_code` and read by `read_code`.
use cecil_rs.Base.{
  ℕ, zero, suc, ◌+◌, ◌-◌, ◌≤◌, ◌<◌, ◌^◌, ◌≡◌, refl, sym, ap, subst, ◌∙◌, List, [], ◌∷◌, ◌++◌,
  length, take, true, false, ltb, Bool-cases, inl, inr, arith, All, append-nil, append_assoc,
  length-append, le→ltb, take-append_length,
}
use cecil_rs.Base.Int.{ℤ}
use cecil_rs.Core.Error.{ok, err, invalid_operation, >>=-eq-ok}
use cecil_rs.Core.Reader.{ByteReader, new, is_empty, remaining}
use cecil_rs.Core.Reader.Laws.{Rest, Rest-length, Rest-advance, advance}
use cecil_rs.Core.Writer
use cecil_rs.Core.Writer.{ByteWriter}
use cecil_rs.Cil.Code.{Code}
use cecil_rs.Cil.OpCodes.{opcode_of}
use cecil_rs.Cil.Instruction.{Instruction, size}
use cecil_rs.Cil.Read.{as_i32, instruction_at, read_instruction, read_loop, read_code}
use cecil_rs.Cil.Write.{offsets, write_instruction, write_all, write_code}
use cecil_rs.Cil.RoundTrip.Round.{Round}
use cecil_rs.Cil.RoundTrip.Operand.{Fits}
use cecil_rs.Cil.RoundTrip.Instruction.{instruction-Round, size-positive}

-- A descriptor of the table, and an operand that fits it.
pub record IsWellFormed (i : Instruction) : Type 0 where
  pub code : Code
  pub known : i.opcode ≡ opcode_of code
  pub fits : Fits i.opcode.operand_type i.operand

-- The instructions stand one after the other, from the offset `p` on.
abbrev pub Sequential : ℕ → List Instruction → Type 0
Sequential p [] = Unit
Sequential p (i ∷ is) = (i.offset ≡ as_i32 p) × Sequential (p + size i) is

-- The bytes appended for instructions from the offset `p` on, which the loop takes back.
pub record Chunk (p : ℕ) (is : List Instruction) (w w' : ByteWriter) : Type 0 where
  pub bytes : List ℕ
  pub appended : w'.buf ≡ w.buf ++ bytes
  pub bounded : p ≤ 2 ^ 31 - 1 → p + length bytes ≤ 2 ^ 31 - 1
  pub loops :
      (fuel : ℕ) (r : ByteReader) (acc : List Instruction)
      → length bytes ≤ fuel
      → r.position ≡ p
      → Rest r bytes
      → read_loop fuel r acc ≡ ok (acc ++ is)

is_empty-Rest : (r : ByteReader) → Rest r [] → is_empty r ≡ true
unfolding is_empty remaining
is_empty-Rest r h = let e : length r.bytes - r.position ≡ 0 = omega (arith, Rest-length h) in rw e

not_empty-Rest : (r : ByteReader) (xs : List ℕ) → Rest r xs → 0 < length xs → is_empty r ≡ false
unfolding is_empty remaining
not_empty-Rest r xs h positive =
    let e : 0 < length r.bytes - r.position = omega (arith, Rest-length h) in ground arith

finished :
    (fuel : ℕ) (r : ByteReader) (acc : List Instruction) → Rest r [] → read_loop fuel r acc ≡ ok acc
unfolding read_loop
finished zero r acc h = rw (is_empty-Rest r h)
finished (suc fuel) r acc h = rw (is_empty-Rest r h)

read_loop-step :
    (fuel : ℕ) (r r' : ByteReader) (acc : List Instruction) (i : Instruction)
    → is_empty r ≡ false
    → read_instruction r ≡ ok (i, r')
    → read_loop (suc fuel) r acc ≡ read_loop fuel r' (acc ++ i ∷ [])
unfolding read_loop
read_loop-step fuel r r' acc i more e = rw (more, e)

nil-Chunk : (p : ℕ) (w : ByteWriter) → Chunk p [] w w
nil-Chunk p w = record {
  bytes = [];
  appended = sym (append-nil w.buf);
  bounded = λ h. omega arith;
  loops = λ fuel r acc enough at_p h. finished fuel r acc h ∙ ap ok (sym (append-nil acc));
}

-- One round of the loop, and the rest of it by the chunk that follows.
cons-loops :
    {p : ℕ} {i : Instruction} {is : List Instruction} {w w' w'' : ByteWriter}
    (positive : 0 < size i) (r : Round (instruction_at (as_i32 p)) i (size i) w w')
    (c : Chunk (p + size i) is w' w'') (fuel : ℕ) (q : ByteReader) (acc : List Instruction)
    → length (r.bytes ++ c.bytes) ≤ fuel
    → q.position ≡ p
    → Rest q (r.bytes ++ c.bytes)
    → read_loop fuel q acc ≡ ok (acc ++ i ∷ is)
unfolding read_instruction
cons-loops positive r c zero q acc enough at_p h =
    absurd (omega (arith, length-append r.bytes c.bytes, r.width))
cons-loops {i} {is} positive r c (suc fuel) q acc enough at_p h =
    let total : length (r.bytes ++ c.bytes) ≡ length r.bytes + length c.bytes =
      length-append r.bytes c.bytes in
    let more : is_empty q ≡ false =
      not_empty-Rest q (r.bytes ++ c.bytes) h (omega (arith, total, r.width)) in
    let taken : read_instruction q ≡ ok (i, advance (length r.bytes) q) =
      subst (λ n. instruction_at (as_i32 n) q ≡ ok (i, advance (length r.bytes) q)) (sym at_p)
        (r.decodes.runs q c.bytes h) in
    read_loop-step fuel q _ acc i more taken
    ∙ c.loops fuel (advance (length r.bytes) q) (acc ++ i ∷ []) (omega (arith, total, r.width))
        (omega (arith, r.width, at_p)) (Rest-advance r.bytes c.bytes h)
    ∙ ap ok (append_assoc acc (i ∷ []) is)

cons-Chunk :
    {p : ℕ} {i : Instruction} {is : List Instruction} {w w' w'' : ByteWriter}
    → 0 < size i
    → p + size i ≤ 2 ^ 31 - 1
    → Round (instruction_at (as_i32 p)) i (size i) w w'
    → Chunk (p + size i) is w' w''
    → Chunk p (i ∷ is) w w''
cons-Chunk {w} positive fit r c = record {
  bytes = r.bytes ++ c.bytes;
  appended = c.appended ∙ (ap (λ t. t ++ c.bytes) r.appended ∙ append_assoc w.buf r.bytes c.bytes);
  bounded = λ _. omega (arith, c.bounded fit, length-append r.bytes c.bytes, r.width);
  loops = cons-loops positive r c;
}

-- The first offset counted, and the chain of the others, where the count succeeds.
offsets-cons :
    (p : ℕ) (i : Instruction) (is : List Instruction) {offs : List ℤ}
    → offsets p (i ∷ is) ≡ ok offs
    → (p + size i ≤ 2 ^ 31 - 1)
      × (rest : List ℤ) × (offsets (p + size i) is ≡ ok rest)
      × (as_i32 p ∷ rest ≡ offs)
unfolding offsets
offsets-cons p i is {offs} e = elim (Bool-cases (ltb (2 ^ 31 - 1) (p + size i))) [
  | inl over ↦ let refused : err invalid_operation ≡ ok offs = rw over at e in cc
  | inr fit ↦
      let (rest, counted, built) =
        >>=-eq-ok (offsets (p + size i) is) (λ rest. ok (as_i32 p ∷ rest)) {b = offs}
          (rw fit at e) in
      (ground arith, rest, counted, cc)
]

write_all-Chunk :
    (p : ℕ) (is : List Instruction) (offs : List ℤ) {w w' : ByteWriter}
    → All IsWellFormed is
    → Sequential p is
    → offsets p is ≡ ok offs
    → write_all offs is w ≡ ok w'
    → Chunk p is w w'
unfolding write_all
write_all-Chunk p [] offs {w} {w'} well placed counted e =
    let same : w ≡ w' = cc in subst (Chunk p [] w) same (nil-Chunk p w)
write_all-Chunk p (i ∷ is) offs {w} (good, well) (here, placed) counted e =
    let (fit, rest, counted', built) = offsets-cons p i is counted in
    let (w1, written, e') =
      >>=-eq-ok (write_instruction (as_i32 p) i w) (write_all rest is) (rw (← built) at e) in
    cons-Chunk (size-positive good.code i good.known) fit
      (instruction-Round good.code (as_i32 p) i good.known good.fits here written)
      (write_all-Chunk (p + size i) is rest well placed counted' e')

read_code-Chunk :
    {is : List Instruction} {w : ByteWriter}
    → Chunk 0 is Writer.new w
    → read_code w.buf (length w.buf) ≡ ok is
unfolding read_code
read_code-Chunk {is} {w} c =
    let whole : take (length w.buf) w.buf ≡ w.buf =
      rw (append-nil w.buf) at (take-append_length w.buf []) in
    let small : length w.buf ≤ 2 ^ 31 - 1 =
      omega (arith, c.bounded (omega arith), ap length c.appended) in
    let runs : read_loop (length w.buf) (new w.buf) [] ≡ ok is =
      c.loops (length w.buf) (new w.buf) [] (omega (arith, ap length c.appended)) refl
        (record { within = omega arith; unread = c.appended }) in
    rw
      (
        le→ltb (length w.buf) (length w.buf) (omega arith),
        le→ltb (2 ^ 31 - 1) (length w.buf) small,
        whole,
      )
      runs

-- Let the instructions be well-formed and stand one after the other from the offset 0. If
-- `write_code` encodes them, `read_code` decodes the bytes to the very same instructions.
pub read-write_code :
    (is : List Instruction) {bs : List ℕ}
    → All IsWellFormed is
    → Sequential 0 is
    → write_code is ≡ ok bs
    → read_code bs (length bs) ≡ ok is
unfolding write_code
read-write_code is {bs} well placed e =
    let (offs, counted, e') = >>=-eq-ok (offsets 0 is) _ e in
    let (w, written, done) = >>=-eq-ok (write_all offs is Writer.new) _ e' in
    let same : w.buf ≡ bs = cc in
    subst (λ xs. read_code xs (length xs) ≡ ok is) same
      (read_code-Chunk (write_all-Chunk 0 is offs well placed counted written))
