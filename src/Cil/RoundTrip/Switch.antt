-- ===== src/Cil/RoundTrip/Switch.antt =====
-- The targets of a switch, written and read.
use cecil_rs.Base.{
  ℕ, ◌+◌, ◌*◌, ◌-◌, ◌/◌, ◌≡◌, refl, sym, ap, ◌∙◌, List, [], ◌∷◌, ◌++◌, length, length-append,
  append-nil, arith, le→ltb, All, some,
}
use cecil_rs.Base.Int.{ℤ, pos, IsI32, ◌+ℤ◌, ◌-ℤ◌, checked_i32, checked_i32-IsI32}
use cecil_rs.Core.Error.{ok, ok_or, bad_image}
use cecil_rs.Core.Reader.{ByteReader, lift}
use cecil_rs.Core.Reader.Laws.{Decodes, Rest, Rest-length, return-Decodes}
use cecil_rs.Core.Writer.{ByteWriter}
use cecil_rs.Core.Writer.Laws.{i32-Writes, i32-bytes}
use cecil_rs.Cil.Instruction.{switch}
use cecil_rs.Cil.OpCode.{inline_switch}
use cecil_rs.Cil.Read.{read_targets, read_switch, switch_targets, read_typed}
use cecil_rs.Cil.Write.{write_targets, write_switch}
use cecil_rs.Cil.RoundTrip.Round.{
  Round, round, Round-map, Round-seq, Round-before, Round-width, Round-agree,
}
use cecil_rs.Cil.RoundTrip.Operand.{checked-bind, add-sub-Decodes}

targets-Round :
    (base : ℤ) (targets : List ℤ) {w w' : ByteWriter}
    → All IsI32 targets
    → write_targets base targets w ≡ ok w'
    → Round (read_targets (length targets) base) targets (4 * length targets) w w'
unfolding write_targets read_targets
targets-Round base [] {w} {w'} h e = record {
  bytes = [];
  appended = ap (λ (v : ByteWriter). v.buf) same ∙ sym (append-nil w.buf);
  decodes = return-Decodes [];
  width = refl;
}
  where
    same : w' ≡ w
    same = cc
targets-Round base (target ∷ targets) {w} {w'} (h, hs) e =
    let (fits, rest) = checked-bind (target -ℤ base) _ e in
    let first =
      round {w = w} (i32-Writes (target -ℤ base)) (i32-bytes (target -ℤ base) fits) refl in
    let more = targets-Round base targets hs rest in
    Round-width
      (Round-seq _ first (
        Round-before _ (add-sub-Decodes base target h)
          (Round-map _ more (return-Decodes (target ∷ targets)))))
      (omega arith)

lift-Decodes :
    (z : ℤ) → checked_i32 z ≡ some z → Decodes (lift (ok_or (checked_i32 z) bad_image)) [] z
lift-Decodes z e = rw e (return-Decodes z)

pub switch_targets-Round :
    (targets : List ℤ) (rel_base : ℤ) {w w' : ByteWriter}
    → All IsI32 targets
    → write_switch targets rel_base w ≡ ok w'
    → Round (read_typed inline_switch rel_base) (switch targets) (4 + 4 * length targets) w w'
unfolding write_switch read_switch read_typed
switch_targets-Round targets rel_base {w} {w'} hs e =
    let (fits₁, e₁) = checked-bind (pos (length targets)) _ e in
    let (fits₂, e₂) = checked-bind (pos (length targets * 4)) _ e₁ in
    let (fits₃, rest) = checked-bind (rel_base +ℤ pos (length targets * 4)) _ e₂ in
    let first =
      round {w = w} (i32-Writes (pos (length targets))) (i32-bytes (pos (length targets)) fits₁)
        refl in
    Round-seq _ first (
      Round-agree enough (
        Round-before _ (lift-Decodes _ (checked_i32-IsI32 (pos (length targets * 4)) fits₂)) (
          Round-before _
            (lift-Decodes _ (checked_i32-IsI32 (rel_base +ℤ pos (length targets * 4)) fits₃))
            (Round-map _ (targets-Round _ targets hs rest) (return-Decodes (switch targets))))))
  where
    enough :
        (r : ByteReader) (xs ys : List ℕ)
        → length xs ≡ 4 * length targets
        → Rest r (xs ++ ys)
        → read_switch rel_base (pos (length targets)) r ≡ switch_targets (length targets) rel_base r
    enough r xs ys e h = rw (
        le→ltb ((length r.bytes - r.position) / 4) (length targets)
          (omega (arith, e, Rest-length h, length-append xs ys)))
