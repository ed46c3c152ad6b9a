-- ===== src/Cil/Exceptions/Section/Safety.antt =====
-- crates/cecil-cil/src/exceptions.rs, `parse_sections_with_len` on any bytes.
use cecil_rs.Base.{
  ℕ, zero, suc, ◌+◌, ◌-◌, ◌/◌, ◌%◌, ◌≤◌, ◌≡◌, ◌⊎◌, refl, ap, subst, sym, bit_and, Bool, true, false,
  not, List, [], ◌++◌, length, ltb, ◌==◌, if◌then◌else◌, Bool-cases, inl, inr, arith, le→ltb,
}
use cecil_rs.Core.Error
use cecil_rs.Core.Error.{Result, ok, err, Error, bad_image, Returns, value, error, ok_or}
use cecil_rs.Core.Reader
use cecil_rs.Core.Reader.{ByteReader, Read, ◌>>=◌, ◌>>◌, return, lift, new, at}
use cecil_rs.Core.Reader.Safety.{
  Takes, Outcome, moved, failed, >>=-Takes_last, return-Takes, weaken, take_bytes-Takes, u8-Takes,
  u16-Takes, u32-Takes, i32-Takes, align-Takes,
}
use cecil_rs.Cil.Safety.{ok_or-Takes}
use cecil_rs.Cil.Exceptions.{
  ExceptionHandlerType, catch_, filter, finally_, fault, ExceptionHandler, Fields,
  from_discriminant, read_fields, read_tail, read_clause,
}
use cecil_rs.Cil.Exceptions.Section.{
  clause_size, read_size, whole_size, read_clauses, read_bounded, read_sized, read_section,
  parse_loop, parse_sections_with_len,
}

-- A read that takes any number of bytes, and one after it.
then-Takes {ℓ κ} :
    {A : Type ℓ} {B : Type κ} (k : ℕ) {m : Read A} (f : A → Read B)
    → Takes k m
    → ((a : A) → Takes 0 (f a))
    → Takes 0 (m >>= f)
then-Takes k f hm hf = weaken k 0 (>>=-Takes_last f hm hf) (omega arith)

read_fields-Takes : (fat : Bool) → Takes 0 (read_fields fat)
unfolding read_fields
read_fields-Takes true = then-Takes 4 _ u32-Takes λ a. then-Takes 4 _ i32-Takes λ b.
    then-Takes 4 _ i32-Takes
      λ c. then-Takes 4 _ i32-Takes λ d. then-Takes 4 _ i32-Takes λ e. return-Takes _
read_fields-Takes false = then-Takes 2 _ u16-Takes λ a. then-Takes 2 _ u16-Takes λ b.
    then-Takes 1 _ u8-Takes
      λ c. then-Takes 2 _ u16-Takes λ d. then-Takes 1 _ u8-Takes λ e. return-Takes _

read_tail-Takes : (f : Fields) (t : ExceptionHandlerType) → Takes 0 (read_tail f t)
unfolding read_tail
read_tail-Takes f catch_ = then-Takes 4 _ u32-Takes λ raw. return-Takes _
read_tail-Takes f filter = then-Takes 4 _ i32-Takes λ start. return-Takes _
read_tail-Takes f finally_ = then-Takes 4 _ (take_bytes-Takes 4) λ skipped. return-Takes _
read_tail-Takes f fault = then-Takes 4 _ (take_bytes-Takes 4) λ skipped. return-Takes _

read_clause-Takes : (fat : Bool) → Takes 0 (read_clause fat)
unfolding read_clause
read_clause-Takes fat = then-Takes 0 _ (read_fields-Takes fat) λ f.
    then-Takes 0 _ (ok_or-Takes (from_discriminant f.kind_raw) bad_image) λ t. read_tail-Takes f t

read_clauses-Takes : (count : ℕ) (fat : Bool) → Takes 0 (read_clauses count fat)
unfolding read_clauses
read_clauses-Takes zero fat = return-Takes []
read_clauses-Takes (suc count) fat =
    then-Takes 0 _ (read_clause-Takes fat)
      λ h. then-Takes 0 _ (read_clauses-Takes count fat) λ hs. return-Takes _

read_size-Takes : (fat : Bool) → Takes 0 (read_size fat)
unfolding read_size
read_size-Takes true =
    then-Takes 1 _ u8-Takes
      λ a. then-Takes 1 _ u8-Takes λ b. then-Takes 1 _ u8-Takes λ c. return-Takes _
read_size-Takes false =
    then-Takes 1 _ u8-Takes λ a. then-Takes 2 _ (take_bytes-Takes 2) λ b. return-Takes _

-- A run that fails, or ends with the cursor at least four bytes after `start`.
data Lands {ℓ} {A : Type ℓ} (start : ℕ) (r : ByteReader) : Result (A × ByteReader) → Type ℓ where
  landed :
      (a : A) (n : ℕ) → start + 4 ≤ n → n ≤ length r.bytes → Lands start r (ok (a, at r.bytes n))
  refused : (e : Error) → Lands start r (err e)

Lands-bytes {ℓ} :
    {A : Type ℓ} {start : ℕ} {r r' : ByteReader} {p : Result (A × ByteReader)}
    → r'.bytes ≡ r.bytes
    → Lands start r' p
    → Lands start r p
Lands-bytes {start} {r} same (landed a n far within) =
    subst (λ bs. Lands start r (ok (a, at bs n))) (sym same)
      (landed a n far (omega (arith, ap length same)))
Lands-bytes same (refused e) = refused e

-- The seek to the end of a section, after its clauses.
seek-Lands :
    (start size : ℕ) {r : ByteReader} {p : Result (List ExceptionHandler × ByteReader)}
    → 4 ≤ size
    → start + size ≤ length r.bytes
    → Outcome 0 r p
    → Lands start r (Error.◌>>=◌ p λ q. (Reader.seek (start + size) >> return q.0) q.1)
unfolding Reader.seek
seek-Lands start size large inside (failed e) = refused e
seek-Lands start size large inside (moved hs r' same far within) =
    let inside' : start + size ≤ length r'.bytes = omega (arith, ap length same) in
    rw (le→ltb _ _ inside')
      (Lands-bytes {r' = r'} same (landed hs (start + size) (omega arith) inside'))

read_bounded-Lands :
    (start size : ℕ) (fat : Bool) (r : ByteReader)
    → 4 ≤ size
    → r.position ≤ length r.bytes
    → Lands start r (read_bounded start size fat r)
unfolding read_bounded
read_bounded-Lands start size fat r large h =
    elim (Bool-cases (ltb (length r.bytes) (start + size))) [
      | inl over ↦ rw over (refused bad_image)
      | inr fits ↦ rw fits (
          seek-Lands start size large (ground arith)
            ((read_clauses-Takes ((size - 4) / clause_size fat) fat).runs r h))
    ]

whole_size-cases :
    (size clause : ℕ)
    → (whole_size size clause ≡ err bad_image)
      ⊎ ((n : ℕ) × (whole_size size clause ≡ ok n) × (4 ≤ n))
unfolding whole_size
whole_size-cases size clause = elim (Bool-cases (ltb size 4)) [
  | inl small ↦ inl (rw small refl)
  | inr enough ↦ elim (Bool-cases ((size - 4) % clause == 0)) [
    | inl counted ↦ inr (size, rw (enough, counted) refl, ground arith)
    | inr partial ↦ elim (Bool-cases (size % clause == 0)) [
      | inl bare ↦ inr (size + 4, rw (enough, partial, bare) refl, omega arith)
      | inr broken ↦ inl (rw (enough, partial, broken) refl)
    ]
  ]
]

sized-Lands :
    (start : ℕ) (fat : Bool) {r : ByteReader} {p : Result (ℕ × ByteReader)}
    → r.position ≤ length r.bytes
    → Outcome 0 r p
    → Lands start r (
        Error.◌>>=◌ p λ q.
          (lift (whole_size q.0 (clause_size fat)) >>= λ whole. read_bounded start whole fat) q.1)
sized-Lands start fat h (failed e) = refused e
sized-Lands start fat h (moved size r' same far within) =
    elim (whole_size-cases size (clause_size fat)) [
      | inl bad ↦ rw bad (refused bad_image)
      | inr (n, whole, large) ↦ rw whole (
          Lands-bytes same
            (read_bounded-Lands start n fat r' large (omega (arith, ap length same))))
    ]

read_sized-Lands :
    (start : ℕ) (fat : Bool) (r : ByteReader)
    → r.position ≤ length r.bytes
    → Lands start r (read_sized start fat r)
unfolding read_sized
read_sized-Lands start fat r h = sized-Lands start fat h ((read_size-Takes fat).runs r h)

-- The rest of a section, after its flags have been taken.
flagged-Outcome :
    (start flags : ℕ) (fat : Bool) {r : ByteReader}
    {p : Result (List ExceptionHandler × ByteReader)}
    → start ≡ r.position
    → Lands start r p
    → Outcome {A = List ExceptionHandler × Bool} 1 r
        (Error.◌>>=◌ p λ q. ok ((q.0, not (bit_and flags 0x80 == 0)), q.1))
flagged-Outcome start flags fat here (refused e) = failed e
flagged-Outcome start flags fat {r} here (landed hs n far within) =
    moved _ (at r.bytes n) refl (omega (arith, here)) within

section-Outcome :
    {r : ByteReader} {p : Result (ℕ × ByteReader)}
    → Outcome 1 r p
    → Outcome {A = List ExceptionHandler × Bool} 1 r (
        Error.◌>>=◌ p λ q.
          (if bit_and q.0 0x1 == 0
              then lift (err bad_image)
              else read_sized r.position (not (bit_and q.0 0x40 == 0)) >>= λ hs.
                  return (hs, not (bit_and q.0 0x80 == 0)))
            q.1)
section-Outcome (failed e) = failed e
section-Outcome {r} (moved flags r1 same far within) = elim (Bool-cases (bit_and flags 0x1 == 0)) [
  | inl other ↦ rw other (failed bad_image)
  | inr table ↦ rw table (
      flagged-Outcome r.position flags (not (bit_and flags 0x40 == 0)) refl (
        Lands-bytes same (
          read_sized-Lands r.position (not (bit_and flags 0x40 == 0)) r1
            (omega (arith, ap length same)))))
]

read_section-Takes : Takes 1 read_section
unfolding read_section
read_section-Takes = record { runs = λ r h. section-Outcome (u8-Takes.runs r h) }

-- After the gap that follows a section, a loop that returns from any reader with less to read.
aligned-Returns :
    (fuel : ℕ) (hs : List ExceptionHandler) {r : ByteReader} {p : Result (Unit {0} × ByteReader)}
    → ((r' : ByteReader)
        → r'.position ≤ length r'.bytes
        → length r'.bytes - r'.position ≤ fuel
        → Returns (parse_loop (suc fuel) hs r'))
    → length r.bytes - r.position ≤ fuel
    → Outcome 0 r p
    → Returns (Error.◌>>=◌ p λ q. parse_loop (suc fuel) hs q.1)
aligned-Returns fuel hs loop enough (failed e) = error e
aligned-Returns fuel hs loop enough (moved u r' same far within) =
    loop r' (omega (arith, ap length same)) (omega (arith, ap length same))

next-Returns :
    (fuel : ℕ) (handlers : List ExceptionHandler) {r : ByteReader}
    {p : Result ((List ExceptionHandler × Bool) × ByteReader)}
    → ((hs : List ExceptionHandler) (r' : ByteReader)
        → r'.position ≤ length r'.bytes
        → length r'.bytes - r'.position ≤ fuel
        → Returns (parse_loop (suc fuel) hs r'))
    → length r.bytes - r.position ≤ suc fuel
    → Outcome 1 r p
    → Returns (
        Error.◌>>=◌ p λ q.
          if q.0.1
          then Error.◌>>=◌ (Reader.align 4 q.1) (λ v. parse_loop (suc fuel) (handlers ++ q.0.0) v.1)
          else ok (handlers ++ q.0.0, q.1.position))
next-Returns fuel handlers loop enough (failed e) = error e
next-Returns fuel handlers loop enough (moved (hs, false) r' same far within) = value _
next-Returns fuel handlers loop enough (moved (hs, true) r' same far within) =
    aligned-Returns fuel (handlers ++ hs) (loop (handlers ++ hs)) (omega (arith, ap length same))
      ((align-Takes 4).runs r' (omega (arith, ap length same)))

-- No byte is left, so that the read fails.
exhausted {ℓ κ} :
    {A : Type ℓ} {B : Type κ} {r : ByteReader} {p : Result (A × ByteReader)}
    (f : A × ByteReader → Result B)
    → length r.bytes - r.position ≤ 0
    → Outcome 1 r p
    → Returns (Error.◌>>=◌ p f)
exhausted f enough (failed e) = error e
exhausted f enough (moved a r' same far within) = absurd (omega arith)

-- At the end of the bytes the next round fails, so it takes one round more than bytes.
parse_loop-Returns :
    (fuel : ℕ) (handlers : List ExceptionHandler) (r : ByteReader)
    → r.position ≤ length r.bytes
    → length r.bytes - r.position ≤ fuel
    → Returns (parse_loop (suc fuel) handlers r)
unfolding parse_loop
parse_loop-Returns zero handlers r within enough =
    exhausted _ enough (read_section-Takes.runs r within)
parse_loop-Returns (suc fuel) handlers r within enough =
    next-Returns fuel handlers (parse_loop-Returns fuel) enough (read_section-Takes.runs r within)

-- `parse_sections_with_len` ends in handlers or an error on any bytes, however the sections are chained:
-- it never panics, and a round for each byte and one more is fuel enough.
pub parse_sections-Returns : (bytes : List ℕ) → Returns (parse_sections_with_len bytes)
unfolding parse_sections_with_len
parse_sections-Returns bytes =
    let fuel : length bytes + 1 ≡ suc (length bytes) = omega arith in
    rw fuel (parse_loop-Returns (length bytes) [] (new bytes) (omega arith) (omega arith))
