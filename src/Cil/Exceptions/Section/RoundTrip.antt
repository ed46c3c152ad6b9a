-- ===== src/Cil/Exceptions/Section/RoundTrip.antt =====
-- crates/cecil-cil/src/exceptions.rs, `write_section` against `parse_sections_with_len`.
use cecil_rs.Base.{
  ℕ, suc, ◌+◌, ◌-◌, ◌*◌, ◌/◌, ◌%◌, ◌^◌, ◌≤◌, ◌≡◌, refl, sym, ap, subst, ◌∙◌, bit_and, bit_or, Bool,
  true, false, List, [], ◌∷◌, ◌++◌, length, length-append, append_assoc, append-nil, ltb,
  Bool-cases, inl, inr, arith, All, le→ltb,
}
use cecil_rs.Base.Bits.{bit_and_mask, bit_or_disjoint, bit_or_comm}
use cecil_rs.Core.Error.{ok, err, invalid_operation, >>=-eq-ok}
use cecil_rs.Core.Reader
use cecil_rs.Core.Reader.{ByteReader, Read, ◌>>=◌, ◌>>◌, return, lift, new, at}
use cecil_rs.Core.Reader.Laws.{
  Decodes, Rest, Rest-length, Rest-advance, advance, >>=-Decodes, >>=-Decodes_last, return-Decodes,
  u8-Decodes, take_bytes-Decodes,
}
use cecil_rs.Core.Writer.{ByteWriter}
use cecil_rs.Cil.RoundTrip.Round.{Round, Round-map, Round-seq, Round-width}
use cecil_rs.Cil.Exceptions.{ExceptionHandler, requires_fat_section, write_clause}
use cecil_rs.Cil.Exceptions.RoundTrip.{IsCanonical, clause_bytes, clause-Round}
use cecil_rs.Cil.Exceptions.Section.{
  clause_size, section_size, section_header, write_clauses, write_section, read_size, whole_size,
  read_clauses, read_bounded, read_sized, read_section, parse_loop, parse_sections_with_len,
}

clauses-Round :
    (fat : Bool) (hs : List ExceptionHandler) {w w' : ByteWriter}
    → All IsCanonical hs
    → write_clauses hs fat w ≡ ok w'
    → Round (read_clauses (length hs) fat) hs (length hs * clause_size fat) w w'
unfolding write_clauses read_clauses
clauses-Round fat [] {w} {w'} c e = record {
  bytes = [];
  appended = ap (λ (v : ByteWriter). v.buf) same ∙ sym (append-nil w.buf);
  decodes = return-Decodes [];
  width = omega arith;
}
  where
    same : w' ≡ w
    same = cc
clauses-Round fat (h ∷ hs) {w} (c, cs) e =
    let (w1, first, rest) = >>=-eq-ok (write_clause h fat w) (write_clauses hs fat) e in
    Round-width
      (Round-seq _ (clause-Round fat h c first)
        (Round-map _ (clauses-Round fat hs cs rest) (return-Decodes (h ∷ hs))))
      (sizes fat)
  where
    sizes :
        (fat : Bool)
        → clause_bytes fat + length hs * clause_size fat ≡ length (h ∷ hs) * clause_size fat
    sizes true = omega arith
    sizes false = omega arith

-- The three bytes after the flags of a section.
abbrev size_bytes : Bool → ℕ → List ℕ
size_bytes true size = size % 256 ∷ size / 2 ^ 8 % 256 ∷ size / 2 ^ 16 % 256 ∷ []
size_bytes false size = size % 256 ∷ 0 ∷ 0 ∷ []

abbrev section_flags : Bool → ℕ
section_flags true = 0x41
section_flags false = 0x1

abbrev most : Bool → ℕ
most true = 0xFFFFFF
most false = 0xFF

section_header-eq_ok :
    (fat : Bool) (size : ℕ) {w : ByteWriter}
    → section_header fat size ≡ ok w
    → (w.buf ≡ section_flags fat ∷ size_bytes fat size) × (size ≤ most fat)
unfolding section_header
section_header-eq_ok true size {w} e = elim (Bool-cases (ltb 0xFFFFFF size)) [
  | inl over ↦ let refused : err invalid_operation ≡ ok w = rw over at e in cc
  | inr fits ↦
      let b0 : bit_and size 0xFF % 256 ≡ size % 256 = omega (arith, bit_and_mask 8 size) in
      let b1 : bit_and (size / 2 ^ 8) 0xFF % 256 ≡ size / 2 ^ 8 % 256 =
        omega (arith, bit_and_mask 8 (size / 2 ^ 8)) in
      let b2 : bit_and (size / 2 ^ 16) 0xFF % 256 ≡ size / 2 ^ 16 % 256 =
        omega (arith, bit_and_mask 8 (size / 2 ^ 16)) in
      let done : ok (record { buf = 0x41 ∷ size_bytes true size }) ≡ ok w =
        rw (fits, b0, b1, b2) at e in
      (cc, ground arith)
]
section_header-eq_ok false size {w} e = elim (Bool-cases (ltb 0xFF size)) [
  | inl over ↦ let refused : err invalid_operation ≡ ok w = rw over at e in cc
  | inr fits ↦
      let done : ok (record { buf = 0x1 ∷ size_bytes false size }) ≡ ok w = rw fits at e in
      (cc, ground arith)
]

size_bits :
    (size : ℕ)
    → size ≤ 0xFFFFFF
    → bit_or (bit_or (size % 256) (size / 2 ^ 8 % 256 * 2 ^ 8)) (size / 2 ^ 16 % 256 * 2 ^ 16)
      ≡ size
size_bits size h =
    let low : bit_or (size % 256) (size / 2 ^ 8 % 256 * 2 ^ 8) ≡ size % 2 ^ 16 = omega (
      arith,
      bit_or_comm (size % 256) (size / 2 ^ 8 % 256 * 2 ^ 8),
      bit_or_disjoint 8 (size / 2 ^ 8 % 256) (size % 256) (omega arith),
    ) in
    rw low (
      omega (
        arith,
        bit_or_comm (size % 2 ^ 16) (size / 2 ^ 16 % 256 * 2 ^ 16),
        bit_or_disjoint 16 (size / 2 ^ 16 % 256) (size % 2 ^ 16) (omega arith),
      ))

read_size-Decodes :
    (fat : Bool) (size : ℕ) → size ≤ most fat → Decodes (read_size fat) (size_bytes fat size) size
unfolding read_size
read_size-Decodes true size h = >>=-Decodes _ (u8-Decodes (size % 256)) (
    >>=-Decodes _ (u8-Decodes (size / 2 ^ 8 % 256)) (
      >>=-Decodes_last _ (u8-Decodes (size / 2 ^ 16 % 256))
        (rw (size_bits size h) (return-Decodes size))))
read_size-Decodes false size h =
    let same : size % 256 ≡ size = omega arith in
    >>=-Decodes _ (u8-Decodes (size % 256))
      (>>=-Decodes_last _ (take_bytes-Decodes 2 (0 ∷ 0 ∷ []) refl) (rw same (return-Decodes size)))

whole_size-section_size :
    (fat : Bool) (hs : List ExceptionHandler)
    → whole_size (section_size fat hs) (clause_size fat) ≡ ok (section_size fat hs)
unfolding whole_size
whole_size-section_size true hs =
    let e : (length hs * 24 + 4 - 4) % 24 ≡ 0 = omega arith in
    rw (le→ltb (length hs * 24 + 4) 4 (omega arith), e) refl
whole_size-section_size false hs =
    let e : (length hs * 12 + 4 - 4) % 12 ≡ 0 = omega arith in
    rw (le→ltb (length hs * 12 + 4) 4 (omega arith), e) refl

count-section_size :
    (fat : Bool) (hs : List ExceptionHandler)
    → (section_size fat hs - 4) / clause_size fat ≡ length hs
count-section_size true hs = omega arith
count-section_size false hs = omega arith

-- The flags have no further section.
read_section-eq_ok :
    (fat : Bool) (r : ByteReader) (xs : List ℕ) {hs : List ExceptionHandler} {r' : ByteReader}
    → Rest r (section_flags fat ∷ xs)
    → read_sized r.position fat (advance 1 r) ≡ ok (hs, r')
    → read_section r ≡ ok ((hs, false), r')
unfolding read_section
read_section-eq_ok true r xs h e = rw ((u8-Decodes 0x41).runs r xs h, e) refl
read_section-eq_ok false r xs h e = rw ((u8-Decodes 0x1).runs r xs h, e) refl

read_bounded-eq_ok :
    (fat : Bool) (hs : List ExceptionHandler) (full cb rest : List ℕ)
    → Decodes (read_clauses (length hs) fat) cb hs
    → length cb + 4 ≡ section_size fat hs
    → Rest (at full 4) (cb ++ rest)
    → read_bounded 0 (section_size fat hs) fat (at full 4) ≡ ok (hs, at full (section_size fat hs))
unfolding read_bounded Reader.seek
read_bounded-eq_ok fat hs full cb rest d width h =
    let inside : ltb (length full) (section_size fat hs) ≡ false =
      le→ltb (length full) (section_size fat hs)
        (omega (arith, Rest-length h, length-append cb rest)) in
    let from_zero : 0 + section_size fat hs ≡ section_size fat hs = omega arith in
    rw (from_zero, inside, count-section_size fat hs, d.runs (at full 4) rest h, inside) refl

length-size_bytes : (fat : Bool) (size : ℕ) → length (size_bytes fat size) ≡ 3
length-size_bytes true size = refl
length-size_bytes false size = refl

read_sized-eq_ok :
    (fat : Bool) (hs : List ExceptionHandler) (full cb rest : List ℕ)
    → Decodes (read_clauses (length hs) fat) cb hs
    → length cb + 4 ≡ section_size fat hs
    → section_size fat hs ≤ most fat
    → Rest (at full 1) (size_bytes fat (section_size fat hs) ++ (cb ++ rest))
    → read_sized 0 fat (at full 1) ≡ ok (hs, at full (section_size fat hs))
unfolding read_sized
read_sized-eq_ok fat hs full cb rest d width bound h =
    let size : ℕ = section_size fat hs in
    let there : advance (length (size_bytes fat size)) (at full 1) ≡ at full 4 =
      ap (at full) (omega (arith, length-size_bytes fat size)) in
    let sized : read_size fat (at full 1) ≡ ok (size, at full 4) =
      (read_size-Decodes fat size bound).runs (at full 1) (cb ++ rest) h
      ∙ ap (λ q. ok (size, q)) there in
    let h4 : Rest (at full 4) (cb ++ rest) =
      subst (λ q. Rest q (cb ++ rest)) there (Rest-advance (size_bytes fat size) (cb ++ rest) h) in
    rw (sized, whole_size-section_size fat hs) (read_bounded-eq_ok fat hs full cb rest d width h4)

-- The first section of a sequence of bytes, where it is what `write_section` has written.
section_bytes-parsed :
    (fat : Bool) (hs : List ExceptionHandler) (full cb rest : List ℕ)
    → Decodes (read_clauses (length hs) fat) cb hs
    → length cb + 4 ≡ section_size fat hs
    → section_size fat hs ≤ most fat
    → Rest (new full) (section_flags fat ∷ (size_bytes fat (section_size fat hs) ++ (cb ++ rest)))
    → parse_sections_with_len full ≡ ok (hs, section_size fat hs)
unfolding parse_sections_with_len parse_loop
section_bytes-parsed fat hs full cb rest d width bound h =
    let size : ℕ = section_size fat hs in
    let h1 : Rest (at full 1) (size_bytes fat size ++ (cb ++ rest)) =
      Rest-advance (section_flags fat ∷ []) (size_bytes fat size ++ (cb ++ rest)) h in
    let read : read_section (new full) ≡ ok ((hs, false), at full size) =
      read_section-eq_ok fat (new full) _ h
        (read_sized-eq_ok fat hs full cb rest d width bound h1) in
    let fuel : length full + 1 ≡ suc (length full) = omega arith in rw (fuel, read) refl

-- Let every clause have fields that fit `i32`, and just what its kind has: a token, the start of a
-- filter, or neither. If `write_section` encodes the clauses, `parse_sections_with_len` parses the
-- bytes, whatever follows them, to the very same clauses and to the number of bytes.
pub section_round_trip :
    (hs : List ExceptionHandler) (force_fat : Bool) (rest : List ℕ) {bs : List ℕ}
    → All IsCanonical hs
    → write_section hs force_fat ≡ ok bs
    → parse_sections_with_len (bs ++ rest) ≡ ok (hs, length bs)
unfolding write_section
section_round_trip hs force_fat rest {bs} c e =
    let fat : Bool = requires_fat_section hs force_fat in
    let size : ℕ = section_size fat hs in
    let (w, opened, e1) = >>=-eq-ok (section_header fat size) _ e in
    let (w', written, e2) = >>=-eq-ok (write_clauses hs fat w) _ e1 in
    let (header, bound) = section_header-eq_ok fat size opened in
    let r : Round (read_clauses (length hs) fat) hs (length hs * clause_size fat) w w' =
      clauses-Round fat hs c written in
    let whole : bs ≡ (section_flags fat ∷ size_bytes fat size) ++ r.bytes =
      subst (λ h. bs ≡ h ++ r.bytes) header ((let e3 : bs ≡ w'.buf = cc in e3) ∙ r.appended) in
    let total : length bs ≡ size = omega (
      arith,
      ap length whole,
      length-append (section_flags fat ∷ size_bytes fat size) r.bytes,
      length-size_bytes fat size,
      r.width,
    ) in
    let start : bs ++ rest ≡ section_flags fat ∷ (size_bytes fat size ++ (r.bytes ++ rest)) =
      ap (λ xs. xs ++ rest) whole
      ∙ append_assoc (section_flags fat ∷ size_bytes fat size) r.bytes rest in
    section_bytes-parsed fat hs (bs ++ rest) r.bytes rest r.decodes (omega (arith, r.width)) bound
      (record { within = omega arith; unread = start })
    ∙ ap (λ n. ok (hs, n)) (sym total)
