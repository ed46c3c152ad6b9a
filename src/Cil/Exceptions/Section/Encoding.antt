-- ===== src/Cil/Exceptions/Section/Encoding.antt =====
-- crates/cecil-cil/src/exceptions.rs, the form that `write_section` chooses.
use cecil_rs.Base.{
  ℕ, ◌+◌, ◌*◌, ◌≤◌, ◌≡◌, refl, Bool, true, false, ◌||◌, Option, List, [], ◌∷◌, length, ltb, leb,
  if◌then◌else◌, Bool-cases, inl, inr, arith, le→ltb,
}
use cecil_rs.Base.Int.{ℤ}
use cecil_rs.Core.Error.{ok, err, Error}
use cecil_rs.Core.Writer.{ByteWriter}
use cecil_rs.Cil.Exceptions.{
  ExceptionHandlerType, catch_, filter, ExceptionHandler, beyond, some_beyond, filter_beyond,
  any_beyond, requires_fat_section, write_clause, write_small_clause, put_small_clause,
  write_fat_clause,
}
use cecil_rs.Cil.Exceptions.Section.{section_size, section_header, write_clauses, write_section}

neither : (a b : Bool) → (a || b) ≡ false → (a ≡ false) × (b ≡ false)
neither true b h = cc
neither false b h = (refl, h)

filter_beyond-some_beyond :
    (t : ExceptionHandlerType) (o : Option ℤ) → some_beyond o ≡ false → filter_beyond t o ≡ false
filter_beyond-some_beyond filter o h = h
filter_beyond-some_beyond catch_ o h = refl
filter_beyond-some_beyond _ o h = refl

-- Clauses that do not ask for the fat form fit the small one.
any_beyond-cons :
    (h : ExceptionHandler) (hs : List ExceptionHandler) (w : ByteWriter)
    → any_beyond (h ∷ hs) ≡ false
    → (write_small_clause h w ≡ ok (put_small_clause h w)) × (any_beyond hs ≡ false)
unfolding any_beyond write_small_clause
any_beyond-cons h hs w e =
    let (e4, rest) = neither _ (any_beyond hs) e in
    let (e3, f) = neither _ (some_beyond h.filter_start) e4 in
    let (e2, d) = neither _ (beyond 0xFF h.handler_length) e3 in
    let (e1, c) = neither _ (beyond 0xFFFF h.handler_start) e2 in
    let (a, b) = neither (beyond 0xFFFF h.try_start) (beyond 0xFF h.try_length) e1 in
    (rw (a, b, c, d, filter_beyond-some_beyond h.handler_type h.filter_start f) refl, rest)

write_clauses-fat :
    (hs : List ExceptionHandler) (w : ByteWriter)
    → (w' : ByteWriter) × (write_clauses hs true w ≡ ok w')
unfolding write_clauses write_clause
write_clauses-fat [] w = (w, refl)
write_clauses-fat (h ∷ hs) w = write_clauses-fat hs (write_fat_clause h w)

write_clauses-small :
    (hs : List ExceptionHandler) (w : ByteWriter)
    → any_beyond hs ≡ false
    → (w' : ByteWriter) × (write_clauses hs false w ≡ ok w')
unfolding write_clauses write_clause
write_clauses-small [] w e = (w, refl)
write_clauses-small (h ∷ hs) w e =
    let (first, rest) = any_beyond-cons h hs w e in
    let (w', written) = write_clauses-small hs (put_small_clause h w) rest in (w', rw first written)

-- A section without the fat form has at most 20 clauses, all of them small.
requires_fat_section-eq_false :
    (hs : List ExceptionHandler) (force_fat : Bool)
    → requires_fat_section hs force_fat ≡ false
    → (length hs ≤ 20) × (any_beyond hs ≡ false)
unfolding requires_fat_section
requires_fat_section-eq_false hs force_fat e =
    elim (Bool-cases (force_fat || leb 0x15 (length hs))) [
      | inl fat ↦ let impossible : true ≡ false = rw fat at e in cc
      | inr small ↦
          let (free, few) = neither force_fat (leb 0x15 (length hs)) small in
          (ground arith, rw small at e)
    ]

-- In a form whose header and clauses can be written, the section can be.
section-eq_ok :
    (fat : Bool) (hs : List ExceptionHandler) (force_fat : Bool)
    → requires_fat_section hs force_fat ≡ fat
    → ((w : ByteWriter) × (section_header fat (section_size fat hs) ≡ ok w))
    → ((w : ByteWriter) → (w' : ByteWriter) × (write_clauses hs fat w ≡ ok w'))
    → (bs : List ℕ) × (write_section hs force_fat ≡ ok bs)
unfolding write_section
section-eq_ok fat hs force_fat form (w, opened) clauses =
    let (w', written) = clauses w in (w'.buf, rw (form, opened, written) refl)

not_refused {ℓ} :
    {A : Type ℓ} (b : Bool) (reason : Error) (a : A)
    → b ≡ false
    → (x : A) × ((if b then err reason else ok a) ≡ ok x)
not_refused true reason a h = cc
not_refused false reason a h = (a, refl)

-- At most 699,050 clauses are always encoded, whatever they hold: the form that `write_section`
-- chooses has room for every field of every clause.
pub write_section-succeeds :
    (hs : List ExceptionHandler) (force_fat : Bool)
    → length hs ≤ 699050
    → (bs : List ℕ) × (write_section hs force_fat ≡ ok bs)
unfolding section_header
write_section-succeeds hs force_fat few = elim (Bool-cases (requires_fat_section hs force_fat)) [
  | inl fat ↦
      section-eq_ok true hs force_fat fat
        (not_refused (ltb 0xFFFFFF (length hs * 24 + 4)) _ _
          (le→ltb 0xFFFFFF (length hs * 24 + 4) (omega arith)))
        (write_clauses-fat hs)
  | inr small ↦
      let (count, near) = requires_fat_section-eq_false hs force_fat small in
      section-eq_ok false hs force_fat small
        (not_refused (ltb 0xFF (length hs * 12 + 4)) _ _
          (le→ltb 0xFF (length hs * 12 + 4) (omega arith)))
        (λ w. write_clauses-small hs w near)
]
