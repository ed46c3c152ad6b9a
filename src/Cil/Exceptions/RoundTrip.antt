-- ===== src/Cil/Exceptions/RoundTrip.antt =====
-- crates/cecil-cil/src/exceptions.rs, `write_clause` against `read_clause`.
use cecil_rs.Base.{
  ℕ, ◌%◌, ◌^◌, ◌<◌, ◌≡◌, refl, ap, subst, Bool, true, false, Option, some, none, List, [], ◌∷◌,
  ◌++◌, length, length-append, if◌then◌else◌, arith,
}
use cecil_rs.Base.Int.{ℤ, pos, negsuc, to_unsigned, half32, IsI32}
use cecil_rs.Core.Error.{Result, ok, err, Error, ok_or, bad_image, invalid_operation}
use cecil_rs.Core.Reader
use cecil_rs.Core.Reader.{Read, ◌>>=◌, return, lift}
use cecil_rs.Core.Reader.Laws.{
  Decodes, >>=-Decodes, >>=-Decodes_last, return-Decodes, u8-Decodes, take_bytes-Decodes,
}
use cecil_rs.Core.Token.{nil}
use cecil_rs.Core.Writer.{ByteWriter, le_bytes}
use cecil_rs.Core.Writer.Laws.{
  Writes, Writes-compose, u8-Writes, u16-Writes, u32-Writes, i32-Writes, u16-le_bytes, u32-le_bytes,
  i32-bytes,
}
use cecil_rs.Cil.RoundTrip.Round.{Round, round, Round-width}
use cecil_rs.Cil.Exceptions.{
  ExceptionHandlerType, catch_, filter, finally_, fault, ExceptionHandler, Fields, discriminant,
  from_discriminant, unwrap_or_default, beyond, filter_beyond, write_tail, write_fat_clause,
  put_small_clause, write_small_clause, write_clause, read_fields, read_tail, read_clause,
  handler_of, cast,
}

-- A clause carries what its kind has: a token, the start of a filter, or neither.
abbrev pub Carries : ExceptionHandlerType → Option ℤ → ℕ → Type 0
Carries catch_ none raw = raw < 2 ^ 32
Carries catch_ (some z) raw = ⊥
Carries filter (some z) raw = IsI32 z × (raw ≡ 0)
Carries filter none raw = ⊥
Carries finally_ none raw = raw ≡ 0
Carries finally_ (some z) raw = ⊥
Carries fault none raw = raw ≡ 0
Carries fault (some z) raw = ⊥

pub record IsCanonical (h : ExceptionHandler) : Type 0 where
  pub try_start : IsI32 h.try_start
  pub try_length : IsI32 h.try_length
  pub handler_start : IsI32 h.handler_start
  pub handler_length : IsI32 h.handler_length
  pub carries : Carries h.handler_type h.filter_start h.catch_type.raw

abbrev tail_bytes : ExceptionHandler → ExceptionHandlerType → List ℕ
tail_bytes h catch_ = le_bytes 4 h.catch_type.raw
tail_bytes h filter = le_bytes 4 (to_unsigned half32 (unwrap_or_default h.filter_start))
tail_bytes h finally_ = le_bytes 4 0
tail_bytes h fault = le_bytes 4 0

write_tail-Writes :
    (h : ExceptionHandler) (t : ExceptionHandlerType) → Writes (write_tail h t) (tail_bytes h t)
unfolding write_tail
write_tail-Writes h catch_ = u32-Writes h.catch_type.raw
write_tail-Writes h filter = i32-Writes (unwrap_or_default h.filter_start)
write_tail-Writes h finally_ = u32-Writes 0
write_tail-Writes h fault = u32-Writes 0

fields_of : ExceptionHandler → Fields
fields_of h = record {
  kind_raw = discriminant h.handler_type;
  try_start = h.try_start;
  try_len = h.try_length;
  handler_start = h.handler_start;
  handler_len = h.handler_length;
}

-- Four zeros, skipped.
skipped-Decodes :
    {A : Type 0} (a : A) → Decodes (Reader.take_bytes 4 >>= λ _. return a) (le_bytes 4 0) a
skipped-Decodes a = >>=-Decodes_last _ (take_bytes-Decodes 4 (le_bytes 4 0) refl) (return-Decodes a)

read_tail-Decodes :
    (f : Fields) (t : ExceptionHandlerType) (o : Option ℤ) (raw : ℕ)
    → Carries t o raw
    → Decodes
        (read_tail f t)
        (tail_bytes (handler_of f t o (record { raw = raw })) t)
        (handler_of f t o (record { raw = raw }))
unfolding read_tail
read_tail-Decodes f catch_ none raw h =
    >>=-Decodes_last _ (u32-le_bytes raw h)
      (return-Decodes (handler_of f catch_ none (record { raw = raw })))
read_tail-Decodes f filter (some z) raw (h, e) =
    >>=-Decodes_last _ (i32-bytes z h) (rw e (return-Decodes (handler_of f filter (some z) nil)))
read_tail-Decodes f finally_ none raw e = rw e (skipped-Decodes (handler_of f finally_ none nil))
read_tail-Decodes f fault none raw e = rw e (skipped-Decodes (handler_of f fault none nil))
read_tail-Decodes f catch_ (some z) raw h = absurd h
read_tail-Decodes f filter none raw h = absurd h
read_tail-Decodes f finally_ (some z) raw h = absurd h
read_tail-Decodes f fault (some z) raw h = absurd h

from_discriminant-discriminant :
    (t : ExceptionHandlerType) → from_discriminant (discriminant t) ≡ some t
unfolding discriminant from_discriminant
from_discriminant-discriminant catch_ = refl
from_discriminant-discriminant _ = refl

-- A clause whose fields are decoded is decoded.
clause-Decodes :
    (fat : Bool) (h : ExceptionHandler) {xs : List ℕ}
    → Decodes (read_fields fat) xs (fields_of h)
    → Carries h.handler_type h.filter_start h.catch_type.raw
    → Decodes (read_clause fat) (xs ++ tail_bytes h h.handler_type) h
unfolding read_clause fields_of
clause-Decodes fat h d c =
    let kind : Decodes (lift (ok_or (from_discriminant (discriminant h.handler_type)) bad_image)) []
        h.handler_type =
      rw (from_discriminant-discriminant h.handler_type) (return-Decodes h.handler_type) in
    >>=-Decodes _ d (
      >>=-Decodes _ kind
        (read_tail-Decodes (fields_of h) h.handler_type h.filter_start h.catch_type.raw c))

abbrev fat_bytes : ExceptionHandler → List ℕ
fat_bytes h =
    le_bytes 4 (discriminant h.handler_type)
    ++ (le_bytes 4 (to_unsigned half32 h.try_start)
        ++ (le_bytes 4 (to_unsigned half32 h.try_length)
            ++ (le_bytes 4 (to_unsigned half32 h.handler_start)
                ++ le_bytes 4 (to_unsigned half32 h.handler_length))))

discriminant-lt : (t : ExceptionHandlerType) → discriminant t < 5
unfolding discriminant
discriminant-lt catch_ = omega arith
discriminant-lt _ = omega arith

fat-Decodes :
    (h : ExceptionHandler) → IsCanonical h → Decodes (read_fields true) (fat_bytes h) (fields_of h)
unfolding read_fields fields_of
fat-Decodes h c =
    >>=-Decodes _
      (u32-le_bytes (discriminant h.handler_type) (omega (arith, discriminant-lt h.handler_type)))
      (>>=-Decodes _ (i32-bytes h.try_start c.try_start) (
        >>=-Decodes _ (i32-bytes h.try_length c.try_length) (
          >>=-Decodes _ (i32-bytes h.handler_start c.handler_start) (
            >>=-Decodes_last _ (i32-bytes h.handler_length c.handler_length)
              (return-Decodes (fields_of h))))))

fat-Writes :
    (h : ExceptionHandler)
    → Writes (write_fat_clause h) (fat_bytes h ++ tail_bytes h h.handler_type)
unfolding write_fat_clause
fat-Writes h =
    Writes-compose
      (Writes-compose (u32-Writes (discriminant h.handler_type)) (
        Writes-compose (i32-Writes h.try_start) (
          Writes-compose (i32-Writes h.try_length)
            (Writes-compose (i32-Writes h.handler_start) (i32-Writes h.handler_length)))))
      (write_tail-Writes h h.handler_type)

-- A number that is not beyond a bound is itself, cast to a word that holds the bound.
word_value : (z : ℤ) → beyond 0xFFFF z ≡ false → pos (cast 16 z) ≡ z
word_value (pos n) h = let e : n % 2 ^ 32 % 2 ^ 16 ≡ n = ground arith in ap pos e
word_value (negsuc n) h = cc

byte_value : (z : ℤ) → beyond 0xFF z ≡ false → pos (cast 8 z) ≡ z
byte_value (pos n) h = let e : n % 2 ^ 32 % 2 ^ 8 ≡ n = ground arith in ap pos e
byte_value (negsuc n) h = cc

abbrev small_bytes : ExceptionHandler → List ℕ
small_bytes h =
    le_bytes 2 (discriminant h.handler_type % 2 ^ 16)
    ++ (le_bytes 2 (cast 16 h.try_start)
        ++ (cast 8 h.try_length
            ∷ (le_bytes 2 (cast 16 h.handler_start) ++ (cast 8 h.handler_length ∷ []))))

small-Writes :
    (h : ExceptionHandler)
    → Writes (put_small_clause h) (small_bytes h ++ tail_bytes h h.handler_type)
unfolding put_small_clause
small-Writes h =
    Writes-compose
      (Writes-compose (u16-Writes (discriminant h.handler_type % 2 ^ 16)) (
        Writes-compose (u16-Writes (cast 16 h.try_start)) (
          Writes-compose (u8-Writes (cast 8 h.try_length)) (
            Writes-compose (u16-Writes (cast 16 h.handler_start))
              (u8-Writes (cast 8 h.handler_length))))))
      (write_tail-Writes h h.handler_type)

-- The fields as a small clause holds them.
abbrev small_fields : ExceptionHandler → Fields
small_fields h = record {
  kind_raw = discriminant h.handler_type % 2 ^ 16;
  try_start = pos (cast 16 h.try_start);
  try_len = pos (cast 8 h.try_length);
  handler_start = pos (cast 16 h.handler_start);
  handler_len = pos (cast 8 h.handler_length);
}

small_fields-Decodes :
    (h : ExceptionHandler) → Decodes (read_fields false) (small_bytes h) (small_fields h)
unfolding read_fields
small_fields-Decodes h =
    >>=-Decodes _ (u16-le_bytes (discriminant h.handler_type % 2 ^ 16) (omega arith)) (
      >>=-Decodes _ (u16-le_bytes (cast 16 h.try_start) (omega arith)) (
        >>=-Decodes _ (u8-Decodes (cast 8 h.try_length)) (
          >>=-Decodes _ (u16-le_bytes (cast 16 h.handler_start) (omega arith)) (
            >>=-Decodes_last _ (u8-Decodes (cast 8 h.handler_length))
              (return-Decodes (small_fields h))))))

small_fields-eq :
    (h : ExceptionHandler)
    → beyond 0xFFFF h.try_start ≡ false
    → beyond 0xFF h.try_length ≡ false
    → beyond 0xFFFF h.handler_start ≡ false
    → beyond 0xFF h.handler_length ≡ false
    → small_fields h ≡ fields_of h
unfolding fields_of
small_fields-eq h a b c d =
    let kind : discriminant h.handler_type % 2 ^ 16 ≡ discriminant h.handler_type =
      omega (arith, discriminant-lt h.handler_type) in
    λ i. record {
      kind_raw = kind i;
      try_start = word_value h.try_start a i;
      try_len = byte_value h.try_length b i;
      handler_start = word_value h.handler_start c i;
      handler_len = byte_value h.handler_length d i;
    }

-- A test that refuses has not held where the result is a value.
unless {ℓ} :
    {A : Type ℓ} (b : Bool) (reason : Error) (rest : Result A) {a : A}
    → (if b then err reason else rest) ≡ ok a
    → (b ≡ false) × (rest ≡ ok a)
unless true reason rest h = cc
unless false reason rest h = (refl, h)

small_clause-Round :
    (h : ExceptionHandler) {w w' : ByteWriter}
    → IsCanonical h
    → write_small_clause h w ≡ ok w'
    → Round (read_clause false) h (length (small_bytes h ++ tail_bytes h h.handler_type)) w w'
unfolding write_small_clause
small_clause-Round h c e =
    let (a1, e1) = unless (beyond 0xFFFF h.try_start) invalid_operation _ e in
    let (a2, e2) = unless (beyond 0xFF h.try_length) invalid_operation _ e1 in
    let (a3, e3) = unless (beyond 0xFFFF h.handler_start) invalid_operation _ e2 in
    let (a4, e4) = unless (beyond 0xFF h.handler_length) invalid_operation _ e3 in
    let (a5, e5) = unless (filter_beyond h.handler_type h.filter_start) invalid_operation _ e4 in
    let fields : Decodes (read_fields false) (small_bytes h) (fields_of h) =
      subst (Decodes (read_fields false) (small_bytes h)) (small_fields-eq h a1 a2 a3 a4)
        (small_fields-Decodes h) in
    round (small-Writes h) (clause-Decodes false h fields c.carries) e5

-- The size of a clause.
abbrev pub clause_bytes : Bool → ℕ
clause_bytes fat = if fat then 24 else 12

length-tail_bytes : (h : ExceptionHandler) (t : ExceptionHandlerType) → length (tail_bytes h t) ≡ 4
length-tail_bytes h catch_ = refl
length-tail_bytes h _ = refl

-- What is written for a clause, in either form, is read back from the bytes of that form's size.
pub clause-Round :
    (fat : Bool) (h : ExceptionHandler) {w w' : ByteWriter}
    → IsCanonical h
    → write_clause h fat w ≡ ok w'
    → Round (read_clause fat) h (clause_bytes fat) w w'
unfolding write_clause
clause-Round true h c e =
    Round-width (round (fat-Writes h) (clause-Decodes true h (fat-Decodes h c) c.carries) e) (
      omega (
        arith,
        length-append (fat_bytes h) (tail_bytes h h.handler_type),
        length-tail_bytes h h.handler_type,
      ))
clause-Round false h c e = Round-width (small_clause-Round h c e) (
    omega (
      arith,
      length-append (small_bytes h) (tail_bytes h h.handler_type),
      length-tail_bytes h h.handler_type,
    ))
