-- ===== src/Cil/Header/RoundTrip.antt =====
-- crates/cecil-cil/src/body.rs, `encode_body_header` against `parse_body_header`.
use cecil_rs.Base.{
  ℕ, ◌+◌, ◌-◌, ◌*◌, ◌/◌, ◌%◌, ◌^◌, ◌<◌, ◌≡◌, refl, ap, subst, ◌∙◌, bit_and, bit_or, Bool, true,
  false, not, ◌&&◌, ◌||◌, List, [], ◌∷◌, ◌++◌, length, ltb, leb, ◌==◌, if◌then◌else◌, Bool-cases,
  inl, inr, arith, ==_iff,
}
use cecil_rs.Base.Bits.{bit_and_mask}
use cecil_rs.Base.Bytes.{holds_below, holds_below_at}
use cecil_rs.Core.Error.{ok, err, invalid_operation}
use cecil_rs.Core.Token.{Token, is_nil}
use cecil_rs.Cil.Header.Fat.{
  fat_bytes, fat-method_body_header_len, fat-parse_body_header, flags-eq, encode_fat-eq_ok,
}
use cecil_rs.Cil.Header.{
  ParsedHeader, parse_body_header, method_body_header_len, encode_tiny, encode_fat,
  encode_body_header,
}

-- What a tiny header leaves out has its default value.
encode_tiny-eq_ok :
    (code_size max_stack : ℕ) (locals : Token) (init_locals : Bool) {bs : List ℕ}
    → encode_tiny code_size max_stack locals init_locals ≡ ok bs
    → code_size < 64
      × (locals.raw ≡ 0)
      × (init_locals ≡ false)
      × (bit_or 0x2 (code_size % 256 * 2 ^ 2 % 256) ∷ [] ≡ bs)
unfolding encode_tiny
encode_tiny-eq_ok c m locals b {bs} e = elim (Bool-cases (leb 64 c)) [
  | inl over ↦ let refused : err invalid_operation ≡ ok bs = rw over at e in cc
  | inr fits ↦ elim (Bool-cases (not (is_nil locals) || b || ltb 8 m)) [
    | inl more ↦ let refused : err invalid_operation ≡ ok bs = rw (fits, more) at e in cc
    | inr plain ↦
        let done : ok (bit_or 0x2 (c % 256 * 2 ^ 2 % 256) ∷ []) ≡ ok bs = rw (fits, plain) at e in
        (ground arith, ground arith, ground arith, cc)
  ]
]

tiny_byte : (c : ℕ) → c < 64 → bit_or 0x2 (c % 256 * 2 ^ 2 % 256) ≡ c * 4 + 2
unfolding holds_below
tiny_byte c h =
    (==_iff _ _).0
      (holds_below_at 64 (λ c. bit_or 0x2 (c % 256 * 2 ^ 2 % 256) == c * 4 + 2) c refl h)

-- The header that is parsed: a tiny one has the stack depth 8.
abbrev pub parsed : Bool → ℕ → ℕ → Token → Bool → ParsedHeader
parsed tiny code_size max_stack locals init_locals = record {
  fat = not tiny;
  code_size = code_size;
  max_stack = if tiny then 8 else max_stack;
  locals_token = locals;
  init_locals = init_locals;
  more_sects = false;
}

-- A tiny header without its defaults.
abbrev tiny_parsed : ℕ → ℕ → Bool → ParsedHeader
tiny_parsed code_size raw init_locals = record {
  fat = false;
  code_size = code_size;
  max_stack = 8;
  locals_token = record { raw = raw };
  init_locals = init_locals;
  more_sects = false;
}

tiny_byte-parsed :
    (c : ℕ) (rest : List ℕ)
    → c < 64
    → (method_body_header_len ((c * 4 + 2) ∷ rest) ≡ ok 1)
      × (parse_body_header ((c * 4 + 2) ∷ rest) ≡ ok (tiny_parsed c 0 false))
unfolding method_body_header_len parse_body_header
tiny_byte-parsed c rest h =
    let format : bit_and (c * 4 + 2) 3 ≡ 2 = omega (arith, bit_and_mask 2 (c * 4 + 2)) in
    let quotient : (c * 4 + 2) / 2 ^ 2 ≡ c = omega arith in
    (rw format refl, rw (format, quotient) refl)

-- What `encode_body_header` encodes of words in their ranges, tiny or fat, `parse_body_header` parses back, whatever follows;
-- `method_body_header_len` is the number of bytes encoded. A tiny header has the stack depth 8, and
-- no header has the flag of more sections.
pub header_round_trip :
    (tiny : Bool) (code_size max_stack : ℕ) (locals : Token) (init_locals : Bool) (rest : List ℕ)
    {bs : List ℕ}
    → code_size < 2 ^ 32
    → max_stack < 2 ^ 16
    → locals.raw < 2 ^ 32
    → encode_body_header tiny code_size max_stack locals init_locals ≡ ok bs
    → (method_body_header_len (bs ++ rest) ≡ ok (length bs))
      × (parse_body_header (bs ++ rest) ≡ ok (parsed tiny code_size max_stack locals init_locals))
unfolding encode_body_header
header_round_trip true c m locals b rest {bs} hc hm hl e =
    let (small, no_locals, no_init, built) = encode_tiny-eq_ok c m locals b e in
    let built' : (c * 4 + 2) ∷ [] ≡ bs = rw (tiny_byte c small) at built in
    let defaults : tiny_parsed c 0 false ≡ tiny_parsed c locals.raw b =
      rw (no_locals, no_init) refl in
    let (len, whole) = tiny_byte-parsed c rest small in rw (← built') (len, whole ∙ ap ok defaults)
header_round_trip false c m locals b rest {bs} hc hm hl e =
    let built = encode_fat-eq_ok c m locals b e in
    rw (← built) (
      fat-method_body_header_len false c m locals.raw b rest,
      fat-parse_body_header false c m locals b rest hc hm hl,
    )

-- What the form of the header can hold.
abbrev pub holds : Bool → ℕ → ℕ → Token → Bool → Bool
holds true code_size max_stack locals init_locals =
    ltb code_size 64 && (is_nil locals && (not init_locals && leb max_stack 8))
holds false code_size max_stack locals init_locals = ltb code_size (2 ^ 31)

abbrev pub header_bytes : Bool → ℕ → ℕ → Token → Bool → List ℕ
header_bytes true code_size max_stack locals init_locals = (code_size * 4 + 2) ∷ []
header_bytes false code_size max_stack locals init_locals =
    fat_bytes false code_size max_stack locals.raw init_locals

tiny_holds :
    (c m r : ℕ) (b : Bool)
    → (if leb 64 c then false else if not (r == 0) || b || ltb 8 m then false else true)
      ≡ (ltb c 64 && (r == 0 && (not b && leb m 8)))
tiny_holds c m r true = ground arith
tiny_holds c m r false = ground arith

-- A header is encoded exactly where its form can hold it: a tiny one holds less than 64 bytes of
-- code, no locals, no initialisation and a stack of at most 8; a fat one holds code of less than 2^31
-- bytes. Otherwise the operation is invalid.
pub encode_body_header_lem :
    (tiny : Bool) (code_size max_stack : ℕ) (locals : Token) (init_locals : Bool)
    → encode_body_header tiny code_size max_stack locals init_locals ≡ (
        if holds tiny code_size max_stack locals init_locals
        then ok (header_bytes tiny code_size max_stack locals init_locals)
        else err invalid_operation)
unfolding encode_body_header encode_tiny encode_fat
encode_body_header_lem true c m locals b =
    subst
      (λ x. encode_tiny c m locals b ≡ (if x then ok ((c * 4 + 2) ∷ []) else err invalid_operation))
      (tiny_holds c m locals.raw b)
      (unfold encode_tiny in
        (elim (Bool-cases (leb 64 c)) [
          | inl over ↦ rw over refl
          | inr fits ↦ elim (Bool-cases (not (is_nil locals) || b || ltb 8 m)) [
            | inl more ↦ rw (fits, more) refl
            | inr plain ↦
                let small : c < 64 = ground arith in rw (fits, plain, tiny_byte c small) refl
          ]
        ]))
encode_body_header_lem false c m locals b = elim (Bool-cases (ltb ((2 ^ 32 - 1) / 2) c)) [
  | inl over ↦ let e : ltb c (2 ^ 31) ≡ false = ground arith in rw (over, e) refl
  | inr fits ↦ let e : ltb c (2 ^ 31) ≡ true = ground arith in rw (fits, e, flags-eq b) refl
]
