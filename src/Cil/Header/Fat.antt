-- ===== src/Cil/Header/Fat.antt =====
-- crates/cecil-cil/src/body.rs, the bytes of a fat header, as `encode_body_header` writes them and with the
-- flag of sections.
use cecil_rs.Base.{
  ℕ, ◌-◌, ◌/◌, ◌^◌, ◌<◌, ◌≡◌, refl, bit_and, bit_or, Bool, true, false, not, List, [], ◌++◌, length,
  ltb, ◌==◌, if◌then◌else◌, Bool-cases, inl, inr, arith, le→ltb,
}
use cecil_rs.Core.Error.{ok, err, invalid_operation}
use cecil_rs.Core.Reader.{new, return}
use cecil_rs.Core.Reader.Laws.{Decodes, advance, >>=-Decodes, >>=-Decodes_last, return-Decodes}
use cecil_rs.Core.Token.{Token}
use cecil_rs.Core.Writer.{le_bytes}
use cecil_rs.Core.Writer.Laws.{u16-le_bytes, u32-le_bytes}
use cecil_rs.Cil.Header.{
  ParsedHeader, fat_header, parse_fat, parse_body_header, method_body_header_len, fat_header_len,
  encode_fat,
}

-- The flags of a fat header with sections and without, and in either case with locals to initialise
-- and without.
abbrev fat_flags : Bool → Bool → ℕ
fat_flags true init_locals = if init_locals then 0x301B else 0x300B
fat_flags false init_locals = if init_locals then 0x3013 else 0x3003

abbrev pub fat_bytes : Bool → ℕ → ℕ → ℕ → Bool → List ℕ
fat_bytes more_sects code_size max_stack raw init_locals =
    le_bytes 2 (fat_flags more_sects init_locals)
    ++ (le_bytes 2 max_stack ++ (le_bytes 4 code_size ++ le_bytes 4 raw))

abbrev pub fat_parsed : Bool → ℕ → ℕ → Token → Bool → ParsedHeader
fat_parsed more_sects code_size max_stack locals init_locals = record {
  fat = true;
  code_size = code_size;
  max_stack = max_stack;
  locals_token = locals;
  init_locals = init_locals;
  more_sects = more_sects;
}

fat_header-Decodes :
    (more_sects : Bool) (code_size max_stack : ℕ) (locals : Token) (init_locals : Bool)
    → code_size < 2 ^ 32
    → max_stack < 2 ^ 16
    → locals.raw < 2 ^ 32
    → Decodes fat_header
        (fat_bytes more_sects code_size max_stack locals.raw init_locals)
        (fat_parsed more_sects code_size max_stack locals init_locals)
unfolding fat_header
fat_header-Decodes more_sects code_size max_stack locals init_locals hc hm hl =
    >>=-Decodes _ (u16-le_bytes (fat_flags more_sects init_locals) (ground arith)) (
      >>=-Decodes _ (u16-le_bytes max_stack hm) (
        >>=-Decodes _ (u32-le_bytes code_size hc)
          (>>=-Decodes_last _ (u32-le_bytes locals.raw hl) (flags more_sects init_locals))))
  where
    flags :
        (more b : Bool)
        → Decodes
            (return (record {
              fat = true;
              code_size = code_size;
              max_stack = max_stack;
              locals_token = locals;
              init_locals = not (bit_and (fat_flags more b) 0x10 == 0);
              more_sects = not (bit_and (fat_flags more b) 0x8 == 0);
            }))
            []
            (fat_parsed more code_size max_stack locals b)
    flags true true = return-Decodes _
    flags true false = return-Decodes _
    flags false true = return-Decodes _
    flags false false = return-Decodes _

-- The flags end in a fat format, and the header in them has three words.
pub fat-method_body_header_len :
    (more_sects : Bool) (code_size max_stack raw : ℕ) (init_locals : Bool) (rest : List ℕ)
    → method_body_header_len (fat_bytes more_sects code_size max_stack raw init_locals ++ rest)
      ≡ ok 12
unfolding method_body_header_len fat_header_len
fat-method_body_header_len true c m r true rest =
    rw (le→ltb (length (fat_bytes true c m r true ++ rest)) 12 (omega arith)) refl
fat-method_body_header_len false c m r true rest =
    rw (le→ltb (length (fat_bytes false c m r true ++ rest)) 12 (omega arith)) refl
fat-method_body_header_len true c m r false rest =
    rw (le→ltb (length (fat_bytes true c m r false ++ rest)) 12 (omega arith)) refl
fat-method_body_header_len false c m r false rest =
    rw (le→ltb (length (fat_bytes false c m r false ++ rest)) 12 (omega arith)) refl

parse_fat_bytes :
    (more_sects : Bool) (code_size max_stack : ℕ) (locals : Token) (init_locals : Bool)
    (rest : List ℕ)
    → code_size < 2 ^ 32
    → max_stack < 2 ^ 16
    → locals.raw < 2 ^ 32
    → parse_fat (fat_bytes more_sects code_size max_stack locals.raw init_locals ++ rest)
      ≡ ok (fat_parsed more_sects code_size max_stack locals init_locals)
unfolding parse_fat
parse_fat_bytes more c m locals b rest hc hm hl =
    let bs : List ℕ = fat_bytes more c m locals.raw b ++ rest in
    let runs : fat_header (new bs) ≡ ok (fat_parsed more c m locals b, advance 12 (new bs)) =
      (fat_header-Decodes more c m locals b hc hm hl).runs (new bs) rest
        (record { within = omega arith; unread = refl }) in
    let long : ltb (length bs) 12 ≡ false = le→ltb (length bs) 12 (omega arith) in
    rw (long, runs) refl

pub fat-parse_body_header :
    (more_sects : Bool) (code_size max_stack : ℕ) (locals : Token) (init_locals : Bool)
    (rest : List ℕ)
    → code_size < 2 ^ 32
    → max_stack < 2 ^ 16
    → locals.raw < 2 ^ 32
    → parse_body_header (fat_bytes more_sects code_size max_stack locals.raw init_locals ++ rest)
      ≡ ok (fat_parsed more_sects code_size max_stack locals init_locals)
unfolding parse_body_header
fat-parse_body_header true c m locals true rest hc hm hl =
    rw (fat-method_body_header_len true c m locals.raw true rest)
      (parse_fat_bytes true c m locals true rest hc hm hl)
fat-parse_body_header false c m locals true rest hc hm hl =
    rw (fat-method_body_header_len false c m locals.raw true rest)
      (parse_fat_bytes false c m locals true rest hc hm hl)
fat-parse_body_header true c m locals false rest hc hm hl =
    rw (fat-method_body_header_len true c m locals.raw false rest)
      (parse_fat_bytes true c m locals false rest hc hm hl)
fat-parse_body_header false c m locals false rest hc hm hl =
    rw (fat-method_body_header_len false c m locals.raw false rest)
      (parse_fat_bytes false c m locals false rest hc hm hl)

pub flags-eq :
    (b : Bool)
    → (if b then bit_or (bit_or 0x3 0x3000) 0x10 else bit_or 0x3 0x3000) ≡ fat_flags false b
flags-eq true = refl
flags-eq false = refl

pub encode_fat-eq_ok :
    (code_size max_stack : ℕ) (locals : Token) (init_locals : Bool) {bs : List ℕ}
    → encode_fat code_size max_stack locals init_locals ≡ ok bs
    → fat_bytes false code_size max_stack locals.raw init_locals ≡ bs
unfolding encode_fat
encode_fat-eq_ok c m locals b {bs} e = elim (Bool-cases (ltb ((2 ^ 32 - 1) / 2) c)) [
  | inl over ↦ let refused : err invalid_operation ≡ ok bs = rw over at e in cc
  | inr fits ↦
      let done : ok (fat_bytes false c m locals.raw b) ≡ ok bs = rw (fits, flags-eq b) at e in cc
]
