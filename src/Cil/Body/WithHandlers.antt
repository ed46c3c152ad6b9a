-- ===== src/Cil/Body/WithHandlers.antt =====
-- crates/cecil-cil/src/body.rs, `encode_method_body` and `decode_method_body` of a body with handlers.
use cecil_rs.Base.{
  ℕ, ◌+◌, ◌-◌, ◌%◌, ◌^◌, ◌<◌, ◌≤◌, ◌≡◌, refl, sym, ap, subst, ◌∙◌, Bool, true, false, List, [],
  ◌++◌, All, length, length-append, drop-append_length, append-nil, append_assoc,
  take-append_length, ltb, leb, ◌||◌, le→ltb, replicate, length-replicate, arith,
}
use cecil_rs.Base.Bits.{bit_clear, bit_and_mask}
use cecil_rs.Core.Error.{ok, ◌>>=◌, >>=-eq-ok, ok-injective}
use cecil_rs.Core.Writer.{align_loop}
use cecil_rs.Core.Writer.Align.{gap, gap-lt, align_loop_lem}
use cecil_rs.Cil.Exceptions.{ExceptionHandler, requires_fat_section}
use cecil_rs.Cil.Exceptions.RoundTrip.{IsCanonical}
use cecil_rs.Cil.Exceptions.Section.{parse_sections_with_len, write_section}
use cecil_rs.Cil.Exceptions.Section.RoundTrip.{section_round_trip}
use cecil_rs.Cil.Header.{
  ParsedHeader, parse_body_header, method_body_header_len, encode_body_header,
}
use cecil_rs.Cil.Header.Fat.{
  fat_bytes, fat_parsed, encode_fat-eq_ok, fat-method_body_header_len, fat-parse_body_header,
}
use cecil_rs.Cil.Instruction.{Instruction}
use cecil_rs.Cil.Read.{read_code}
use cecil_rs.Cil.Body.{
  MethodBody, body_of, decode_sections, decode_code, decode_method_body, set_more_sects,
  encode_sections, has_handlers, encode_after_header,
}

-- The section stands at the next multiple of four.
next_multiple : (n : ℕ) → bit_clear (n + 3) 3 ≡ n + gap 4 n
next_multiple n =
    let low : n + 3 - (n + 3) % 4 ≡ n + gap 4 n = ground arith in rw (bit_and_mask 2 (n + 3)) low

abbrev padding : ℕ → List ℕ
padding n = replicate (gap 4 n) 0

encode_sections-eq_ok :
    (out : List ℕ) (hs : List ExceptionHandler) {bs : List ℕ}
    → encode_sections out hs ≡ ok bs
    → (section : List ℕ) × (write_section hs (requires_fat_section hs false || leb 0x15 (length hs))
        ≡ ok section)
      × ((out ++ padding (length out)) ++ section ≡ bs)
unfolding encode_sections
encode_sections-eq_ok out hs {bs} e =
    let padded = align_loop_lem 4 4 out (omega arith) (gap-lt 4 (length out) (omega arith)) in
    let (p, aligned, r₁) = >>=-eq-ok (align_loop 4 4 out) _ e in
    let (section, written, r₂) =
      >>=-eq-ok (write_section hs (requires_fat_section hs false || leb 0x15 (length hs))) _ r₁ in
    (
      section,
      written,
      ap (λ x. x ++ section) (ok-injective (sym padded ∙ aligned)) ∙ ok-injective r₂,
    )

pub encode_sections-le :
    (header code : List ℕ) (hs : List ExceptionHandler) {bs : List ℕ}
    → encode_sections (header ++ code) hs ≡ ok bs
    → length code ≤ length bs
encode_sections-le header code hs {bs} e =
    let (section, written, whole) = encode_sections-eq_ok (header ++ code) hs e in
    omega (
      arith,
      ap length whole,
      length-append ((header ++ code) ++ padding (length (header ++ code))) section,
      length-append (header ++ code) (padding (length (header ++ code))),
      length-append header code,
    )

decode_sections-there :
    (out : List ℕ) (hs : List ExceptionHandler) (force_fat : Bool) {section : List ℕ}
    → All IsCanonical hs
    → write_section hs force_fat ≡ ok section
    → decode_sections ((out ++ padding (length out)) ++ section) (length out)
      ≡ ok (hs, length ((out ++ padding (length out)) ++ section))
unfolding decode_sections
decode_sections-there out hs force_fat {section} canonical written =
    let padded : List ℕ = out ++ padding (length out) in
    let start : bit_clear (length out + 3) 3 ≡ length padded =
      next_multiple (length out)
      ∙ sym (
          length-append out (padding (length out))
          ∙ ap (λ n. length out + n) (length-replicate (gap 4 (length out)) 0)) in
    let fits : ltb (length (padded ++ section)) (length padded) ≡ false =
      le→ltb _ _ (omega (arith, length-append padded section)) in
    let parsed : parse_sections_with_len section ≡ ok (hs, length section) =
      subst (λ s. parse_sections_with_len s ≡ ok (hs, length section)) (append-nil section)
        (section_round_trip hs force_fat [] canonical written) in
    rw (start, fits, drop-append_length padded section, parsed)
      (ap (λ n. ok (hs, n)) (sym (length-append padded section)))

decode_code-with_sections :
    (header_bytes code rest : List ℕ) (header : ParsedHeader) (is : List Instruction)
    (hs : List ExceptionHandler) (n : ℕ)
    → header.code_size ≡ length code
    → header.more_sects ≡ true
    → read_code code (length code) ≡ ok is
    → decode_sections (header_bytes ++ (code ++ rest)) (length header_bytes + length code)
      ≡ ok (hs, n)
    → decode_code
        (header_bytes ++ (code ++ rest))
        header
        (length header_bytes)
        (length header_bytes + header.code_size)
      ≡ ok (body_of header is hs, n)
unfolding decode_code
decode_code-with_sections header_bytes code rest header is hs n size more read sections =
    rw
      (
        size,
        more,
        drop-append_length header_bytes (code ++ rest),
        take-append_length code rest,
        read,
        sections,
      )
      refl

decode-with_sections :
    (header_bytes code rest : List ℕ) (header : ParsedHeader) (is : List Instruction)
    (hs : List ExceptionHandler) (n : ℕ)
    → parse_body_header (header_bytes ++ (code ++ rest)) ≡ ok header
    → method_body_header_len (header_bytes ++ (code ++ rest)) ≡ ok (length header_bytes)
    → header.code_size ≡ length code
    → header.more_sects ≡ true
    → read_code code (length code) ≡ ok is
    → decode_sections (header_bytes ++ (code ++ rest)) (length header_bytes + length code)
      ≡ ok (hs, n)
    → decode_method_body (header_bytes ++ (code ++ rest)) ≡ ok (body_of header is hs, n)
unfolding decode_method_body
decode-with_sections header_bytes code rest header is hs n parse len size more read sections =
    let fits : ltb (length (header_bytes ++ (code ++ rest)))
          (length header_bytes + header.code_size)
        ≡ false =
      le→ltb _ _
        (omega (arith, size, length-append header_bytes (code ++ rest), length-append code rest)) in
    rw (parse, len, fits)
      (decode_code-with_sections header_bytes code rest header is hs n size more read sections)

-- The header that is encoded takes the flag of sections.
set_more_sects-fat_bytes :
    (code_size max_stack raw : ℕ) (init_locals : Bool)
    → set_more_sects (fat_bytes false code_size max_stack raw init_locals)
      ≡ ok (fat_bytes true code_size max_stack raw init_locals)
set_more_sects-fat_bytes c m r true = refl
set_more_sects-fat_bytes c m r false = refl

encode_after_header-fat_bytes :
    (body : MethodBody) (code : List ℕ) (code_size max_stack raw : ℕ) (init_locals : Bool)
    → has_handlers body ≡ true
    → encode_after_header true body code (fat_bytes false code_size max_stack raw init_locals)
      ≡ encode_sections
          (fat_bytes true code_size max_stack raw init_locals ++ code)
          body.exception_handlers
unfolding encode_after_header
encode_after_header-fat_bytes body code c m r b some_there = rw some_there (
    ap (λ x. x >>= λ out. encode_sections (out ++ code) body.exception_handlers)
      (set_more_sects-fat_bytes c m r b))

pub encode_after_header-with_handlers :
    (body : MethodBody) (code : List ℕ) (code_size : ℕ) {header bs : List ℕ}
    → has_handlers body ≡ true
    → encode_body_header false code_size body.max_stack body.local_var_sig_tok body.init_locals
      ≡ ok header
    → encode_after_header true body code header ≡ ok bs
    → encode_sections
        (fat_bytes true code_size body.max_stack body.local_var_sig_tok.raw body.init_locals
          ++ code)
        body.exception_handlers
      ≡ ok bs
unfolding encode_body_header
encode_after_header-with_handlers body code c {header} {bs} some_there built e =
    sym (
      encode_after_header-fat_bytes body code c body.max_stack body.local_var_sig_tok.raw
        body.init_locals some_there)
    ∙ (ap (λ h. encode_after_header true body code h)
          (encode_fat-eq_ok c body.max_stack body.local_var_sig_tok body.init_locals built)
        ∙ e)

-- The image of a body with handlers, decoded.
pub decode-image :
    (body : MethodBody) (code : List ℕ) {bs : List ℕ}
    → length code < 2 ^ 32
    → body.max_stack < 2 ^ 16
    → body.local_var_sig_tok.raw < 2 ^ 32
    → All IsCanonical body.exception_handlers
    → read_code code (length code) ≡ ok body.instructions
    → encode_sections
        (fat_bytes true (length code) body.max_stack body.local_var_sig_tok.raw body.init_locals
          ++ code)
        body.exception_handlers
      ≡ ok bs
    → decode_method_body bs ≡ ok (record body { variables = [] }, length bs)
decode-image body code {bs} fits stack tok canonical read e =
    let hs = body.exception_handlers in
    let header : List ℕ =
      fat_bytes true (length code) body.max_stack body.local_var_sig_tok.raw body.init_locals in
    let out : List ℕ = header ++ code in
    let (section, written, whole) = encode_sections-eq_ok out hs e in
    let rest : List ℕ = padding (length out) ++ section in
    let apart : (out ++ padding (length out)) ++ section ≡ header ++ (code ++ rest) =
      append_assoc out (padding (length out)) section ∙ append_assoc header code rest in
    let image : header ++ (code ++ rest) ≡ bs = sym apart ∙ whole in
    let there =
      decode_sections-there out hs (requires_fat_section hs false || leb 0x15 (length hs)) canonical
        written in
    let sections : decode_sections (header ++ (code ++ rest)) (length header + length code)
        ≡ ok (hs, length bs) =
      ap (λ n. decode_sections (header ++ (code ++ rest)) n) (sym (length-append header code))
      ∙ (ap (λ xs. decode_sections xs (length out)) (sym apart)
          ∙ (there ∙ ap (λ xs. ok (hs, length xs)) whole)) in
    subst (λ xs. decode_method_body xs ≡ ok (record body { variables = [] }, length bs)) image
      (decode-with_sections header code rest
        (fat_parsed true (length code) body.max_stack body.local_var_sig_tok body.init_locals)
        body.instructions hs (length bs)
        (fat-parse_body_header true (length code) body.max_stack body.local_var_sig_tok
          body.init_locals (code ++ rest) fits stack tok)
        (fat-method_body_header_len true (length code) body.max_stack body.local_var_sig_tok.raw
          body.init_locals (code ++ rest))
        refl refl read sections)
