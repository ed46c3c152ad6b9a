-- ===== src/Cil/Body/NoHandlers.antt =====
-- crates/cecil-cil/src/body.rs, `encode_method_body` and `decode_method_body` of a body without handlers.
use cecil_rs.Base.{
  ℕ, ◌+◌, ◌^◌, ◌<◌, Bool, true, false, List, [], ◌++◌, length, length-append, take,
  drop-append_length, append-nil, take-append_length, ltb, le→ltb, ◌≡◌, refl, sym, ap, ◌∙◌,
  if◌then◌else◌, arith,
}
use cecil_rs.Core.Error.{ok}
use cecil_rs.Cil.Header.{
  ParsedHeader, parse_body_header, method_body_header_len, encode_body_header,
}
use cecil_rs.Cil.Header.RoundTrip.{header_round_trip}
use cecil_rs.Cil.Instruction.{Instruction}
use cecil_rs.Cil.Read.{read_code}
use cecil_rs.Cil.Body.{MethodBody, body_of, decode_code, decode_method_body, encode_after_header}

decode_code-there :
    (header_bytes code : List ℕ) (header : ParsedHeader) (is : List Instruction)
    → header.code_size ≡ length code
    → header.more_sects ≡ false
    → read_code code (length code) ≡ ok is
    → decode_code
        (header_bytes ++ code)
        header
        (length header_bytes)
        (length header_bytes + header.code_size)
      ≡ ok (body_of header is [], length header_bytes + header.code_size)
unfolding decode_code
decode_code-there header_bytes code header is size none_after read =
    let all : take (length code) code ≡ code =
      ap (λ xs. take (length code) xs) (sym (append-nil code)) ∙ take-append_length code [] in
    rw (none_after, size, drop-append_length header_bytes code, all, read) refl

decode-there :
    (header_bytes code : List ℕ) (header : ParsedHeader) (is : List Instruction)
    → parse_body_header (header_bytes ++ code) ≡ ok header
    → method_body_header_len (header_bytes ++ code) ≡ ok (length header_bytes)
    → header.code_size ≡ length code
    → header.more_sects ≡ false
    → read_code code (length code) ≡ ok is
    → decode_method_body (header_bytes ++ code)
      ≡ ok (body_of header is [], length (header_bytes ++ code))
unfolding decode_method_body
decode-there header_bytes code header is parse len size none_after read =
    let fits : ltb (length (header_bytes ++ code)) (length header_bytes + header.code_size)
        ≡ false =
      le→ltb _ _ (omega (arith, size, length-append header_bytes code)) in
    let whole : length header_bytes + header.code_size ≡ length (header_bytes ++ code) =
      omega (arith, size, length-append header_bytes code) in
    rw (parse, len, fits)
      (decode_code-there header_bytes code header is size none_after read
        ∙ ap (λ n. ok (body_of header is [], n)) whole)

pub encode_after_header-no_handlers :
    (fat : Bool) (body : MethodBody) (code header : List ℕ)
    → body.exception_handlers ≡ []
    → encode_after_header fat body code header ≡ ok (header ++ code)
unfolding encode_after_header
encode_after_header-no_handlers true body code header none_there = rw none_there refl
encode_after_header-no_handlers false body code header none_there = rw none_there refl

-- The image of a body without handlers, decoded.
pub decode-plain_image :
    (body : MethodBody) (code : List ℕ) (tiny : Bool) {header : List ℕ}
    → length code < 2 ^ 32
    → body.max_stack < 2 ^ 16
    → body.local_var_sig_tok.raw < 2 ^ 32
    → body.exception_handlers ≡ []
    → read_code code (length code) ≡ ok body.instructions
    → encode_body_header tiny (length code) body.max_stack body.local_var_sig_tok body.init_locals
      ≡ ok header
    → decode_method_body (header ++ code)
      ≡ ok (
        record body { max_stack = if tiny then 8 else body.max_stack; variables = [] },
        length (header ++ code),
      )
decode-plain_image body code tiny {header} fits stack tok none_there read built =
    let (len, parse) =
      header_round_trip tiny (length code) body.max_stack body.local_var_sig_tok body.init_locals
        code fits stack tok built in
    decode-there header code _ body.instructions parse len refl refl read
    ∙ ap
        (λ hs. ok (
          record body {
            max_stack = if tiny then 8 else body.max_stack;
            exception_handlers = hs;
            variables = [];
          },
          length (header ++ code),
        ))
        (sym none_there)
