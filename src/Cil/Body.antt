-- ===== src/Cil/Body.antt =====
-- crates/cecil-cil/src/body.rs, `decode_method_body` and `encode_method_body`: a header, the code, and
-- the sections after it.
pub mod Safety
pub mod RoundTrip
pub mod NoHandlers
pub mod WithHandlers
use cecil_rs.Base.{
  ℕ, ◌+◌, ◌%◌, ◌^◌, bit_or, Bool, false, not, ◌&&◌, ◌||◌, List, [], ◌∷◌, ◌++◌, length, take, drop,
  ltb, leb, ◌==◌, if◌then◌else◌,
}
use cecil_rs.Base.Bits.{bit_clear}
use cecil_rs.Core.Error.{Result, ok, err, panic, bad_image, ◌>>=◌}
use cecil_rs.Core.Token
use cecil_rs.Core.Token.{Token, is_nil}
use cecil_rs.Core.Writer.{align_loop}
use cecil_rs.Cil.Exceptions.{ExceptionHandler, requires_fat_section}
use cecil_rs.Cil.Exceptions.Section.{parse_sections_with_len, write_section}
use cecil_rs.Cil.Header.{
  ParsedHeader, parse_body_header, method_body_header_len, encode_body_header,
}
use cecil_rs.Cil.Instruction.{Instruction}
use cecil_rs.Cil.Variable.{VariableDefinition}
use cecil_rs.Cil.Read.{read_code}
use cecil_rs.Cil.Write.{write_code}

pub record MethodBody : Type 0 where
  pub max_stack : ℕ
  pub local_var_sig_tok : Token
  pub init_locals : Bool
  pub instructions : List Instruction
  pub exception_handlers : List ExceptionHandler
  pub variables : List VariableDefinition

-- `MethodBody::default()`
abbrev pub default : MethodBody
default = record {
  max_stack = 8;
  local_var_sig_tok = Token.nil;
  init_locals = false;
  instructions = [];
  exception_handlers = [];
  variables = [];
}

-- The variables are those of the default, and left to the metadata layer.
abbrev pub body_of : ParsedHeader → List Instruction → List ExceptionHandler → MethodBody
body_of header instructions handlers = record default {
  max_stack = header.max_stack;
  local_var_sig_tok = header.locals_token;
  init_locals = header.init_locals;
  instructions = instructions;
  exception_handlers = handlers;
}

-- The sections, at the next multiple of four after the code.
unfoldable pub decode_sections : List ℕ → ℕ → Result (List ExceptionHandler × ℕ)
unfolding parse_sections_with_len
decode_sections bytes code_end =
    if ltb (length bytes) (bit_clear (code_end + 3) 3)
    then err bad_image
    else parse_sections_with_len (drop (bit_clear (code_end + 3) 3) bytes) >>= λ p.
        ok (p.0, bit_clear (code_end + 3) 3 + p.1)

-- What follows the header, whose end and whose code's end are known.
unfoldable pub decode_code : List ℕ → ParsedHeader → ℕ → ℕ → Result (MethodBody × ℕ)
unfolding read_code decode_sections
decode_code bytes header code_start code_end =
    read_code (take header.code_size (drop code_start bytes)) header.code_size >>= λ instructions.
    if header.more_sects
    then (decode_sections bytes code_end >>= λ p. ok (body_of header instructions p.0, p.1))
    else ok (body_of header instructions [], code_end)

-- A sum of two lengths does not overflow a `usize` of 64 bits: the header is in memory, and the size
-- of the code has 32 bits.
unfoldable pub decode_method_body : List ℕ → Result (MethodBody × ℕ)
unfolding parse_body_header method_body_header_len decode_code
decode_method_body bytes = parse_body_header bytes >>= λ header.
    method_body_header_len bytes >>= λ header_len.
    if ltb (length bytes) (header_len + header.code_size)
    then err bad_image
    else decode_code bytes header header_len (header_len + header.code_size)

-- `out[0] |= 0x08`
abbrev pub set_more_sects : List ℕ → Result (List ℕ)
set_more_sects [] = panic
set_more_sects (b ∷ bs) = ok (bit_or b 0x08 ∷ bs)

-- The sections, behind zeros up to a multiple of four: three turns and the last test.
unfoldable pub encode_sections : List ℕ → List ExceptionHandler → Result (List ℕ)
unfolding align_loop requires_fat_section write_section
encode_sections out handlers = align_loop 4 4 out >>= λ padded.
    write_section handlers (requires_fat_section handlers false || leb 0x15 (length handlers))
    >>= λ section. ok (padded ++ section)

abbrev pub has_handlers : MethodBody → Bool
has_handlers body = not (length body.exception_handlers == 0)

-- Whether a body needs a fat header.
abbrev pub needs_fat : MethodBody → ℕ → Bool
needs_fat body code_size =
    body.init_locals
    || not (is_nil body.local_var_sig_tok)
    || has_handlers body
    || ltb 8 body.max_stack
    || leb 64 code_size

-- What follows the header, which is changed when sections follow the code.
unfoldable pub encode_after_header : Bool → MethodBody → List ℕ → List ℕ → Result (List ℕ)
unfolding encode_sections
encode_after_header fat body code header =
    (if fat && has_handlers body then set_more_sects header else ok header) >>= λ out.
    if has_handlers body
    then encode_sections (out ++ code) body.exception_handlers
    else ok (out ++ code)

unfoldable pub encode_method_body : MethodBody → Result (List ℕ)
unfolding write_code encode_body_header encode_after_header
encode_method_body body = write_code body.instructions >>= λ code.
    let code_size = length code % 2 ^ 32 in
    encode_body_header (not (needs_fat body code_size)) code_size body.max_stack
      body.local_var_sig_tok body.init_locals
    >>= encode_after_header (needs_fat body code_size) body code
