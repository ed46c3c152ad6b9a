-- ===== src/Cil/BodyExamples.antt =====
-- The theorems on headers and exception sections at concrete values.
use cecil_rs.Base.{
  ℕ, ◌≡◌, refl, true, false, none, some, List, [], ◌∷◌, ◌++◌, length, arith, if◌then◌else◌,
}
use cecil_rs.Base.Int.{pos}
use cecil_rs.Core.Error.{ok, err, invalid_operation, Returns}
use cecil_rs.Core.Token.{Token}
use cecil_rs.Cil.Code.{Code}
use cecil_rs.Cil.OpCodes.{opcode_of}
use cecil_rs.Cil.Instruction.{absent}
use cecil_rs.Cil.Variable
use cecil_rs.Cil.Header.{parse_body_header, method_body_header_len, encode_body_header}
use cecil_rs.Cil.Header.RoundTrip.{
  header_round_trip, encode_body_header_lem, parsed, holds, header_bytes,
}
use cecil_rs.Cil.Exceptions.{ExceptionHandler, catch_, filter}
use cecil_rs.Cil.Exceptions.RoundTrip.{IsCanonical}
use cecil_rs.Cil.Exceptions.Section.{write_section, parse_sections_with_len}
use cecil_rs.Cil.Exceptions.Section.Safety.{parse_sections-Returns}
use cecil_rs.Cil.Exceptions.Section.Encoding.{write_section-succeeds}
use cecil_rs.Cil.Body.{MethodBody, decode_method_body, needs_fat, encode_method_body}
use cecil_rs.Cil.Body.RoundTrip.{decoded, decode-encode_method_body}
use cecil_rs.Cil.RoundTrip.Code.{IsWellFormed}
use cecil_rs.Cil.Write.{write_code}
use cecil_rs.Cil.Body.Safety.{decode_method_body-Returns}
use cecil_rs.Cil.Exceptions.Section.RoundTrip.{section_round_trip}

abbrev locals : Token
locals = record { raw = 0x1100_0001 }

abbrev fat_header_bytes : List ℕ
fat_header_bytes = 0x13 ∷ 0x30 ∷ 9 ∷ 0 ∷ 100 ∷ 0 ∷ 0 ∷ 0 ∷ 1 ∷ 0 ∷ 0 ∷ 0x11 ∷ []

header_round_trip_example :
    (method_body_header_len (fat_header_bytes ++ (0x2A ∷ [])) ≡ ok 12)
    × (parse_body_header (fat_header_bytes ++ (0x2A ∷ [])) ≡ ok (parsed false 100 9 locals true))
unfolding encode_body_header
header_round_trip_example =
    header_round_trip false 100 9 locals true (0x2A ∷ []) {bs = fat_header_bytes} (omega arith)
      (omega arith) (omega arith) refl

encode_body_header_lem_example : encode_body_header true 64 8 locals false ≡ (
    if holds true 64 8 locals false
    then ok (header_bytes true 64 8 locals false)
    else err invalid_operation)
encode_body_header_lem_example = encode_body_header_lem true 64 8 locals false

-- A filter whose handler lies too far for the small form, and a catch clause.
abbrev far_filter : ExceptionHandler
far_filter = record {
  try_start = pos 0;
  try_length = pos 5;
  handler_start = pos 0x1_0000;
  handler_length = pos 3;
  filter_start = some (pos 7);
  catch_type = record { raw = 0 };
  handler_type = filter;
}

abbrev near_catch : ExceptionHandler
near_catch = record {
  try_start = pos 0;
  try_length = pos 5;
  handler_start = pos 5;
  handler_length = pos 3;
  filter_start = none;
  catch_type = record { raw = 0x0100_0002 };
  handler_type = catch_;
}

far_filter-IsCanonical : IsCanonical far_filter
far_filter-IsCanonical = record {
  try_start = omega arith;
  try_length = omega arith;
  handler_start = omega arith;
  handler_length = omega arith;
  carries = (omega arith, refl);
}

near_catch-IsCanonical : IsCanonical near_catch
near_catch-IsCanonical = record {
  try_start = omega arith;
  try_length = omega arith;
  handler_start = omega arith;
  handler_length = omega arith;
  carries = omega arith;
}

abbrev section_of_two : List ℕ
section_of_two =
    0x41 ∷ 52 ∷ 0 ∷ 0 ∷ 1 ∷ 0 ∷ 0 ∷ 0 ∷ 0 ∷ 0 ∷ 0 ∷ 0 ∷ 5 ∷ 0 ∷ 0 ∷ 0 ∷ 0 ∷ 0 ∷ 1 ∷ 0 ∷ 3 ∷ 0 ∷ 0
    ∷ 0 ∷ 7 ∷ 0 ∷ 0 ∷ 0 ∷ 0 ∷ 0 ∷ 0 ∷ 0 ∷ 0 ∷ 0 ∷ 0 ∷ 0 ∷ 5 ∷ 0 ∷ 0 ∷ 0 ∷ 5 ∷ 0 ∷ 0 ∷ 0 ∷ 3 ∷ 0 ∷ 0
    ∷ 0 ∷ 2 ∷ 0 ∷ 0 ∷ 1 ∷ []

section_round_trip_example :
    parse_sections_with_len (section_of_two ++ (0xFF ∷ [])) ≡ ok (far_filter ∷ near_catch ∷ [], 52)
unfolding write_section
section_round_trip_example =
    section_round_trip (far_filter ∷ near_catch ∷ []) false (0xFF ∷ []) {bs = section_of_two}
      (far_filter-IsCanonical, (near_catch-IsCanonical, tt)) refl

-- A section that claims one more after it, where the bytes end.
parse_sections-Returns_example : Returns (parse_sections_with_len (0x81 ∷ 4 ∷ 0 ∷ 0 ∷ []))
parse_sections-Returns_example = parse_sections-Returns (0x81 ∷ 4 ∷ 0 ∷ 0 ∷ [])

write_section-succeeds_example :
    (bs : List ℕ) × (write_section (far_filter ∷ near_catch ∷ []) false ≡ ok bs)
write_section-succeeds_example =
    write_section-succeeds (far_filter ∷ near_catch ∷ []) false (omega arith)

decode_method_body-Returns_example : Returns (decode_method_body (0x06 ∷ 0x2A ∷ []))
decode_method_body-Returns_example = decode_method_body-Returns (0x06 ∷ 0x2A ∷ [])

-- A body of one return with a catch clause: the header takes the flag of sections, and these begin at
-- a multiple of four.
abbrev handled : MethodBody
handled = record {
  max_stack = 1;
  local_var_sig_tok = record { raw = 0 };
  init_locals = false;
  instructions = record { offset = pos 0; opcode = opcode_of Code.ret; operand = absent } ∷ [];
  exception_handlers = near_catch ∷ [];
  variables = Variable.new 0 (record { raw = 0 }) ∷ [];
}

abbrev handled_bytes : List ℕ
handled_bytes =
    0x0B ∷ 0x30 ∷ 1 ∷ 0 ∷ 1 ∷ 0 ∷ 0 ∷ 0 ∷ 0 ∷ 0 ∷ 0 ∷ 0 ∷ 0x2A ∷ 0 ∷ 0 ∷ 0 ∷ 1 ∷ 16 ∷ 0 ∷ 0 ∷ 0 ∷ 0
    ∷ 0 ∷ 0 ∷ 5 ∷ 5 ∷ 0 ∷ 3 ∷ 2 ∷ 0 ∷ 0 ∷ 1 ∷ []

handled_return-IsWellFormed :
    IsWellFormed (record { offset = pos 0; opcode = opcode_of Code.ret; operand = absent })
unfolding opcode_of
handled_return-IsWellFormed = record { code = Code.ret; known = refl; fits = tt }

decode-encode_method_body_example :
    (code : List ℕ) × (write_code handled.instructions ≡ ok code)
    × (decode_method_body handled_bytes
        ≡ ok (decoded handled (needs_fat handled (length code)), length handled_bytes))
unfolding encode_method_body opcode_of cecil_rs.Base.Int.checked_i32 cecil_rs.Base.Int.◌+ℤ◌
decode-encode_method_body_example =
    decode-encode_method_body handled (handled_return-IsWellFormed, tt) (refl, tt)
      (near_catch-IsCanonical, tt) (omega arith) (omega arith) (omega arith) refl
