-- ===== src/Cil/Body/RoundTrip.antt =====
-- crates/cecil-cil/src/body.rs, `encode_method_body` against `decode_method_body`.
use native.Mathlib.Nat.{mod-eq_of_lt}
use cecil_rs.Base.{
  ℕ, ◌%◌, ◌^◌, ◌<◌, ◌≡◌, refl, sym, ap, subst, ◌∙◌, Bool, true, false, not, List, [], ◌∷◌, ◌++◌,
  All, length, length-append, Bool-cases, inl, inr, if◌then◌else◌, arith, ◌==◌,
}
use cecil_rs.Core.Error.{ok, >>=-eq-ok, ok-injective}
use cecil_rs.Cil.Exceptions.RoundTrip.{IsCanonical}
use cecil_rs.Cil.Exceptions.{ExceptionHandler}
use cecil_rs.Cil.Header.{encode_body_header}
use cecil_rs.Cil.Header.Fat.{fat_bytes}
use cecil_rs.Cil.Read.{read_code}
use cecil_rs.Cil.Write.{write_code}
use cecil_rs.Cil.RoundTrip.Code.{IsWellFormed, Sequential, read-write_code}
use cecil_rs.Cil.Body.{
  MethodBody, decode_method_body, has_handlers, needs_fat, encode_after_header, encode_method_body,
}
use cecil_rs.Cil.Body.NoHandlers.{encode_after_header-no_handlers, decode-plain_image}
use cecil_rs.Cil.Body.WithHandlers.{
  encode_after_header-with_handlers, encode_sections-le, decode-image,
}

-- The body that is decoded: a tiny header has the stack depth 8, and variables are not encoded.
abbrev pub decoded : MethodBody → Bool → MethodBody
decoded body fat = record body { max_stack = if not fat then 8 else body.max_stack; variables = [] }

encode_method_body-eq_ok :
    (body : MethodBody) {bs : List ℕ}
    → encode_method_body body ≡ ok bs
    → (code : List ℕ) × (header : List ℕ) × (write_code body.instructions ≡ ok code)
      × (encode_body_header
            (not (needs_fat body (length code % 2 ^ 32)))
            (length code % 2 ^ 32)
            body.max_stack
            body.local_var_sig_tok
            body.init_locals
          ≡ ok header)
      × (encode_after_header (needs_fat body (length code % 2 ^ 32)) body code header ≡ ok bs)
unfolding encode_method_body
encode_method_body-eq_ok body {bs} e =
    let (code, written, r₁) = >>=-eq-ok (write_code body.instructions) _ e in
    let (header, built, r₂) =
      >>=-eq-ok
        (encode_body_header (not (needs_fat body (length code % 2 ^ 32))) (length code % 2 ^ 32)
          body.max_stack body.local_var_sig_tok body.init_locals)
        _ r₁ in
    (code, header, written, built, r₂)

no_handlers : (hs : List ExceptionHandler) → not (length hs == 0) ≡ false → hs ≡ []
no_handlers [] e = refl
no_handlers (h ∷ hs) e = absurd (ground (arith, e))

needs_fat-with_handlers :
    (body : MethodBody) (n : ℕ) → has_handlers body ≡ true → needs_fat body n ≡ true
needs_fat-with_handlers body n h = ground arith

decode-plain :
    (body : MethodBody) (code header : List ℕ) {bs : List ℕ}
    → body.exception_handlers ≡ []
    → body.max_stack < 2 ^ 16
    → body.local_var_sig_tok.raw < 2 ^ 32
    → length bs < 2 ^ 32
    → read_code code (length code) ≡ ok body.instructions
    → encode_body_header
        (not (needs_fat body (length code % 2 ^ 32)))
        (length code % 2 ^ 32)
        body.max_stack
        body.local_var_sig_tok
        body.init_locals
      ≡ ok header
    → encode_after_header (needs_fat body (length code % 2 ^ 32)) body code header ≡ ok bs
    → decode_method_body bs ≡ ok (decoded body (needs_fat body (length code)), length bs)
decode-plain body code header {bs} none_there stack tok short read built e =
    let whole : header ++ code ≡ bs = ok-injective (
      sym (
        encode_after_header-no_handlers (needs_fat body (length code % 2 ^ 32)) body code header
          none_there)
      ∙ e) in
    let fits : length code < 2 ^ 32 =
      omega (arith, sym (length-append header code) ∙ ap length whole, short) in
    let built' = rw (mod-eq_of_lt fits) at built in
    subst
      (λ xs. decode_method_body xs ≡ ok (decoded body (needs_fat body (length code)), length xs))
      whole
      (decode-plain_image body code (not (needs_fat body (length code))) fits stack tok none_there
        read built')

decode-handled :
    (body : MethodBody) (code header : List ℕ) {bs : List ℕ}
    → has_handlers body ≡ true
    → All IsCanonical body.exception_handlers
    → body.max_stack < 2 ^ 16
    → body.local_var_sig_tok.raw < 2 ^ 32
    → length bs < 2 ^ 32
    → read_code code (length code) ≡ ok body.instructions
    → encode_body_header
        (not (needs_fat body (length code % 2 ^ 32)))
        (length code % 2 ^ 32)
        body.max_stack
        body.local_var_sig_tok
        body.init_locals
      ≡ ok header
    → encode_after_header (needs_fat body (length code % 2 ^ 32)) body code header ≡ ok bs
    → decode_method_body bs ≡ ok (decoded body (needs_fat body (length code)), length bs)
decode-handled body code header {bs} some_there canonical stack tok short read built e =
    let built' = rw (needs_fat-with_handlers body (length code % 2 ^ 32) some_there) at built in
    let e' = rw (needs_fat-with_handlers body (length code % 2 ^ 32) some_there) at e in
    let sections =
      encode_after_header-with_handlers body code (length code % 2 ^ 32) some_there built' e' in
    let fits : length code < 2 ^ 32 = omega (
      arith,
      encode_sections-le
          (fat_bytes true (length code % 2 ^ 32) body.max_stack body.local_var_sig_tok.raw
            body.init_locals)
          code body.exception_handlers sections,
      short,
    ) in
    let sections' = rw (mod-eq_of_lt fits) at sections in
    rw (needs_fat-with_handlers body (length code) some_there)
      (decode-image body code fits stack tok canonical read sections')

-- A body whose instructions are well-formed and stand one after the other from the offset 0, whose
-- handlers have fields that fit `i32` and just what their kinds have, whose stack depth has 16 bits
-- and whose token has 32. If `encode_method_body` encodes it to fewer than 2 ^ 32 bytes,
-- `decode_method_body` reads them all, and decodes them to the same token, flag of locals, instructions
-- and handlers, and to no variables, which are not encoded. The stack depth is the same too in a body
-- that needs a fat header, and 8 in one that does not.
pub decode-encode_method_body :
    (body : MethodBody) {bs : List ℕ}
    → All IsWellFormed body.instructions
    → Sequential 0 body.instructions
    → All IsCanonical body.exception_handlers
    → body.max_stack < 2 ^ 16
    → body.local_var_sig_tok.raw < 2 ^ 32
    → length bs < 2 ^ 32
    → encode_method_body body ≡ ok bs
    → (code : List ℕ) × (write_code body.instructions ≡ ok code)
      × (decode_method_body bs ≡ ok (decoded body (needs_fat body (length code)), length bs))
decode-encode_method_body body {bs} well placed canonical stack tok short e =
    let (code, header, written, built, rest) = encode_method_body-eq_ok body e in
    let read = read-write_code body.instructions well placed written in
    (
      code,
      written,
      elim (Bool-cases (has_handlers body)) [
        | inl some_there ↦
            decode-handled body code header some_there canonical stack tok short read built rest
        | inr none_there ↦
            decode-plain body code header (no_handlers _ none_there) stack tok short read built rest
      ],
    )
