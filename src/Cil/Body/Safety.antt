-- ===== src/Cil/Body/Safety.antt =====
-- crates/cecil-cil/src/body.rs, `decode_method_body` on any bytes.
use cecil_rs.Base.{
  ℕ, ◌+◌, ◌*◌, ◌/◌, ◌^◌, Bool, true, false, ◌||◌, List, [], ◌∷◌, length, take, drop, ltb, ◌==◌,
  bit_and, if◌then◌else◌, arith,
}
use cecil_rs.Core.Error.{Result, ok, bad_image, Returns, value, error, >>=-Returns, ◌>>=◌}
use cecil_rs.Core.Reader.{ByteReader, new}
use cecil_rs.Core.Reader.Safety.{
  Takes, Outcome, moved, failed, >>=-Takes_last, return-Takes, weaken, u16-Takes, u32-Takes,
}
use cecil_rs.Cil.Header.{
  ParsedHeader, tiny_header, fat_header, parse_fat, parse_body_header, fat_header_len,
  method_body_header_len,
}
use cecil_rs.Cil.Exceptions.Section.Safety.{parse_sections-Returns}
use cecil_rs.Cil.Safety.{read_code-Returns}
use cecil_rs.Cil.Body.{decode_sections, decode_code, decode_method_body}
use cecil_rs.Base.Bits.{bit_clear}

-- Both branches of a test return.
if-Returns {ℓ} :
    {A : Type ℓ} (b : Bool) {m m' : Result A}
    → Returns m
    → Returns m'
    → Returns (if b then m else m')
if-Returns true h h' = h
if-Returns false h h' = h'

-- A read that takes bytes returns from the start of the bytes.
run-Returns {ℓ κ} :
    {A : Type ℓ} {B : Type κ} {k : ℕ} {r : ByteReader} {p : Result (A × ByteReader)}
    (f : A × ByteReader → B)
    → Outcome k r p
    → Returns (p >>= λ q. ok (f q))
run-Returns f (moved a r' same far within) = value _
run-Returns f (failed e) = error e

fat_header-Takes : Takes 0 fat_header
unfolding fat_header
fat_header-Takes =
    weaken 2 0
      (>>=-Takes_last _ u16-Takes λ a.
        weaken 2 0
          (>>=-Takes_last _ u16-Takes λ b.
            weaken 4 0
              (>>=-Takes_last _ u32-Takes
                λ c. weaken 4 0 (>>=-Takes_last _ u32-Takes λ d. return-Takes _) (omega arith))
              (omega arith))
          (omega arith))
      (omega arith)

-- Either there is no first byte, or the header has its length or an error.
method_body_header_len-Returns : (bytes : List ℕ) → Returns (method_body_header_len bytes)
unfolding method_body_header_len fat_header_len
method_body_header_len-Returns [] = error bad_image
method_body_header_len-Returns (first ∷ []) =
    if-Returns (bit_and first 3 == 2) (value 1)
      (if-Returns (bit_and first 3 == 3) (error bad_image) (error bad_image))
method_body_header_len-Returns (first ∷ second ∷ bytes) =
    if-Returns (bit_and first 3 == 2) (value 1) (
      if-Returns (bit_and first 3 == 3)
        (if-Returns
          (ltb (second / 2 ^ 4 * 4) 12
            || ltb (length (first ∷ second ∷ bytes)) (second / 2 ^ 4 * 4))
          (error bad_image) (value (second / 2 ^ 4 * 4)))
        (error bad_image))

parse_fat-Returns : (bytes : List ℕ) → Returns (parse_fat bytes)
unfolding parse_fat
parse_fat-Returns bytes =
    if-Returns (ltb (length bytes) 12) (error bad_image)
      (run-Returns (λ q. q.0) (fat_header-Takes.runs (new bytes) (omega arith)))

parse_body_header-Returns : (bytes : List ℕ) → Returns (parse_body_header bytes)
unfolding parse_body_header method_body_header_len
parse_body_header-Returns [] = error bad_image
parse_body_header-Returns (first ∷ bytes) =
    >>=-Returns (method_body_header_len-Returns (first ∷ bytes)) λ n _.
      if-Returns (bit_and first 3 == 2) (value (tiny_header first))
        (if-Returns (bit_and first 3 == 3) (parse_fat-Returns (first ∷ bytes)) (error bad_image))

decode_sections-Returns : (bytes : List ℕ) (code_end : ℕ) → Returns (decode_sections bytes code_end)
unfolding decode_sections
decode_sections-Returns bytes code_end =
    if-Returns (ltb (length bytes) (bit_clear (code_end + 3) 3)) (error bad_image) (
      >>=-Returns (parse_sections-Returns (drop (bit_clear (code_end + 3) 3) bytes)) λ p _. value _)

decode_code-Returns :
    (bytes : List ℕ) (header : ParsedHeader) (code_start code_end : ℕ)
    → Returns (decode_code bytes header code_start code_end)
unfolding decode_code
decode_code-Returns bytes header code_start code_end =
    >>=-Returns (read_code-Returns (take header.code_size (drop code_start bytes)) header.code_size)
      λ is _.
        if-Returns header.more_sects
          (>>=-Returns (decode_sections-Returns bytes code_end) λ p _. value _) (value _)

-- `decode_method_body` ends in a body or an error on any bytes: malformed headers, code and sections
-- never make it panic or run on.
pub decode_method_body-Returns : (bytes : List ℕ) → Returns (decode_method_body bytes)
unfolding decode_method_body
decode_method_body-Returns bytes = >>=-Returns (parse_body_header-Returns bytes) λ header _.
    >>=-Returns (method_body_header_len-Returns bytes) λ n _.
      if-Returns (ltb (length bytes) (n + header.code_size)) (error bad_image)
        (decode_code-Returns bytes header n (n + header.code_size))
