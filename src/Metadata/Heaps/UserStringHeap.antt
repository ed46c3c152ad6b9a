-- ===== src/Metadata/Heaps/UserStringHeap.antt =====
-- crates/cecil-metadata/src/heaps.rs, `UserStringHeap`: UTF-16 strings after a compressed length. The decoder of
-- the standard library is a parameter.
use cecil_rs.Base.{ℕ, ◌+◌, ◌*◌, ◌%◌, not, Option, List, [], ◌∷◌, length, ltb, ◌==◌, if◌then◌else◌}
use cecil_rs.Base.Bits.{bit_clear}
use cecil_rs.Core.Error.{Result, ok, err, bad_image, ok_or, ◌>>=◌}
use cecil_rs.Core.Reader.{at, take_bytes, compressed_u32}

-- `as_chunks::<2>()`, each pair read from its low byte; a last odd byte is left.
abbrev pub utf16_units : List ℕ → List ℕ
utf16_units [] = []
utf16_units (a ∷ []) = []
utf16_units (a ∷ b ∷ bs) = (a + 256 * b) ∷ utf16_units bs

module _ (decode_utf16 : List ℕ → Option (List ℕ)) where
  unfoldable pub get : List ℕ → ℕ → Result (List ℕ)
  get payload index = compressed_u32 (at payload index) >>= λ read.
      let length_ = bit_clear read.0 1 in
      if ltb length_ 1
      then ok []
      else (take_bytes length_ read.1 >>= λ taken.
          if not (length taken.0 % 2 == 0)
          then err bad_image
          else ok_or (decode_utf16 (utf16_units taken.0)) bad_image)
