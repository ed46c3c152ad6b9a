-- ===== src/Metadata/Builder/UserStrings.antt =====
-- crates/cecil-metadata/src/builder.rs, `UserStringHeapBuffer`. The UTF-16 units and the characters of
-- a string are the standard library's, and parameters; the hash map is an association list.
pub mod Flag
use cecil_rs.Base.{
  ℕ, ◌+◌, ◌*◌, ◌%◌, ◌^◌, Bool, true, false, not, ◌&&◌, ◌||◌, Option, none, some, List, [], ◌∷◌,
  length, ltb, leb, ◌==◌, if◌then◌else◌,
}
use cecil_rs.Core.Writer.{ByteWriter, compressed_u32, u8, u16}
use cecil_rs.Core.Writer
use cecil_rs.Metadata.Root.{same_bytes}

-- `map.get(key)` on an association list whose keys are byte lists.
abbrev pub lookup : List ℕ → List (List ℕ × ℕ) → Option ℕ
lookup key [] = none
lookup key ((k, v) ∷ entries) =
    let rest = lookup key entries in if same_bytes k key then some v else rest

pub record UserStringHeapBuffer : Type 0 where
  pub payload : ByteWriter
  pub map : List (List ℕ × ℕ)

abbrev pub new : UserStringHeapBuffer
unfolding u8
new = record { payload = u8 0 Writer.new; map = [] }

-- The test of one character.
unfoldable pub is_special : ℕ → Bool
is_special v =
    not (leb 0x20 v && leb v 0x7e)
    && (ltb 0x7e v
        || (leb 0x01 v && leb v 0x08)
        || (leb 0x0e v && leb v 0x1f)
        || v == 0x27
        || v == 0x2d)

-- The loop over the characters, which stops at a special one.
unfoldable pub special_flag : List ℕ → ℕ
unfolding is_special
special_flag [] = 0
special_flag (c ∷ cs) = let rest = special_flag cs in if is_special c then 1 else rest

unfoldable pub write_units : List ℕ → ByteWriter → ByteWriter
write_units [] w = w
write_units (unit ∷ units) w = write_units units (u16 unit w)

module _ (encode_utf16 : List ℕ → List ℕ) (chars : List ℕ → List ℕ) where
  unfoldable pub insert : List ℕ → UserStringHeapBuffer → ℕ × UserStringHeapBuffer
  unfolding special_flag write_units
  insert s buffer = elim (lookup s buffer.map) [
    | some idx ↦ (idx, buffer)
    | none ↦
        let idx = length buffer.payload.buf % 2 ^ 32 in
        let prefixed =
          compressed_u32 ((length (encode_utf16 s) % 2 ^ 32 * 2 + 1) % 2 ^ 32) buffer.payload in
        let written = u8 (special_flag (chars s)) (write_units (encode_utf16 s) prefixed) in
        (idx, record { payload = written; map = (s, idx) ∷ buffer.map })
  ]
