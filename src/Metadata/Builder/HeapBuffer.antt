-- ===== src/Metadata/Builder/HeapBuffer.antt =====
-- crates/cecil-metadata/src/builder.rs, `StringHeapBuffer` and `BlobHeapBuffer`: append-only heaps
-- whose payloads are indexed by their hash, which is a parameter. The heap and its index stand in one
-- record for both.
pub mod Laws
pub mod Interning
pub mod Strings
pub mod Blobs
pub mod Held
pub mod ReadBack
use cecil_rs.Base.{
  ℕ, ◌+◌, ◌%◌, ◌^◌, Option, none, some, List, [], ◌∷◌, ◌++◌, length, ◌==◌, if◌then◌else◌,
}
use cecil_rs.Core.Error.{Result, ok, ◌>>=◌}
use cecil_rs.Core.Writer.{compressed_u32}
use cecil_rs.Metadata.Builder.HeapIndex.{HeapIndex, empty, find, insert}

pub record HeapBuffer : Type 0 where
  pub payload : List ℕ
  pub map : HeapIndex

abbrev pub new : HeapBuffer
new = record { payload = 0 ∷ []; map = empty }

module _ (hash : List ℕ → ℕ) where
  abbrev pub add_string : List ℕ → HeapBuffer → HeapBuffer
  add_string s buffer =
      let start = length buffer.payload in
      record {
        payload = (buffer.payload ++ s) ++ (0 ∷ []);
        map = insert buffer.map (hash s) (start % 2 ^ 32) start (length s);
      }

  unfoldable pub insert_string : List ℕ → HeapBuffer → Result (ℕ × HeapBuffer)
  insert_string s buffer =
      if length s == 0
      then ok (0, buffer)
      else (find buffer.map (hash s) buffer.payload s >>= λ found. elim found [
        | some idx ↦ ok (idx, buffer)
        | none ↦ ok (length buffer.payload % 2 ^ 32, add_string s buffer)
      ])

  abbrev pub add_blob : List ℕ → HeapBuffer → HeapBuffer
  add_blob blob buffer =
      let w = compressed_u32 (length blob % 2 ^ 32) (record { buf = buffer.payload }) in
      record {
        payload = w.buf ++ blob;
        map =
            insert buffer.map (hash blob) (length buffer.payload % 2 ^ 32) (length w.buf)
              (length blob);
      }

  unfoldable pub insert_blob : List ℕ → HeapBuffer → Result (ℕ × HeapBuffer)
  insert_blob blob buffer =
      if length blob == 0
      then ok (0, buffer)
      else (find buffer.map (hash blob) buffer.payload blob >>= λ found. elim found [
        | some idx ↦ ok (idx, buffer)
        | none ↦ ok (length buffer.payload % 2 ^ 32, add_blob blob buffer)
      ])
