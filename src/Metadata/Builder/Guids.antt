-- ===== src/Metadata/Builder/Guids.antt =====
-- crates/cecil-metadata/src/builder.rs, `GuidHeapBuffer`: GUIDs numbered from one on. The hash map is an
-- association list.
pub mod ReadBack
use cecil_rs.Base.{ℕ, ◌+◌, ◌%◌, ◌^◌, Option, none, some, List, [], ◌∷◌, ◌++◌}
use cecil_rs.Metadata.Builder.UserStrings.{lookup}

pub record GuidHeapBuffer : Type 0 where
  pub payload : List ℕ
  pub count : ℕ
  pub map : List (List ℕ × ℕ)

abbrev pub new : GuidHeapBuffer
new = record { payload = []; count = 0; map = [] }

unfoldable pub insert : List ℕ → GuidHeapBuffer → ℕ × GuidHeapBuffer
insert guid buffer = elim (lookup guid buffer.map) [
  | some idx ↦ (idx, buffer)
  | none ↦
      let count = (buffer.count + 1) % 2 ^ 32 in
      (
        count,
        record {
          payload = buffer.payload ++ guid;
          count = count;
          map = (guid, count) ∷ buffer.map;
        },
      )
]
