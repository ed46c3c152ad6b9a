-- ===== src/Metadata/BuilderExamples.antt =====
-- crates/cecil-metadata/src/builder.rs: strings and blobs whose hashes collide, GUIDs, a row.
use cecil_rs.Base.{replicate, ◌++◌}
use cecil_rs.Base.{ℕ, Option, some, List, [], ◌∷◌, ◌≡◌, refl, arith}
use cecil_rs.Core.Error.{ok}
use cecil_rs.Core.Writer.{compressed_u32}
use cecil_rs.Core.TableIndex.{TableIndex, value}
use cecil_rs.Metadata.Schema.{column_kinds}
use cecil_rs.Metadata.Heaps.StringHeap
use cecil_rs.Metadata.Heaps.GuidHeap
use cecil_rs.Metadata.Builder.Guids
use cecil_rs.Metadata.Builder.Guids.ReadBack.{insert_all, get-insert_guid}
use cecil_rs.Metadata.Builder.UserStrings.{special_flag}
use cecil_rs.Metadata.Builder.UserStrings.Flag.{special_flag_lem}
use cecil_rs.Metadata.Builder.Rows
use cecil_rs.Metadata.Builder.Rows.{MetadataBuilder, set_rows, add_row}
use cecil_rs.Metadata.Builder.Rows.Laws.{RowAdded, add_row-RowAdded, new-WholeRows}
use cecil_rs.Metadata.Heaps.BlobHeap
use cecil_rs.Metadata.Builder.HeapIndex.{find, insert}
use cecil_rs.Metadata.Builder.HeapBuffer.{
  HeapBuffer, new, add_string, insert_string, add_blob, insert_blob,
}
use cecil_rs.Metadata.Builder.HeapBuffer.Interning.{Later, done, step}
use cecil_rs.Metadata.Builder.HeapBuffer.ReadBack.{
  get-insert_string, insert_string_again, get-insert_blob, insert_blob_again, inserts_succeed,
}

-- Every payload has the same hash, so that all stand on one chain.
abbrev same_hash : List ℕ → ℕ
same_hash key = 7

abbrev accept : List ℕ → Option (List ℕ)
accept text = some text

abbrev first : List ℕ
first = 97 ∷ 98 ∷ []

abbrev second : List ℕ
second = 99 ∷ 100 ∷ []

abbrev one_string : HeapBuffer
one_string = add_string same_hash first new

abbrev two_strings : HeapBuffer
two_strings = add_string same_hash second one_string

first_inserted : insert_string same_hash first new ≡ ok (1, one_string)
unfolding insert_string find
first_inserted = refl

second_inserted : insert_string same_hash second one_string ≡ ok (4, two_strings)
unfolding insert_string find insert
second_inserted = refl

before_strings : Later (insert_string same_hash) new one_string
before_strings = step first 1 new one_string one_string first_inserted (done one_string)

after_first : Later (insert_string same_hash) one_string two_strings
after_first = step second 4 one_string two_strings two_strings second_inserted (done two_strings)

get-insert_string_example : StringHeap.get accept two_strings.payload 1 ≡ ok first
get-insert_string_example =
    get-insert_string same_hash accept first new one_string two_strings (done new) first_inserted
      after_first (omega arith)

insert_string_again_example : insert_string same_hash first two_strings ≡ ok (1, two_strings)
insert_string_again_example =
    insert_string_again same_hash first new one_string two_strings (done new) first_inserted
      after_first (omega arith)

abbrev one_blob : HeapBuffer
one_blob = add_blob same_hash first new

abbrev two_blobs : HeapBuffer
two_blobs = add_blob same_hash second one_blob

first_blob : insert_blob same_hash first new ≡ ok (1, one_blob)
unfolding insert_blob find
first_blob = refl

second_blob : insert_blob same_hash second one_blob ≡ ok (4, two_blobs)
unfolding insert_blob find insert compressed_u32
second_blob = refl

after_first_blob : Later (insert_blob same_hash) one_blob two_blobs
after_first_blob = step second 4 one_blob two_blobs two_blobs second_blob (done two_blobs)

get-insert_blob_example : BlobHeap.get two_blobs.payload 1 ≡ ok first
unfolding compressed_u32
get-insert_blob_example =
    get-insert_blob same_hash first new one_blob two_blobs (done new) (omega arith) first_blob
      after_first_blob (omega arith)

insert_blob_again_example : insert_blob same_hash first two_blobs ≡ ok (1, two_blobs)
unfolding compressed_u32
insert_blob_again_example =
    insert_blob_again same_hash first new one_blob two_blobs (done new) first_blob after_first_blob
      (omega arith)

inserts_succeed_example :
    ((i : ℕ) × (b' : HeapBuffer) × (insert_string same_hash first one_string ≡ ok (i, b')))
    × ((i : ℕ) × (c' : HeapBuffer) × (insert_blob same_hash first new ≡ ok (i, c')))
inserts_succeed_example =
    inserts_succeed same_hash first one_string new before_strings (done new) (omega arith)
      (omega arith)

abbrev guid : List ℕ
guid = replicate 16 1

abbrev other_guid : List ℕ
other_guid = replicate 16 2

get-insert_guid_example :
    (GuidHeap.get (replicate 16 2 ++ (replicate 16 1)) 2 ≡ ok guid)
    × (Guids.insert guid (
          insert_all
            (other_guid ∷ [])
            (Guids.insert guid (insert_all (other_guid ∷ []) Guids.new)).1)
        ≡ (
          2,
          insert_all
              (other_guid ∷ [])
              (Guids.insert guid (insert_all (other_guid ∷ []) Guids.new)).1,
        ))
unfolding Guids.insert
get-insert_guid_example =
    get-insert_guid (other_guid ∷ []) (other_guid ∷ []) guid (refl, tt) (refl, tt) refl
      (omega arith)

special_flag_lem_example : special_flag (97 ∷ 39 ∷ 9 ∷ []) ≡ 0
special_flag_lem_example = special_flag_lem (97 ∷ 39 ∷ 9 ∷ [])

abbrev with_row : MetadataBuilder
with_row = record (Rows.new []) { rows = set_rows (λ i. []) (value TableIndex.module_ref) (5 ∷ []) }

row_added : add_row TableIndex.module_ref (5 ∷ []) (Rows.new []) ≡ ok (1, with_row)
unfolding add_row column_kinds
row_added = refl

add_row-RowAdded_example : RowAdded TableIndex.module_ref (5 ∷ []) (Rows.new []) 1 with_row
add_row-RowAdded_example =
    add_row-RowAdded TableIndex.module_ref (5 ∷ []) (Rows.new []) (new-WholeRows []) row_added
      (omega arith)
