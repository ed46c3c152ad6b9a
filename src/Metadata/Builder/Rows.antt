-- ===== src/Metadata/Builder/Rows.antt =====
-- crates/cecil-metadata/src/builder.rs, `MetadataBuilder`: rows of cells by table number, and the
-- serialisation of the whole root. The hash of the heaps and the conversions of strings are
-- parameters.
pub mod Laws
use cecil_rs.Base.{
  ℕ, zero, suc, ◌+◌, ◌-◌, ◌*◌, ◌/◌, ◌%◌, ◌^◌, bit_or, Bool, true, false, not, ◌&&◌, ◌||◌, Option,
  none, some, List, [], ◌∷◌, ◌++◌, length, map, take, drop, ltb, ◌==◌, if◌then◌else◌,
}
use cecil_rs.Core.Error.{Result, ok, err, panic, argument, unsupported, expect, ok_or, ◌>>=◌}
use cecil_rs.Core.Token.{Token}
use cecil_rs.Core.TableIndex.{TableIndex, value, from_u8}
use cecil_rs.Core.Writer.{ByteWriter, bytes, u8, u16, u32, u64}
use cecil_rs.Core.Writer
use cecil_rs.Metadata.Schema.{ColumnKind, column_kinds}
use cecil_rs.Metadata.TableSet.{TableSet, table_count, has_bit, compute, kind_width}
use cecil_rs.Metadata.Root.{write_root}
use cecil_rs.Metadata.Builder.HeapBuffer.{HeapBuffer}
use cecil_rs.Metadata.Builder.HeapBuffer
use cecil_rs.Metadata.Builder.UserStrings.{UserStringHeapBuffer}
use cecil_rs.Metadata.Builder.UserStrings
use cecil_rs.Metadata.Builder.Guids.{GuidHeapBuffer}
use cecil_rs.Metadata.Builder.Guids

pub record PdbHeapBuffer : Type 0 where
  pub id : List ℕ
  pub entry_point : ℕ
  pub table_counts : List (ℕ × ℕ)

pub record MetadataBuilder : Type 0 where
  pub version : List ℕ
  pub strings : HeapBuffer
  pub user_strings : UserStringHeapBuffer
  pub blobs : HeapBuffer
  pub guids : GuidHeapBuffer
  pub pdb : Option PdbHeapBuffer
  pub rows : ℕ → List ℕ

abbrev pub new : List ℕ → MetadataBuilder
new version = record {
  version = version;
  strings = HeapBuffer.new;
  user_strings = UserStrings.new;
  blobs = HeapBuffer.new;
  guids = Guids.new;
  pdb = none;
  rows = λ i. [];
}

-- `self.rows[table as usize]` after a change.
abbrev pub set_rows : (ℕ → List ℕ) → ℕ → List ℕ → ℕ → List ℕ
set_rows rows i cells j = if j == i then cells else rows j

unfoldable pub add_row : TableIndex → List ℕ → MetadataBuilder → Result (ℕ × MetadataBuilder)
add_row table cells builder = ok_or (column_kinds table) unsupported >>= λ kinds.
    if not (length cells == length kinds)
    then err argument
    else (let rows = builder.rows (value table) ++ cells in
        ok (
          length rows / length kinds % 2 ^ 32,
          record builder { rows = set_rows builder.rows (value table) rows },
        ))

unfoldable pub row_count : MetadataBuilder → TableIndex → ℕ
row_count builder table = elim (column_kinds table) [
  | none ↦ 0
  | some kinds ↦ length (builder.rows (value table)) / length kinds % 2 ^ 32
]

module _ (hash : List ℕ → ℕ) (encode_utf16 : List ℕ → List ℕ) (chars : List ℕ → List ℕ) where
  unfoldable pub insert_string : List ℕ → MetadataBuilder → Result (ℕ × MetadataBuilder)
  insert_string s builder = HeapBuffer.insert_string hash s builder.strings >>= λ done.
      ok (done.0, record builder { strings = done.1 })

  unfoldable pub insert_blob : List ℕ → MetadataBuilder → Result (ℕ × MetadataBuilder)
  insert_blob b builder = HeapBuffer.insert_blob hash b builder.blobs >>= λ done.
      ok (done.0, record builder { blobs = done.1 })

  unfoldable pub insert_guid : List ℕ → MetadataBuilder → ℕ × MetadataBuilder
  insert_guid g builder =
      let done = Guids.insert g builder.guids in (done.0, record builder { guids = done.1 })

  unfoldable pub insert_user_string : List ℕ → MetadataBuilder → ℕ × MetadataBuilder
  insert_user_string s builder =
      let done = UserStrings.insert encode_utf16 chars s builder.user_strings in
      (done.0, record builder { user_strings = done.1 })

-- The counts by table, of which the last one given for a table stays.
unfoldable pub last_counts : List (ℕ × ℕ) → (ℕ → Option ℕ) → ℕ → Option ℕ
last_counts [] counts = counts
last_counts ((table, count) ∷ given) counts = elim (from_u8 table) [
  | none ↦ last_counts given counts
  | some t ↦ last_counts given (λ j. if j == table then some count else counts j)
]

-- `into_iter().enumerate().filter_map(..)` over the tables from a number on.
abbrev pub counts_from : (ℕ → Option ℕ) → ℕ → ℕ → List (ℕ × ℕ)
counts_from counts zero i = []
counts_from counts (suc n) i =
    let rest = counts_from counts n (suc i) in
    elim (counts i) [ none ↦ rest | some count ↦ (i, count) ∷ rest ]

unfoldable pub set_pdb_heap : List ℕ → ℕ → List (ℕ × ℕ) → MetadataBuilder → MetadataBuilder
unfolding last_counts
set_pdb_heap id entry_point type_system_counts builder = record builder {
  pdb = some (record {
    id = id;
    entry_point = entry_point;
    table_counts = counts_from (last_counts type_system_counts (λ i. none)) table_count 0;
  });
}

-- The counts and the mask of the tables with rows, from a number on. An index is below the number of
-- tables, so its bit is one of the word.
unfoldable pub count_tables : MetadataBuilder → ℕ → ℕ → (ℕ → ℕ) × ℕ → Result ((ℕ → ℕ) × ℕ)
unfolding row_count
count_tables builder zero i found = ok found
count_tables builder (suc n) i found =
    if length (builder.rows i) == 0
    then count_tables builder n (suc i) found
    else (expect (from_u8 i) >>= λ table.
        count_tables builder n (suc i)
          ((λ j. if j == i then row_count builder table else found.0 j), bit_or found.1 (2 ^ i)))

abbrev pub flag_of : List ℕ → ℕ
flag_of heap = if ltb 0xFFFF (length heap) then 1 else 0

unfoldable pub heap_flags : MetadataBuilder → ℕ
heap_flags builder =
    bit_or (bit_or (flag_of builder.strings.payload) (flag_of builder.guids.payload * 2))
      (flag_of builder.blobs.payload * 4)

-- The row counts that decide the widths of indices.
unfoldable pub width_counts : ℕ → List (ℕ × ℕ) → (ℕ → ℕ) → ℕ → ℕ
width_counts valid [] counts = counts
width_counts valid ((table, count) ∷ given) counts = width_counts valid given (
    if ltb table 0x30 && not (has_bit valid table)
    then (λ j. if j == table then count else counts j)
    else counts)

unfoldable pub write_cell : ℕ → ℕ → ByteWriter → Result ByteWriter
write_cell cell width w =
    if width == 1
    then ok (u8 (cell % 2 ^ 8) w)
    else if width == 2
    then ok (u16 (cell % 2 ^ 16) w)
    else if width == 4
    then ok (u32 (cell % 2 ^ 32) w)
    else if width == 8
    then ok (u64 cell w)
    else panic

-- `row.iter().zip(&widths)`
unfoldable pub write_cells : List ℕ → List ℕ → ByteWriter → Result ByteWriter
unfolding write_cell
write_cells [] widths w = ok w
write_cells (cell ∷ cells) [] w = ok w
write_cells (cell ∷ cells) (width ∷ widths) w =
    write_cell cell width w >>= λ next. write_cells cells widths next

-- `rows.chunks_exact(n)`, which leaves an incomplete last row; as many turns as there are rows.
unfoldable pub write_rows : ℕ → ℕ → List ℕ → List ℕ → ByteWriter → Result ByteWriter
unfolding write_cells
write_rows zero n widths cells w = ok w
write_rows (suc turns) n widths cells w =
    write_cells (take n cells) widths w >>= λ next. write_rows turns n widths (drop n cells) next

unfoldable pub write_tables :
    MetadataBuilder → ℕ → TableSet → ℕ → ℕ → ByteWriter → Result ByteWriter
unfolding write_rows
write_tables builder valid set zero i w = ok w
write_tables builder valid set (suc n) i w =
    if not (has_bit valid i)
    then write_tables builder valid set n (suc i) w
    else (expect (from_u8 i) >>= λ table. expect (column_kinds table) >>= λ kinds.
        write_rows (length (builder.rows i) / length kinds) (length kinds)
          (map (λ kind. kind_width set kind) kinds) (builder.rows i) w
        >>= λ next. write_tables builder valid set n (suc i) next)

unfoldable pub write_counts : ℕ → (ℕ → ℕ) → ℕ → ℕ → ByteWriter → ByteWriter
write_counts valid counts zero i w = w
write_counts valid counts (suc n) i w =
    write_counts valid counts n (suc i) (if has_bit valid i then u32 (counts i) w else w)
