-- ===== src/Metadata/Reader.antt =====
-- crates/cecil-metadata/src/reader.rs, `MetadataReader`: from a metadata root to the cells of its
-- tables.
pub mod Cells
pub mod Columns
use cecil_rs.Base.{
  ℕ, zero, suc, ◌+◌, ◌-◌, ◌*◌, ◌/◌, ◌%◌, ◌^◌, bit_and, Bool, true, false, not, ◌&&◌, ◌||◌, Option,
  none, some, List, [], ◌∷◌, ◌++◌, length, map, take, drop, ltb, ◌==◌, if◌then◌else◌,
}
use cecil_rs.Core.Error.{
  Result, ok, err, panic, out_of_fuel, bad_image, unsupported, argument, ok_or, expect, ◌>>=◌,
}
use cecil_rs.Core.Reader.{ByteReader, Read, at, le_value}
use cecil_rs.Core.Reader
use cecil_rs.Core.TableIndex.{TableIndex, from_u8}
use cecil_rs.Metadata.Heaps.{Heaps, PdbHeap, slice, set_count, read_counts}
use cecil_rs.Metadata.Heaps.Pdb
use cecil_rs.Metadata.Root.{
  StreamHeader, RootHeader, same_bytes, parse_root, stream_slice, stream_slice_tolerant,
}
use cecil_rs.Metadata.TableSet.{
  TableSet, table_count, has_bit, has_flag, compute_checked, tables_extent, cell_location,
  columns_of, layout_at,
}

pub record MetadataReader : Type 0 where
  pub version : List ℕ
  pub heaps : Heaps
  pub tables : TableSet
  pub table_data : List ℕ
  pub tolerant : Bool
  pub root_len : ℕ

-- `table_data.get(start..end)` and the match on the width.
unfoldable pub read_cell : List ℕ → ℕ → ℕ → Result ℕ
read_cell table_data pos width =
    if ltb (length table_data) (pos + width)
    then err bad_image
    else if width == 1 || width == 2 || width == 4 || width == 8
    then ok (le_value (take width (drop pos table_data)))
    else err bad_image

-- The offset of a cell is below 2^64, which `usize` holds; `checked_add` has no result beyond it.
unfoldable pub column : MetadataReader → TableIndex → ℕ → ℕ → Result ℕ
unfolding read_cell
column reader table rid col = cell_location reader.tables table rid col >>= λ place.
    if ltb (place.0 + place.1) (2 ^ 64)
    then read_cell reader.table_data place.0 place.1
    else err bad_image

unfoldable pub column_count : MetadataReader → TableIndex → Result ℕ
column_count reader table = columns_of reader.tables table >>= λ found. elim found [
  | none ↦ ok 0
  | some columns ↦ ok (length columns)
]

-- The cells from a column on.
unfoldable pub cells_from : MetadataReader → TableIndex → ℕ → ℕ → ℕ → Result (List ℕ)
unfolding column
cells_from reader table rid col zero = ok []
cells_from reader table rid col (suc n) = column reader table rid col >>= λ cell.
    cells_from reader table rid (suc col) n >>= λ cells. ok (cell ∷ cells)

unfoldable pub row : MetadataReader → TableIndex → ℕ → Result (List ℕ)
unfolding column_count cells_from
row reader table rid = cell_location reader.tables table rid 0 >>= λ first.
    column_count reader table >>= λ count. cells_from reader table rid 0 count

-- The bits of a mask from one on, as the bytes of their counts.
unfoldable pub counts_size : ℕ → ℕ → ℕ → ℕ
counts_size valid zero i = 0
counts_size valid (suc n) i =
    let rest = counts_size valid n (suc i) in if has_bit valid i then 4 + rest else rest

unfoldable pub table_stream_data_start : List ℕ → Result ℕ
unfolding counts_size
table_stream_data_start heap = Reader.u32 (at heap 0) >>= λ reserved.
    Reader.u8 reserved.1 >>= λ major. Reader.u8 major.1 >>= λ minor.
    Reader.u8 minor.1 >>= λ heap_flags. Reader.u8 heap_flags.1 >>= λ reserved2.
    Reader.u64 reserved2.1 >>= λ valid.
    let counted = 24 + counts_size valid.0 64 0 in
    let pos = if has_flag heap_flags.0 0x40 then counted + 4 else counted in
    if ltb (length heap) pos then err bad_image else ok pos

-- The counts of the `#Pdb` heap, for the tables that are not of debug files.
abbrev pub pdb_counts : Option PdbHeap → ℕ → ℕ
pdb_counts none i = 0
pdb_counts (some p) i = elim (from_u8 i) [
  | none ↦ 0
  | some t ↦ if ltb i 0x30 then Pdb.row_count p t else 0
]

-- The last checks of a table heap.
unfoldable pub check_extent : List ℕ → TableSet → Result TableSet
unfolding table_stream_data_start
check_extent heap set = table_stream_data_start heap >>= λ data_start.
    if ltb (length heap) (data_start + tables_extent set) then err bad_image else ok set

unfoldable pub parse_table_heap : List ℕ → Option PdbHeap → Bool → Result TableSet
unfolding check_extent
parse_table_heap heap pdb tolerant = Reader.u32 (at heap 0) >>= λ reserved.
    Reader.u8 reserved.1 >>= λ major. Reader.u8 major.1 >>= λ minor.
    if not tolerant && not (major.0 == 1) && not (major.0 == 2)
    then err unsupported
    else (Reader.u8 minor.1 >>= λ heap_flags. Reader.u8 heap_flags.1 >>= λ reserved2.
        Reader.u64 reserved2.1 >>= λ valid. Reader.u64 valid.1 >>= λ sorted.
        read_counts valid.0 table_count 0 (pdb_counts pdb) sorted.1 >>= λ counts.
        compute_checked valid.0 counts.0 heap_flags.0 >>= λ set. check_extent heap set)

-- The payloads found so far in the directory.
pub record Streams : Type 0 where
  pub table_heap : Option (List ℕ)
  pub strings : List ℕ
  pub user_strings : List ℕ
  pub blob : List ℕ
  pub guid : List ℕ
  pub pdb : Option PdbHeap

-- `PdbHeap::parse(data).ok()`
abbrev pub ok_part {ℓ} : {A : Type ℓ} → Result A → Result (Option A)
ok_part (ok a) = ok (some a)
ok_part (err e) = ok none
ok_part panic = panic
ok_part out_of_fuel = out_of_fuel

abbrev pub parse_pdb : Bool → List ℕ → Result (Option PdbHeap)
parse_pdb tolerant payload =
    if tolerant then ok_part (Pdb.parse payload) else (Pdb.parse payload >>= λ heap. ok (some heap))

-- The match on a stream's name.
unfoldable pub take_stream : Bool → List ℕ → List ℕ → Streams → Result Streams
take_stream tolerant name payload s =
    if same_bytes name (0x23 ∷ 0x7E ∷ []) || same_bytes name (0x23 ∷ 0x2D ∷ [])
    then ok (record s { table_heap = some payload })
    else if same_bytes name (0x23 ∷ 0x53 ∷ 0x74 ∷ 0x72 ∷ 0x69 ∷ 0x6E ∷ 0x67 ∷ 0x73 ∷ [])
    then ok (record s { strings = payload })
    else if same_bytes name (0x23 ∷ 0x55 ∷ 0x53 ∷ [])
    then ok (record s { user_strings = payload })
    else if same_bytes name (0x23 ∷ 0x47 ∷ 0x55 ∷ 0x49 ∷ 0x44 ∷ [])
    then ok (record s { guid = payload })
    else if same_bytes name (0x23 ∷ 0x42 ∷ 0x6C ∷ 0x6F ∷ 0x62 ∷ [])
    then ok (record s { blob = payload })
    else if same_bytes name (0x23 ∷ 0x50 ∷ 0x64 ∷ 0x62 ∷ [])
    then (parse_pdb tolerant payload >>= λ heap. ok (record s { pdb = heap }))
    else ok s

unfoldable pub take_streams : Bool → List ℕ → List StreamHeader → Streams → Result Streams
unfolding take_stream
take_streams tolerant root [] s = ok s
take_streams tolerant root (header ∷ headers) s =
    (if tolerant then ok (stream_slice_tolerant root header) else stream_slice root header)
    >>= λ payload. take_stream tolerant header.name payload s >>= λ next.
        take_streams tolerant root headers next

-- The layout of the tables and the bytes of their rows.
unfoldable pub read_tables : List ℕ → Option PdbHeap → Bool → Result (TableSet × List ℕ)
unfolding parse_table_heap table_stream_data_start
read_tables table_data pdb tolerant = parse_table_heap table_data pdb tolerant >>= λ tables.
    table_stream_data_start table_data >>= λ data_start.
    slice table_data data_start (length table_data) >>= λ rows. ok (tables, rows)

abbrev pub new_reader : List ℕ → Streams → TableSet × List ℕ → Bool → ℕ → MetadataReader
new_reader version found tables tolerant root_len = record {
  version = version;
  heaps = record {
    strings = found.strings;
    user_strings = found.user_strings;
    blob = found.blob;
    guid = found.guid;
    pdb = found.pdb;
  };
  tables = tables.0;
  table_data = tables.1;
  tolerant = tolerant;
  root_len = root_len;
}

abbrev pub no_streams : Streams
no_streams = record {
  table_heap = none;
  strings = [];
  user_strings = [];
  blob = [];
  guid = [];
  pdb = none;
}

module _ (from_utf8_lossy : List ℕ → List ℕ) where
  unfoldable pub parse_with_tolerance : List ℕ → Bool → Result MetadataReader
  unfolding take_streams read_tables
  parse_with_tolerance root tolerant = parse_root from_utf8_lossy root >>= λ header.
      take_streams tolerant root header.streams no_streams >>= λ found.
      ok_or found.table_heap bad_image >>= λ table_data.
      read_tables table_data found.pdb tolerant >>= λ tables.
      ok (new_reader header.version found tables tolerant (length root))
