-- ===== src/Metadata/TableExamples.antt =====
-- crates/cecil-metadata/src/tables.rs and reader.rs: a root with one table of one row.
use cecil_rs.Base.{
  ℕ, ◌+◌, ◌^◌, ◌<◌, ◌≤◌, ◌==◌, if◌then◌else◌, false, none, length, List, [], ◌∷◌, ◌≡◌, refl, ◌⊎◌,
  arith,
}
use cecil_rs.Core.Error.{ok, Returns}
use cecil_rs.Core.TableIndex.{TableIndex, value, from_u8}
use cecil_rs.Metadata.Schema.{column_kinds}
use cecil_rs.Metadata.TableSet.{
  compute, cell_location, width_of, tables_extent, row_count, compute_checked,
}
use cecil_rs.Metadata.TableSet.Bounds.{cell_location-Returns, cell_location-tables_extent}
use cecil_rs.Metadata.TableSet.Disjoint.{cell_locations-Apart}
use cecil_rs.Core.Reader
use cecil_rs.Metadata.Heaps.{read_counts, set_count}
use cecil_rs.Metadata.Root
use cecil_rs.Metadata.Reader.{MetadataReader, column, parse_with_tolerance, pdb_counts}
use cecil_rs.Metadata.Reader.Columns.{parse_with_tolerance-column}

-- One row of the table of module references, whose number is 26, and two of the table of events.
abbrev some_rows : ℕ → ℕ
some_rows i = if i == 26 then 1 else if i == 20 then 2 else 0

abbrev some_valid : ℕ
some_valid = 2 ^ 26 + 2 ^ 20

some_rows_small : (j : ℕ) → j < 56 → some_rows j < 2 ^ 32
some_rows_small j lt = ground arith

cell_location-Returns_example :
    Returns (cell_location (compute some_valid some_rows 0) TableIndex.event 3 0)
cell_location-Returns_example =
    cell_location-Returns some_valid some_rows 0 some_rows_small TableIndex.event 3 0

located : cell_location (compute some_valid some_rows 0) TableIndex.event 2 1 ≡ ok (8, 2)
unfolding cell_location compute value column_kinds from_u8 width_of
located = refl

other_located :
    cell_location (compute some_valid some_rows 0) TableIndex.module_ref 1 0 ≡ ok (12, 2)
unfolding cell_location compute value column_kinds from_u8 width_of
other_located = refl

cell_location-tables_extent_example : 8 + 2 ≤ tables_extent (compute some_valid some_rows 0)
cell_location-tables_extent_example =
    cell_location-tables_extent some_valid some_rows 0 some_rows_small TableIndex.event 2 1 located

cell_locations-Apart_example :
    ((TableIndex.event ≡ TableIndex.module_ref) × (◌≡◌ {A = ℕ} 2 1) × (◌≡◌ {A = ℕ} 1 0))
    ⊎ ((8 + 2 ≤ 12) ⊎ (12 + 2 ≤ 8))
cell_locations-Apart_example =
    cell_locations-Apart some_valid some_rows 0 some_rows_small TableIndex.event
      TableIndex.module_ref 2 1 1 0 located other_located

abbrev root : List ℕ
root =
    66 ∷ 83 ∷ 74 ∷ 66 ∷ 1 ∷ 0 ∷ 1 ∷ 0 ∷ 0 ∷ 0 ∷ 0 ∷ 0 ∷ 4 ∷ 0 ∷ 0 ∷ 0 ∷ 118 ∷ 52 ∷ 0 ∷ 0 ∷ 0 ∷ 0 ∷ 1
    ∷ 0 ∷ 36 ∷ 0 ∷ 0 ∷ 0 ∷ 30 ∷ 0 ∷ 0 ∷ 0 ∷ 35 ∷ 126 ∷ 0 ∷ 0 ∷ 0 ∷ 0 ∷ 0 ∷ 0 ∷ 2 ∷ 0 ∷ 0 ∷ 1 ∷ 0 ∷ 0
    ∷ 0 ∷ 4 ∷ 0 ∷ 0 ∷ 0 ∷ 0 ∷ 0 ∷ 0 ∷ 0 ∷ 0 ∷ 0 ∷ 0 ∷ 0 ∷ 0 ∷ 1 ∷ 0 ∷ 0 ∷ 0 ∷ 5 ∷ 0 ∷ []

abbrev keep : List ℕ → List ℕ
keep text = text

abbrev row_data : List ℕ
row_data = 5 ∷ 0 ∷ []

abbrev parsed_reader : MetadataReader
parsed_reader = record {
  version = 118 ∷ 52 ∷ [];
  heaps = record { strings = []; user_strings = []; blob = []; guid = []; pdb = none };
  tables = compute (2 ^ 26) (set_count (pdb_counts none) 26 1) 0;
  table_data = row_data;
  tolerant = false;
  root_len = length root;
}

parsed : parse_with_tolerance keep root false ≡ ok parsed_reader
unfolding parse_with_tolerance Root.parse_root compute_checked from_u8 column_kinds width_of value
    Reader.u8 Reader.u16 Reader.u32 Reader.u64 Reader.seek Root.stream_slice read_counts
    tables_extent
parsed = refl

parse_with_tolerance-column_example :
    (v : ℕ) × (column parsed_reader TableIndex.module_ref 1 0 ≡ ok v)
unfolding compute value column_kinds row_count
parse_with_tolerance-column_example =
    parse_with_tolerance-column keep root false TableIndex.module_ref 1 0 parsed refl refl
      (omega arith) (omega arith) (omega arith)
