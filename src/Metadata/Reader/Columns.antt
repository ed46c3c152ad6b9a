-- ===== src/Metadata/Reader/Columns.antt =====
-- crates/cecil-metadata/src/reader.rs, `MetadataReader::column` on a parsed root.
use cecil_rs.Base.{
  ℕ, ◌+◌, ◌^◌, ◌<◌, ◌≤◌, Bool, true, false, some, List, length, take, drop, ltb, le→ltb, lt→ltb,
  ◌≡◌, refl, ap, ◌∙◌, arith,
}
use cecil_rs.Core.Error.{ok}
use cecil_rs.Core.Reader.{le_value}
use cecil_rs.Core.TableIndex.{TableIndex, value}
use cecil_rs.Metadata.Schema.{ColumnKind, column_kinds}
use cecil_rs.Metadata.TableSet.{TableSet, has_bit, row_count, compute, tables_extent, cell_location}
use cecil_rs.Metadata.TableSet.Cells.{Cell-small}
use cecil_rs.Metadata.TableSet.Bounds.{cell_location-tables_extent, location-Cell}
use cecil_rs.Metadata.TableSet.Total.{is_width, table_kinds, cell_location_there}
use cecil_rs.Metadata.Reader.{MetadataReader, read_cell, column, parse_with_tolerance}
use cecil_rs.Metadata.Reader.Cells.{Parsed, parse-Parsed}

read_cell_there :
    (rows : List ℕ) (pos width : ℕ)
    → pos + width ≤ length rows
    → is_width width ≡ true
    → read_cell rows pos width ≡ ok (le_value (take width (drop pos rows)))
unfolding read_cell
read_cell_there rows pos width inside known =
    let fits : ltb (length rows) (pos + width) ≡ false = le→ltb _ _ inside in rw (fits, known) refl

column_value :
    (reader : MetadataReader) (t : TableIndex) (rid col pos width : ℕ)
    → cell_location reader.tables t rid col ≡ ok (pos, width)
    → pos + width < 2 ^ 64
    → pos + width ≤ length reader.table_data
    → is_width width ≡ true
    → column reader t rid col ≡ ok (le_value (take width (drop pos reader.table_data)))
unfolding column
column_value reader t rid col pos width located small inside known =
    let word : ltb (pos + width) (2 ^ 64) ≡ true = lt→ltb _ _ small in
    rw (located, word) (read_cell_there reader.table_data pos width inside known)

-- What a set says of a table, for the set that `compute` gives.
module _ (valid : ℕ) (counts : ℕ → ℕ) (flags : ℕ) where
  valid_of : (tables : TableSet) → tables ≡ compute valid counts flags → tables.valid ≡ valid
  unfolding compute
  valid_of tables e = ap (λ s. s.valid) e

  count_of :
      (tables : TableSet) (t : TableIndex)
      → tables ≡ compute valid counts flags
      → row_count tables t ≡ counts (value t)
  unfolding compute row_count
  count_of tables t e = ap (λ s. s.counts (value t)) e

  counts_below : ((j : ℕ) → j < 56 → counts j ≤ 0x00FF_FFFF) → (j : ℕ) → j < 56 → counts j < 2 ^ 32
  counts_below few j lt = omega (arith, few j lt)

-- The cell of a table that the mask names, on checked tables whose rows are the heap behind its header.
Parsed-column :
    (reader : MetadataReader) (t : TableIndex) (rid col : ℕ) {kinds : List ColumnKind}
    → Parsed reader.tables reader.table_data
    → has_bit reader.tables.valid (value t) ≡ true
    → column_kinds t ≡ some kinds
    → 1 ≤ rid
    → rid ≤ row_count reader.tables t
    → col < length kinds
    → (v : ℕ) × (column reader t rid col ≡ ok v)
Parsed-column reader t rid col {kinds} parsed bit schema one below inside =
    let fits = parsed.fits in
    let same = fits.checked.same in
    let bound = counts_below fits.valid fits.counts fits.flags fits.checked.few in
    let named : has_bit fits.valid (value t) ≡ true =
      rw (valid_of fits.valid fits.counts fits.flags reader.tables same) at bit in
    let kinds_eq = table_kinds fits.valid fits.counts fits.flags t named ∙ schema in
    let few : rid ≤ fits.counts (value t) =
      rw (count_of fits.valid fits.counts fits.flags reader.tables t same) at below in
    let (pos, width, known, located) =
      cell_location_there fits.valid fits.counts fits.flags bound t rid col kinds_eq one few
        inside in
    let small =
      Cell-small fits.valid fits.counts fits.flags bound
        (location-Cell fits.valid fits.counts fits.flags bound t rid col located) in
    let within =
      cell_location-tables_extent fits.valid fits.counts fits.flags bound t rid col located in
    let extent : tables_extent reader.tables
        ≡ tables_extent (compute fits.valid fits.counts fits.flags) =
      ap tables_extent same in
    let here : cell_location reader.tables t rid col ≡ ok (pos, width) =
      ap (λ s. cell_location s t rid col) same ∙ located in
    (
      _,
      column_value reader t rid col pos width here small
          (omega (arith, within, extent, fits.inside, parsed.rows_length)) known,
    )

-- In a metadata root that parses, in either mode, every cell of a table that the mask of the tables
-- names can be read: `column` gives a value for each row from 1 to the table's row count and each
-- column of its schema.
pub parse_with_tolerance-column :
    (from_utf8_lossy : List ℕ → List ℕ) (root : List ℕ) (tolerant : Bool) (t : TableIndex)
    (rid col : ℕ) {kinds : List ColumnKind} {reader : MetadataReader}
    → parse_with_tolerance from_utf8_lossy root tolerant ≡ ok reader
    → has_bit reader.tables.valid (value t) ≡ true
    → column_kinds t ≡ some kinds
    → 1 ≤ rid
    → rid ≤ row_count reader.tables t
    → col < length kinds
    → (v : ℕ) × (column reader t rid col ≡ ok v)
parse_with_tolerance-column from_utf8_lossy root tolerant t rid col {reader = reader} e =
    Parsed-column reader t rid col (parse-Parsed from_utf8_lossy root tolerant e)
