-- ===== src/Metadata/TableSet.antt =====
-- crates/cecil-metadata/src/tables.rs, `TableSet`: where the rows and cells of all tables lie in the
-- table stream. A table's number indexes the row counts, so they are a function on numbers.
pub mod Layout
pub mod Invariant
pub mod Step
pub mod Cells
pub mod Bounds
pub mod Disjoint
pub mod Checked
pub mod Total
use cecil_rs.Base.{
  ℕ, zero, suc, ◌+◌, ◌-◌, ◌*◌, ◌/◌, ◌%◌, ◌^◌, bit_and, Bool, true, false, not, ◌&&◌, ◌||◌, Option,
  none, some, List, [], ◌∷◌, ◌++◌, length, get_elem?, take, drop, ltb, leb, ◌==◌, if◌then◌else◌,
}
use cecil_rs.Core.Error.{
  Result, ok, err, panic, argument, bad_image, unsupported, expect, ok_or, ◌>>=◌,
}
use cecil_rs.Core.TableIndex.{TableIndex, value, from_u8}
use cecil_rs.Metadata.Coded.{CodedIndexGroup}
use cecil_rs.Metadata.Schema.{
  ColumnKind, u8_cell, u16_cell, u32_cell, string_idx, guid_idx, blob_idx, coded, simple,
  column_kinds,
}

abbrev pub table_count : ℕ
table_count = 0x38

pub record ColumnDesc : Type 0 where
  pub kind : ColumnKind
  pub offset : ℕ

pub record TableLayout : Type 0 where
  pub row_size : ℕ
  pub offset : ℕ
  pub column_start : ℕ
  pub column_count : ℕ

pub record TableSet : Type 0 where
  pub layouts : List (Option TableLayout)
  pub columns : List ColumnDesc
  pub widths : List ℕ
  pub counts : ℕ → ℕ
  pub valid : ℕ
  pub heap_flags : ℕ

-- `self.heap_flags & mask != 0`
abbrev pub has_flag : ℕ → ℕ → Bool
has_flag flags mask = not (bit_and flags mask == 0)

-- `valid >> i & 1 != 0`
abbrev pub has_bit : ℕ → ℕ → Bool
has_bit valid i = not (bit_and (valid / 2 ^ i) 1 == 0)

abbrev pub max_count : (ℕ → ℕ) → List TableIndex → ℕ
max_count counts [] = 0
max_count counts (t ∷ ts) =
    let rest = max_count counts ts in if ltb rest (counts (value t)) then counts (value t) else rest

abbrev pub wide : Bool → ℕ
wide test = if test then 4 else 2

-- `kind_width`, by the heap flags and the row counts of the set.
unfoldable pub width_of : ℕ → (ℕ → ℕ) → ColumnKind → ℕ
unfolding value
width_of flags counts u8_cell = 1
width_of flags counts u16_cell = 2
width_of flags counts u32_cell = 4
width_of flags counts string_idx = wide (has_flag flags 1)
width_of flags counts guid_idx = wide (has_flag flags 2)
width_of flags counts blob_idx = wide (has_flag flags 4)
width_of flags counts (simple t) = wide (ltb 0xFFFF (counts (value t)))
width_of flags counts (coded group) =
    wide (not (ltb (max_count counts group.tables) (2 ^ (16 - group.tag_bits))))

abbrev pub kind_width : TableSet → ColumnKind → ℕ
kind_width set kind = width_of set.heap_flags set.counts kind

-- The buffers that the loop of `compute` fills, and the offset of the next table.
pub record Progress : Type 0 where
  pub columns : List ColumnDesc
  pub widths : List ℕ
  pub layouts : List (Option TableLayout)
  pub offset : ℕ

module _ (valid : ℕ) (counts : ℕ → ℕ) (flags : ℕ) where
  -- The loop over the columns of a table: the row's size so far is a `u16`.
  unfoldable pub push_columns :
      List ColumnKind → ℕ → List ColumnDesc → List ℕ → List ColumnDesc × List ℕ × ℕ
  push_columns [] row_offset columns widths = (columns, widths, row_offset)
  push_columns (kind ∷ kinds) row_offset columns widths =
      let width = width_of flags counts kind in
      push_columns kinds ((row_offset + width % 2 ^ 8) % 2 ^ 16)
        (columns ++ (record { kind = kind; offset = row_offset } ∷ []))
        (widths ++ (width % 2 ^ 8 ∷ []))

  -- The columns of a table number: the three tests that skip a table.
  unfoldable pub kinds_at : ℕ → Option (List ColumnKind)
  kinds_at i =
      if has_bit valid i
      then elim (from_u8 i) [ none ↦ none | some table ↦ column_kinds table ]
      else none

  unfoldable pub place_table : ℕ → Option (List ColumnKind) → Progress → Progress
  unfolding push_columns
  place_table i none p = record {
    columns = p.columns;
    widths = p.widths;
    layouts = p.layouts ++ (none ∷ []);
    offset = p.offset;
  }
  place_table i (some kinds) p =
      let (columns, widths, row_size) = push_columns kinds 0 p.columns p.widths in
      record {
        columns = columns;
        widths = widths;
        layouts =
            p.layouts
            ++ (some (record {
              row_size = row_size;
              offset = p.offset;
              column_start = length p.columns % 2 ^ 32;
              column_count = length kinds % 2 ^ 16;
            })
                ∷ []);
        offset = (p.offset + row_size * counts i) % 2 ^ 64;
      }

  unfoldable pub place_tables : ℕ → ℕ → Progress → Progress
  unfolding kinds_at place_table
  place_tables zero i p = p
  place_tables (suc n) i p = place_tables n (suc i) (place_table i (kinds_at i) p)

  unfoldable pub compute : TableSet
  unfolding place_tables
  compute =
      let p =
        place_tables table_count 0
          (record { columns = []; widths = []; layouts = []; offset = 0 }) in
      record {
        layouts = p.layouts;
        columns = p.columns;
        widths = p.widths;
        counts = counts;
        valid = valid;
        heap_flags = flags;
      }

  -- `row_counts.iter().any(..)`, on the first `n` counts.
  unfoldable pub any_too_many : ℕ → Bool
  any_too_many zero = false
  any_too_many (suc n) = any_too_many n || ltb 0x00FF_FFFF (counts n)

  -- The scan of the 64 bits for one whose table is not known, on the bits below `n`.
  unfoldable pub any_unknown : ℕ → Bool
  any_unknown zero = false
  any_unknown (suc n) =
      any_unknown n
      || has_bit valid n && elim (from_u8 n) [
        | none ↦ true
        | some table ↦ elim (column_kinds table) [ none ↦ true | some kinds ↦ false ]
      ]

  unfoldable pub compute_checked : Result TableSet
  unfolding any_too_many any_unknown compute
  compute_checked =
      if any_too_many table_count
      then err bad_image
      else if any_unknown 64
      then err unsupported
      else ok compute

-- The loop over the layouts from a table number on.
unfoldable pub extent_from : (ℕ → ℕ) → ℕ → List (Option TableLayout) → ℕ → ℕ
extent_from counts i [] extent = extent
extent_from counts i (none ∷ layouts) extent = extent_from counts (suc i) layouts extent
extent_from counts i (some layout ∷ layouts) extent =
    let end = (layout.offset + layout.row_size * counts i) % 2 ^ 64 in
    extent_from counts (suc i) layouts (if ltb extent end then end else extent)

unfoldable pub tables_extent : TableSet → ℕ
unfolding extent_from
tables_extent set = extent_from set.counts 0 set.layouts 0

unfoldable pub layout_at : TableSet → TableIndex → Result (Option TableLayout)
layout_at set table = expect (get_elem? set.layouts (value table))

unfoldable pub is_present : TableSet → TableIndex → Result Bool
unfolding layout_at
is_present set table = layout_at set table >>= λ found. elim found [
  | none ↦ ok false
  | some layout ↦ ok (ltb 0 (set.counts (value table)))
]

unfoldable pub row_count : TableSet → TableIndex → ℕ
row_count set table = set.counts (value table)

unfoldable pub columns_of : TableSet → TableIndex → Result (Option (List ColumnDesc))
unfolding layout_at
columns_of set table = layout_at set table >>= λ found. elim found [
  | none ↦ ok none
  | some layout ↦
      if ltb (length set.columns) (layout.column_start + layout.column_count)
      then panic
      else ok (some (take layout.column_count (drop layout.column_start set.columns)))
]

unfoldable pub cell_location : TableSet → TableIndex → ℕ → ℕ → Result (ℕ × ℕ)
unfolding layout_at
cell_location set table rid col = layout_at set table >>= λ found.
    ok_or found argument >>= λ layout.
    if rid == 0 || ltb (set.counts (value table)) rid
    then err argument
    else if leb layout.column_count col
    then err argument
    else (let index = layout.column_start + col in
        expect (get_elem? set.columns index) >>= λ desc.
        expect (get_elem? set.widths index) >>= λ width.
        ok ((layout.offset + (rid - 1) * layout.row_size + desc.offset) % 2 ^ 64, width))
