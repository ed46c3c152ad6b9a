-- ===== src/Metadata/TableSet/Total.antt =====
-- crates/cecil-metadata/src/tables.rs, `TableSet::cell_location` on cells that are there.
use cecil_rs.Base.{
  ℕ, ◌^◌, ◌<◌, ◌≤◌, Bool, true, false, not, ltb, ◌-◌, ◌==◌, ◌||◌, Option, none, some, List, length,
  get_elem?, get_elem?-lt, ◌≡◌, refl, sym, ◌∙◌,
}
use cecil_rs.Core.Error.{ok}
use cecil_rs.Core.TableIndex.{TableIndex, value}
use cecil_rs.Core.TableIndex.Laws.{from_u8-value}
use cecil_rs.Metadata.Schema.{
  ColumnKind, u8_cell, u16_cell, u32_cell, string_idx, guid_idx, blob_idx, coded, simple,
  column_kinds,
}
use cecil_rs.Metadata.TableSet.{
  TableLayout, has_bit, has_flag, max_count, wide, width_of, kinds_at, compute, cell_location,
}
use cecil_rs.Metadata.TableSet.Cells.{filled, table_entry, cell_location-value}
use cecil_rs.Metadata.TableSet.Step.{final}

-- The widths that `MetadataReader::column` knows.
abbrev pub is_width : ℕ → Bool
is_width w = w == 1 || w == 2 || w == 4 || w == 8

wide-is_width : (b : Bool) → is_width (wide b) ≡ true
wide-is_width true = refl
wide-is_width false = refl

pub width_of-is_width :
    (flags : ℕ) (counts : ℕ → ℕ) (kind : ColumnKind) → is_width (width_of flags counts kind) ≡ true
unfolding width_of
width_of-is_width flags counts u8_cell = refl
width_of-is_width flags counts u16_cell = refl
width_of-is_width flags counts u32_cell = refl
width_of-is_width flags counts string_idx = wide-is_width (has_flag flags 1)
width_of-is_width flags counts guid_idx = wide-is_width (has_flag flags 2)
width_of-is_width flags counts blob_idx = wide-is_width (has_flag flags 4)
width_of-is_width flags counts (simple t) = wide-is_width (ltb 0xFFFF (counts (value t)))
width_of-is_width flags counts (coded g) =
    wide-is_width (not (ltb (max_count counts g.tables) (2 ^ (16 - g.tag_bits))))

module _ (valid : ℕ) (counts : ℕ → ℕ) (flags : ℕ) where
  pub table_kinds :
      (t : TableIndex)
      → has_bit valid (value t) ≡ true
      → kinds_at valid counts flags (value t) ≡ column_kinds t
  unfolding kinds_at
  table_kinds t bit = rw (bit, from_u8-value t) refl

  module _ (bound : (j : ℕ) → j < 56 → counts j < 2 ^ 32) where
    -- A cell by its table's columns.
    abbrev pub Readable : TableIndex → ℕ → ℕ → Type 0
    Readable t rid col =
        (pos : ℕ) × (width : ℕ) × (is_width width ≡ true)
        × (cell_location (compute valid counts flags) t rid col ≡ ok (pos, width))

    in_entry :
        (t : TableIndex) (rid col : ℕ) {kinds : List ColumnKind} (o : Option TableLayout)
        → get_elem? (final valid counts flags).layouts (value t) ≡ some o
        → kinds_at valid counts flags (value t) ≡ some kinds
        → 1 ≤ rid
        → rid ≤ counts (value t)
        → col < length kinds
        → Readable t rid col
    in_entry t rid col {kinds} none at_t schema one below inside =
        let none_there : none ≡ some kinds =
          sym ((filled valid counts flags bound).missing (value t) at_t) ∙ schema in
        cc
    in_entry t rid col {kinds} (some l) at_t schema one below inside =
        let placed = (filled valid counts flags bound).placed (value t) at_t in
        let both : some kinds ≡ some placed.kinds = sym schema ∙ placed.schema in
        let same : kinds ≡ placed.kinds = cc in
        let (kind, column) = get_elem?-lt col placed.kinds (rw (← same) inside) in
        (
          _,
          width_of flags counts kind,
          width_of-is_width flags counts kind,
          cell_location-value valid counts flags bound t rid col at_t placed one below column,
        )

    pub cell_location_there :
        (t : TableIndex) (rid col : ℕ) {kinds : List ColumnKind}
        → kinds_at valid counts flags (value t) ≡ some kinds
        → 1 ≤ rid
        → rid ≤ counts (value t)
        → col < length kinds
        → Readable t rid col
    cell_location_there t rid col schema one below inside =
        let (o, at_t) = table_entry valid counts flags bound t rid col in
        in_entry t rid col o at_t schema one below inside
