-- ===== src/Metadata/TableSet/Disjoint.antt =====
-- crates/cecil-metadata/src/tables.rs, `TableSet`: different cells share no byte.
use native.Mathlib.Nat.{mul_comm}
use cecil_rs.Base.{
  ℕ, ◌+◌, ◌-◌, ◌*◌, ◌^◌, ◌<◌, ◌≤◌, trichotomy, some, ◌≡◌, sym, ◌∙◌, ◌⊎◌, inl, inr, arith,
}
use cecil_rs.Core.Error.{ok}
use cecil_rs.Core.TableIndex.{TableIndex, value}
use cecil_rs.Core.TableIndex.Laws.{value-injective}
use cecil_rs.Metadata.TableSet.{compute, cell_location}
use cecil_rs.Metadata.TableSet.Layout.{before, before_within, before_ordered}
use cecil_rs.Metadata.TableSet.Cells.{Cell, filled, Cell-end, row_within}
use cecil_rs.Metadata.TableSet.Bounds.{location-Cell}

module _ (valid : ℕ) (counts : ℕ → ℕ) (flags : ℕ)
    (bound : (j : ℕ) → j < 56 → counts j < 2 ^ 32) where
  abbrev At : TableIndex → ℕ → ℕ → ℕ → ℕ → Type 0
  At = Cell valid counts flags

  -- Two stretches of bytes, of which one ends before the other starts.
  abbrev pub Apart : ℕ × ℕ → ℕ × ℕ → Type 0
  Apart (p, w) (q, v) = (p + w ≤ q) ⊎ (q + v ≤ p)

  table_first :
      {t u : TableIndex} {rid row col other p w q v : ℕ}
      → At t rid col p w
      → At u row other q v
      → value t < value u
      → p + w ≤ q
  table_first {t} {u} c d lt = omega (
    arith,
    Cell-end valid counts flags bound c,
    d.pos_eq,
    (filled valid counts flags bound).ordered (value t) (value u) lt c.present d.present,
  )

  module _ {t : TableIndex} where
    same_layout :
        {rid row col other p w q v : ℕ} (c : At t rid col p w) (d : At t row other q v)
        → c.layout ≡ d.layout
    same_layout c d =
        let both : some (some c.layout) ≡ some (some d.layout) = sym c.present ∙ d.present in cc

    same_kinds :
        {rid row col other p w q v : ℕ} (c : At t rid col p w) (d : At t row other q v)
        → c.placed.kinds ≡ d.placed.kinds
    same_kinds c d =
        let both : some c.placed.kinds ≡ some d.placed.kinds =
          sym c.placed.schema ∙ d.placed.schema in
        cc

    row_first :
        {rid row col other p w q v : ℕ}
        → At t rid col p w
        → At t row other q v
        → rid < row
        → p + w ≤ q
    row_first {rid} {row} {col} {other} {q = q} c d lt =
        let rows = row_within rid (row - 1) c.layout.row_size c.rid_positive (omega arith) in
        let inside = before_within valid counts flags c.placed.kinds col c.column in
        let turned = mul_comm c.layout.row_size (row - 1) in
        let start : q
            ≡ c.layout.offset
              + (row - 1) * c.layout.row_size
              + before valid counts flags d.placed.kinds other =
          rw (same_layout c d) d.pos_eq in
        omega (arith, c.pos_eq, c.width_eq, c.placed.size_eq, rows, inside, turned, start)

    column_first :
        {rid col other p w q v : ℕ}
        → At t rid col p w
        → At t rid other q v
        → col < other
        → p + w ≤ q
    column_first {rid} {col} {other} {q = q} c d lt =
        let inside = before_ordered valid counts flags c.placed.kinds col other lt c.column in
        let start : q
            ≡ c.layout.offset
              + (rid - 1) * c.layout.row_size
              + before valid counts flags c.placed.kinds other =
          rw (same_layout c d, same_kinds c d) d.pos_eq in
        omega (arith, c.pos_eq, c.width_eq, inside, start)

    same_table-Apart :
        {rid row col other p w q v : ℕ}
        → At t rid col p w
        → At t row other q v
        → ((rid ≡ row) × (col ≡ other)) ⊎ Apart (p, w) (q, v)
    same_table-Apart {rid} {row} {col} {other} {p} {w} {q} {v} c d = elim (trichotomy rid row) [
      | inl lt ↦ inr (inl (row_first c d lt))
      | inr (inr gt) ↦ inr (inr (row_first d c gt))
      | inr (inl same) ↦
          let e : At t rid other q v = rw same d in
          elim (trichotomy col other) [
            | inl lt ↦ inr (inl (column_first c e lt))
            | inr (inl same_column) ↦ inl (same, same_column)
            | inr (inr gt) ↦ inr (inr (column_first e c gt))
          ]
    ]

  -- Two cells that `cell_location` finds on a computed layout, for row counts of 32 bits, are the same
  -- cell, or share no byte of the table stream.
  pub cell_locations-Apart :
      (t u : TableIndex) (rid row col other : ℕ) {p w q v : ℕ}
      → cell_location (compute valid counts flags) t rid col ≡ ok (p, w)
      → cell_location (compute valid counts flags) u row other ≡ ok (q, v)
      → ((t ≡ u) × (rid ≡ row) × (col ≡ other)) ⊎ Apart (p, w) (q, v)
  cell_locations-Apart t u rid row col other {p} {w} {q} {v} first second =
      let c = location-Cell valid counts flags bound t rid col first in
      let d = location-Cell valid counts flags bound u row other second in
      elim (trichotomy (value t) (value u)) [
        | inl lt ↦ inr (inl (table_first c d lt))
        | inr (inr gt) ↦ inr (inr (table_first d c gt))
        | inr (inl same) ↦
            let same_table = value-injective t u same in
            let e : At t row other q v = rw same_table d in
            elim (same_table-Apart c e) [
              | inl (same_row, same_column) ↦ inl (same_table, same_row, same_column)
              | inr away ↦ inr away
            ]
      ]
