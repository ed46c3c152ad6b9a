-- ===== src/Metadata/TableSet/Cells.antt =====
-- crates/cecil-metadata/src/tables.rs, `TableSet::cell_location` on a computed set.
use native.Mathlib.Nat.{mod-eq_of_lt, mul-le-mul, suc-mul, mul_comm}
use cecil_rs.Base.{
  ℕ, zero, suc, ◌+◌, ◌-◌, ◌*◌, ◌%◌, ◌^◌, ◌<◌, ◌≤◌, true, false, ◌||◌, Bool-cases, ltb, ltb→lt, leb,
  ◌==◌, Option, none, some, get_elem?, get_elem?-below, get_elem?-lt, ◌≡◌, refl, inl, inr, arith,
}
use cecil_rs.Core.Error.{Result, ok, err, argument}
use cecil_rs.Core.TableIndex.{TableIndex, module_, value}
use cecil_rs.Metadata.Schema.{ColumnKind}
use cecil_rs.Metadata.TableSet.{TableLayout, TableSet, width_of, compute, layout_at, cell_location}
use cecil_rs.Metadata.TableSet.Layout.{before, before_within}
use cecil_rs.Metadata.TableSet.Invariant.{Placed, Filled}
use cecil_rs.Metadata.TableSet.Step.{final, final-Filled}

rid_in_range : (rid count : ℕ) → 1 ≤ rid → rid ≤ count → (rid == 0 || ltb count rid) ≡ false
rid_in_range rid count one below = ground arith

rid_of_range : (rid count : ℕ) → (rid == 0 || ltb count rid) ≡ false → (1 ≤ rid) × (rid ≤ count)
rid_of_range rid count h = (ground arith, ground arith)

leb→lt : (a b : ℕ) → leb a b ≡ false → b < a
leb→lt a b h = ground arith

lt→leb : (a b : ℕ) → b < a → leb a b ≡ false
lt→leb a b h = ground arith

value_below : (t : TableIndex) → ltb (value t) 56 ≡ true
unfolding value
value_below module_ = refl
value_below _ = refl

-- The rows before one and that row are among the rows of a table.
pub row_within :
    (rid count size : ℕ) → 1 ≤ rid → rid ≤ count → (rid - 1) * size + size ≤ size * count
row_within zero count size one below = absurd (omega arith)
row_within (suc k) count size one below =
    let rows = mul-le-mul {n₁ = suc k} {m₁ = size} {n₂ = count} {m₂ = size} below (omega arith) in
    let back : suc k - 1 ≡ k = omega arith in
    rw back (omega (arith, rows, suc-mul k size, mul_comm count size))

module _ (valid : ℕ) (counts : ℕ → ℕ) (flags : ℕ) where
  abbrev set : TableSet
  set = compute valid counts flags

  -- A cell of the table stream: where the code puts it and what stands there.
  pub record Cell (table : TableIndex) (rid col pos width : ℕ) : Type 0 where
    pub layout : TableLayout
    pub present : get_elem? (final valid counts flags).layouts (value table) ≡ some (some layout)
    pub rid_positive : 1 ≤ rid
    pub rid_below : rid ≤ counts (value table)
    pub placed : Placed valid counts flags (final valid counts flags) (value table) layout
    pub kind : ColumnKind
    pub column : get_elem? placed.kinds col ≡ some kind
    pub pos_eq :
        pos
        ≡ layout.offset + (rid - 1) * layout.row_size + before valid counts flags placed.kinds col
    pub width_eq : width ≡ width_of flags counts kind

  module _ (bound : (j : ℕ) → j < 56 → counts j < 2 ^ 32) where
    pub filled : Filled valid counts flags 56 (final valid counts flags)
    filled = final-Filled valid counts flags bound

    -- The code's computation at a cell that is there.
    pub cell_location-value :
        (table : TableIndex) (rid col : ℕ) {l : TableLayout} {kind : ColumnKind}
        (at_table : get_elem? (final valid counts flags).layouts (value table) ≡ some (some l))
        (placed : Placed valid counts flags (final valid counts flags) (value table) l)
        → 1 ≤ rid
        → rid ≤ counts (value table)
        → get_elem? placed.kinds col ≡ some kind
        → cell_location set table rid col
          ≡ ok (
            (l.offset + (rid - 1) * l.row_size + before valid counts flags placed.kinds col)
                % 2 ^ 64,
            width_of flags counts kind,
          )
    unfolding cell_location layout_at compute final
    cell_location-value table rid col {l} {kind} at_table placed one below column =
        let rid_test : (rid == 0 || ltb (counts (value table)) rid) ≡ false =
          rid_in_range rid (counts (value table)) one below in
        let inside : leb l.column_count col ≡ false =
          lt→leb l.column_count col
            (omega (arith, get_elem?-below placed.kinds col column, placed.count_eq)) in
        let (desc, width) = placed.stored.cell col column in
        rw (at_table, rid_test, inside, desc, width) refl

    -- A cell ends before its table's rows do.
    pub Cell-end :
        {table : TableIndex} {rid col pos width : ℕ} (c : Cell table rid col pos width)
        → pos + width ≤ c.layout.offset + c.layout.row_size * counts (value table)
    Cell-end {table} {rid} {col} c =
        let within = before_within valid counts flags c.placed.kinds col c.column in
        let rows =
          row_within rid (counts (value table)) c.layout.row_size c.rid_positive c.rid_below in
        omega (arith, c.pos_eq, c.width_eq, c.placed.size_eq)

    pub Cell-small :
        {table : TableIndex} {rid col pos width : ℕ} (c : Cell table rid col pos width)
        → pos + width < 2 ^ 64
    Cell-small c = omega (arith, Cell-end c, c.placed.ends, filled.offset_small)

    -- What the code does at a cell: it finds the cell, or reports the argument.
    pub data Found (table : TableIndex) (rid col : ℕ) : Result (ℕ × ℕ) → Type 0 where
      refused : Found table rid col (err argument)
      found : (pos width : ℕ) → Cell table rid col pos width → Found table rid col (ok (pos, width))

    module _ (table : TableIndex) (rid col : ℕ) where
      cell_there :
          {l : TableLayout} {kind : ColumnKind}
          (at_table : get_elem? (final valid counts flags).layouts (value table) ≡ some (some l))
          → 1 ≤ rid
          → rid ≤ counts (value table)
          → get_elem? (filled.placed (value table) at_table).kinds col ≡ some kind
          → Found table rid col (cell_location set table rid col)
      cell_there {l} {kind} at_table one below column =
          let placed = filled.placed (value table) at_table in
          let pos : ℕ =
            l.offset + (rid - 1) * l.row_size + before valid counts flags placed.kinds col in
          let cell : Cell table rid col pos (width_of flags counts kind) = record {
            layout = l;
            present = at_table;
            rid_positive = one;
            rid_below = below;
            placed = placed;
            kind = kind;
            column = column;
            pos_eq = refl;
            width_eq = refl;
          } in
          let fits : pos % 2 ^ 64 ≡ pos = mod-eq_of_lt (omega (arith, Cell-small cell)) in
          rw (cell_location-value table rid col at_table placed one below column, fits)
            (found pos (width_of flags counts kind) cell)

      cell_in_table :
          {l : TableLayout}
          → get_elem? (final valid counts flags).layouts (value table) ≡ some (some l)
          → Found table rid col (cell_location set table rid col)
      unfolding cell_location layout_at compute final
      cell_in_table {l} at_table = elim (Bool-cases (rid == 0 || ltb (counts (value table)) rid)) [
        | inl out ↦ rw (at_table, out) refused
        | inr row ↦ elim (Bool-cases (leb l.column_count col)) [
          | inl out ↦ rw (at_table, row, out) refused
          | inr few ↦
              let placed = filled.placed (value table) at_table in
              let (one, below) = rid_of_range rid (counts (value table)) row in
              let (kind, column) =
                get_elem?-lt col placed.kinds
                  (omega (arith, leb→lt l.column_count col few, placed.count_eq)) in
              cell_there at_table one below column
        ]
      ]

      pub table_entry :
          (o : Option TableLayout) × (get_elem? (final valid counts flags).layouts (value table)
            ≡ some o)
      table_entry =
          let (o, e) =
            get_elem?-lt (value table) (final valid counts flags).layouts
              (omega (arith, ltb→lt (value table) 56 (value_below table), filled.layouts_length)) in
          (o, e)

      at_entry :
          (o : Option TableLayout)
          → get_elem? (final valid counts flags).layouts (value table) ≡ some o
          → Found table rid col (cell_location set table rid col)
      unfolding cell_location layout_at compute final
      at_entry none absent = rw absent refused
      at_entry (some l) at_table = cell_in_table at_table

      pub cell_location-Found : Found table rid col (cell_location set table rid col)
      cell_location-Found = let (o, e) = table_entry in at_entry o e
