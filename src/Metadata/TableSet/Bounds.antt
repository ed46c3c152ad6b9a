-- ===== src/Metadata/TableSet/Bounds.antt =====
-- crates/cecil-metadata/src/tables.rs, `TableSet`: cells within the table stream.
use native.Mathlib.Nat.{mod-eq_of_lt}
use cecil_rs.Base.{
  ℕ, zero, suc, ◌+◌, ◌*◌, ◌%◌, ◌^◌, ◌<◌, ◌≤◌, Bool-cases, ltb, ltb→lt, ltb→le, Option, none, some,
  List, [], ◌∷◌, get_elem?, ◌≡◌, inl, inr, if◌then◌else◌, arith,
}
use cecil_rs.Core.Error.{Result, ok, argument, Returns}
use cecil_rs.Core.TableIndex.{TableIndex, value}
use cecil_rs.Metadata.TableSet.{TableLayout, extent_from, tables_extent, compute, cell_location}
use cecil_rs.Metadata.TableSet.Cells.{
  Cell, Found, refused, found, filled, Cell-end, cell_location-Found,
}
use cecil_rs.Metadata.TableSet.Step.{final}

-- The extent only grows along the layouts.
extent_from_grows :
    (counts : ℕ → ℕ) (i : ℕ) (ls : List (Option TableLayout)) (e : ℕ)
    → e ≤ extent_from counts i ls e
unfolding extent_from
extent_from_grows counts i [] e = omega arith
extent_from_grows counts i (none ∷ ls) e = extent_from_grows counts (suc i) ls e
extent_from_grows counts i (some l ∷ ls) e =
    let end : ℕ = (l.offset + l.row_size * counts i) % 2 ^ 64 in
    elim (Bool-cases (ltb e end)) [
      | inl more ↦
          rw more (omega (arith, ltb→lt e end more, extent_from_grows counts (suc i) ls end))
      | inr less ↦ rw less (extent_from_grows counts (suc i) ls e)
    ]

extent_from_covers :
    (counts : ℕ → ℕ) (i : ℕ) (ls : List (Option TableLayout)) (e j : ℕ) {l : TableLayout}
    → get_elem? ls j ≡ some (some l)
    → l.offset + l.row_size * counts (i + j) < 2 ^ 64
    → l.offset + l.row_size * counts (i + j) ≤ extent_from counts i ls e
unfolding extent_from
extent_from_covers counts i [] e j h fits = cc
extent_from_covers counts i (none ∷ ls) e zero h fits = cc
extent_from_covers counts i (none ∷ ls) e (suc j) h fits =
    let next : i + suc j ≡ suc i + j = omega arith in
    rw next (extent_from_covers counts (suc i) ls e j h (rw (← next) fits))
extent_from_covers counts i (some m ∷ ls) e zero {l} h fits =
    let same : m ≡ l = cc in
    let here : i + 0 ≡ i = omega arith in
    let end : ℕ = (l.offset + l.row_size * counts i) % 2 ^ 64 in
    let whole : end ≡ l.offset + l.row_size * counts i = mod-eq_of_lt (rw here at fits) in
    rw (same, here)
      (elim (Bool-cases (ltb e end)) [
        | inl more ↦ rw more (omega (arith, extent_from_grows counts (suc i) ls end))
        | inr less ↦
            rw less (omega (arith, ltb→le e end less, extent_from_grows counts (suc i) ls e))
      ])
extent_from_covers counts i (some m ∷ ls) e (suc j) h fits =
    let next : i + suc j ≡ suc i + j = omega arith in
    let end : ℕ = (m.offset + m.row_size * counts i) % 2 ^ 64 in
    rw next
      (extent_from_covers counts (suc i) ls (if ltb e end then end else e) j h (rw (← next) fits))

module _ (valid : ℕ) (counts : ℕ → ℕ) (flags : ℕ)
    (bound : (j : ℕ) → j < 56 → counts j < 2 ^ 32) where
  Found-Cell :
      {t : TableIndex} {rid col pos width : ℕ} {r : Result (ℕ × ℕ)}
      → Found valid counts flags bound t rid col r
      → r ≡ ok (pos, width)
      → Cell valid counts flags t rid col pos width
  Found-Cell refused e = cc
  Found-Cell {t} {rid} {col} {pos} {width} (found p w c) e =
      let same_pos : p ≡ pos = cc in
      let same_width : w ≡ width = cc in rw (same_pos, same_width) at c

  pub location-Cell :
      (t : TableIndex) (rid col : ℕ) {pos width : ℕ}
      → cell_location (compute valid counts flags) t rid col ≡ ok (pos, width)
      → Cell valid counts flags t rid col pos width
  location-Cell t rid col e = Found-Cell (cell_location-Found valid counts flags bound t rid col) e

  Found-Returns :
      {t : TableIndex} {rid col : ℕ} {r : Result (ℕ × ℕ)}
      → Found valid counts flags bound t rid col r
      → Returns r
  Found-Returns refused = Returns.error argument
  Found-Returns (found p w c) = Returns.value (p, w)

  -- On the layout that `compute` gives for any row counts of 32 bits, `cell_location` returns for
  -- every table, row and column: its three index operations do not panic.
  pub cell_location-Returns :
      (t : TableIndex) (rid col : ℕ)
      → Returns (cell_location (compute valid counts flags) t rid col)
  cell_location-Returns t rid col =
      Found-Returns (cell_location-Found valid counts flags bound t rid col)

  -- Every cell that `cell_location` finds on a computed layout, for row counts of 32 bits, lies
  -- within the extent of the tables.
  pub cell_location-tables_extent :
      (t : TableIndex) (rid col : ℕ) {pos width : ℕ}
      → cell_location (compute valid counts flags) t rid col ≡ ok (pos, width)
      → pos + width ≤ tables_extent (compute valid counts flags)
  unfolding tables_extent compute final
  cell_location-tables_extent t rid col {pos} {width} e =
      let c = location-Cell t rid col e in
      let end = Cell-end valid counts flags bound c in
      let ends = c.placed.ends in
      let index : 0 + value t ≡ value t = omega arith in
      let fits : c.layout.offset + c.layout.row_size * counts (0 + value t) < 2 ^ 64 =
        rw index (omega (arith, (filled valid counts flags bound).offset_small)) in
      let covers = rw index at (
        extent_from_covers counts 0 (final valid counts flags).layouts 0 (value t) c.present
          fits) in
      omega (arith, end, covers)
