-- ===== src/Metadata/TableSet/Invariant.antt =====
-- crates/cecil-metadata/src/tables.rs, `TableSet::compute`: the state of its loop over the tables.
use native.Mathlib.Nat.{mod-eq_of_lt, mul-le-mul}
use cecil_rs.Base.{
  ℕ, ◌+◌, ◌*◌, ◌%◌, ◌^◌, ◌<◌, ◌≤◌, Bool-cases, Option, none, some, Option-cases, List, [], ◌∷◌,
  ◌++◌, length, get_elem?, get_elem?-append_left, get_elem?-append_right, map, ◌≡◌, refl, ◌∙◌, inl,
  inr, arith,
}
use cecil_rs.Core.TableIndex.{from_u8}
use cecil_rs.Metadata.Schema.{ColumnKind, column_kinds}
use cecil_rs.Metadata.Schema.Laws.{column_kinds-length}
use cecil_rs.Metadata.TableSet.{
  ColumnDesc, TableLayout, Progress, width_of, kinds_at, has_bit, place_table,
}
use cecil_rs.Metadata.TableSet.Layout.{
  before, row_bytes, row_bytes_small, descs, push_columns_eq, get_elem?-descs, get_elem?-widths,
}

module _ (valid : ℕ) (counts : ℕ → ℕ) (flags : ℕ) where
  -- Columns that stand in the shared buffers from an index on.
  pub record Stored (columns : List ColumnDesc) (widths : List ℕ) (start : ℕ)
      (kinds : List ColumnKind) : Type 0 where
    pub cell :
        (k : ℕ) {kind : ColumnKind}
        → get_elem? kinds k ≡ some kind
        → (get_elem? columns (start + k)
            ≡ some (record { kind = kind; offset = before valid counts flags kinds k }))
          × (get_elem? widths (start + k) ≡ some (width_of flags counts kind))

  -- A table's layout agrees with its columns, and its rows end before an offset.
  pub record Placed (p : Progress) (i : ℕ) (l : TableLayout) : Type 0 where
    pub kinds : List ColumnKind
    pub schema : kinds_at valid counts flags i ≡ some kinds
    pub few : length kinds ≤ 9
    pub count_eq : l.column_count ≡ length kinds
    pub size_eq : l.row_size ≡ row_bytes valid counts flags kinds
    pub stored : Stored p.columns p.widths l.column_start kinds
    pub ends : l.offset + l.row_size * counts i ≤ p.offset

  pub record Filled (i : ℕ) (p : Progress) : Type 0 where
    pub layouts_length : length p.layouts ≡ i
    pub widths_length : length p.widths ≡ length p.columns
    pub columns_few : length p.columns ≤ 9 * i
    pub offset_small : p.offset ≤ i * (36 * 2 ^ 32)
    pub placed : (j : ℕ) {l : TableLayout} → get_elem? p.layouts j ≡ some (some l) → Placed p j l
    pub missing : (j : ℕ) → get_elem? p.layouts j ≡ some none → kinds_at valid counts flags j ≡ none
    pub ordered :
        (j k : ℕ) {l m : TableLayout}
        → j < k
        → get_elem? p.layouts j ≡ some (some l)
        → get_elem? p.layouts k ≡ some (some m)
        → l.offset + l.row_size * counts j ≤ m.offset

  pub kinds_at-length :
      (i : ℕ) {kinds : List ColumnKind}
      → kinds_at valid counts flags i ≡ some kinds
      → length kinds ≤ 9
  unfolding kinds_at
  kinds_at-length i {kinds} e = elim (Bool-cases (has_bit valid i)) [
    | inr absent ↦
        let no_kinds : ◌≡◌ {A = Option (List ColumnKind)} none (some kinds) = rw absent at e in cc
    | inl present ↦ elim (Option-cases (from_u8 i)) [
      | inl unknown ↦
          let no_kinds : ◌≡◌ {A = Option (List ColumnKind)} none (some kinds) =
            rw (present, unknown) at e in
          cc
      | inr (t, known) ↦
          let found : column_kinds t ≡ some kinds = rw (present, known) at e in
          (column_kinds-length t found).1
    ]
  ]

  -- What is stored stays when the buffers grow.
  pub Stored-grown :
      {columns : List ColumnDesc} {widths : List ℕ} {start : ℕ} {kinds : List ColumnKind}
      (more : List ColumnDesc) (more_widths : List ℕ)
      → Stored columns widths start kinds
      → Stored (columns ++ more) (widths ++ more_widths) start kinds
  Stored-grown {columns} {widths} {start} more more_widths s = record {
    cell = λ k h. (
      get_elem?-append_left columns more (start + k) ((s.cell k h).0),
      get_elem?-append_left widths more_widths (start + k) ((s.cell k h).1),
    );
  }

  descs_from_start :
      (kinds : List ColumnKind) (k : ℕ) {kind : ColumnKind}
      → get_elem? kinds k ≡ some kind
      → get_elem? (descs valid counts flags 0 kinds) k
        ≡ some (record { kind = kind; offset = before valid counts flags kinds k })
  descs_from_start kinds k h =
      let e : 0 + before valid counts flags kinds k ≡ before valid counts flags kinds k =
        omega arith in
      rw e at (get_elem?-descs valid counts flags 0 kinds k h)

  pub Stored-new :
      (columns : List ColumnDesc) (widths : List ℕ) (kinds : List ColumnKind)
      → length widths ≡ length columns
      → Stored
          (columns ++ descs valid counts flags 0 kinds)
          (widths ++ map (λ kind. width_of flags counts kind) kinds)
          (length columns)
          kinds
  Stored-new columns widths kinds same = record {
    cell = λ k h. (
      get_elem?-append_right columns (descs valid counts flags 0 kinds) k
          ∙ descs_from_start kinds k h,
      rw (← same) (
          get_elem?-append_right widths (map (λ kind. width_of flags counts kind) kinds) k
          ∙ get_elem?-widths valid counts flags kinds k h),
    );
  }

  -- The state after a table without wrap-around.
  abbrev pub layout_for : List ColumnKind → Progress → TableLayout
  layout_for kinds p = record {
    row_size = row_bytes valid counts flags kinds;
    offset = p.offset;
    column_start = length p.columns;
    column_count = length kinds;
  }

  abbrev pub next_progress : ℕ → List ColumnKind → Progress → Progress
  next_progress i kinds p = record {
    columns = p.columns ++ descs valid counts flags 0 kinds;
    widths = p.widths ++ map (λ kind. width_of flags counts kind) kinds;
    layouts = p.layouts ++ (some (layout_for kinds p) ∷ []);
    offset = p.offset + row_bytes valid counts flags kinds * counts i;
  }

  pub table_bytes :
      (kinds : List ColumnKind) (i : ℕ)
      → length kinds ≤ 9
      → counts i < 2 ^ 32
      → row_bytes valid counts flags kinds * counts i ≤ 36 * 2 ^ 32
  table_bytes kinds i few bound =
      mul-le-mul {n₂ = 36} {m₂ = 2 ^ 32} (omega (arith, row_bytes_small valid counts flags kinds))
        (omega arith)

  pub place_table_eq :
      (i : ℕ) (kinds : List ColumnKind) (p : Progress)
      → i < 56
      → counts i < 2 ^ 32
      → length kinds ≤ 9
      → Filled i p
      → place_table valid counts flags i (some kinds) p ≡ next_progress i kinds p
  unfolding place_table
  place_table_eq i kinds p below bound few f =
      let size = row_bytes_small valid counts flags kinds in
      let pushed = push_columns_eq valid counts flags kinds 0 p.columns p.widths (omega arith) in
      let zero_left : 0 + row_bytes valid counts flags kinds ≡ row_bytes valid counts flags kinds =
        omega arith in
      let start : length p.columns % 2 ^ 32 ≡ length p.columns = omega (arith, f.columns_few) in
      let count : length kinds % 2 ^ 16 ≡ length kinds = omega arith in
      let bytes = table_bytes kinds i few bound in
      let fits : (p.offset + row_bytes valid counts flags kinds * counts i) % 2 ^ 64
          ≡ p.offset + row_bytes valid counts flags kinds * counts i =
        mod-eq_of_lt (omega (arith, f.offset_small)) in
      rw (pushed, zero_left, start, count, fits) refl
