-- ===== src/Metadata/TableSet/Step.antt =====
-- crates/cecil-metadata/src/tables.rs, `TableSet::compute`: one turn of its loop, and all turns.
use cecil_rs.Base.{
  ℕ, zero, suc, ◌+◌, ◌*◌, ◌^◌, ◌<◌, ◌≤◌, Option, none, some, Option-cases, List, [], ◌∷◌, ◌++◌,
  length, get_elem?, get_elem?-below, get_elem?-snoc, length-append, length-map, append-nil, map,
  ◌≡◌, refl, sym, ◌∙◌, ◌⊎◌, inl, inr, arith,
}
use cecil_rs.Metadata.Schema.{ColumnKind}
use cecil_rs.Metadata.TableSet.{
  ColumnDesc, TableLayout, Progress, width_of, kinds_at, place_table, place_tables, table_count,
}
use cecil_rs.Metadata.TableSet.Layout.{descs, length-descs}
use cecil_rs.Metadata.TableSet.Invariant.{
  Placed, Filled, Stored-grown, Stored-new, kinds_at-length, layout_for, next_progress,
  place_table_eq, table_bytes,
}

module _ (valid : ℕ) (counts : ℕ → ℕ) (flags : ℕ) where
  -- A turn appends to the buffers and moves the end on.
  Placed-grown :
      {p q : Progress} {i : ℕ} {l : TableLayout} (more : List ColumnDesc) (more_widths : List ℕ)
      → q.columns ≡ p.columns ++ more
      → q.widths ≡ p.widths ++ more_widths
      → p.offset ≤ q.offset
      → Placed valid counts flags p i l
      → Placed valid counts flags q i l
  Placed-grown more more_widths c w after placed = record {
    kinds = placed.kinds;
    schema = placed.schema;
    few = placed.few;
    count_eq = placed.count_eq;
    size_eq = placed.size_eq;
    stored = rw (c, w) (Stored-grown valid counts flags more more_widths placed.stored);
    ends = omega (arith, placed.ends);
  }

  -- The entry of a turn is the last of the layouts.
  record Turn (i : ℕ) (p q : Progress) (entry : Option TableLayout) : Type 0 where
    more : List ColumnDesc
    more_widths : List ℕ
    columns_eq : q.columns ≡ p.columns ++ more
    widths_eq : q.widths ≡ p.widths ++ more_widths
    same_length : length more_widths ≡ length more
    more_few : length more ≤ 9
    layouts_eq : q.layouts ≡ p.layouts ++ (entry ∷ [])
    after : p.offset ≤ q.offset
    offset_next : q.offset ≤ p.offset + 36 * 2 ^ 32
    absent : entry ≡ none → kinds_at valid counts flags i ≡ none
    new : (l : TableLayout) → entry ≡ some l → Placed valid counts flags q i l
    starts : (l : TableLayout) → entry ≡ some l → l.offset ≡ p.offset

  module _ {i : ℕ} {p q : Progress} {entry : Option TableLayout} (f : Filled valid counts flags i p)
      (t : Turn i p q entry) where
    entry_at :
        (j : ℕ) {o : Option TableLayout}
        → get_elem? q.layouts j ≡ some o
        → (get_elem? p.layouts j ≡ some o) ⊎ ((j ≡ i) × (entry ≡ o))
    entry_at j {o} h =
        let seen : get_elem? (p.layouts ++ (entry ∷ [])) j ≡ some o = rw t.layouts_eq at h in
        elim (get_elem?-snoc p.layouts entry j seen) [
          | inl old ↦ inl old
          | inr (last, same) ↦ inr (last ∙ f.layouts_length, same)
        ]

    old_below : (j : ℕ) {o : Option TableLayout} → get_elem? p.layouts j ≡ some o → j < i
    old_below j h = omega (arith, get_elem?-below p.layouts j h, f.layouts_length)

    placed_next :
        (j : ℕ) {l : TableLayout}
        → get_elem? q.layouts j ≡ some (some l)
        → Placed valid counts flags q j l
    placed_next j {l} h = elim (entry_at j h) [
      | inl old ↦
          Placed-grown t.more t.more_widths t.columns_eq t.widths_eq t.after (f.placed j old)
      | inr (here, same) ↦ rw here (t.new l same)
    ]

    missing_next :
        (j : ℕ) → get_elem? q.layouts j ≡ some none → kinds_at valid counts flags j ≡ none
    missing_next j h = elim (entry_at j h) [
      | inl old ↦ f.missing j old
      | inr (here, same) ↦ rw here (t.absent same)
    ]

    ordered_next :
        (j k : ℕ) {l m : TableLayout}
        → j < k
        → get_elem? q.layouts j ≡ some (some l)
        → get_elem? q.layouts k ≡ some (some m)
        → l.offset + l.row_size * counts j ≤ m.offset
    ordered_next j k {l} {m} lt h g = elim (entry_at j h) [
      | inl old ↦ elim (entry_at k g) [
        | inl old_too ↦ f.ordered j k lt old old_too
        | inr (here, same) ↦ omega (arith, Placed.ends (f.placed j old), t.starts m same)
      ]
      | inr (here, same) ↦ elim (entry_at k g) [
        | inl old_too ↦ absurd (omega (arith, old_below k old_too))
        | inr (there, same_too) ↦ absurd (omega arith)
      ]
    ]

    Filled-turn : Filled valid counts flags (suc i) q
    Filled-turn = record {
      layouts_length =
          rw t.layouts_eq (omega (arith, length-append p.layouts (entry ∷ []), f.layouts_length));
      widths_length =
          rw (t.columns_eq, t.widths_eq)
            (omega (
              arith,
              length-append p.columns t.more,
              length-append p.widths t.more_widths,
              f.widths_length,
              t.same_length,
            ));
      columns_few =
          rw t.columns_eq
            (omega (arith, length-append p.columns t.more, f.columns_few, t.more_few));
      offset_small = omega (arith, f.offset_small, t.offset_next);
      placed = placed_next;
      missing = missing_next;
      ordered = ordered_next;
    }

  Filled-none :
      (i : ℕ) (p : Progress)
      → kinds_at valid counts flags i ≡ none
      → Filled valid counts flags i p
      → Filled valid counts flags (suc i) (place_table valid counts flags i none p)
  unfolding place_table
  Filled-none i p absent f =
      Filled-turn {i = i} {p = p}
        {q = record {
          columns = p.columns;
          widths = p.widths;
          layouts = p.layouts ++ (none ∷ []);
          offset = p.offset;
        }}
        {entry = none} f
        (record {
          more = [];
          more_widths = [];
          columns_eq = sym (append-nil p.columns);
          widths_eq = sym (append-nil p.widths);
          same_length = refl;
          more_few = omega arith;
          layouts_eq = refl;
          after = omega arith;
          offset_next = omega arith;
          absent = λ _. absent;
          new = λ l e. cc;
          starts = λ l e. cc;
        })

  layout-Placed :
      (i : ℕ) (kinds : List ColumnKind) (p : Progress)
      → kinds_at valid counts flags i ≡ some kinds
      → Filled valid counts flags i p
      → Placed valid counts flags
          (next_progress valid counts flags i kinds p)
          i
          (layout_for valid counts flags kinds p)
  layout-Placed i kinds p schema f = record {
    kinds = kinds;
    schema = schema;
    few = kinds_at-length valid counts flags i schema;
    count_eq = refl;
    size_eq = refl;
    stored = Stored-new valid counts flags p.columns p.widths kinds f.widths_length;
    ends = omega arith;
  }

  Filled-some :
      (i : ℕ) (p : Progress) (kinds : List ColumnKind)
      → kinds_at valid counts flags i ≡ some kinds
      → counts i < 2 ^ 32
      → Filled valid counts flags i p
      → Filled valid counts flags (suc i) (next_progress valid counts flags i kinds p)
  Filled-some i p kinds schema bound f =
      let few = kinds_at-length valid counts flags i schema in
      let bytes = table_bytes valid counts flags kinds i few bound in
      let fresh = layout-Placed i kinds p schema f in
      Filled-turn f (record {
        more = descs valid counts flags 0 kinds;
        more_widths = map (λ kind. width_of flags counts kind) kinds;
        columns_eq = refl;
        widths_eq = refl;
        same_length =
            length-map (λ kind. width_of flags counts kind) kinds
            ∙ sym (length-descs valid counts flags 0 kinds);
        more_few = rw (length-descs valid counts flags 0 kinds) few;
        layouts_eq = refl;
        after = omega arith;
        offset_next = omega arith;
        absent = λ e. cc;
        new = λ l e. let same : layout_for valid counts flags kinds p ≡ l = cc in rw (← same) fresh;
        starts =
            λ l e. let same : layout_for valid counts flags kinds p ≡ l = cc in rw (← same) refl;
      })

  pub place_tables-Filled :
      (n i : ℕ) (p : Progress)
      → ((j : ℕ) → j < 56 → counts j < 2 ^ 32)
      → i + n ≡ 56
      → Filled valid counts flags i p
      → Filled valid counts flags 56 (place_tables valid counts flags n i p)
  unfolding place_tables
  place_tables-Filled zero i p bound e f = let here : i ≡ 56 = omega arith in rw here at f
  place_tables-Filled (suc n) i p bound e f =
      place_tables-Filled n (suc i)
        (place_table valid counts flags i (kinds_at valid counts flags i) p) bound (omega arith)
        (elim (Option-cases (kinds_at valid counts flags i)) [
          | inl absent ↦ rw absent (Filled-none i p absent f)
          | inr (kinds, found) ↦
              let few = kinds_at-length valid counts flags i found in
              rw
                (
                  found,
                  place_table_eq valid counts flags i kinds p (omega arith) (bound i (omega arith))
                      few f,
                )
                (Filled-some i p kinds found (bound i (omega arith)) f)
        ])

  -- The loop's state after the last table.
  abbrev pub start_progress : Progress
  start_progress = record { columns = []; widths = []; layouts = []; offset = 0 }

  unfoldable pub final : Progress
  unfolding place_tables
  final = place_tables valid counts flags table_count 0 start_progress

  start-Filled : Filled valid counts flags 0 start_progress
  start-Filled = record {
    layouts_length = refl;
    widths_length = refl;
    columns_few = omega arith;
    offset_small = omega arith;
    placed = λ j h. cc;
    missing = λ j h. cc;
    ordered = λ j k lt h g. cc;
  }

  pub final-Filled : ((j : ℕ) → j < 56 → counts j < 2 ^ 32) → Filled valid counts flags 56 final
  unfolding final
  final-Filled bound = place_tables-Filled 56 0 start_progress bound (omega arith) start-Filled
