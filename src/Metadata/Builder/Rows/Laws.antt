-- ===== src/Metadata/Builder/Rows/Laws.antt =====
-- crates/cecil-metadata/src/builder.rs, `MetadataBuilder::add_row` and `row_count`.
use native.Mathlib.Nat.{mod-eq_of_lt, mul-div_cancel, mul-le-mul, suc-mul}
use cecil_rs.Base.{
  ℕ, suc, ◌+◌, ◌*◌, ◌/◌, ◌%◌, ◌^◌, ◌<◌, true, false, ◌==◌, ==_iff, Bool-cases, some, List, ◌++◌,
  length, length-append, ◌≡◌, ◌≢◌, refl, sym, ap, subst, ◌∙◌, inl, inr, arith,
}
use cecil_rs.Core.Error.{
  Result, ok, err, argument, unsupported, ok_or, ok-injective, ok_or-eq_ok, >>=-eq-ok,
}
use cecil_rs.Core.TableIndex.{TableIndex, value}
use cecil_rs.Core.TableIndex.Laws.{value-injective}
use cecil_rs.Metadata.Schema.{ColumnKind, column_kinds}
use cecil_rs.Metadata.Schema.Laws.{column_kinds-length}
use cecil_rs.Metadata.Builder.Rows.{MetadataBuilder, new, set_rows, add_row, row_count}

-- The cells of every table are whole rows.
pub record WholeRows (b : MetadataBuilder) : Type 0 where
  pub whole :
      (t : TableIndex) {kinds : List ColumnKind}
      → column_kinds t ≡ some kinds
      → (n : ℕ) × (length (b.rows (value t)) ≡ n * length kinds)

-- What `add_row` has done to a builder.
pub record RowAdded (table : TableIndex) (cells : List ℕ) (b : MetadataBuilder) (rid : ℕ)
    (c : MetadataBuilder) : Type 0 where
  pub whole_rows : WholeRows c
  pub counted : rid ≡ row_count c table
  pub one_more : row_count c table ≡ row_count b table + 1
  pub appended : c.rows (value table) ≡ b.rows (value table) ++ cells
  pub others : (u : TableIndex) → u ≢ table → c.rows (value u) ≡ b.rows (value u)

set_rows_same : (rows : ℕ → List ℕ) (i : ℕ) (cells : List ℕ) → set_rows rows i cells i ≡ cells
set_rows_same rows i cells = let same : (i == i) ≡ true = (==_iff i i).1 refl in rw same refl

value_differs : (u t : TableIndex) → u ≢ t → (value u == value t) ≡ false
value_differs u t differs = elim (Bool-cases (value u == value t)) [
  | inl same ↦ absurd (differs (value-injective u t ((==_iff (value u) (value t)).0 same)))
  | inr other ↦ other
]

set_rows_other :
    (rows : ℕ → List ℕ) (u t : TableIndex) (cells : List ℕ)
    → u ≢ t
    → set_rows rows (value t) cells (value u) ≡ rows (value u)
set_rows_other rows u t cells differs = rw (value_differs u t differs) refl

row_count_lem :
    (b : MetadataBuilder) (t : TableIndex) {kinds : List ColumnKind} (n : ℕ)
    → column_kinds t ≡ some kinds
    → length (b.rows (value t)) ≡ n * length kinds
    → n < 2 ^ 32
    → row_count b t ≡ n
unfolding row_count
row_count_lem b t {kinds} n schema size small =
    let positive = (column_kinds-length t schema).0 in
    let quotient : n * length kinds / length kinds ≡ n =
      mul-div_cancel n (omega (arith, positive)) in
    rw (schema, row_count, size, quotient) (mod-eq_of_lt small)

-- A builder whose table has one row more.
abbrev extended : MetadataBuilder → TableIndex → List ℕ → MetadataBuilder
extended b t cells = record b { rows = set_rows b.rows (value t) (b.rows (value t) ++ cells) }

module _ (b : MetadataBuilder) (t : TableIndex) (cells : List ℕ) {kinds : List ColumnKind}
    (w : WholeRows b) (schema : column_kinds t ≡ some kinds) (sized : length cells ≡ length kinds)
    (small : length (b.rows (value t) ++ cells) < 2 ^ 32) where
  grown_size :
      (n : ℕ)
      → length (b.rows (value t)) ≡ n * length kinds
      → length (b.rows (value t) ++ cells) ≡ (n + 1) * length kinds
  grown_size n size =
      let next : n + 1 ≡ suc n = omega arith in
      rw next (
        omega
          (arith, length-append (b.rows (value t)) cells, size, sized, suc-mul n (length kinds)))

  fewer : (n : ℕ) → length (b.rows (value t)) ≡ n * length kinds → n + 1 < 2 ^ 32
  fewer n size =
      let positive = (column_kinds-length t schema).0 in
      let most =
        mul-le-mul {n₁ = n + 1} {m₁ = 1} {n₂ = n + 1} {m₂ = length kinds} (omega arith) positive in
      omega (arith, grown_size n size, small, most)

  rows_at : (extended b t cells).rows (value t) ≡ b.rows (value t) ++ cells
  rows_at = set_rows_same b.rows (value t) (b.rows (value t) ++ cells)

  extended-WholeRows : WholeRows (extended b t cells)
  extended-WholeRows = record {
    whole = λ u {kinds = ks} s. elim (Bool-cases (value u == value t)) [
      | inl same ↦
          let eq : u ≡ t = value-injective u t ((==_iff (value u) (value t)).0 same) in
          let both : some kinds ≡ some ks =
            sym schema ∙ subst (λ x. column_kinds x ≡ some ks) eq s in
          let ks_eq : kinds ≡ ks = cc in
          let (n, size) = w.whole t schema in
          (
            n + 1,
            subst (λ x. length ((extended b t cells).rows (value x)) ≡ (n + 1) * length ks) (sym eq)
                (subst (λ x. length ((extended b t cells).rows (value t)) ≡ (n + 1) * length x)
                  ks_eq (ap length rows_at ∙ grown_size n size)),
          )
      | inr other ↦ rw other (w.whole u s)
    ];
  }

  extended-RowAdded :
      RowAdded t cells b
        (length (b.rows (value t) ++ cells) / length kinds % 2 ^ 32)
        (extended b t cells)
  extended-RowAdded =
      let (n, size) = w.whole t schema in
      let positive = (column_kinds-length t schema).0 in
      let after =
        row_count_lem (extended b t cells) t (n + 1) schema (ap length rows_at ∙ grown_size n size)
          (fewer n size) in
      let quotient : (n + 1) * length kinds / length kinds ≡ n + 1 =
        mul-div_cancel (n + 1) (omega (arith, positive)) in
      let number : length (b.rows (value t) ++ cells) / length kinds % 2 ^ 32 ≡ n + 1 =
        rw (grown_size n size, quotient) (mod-eq_of_lt (fewer n size)) in
      record {
        whole_rows = extended-WholeRows;
        counted = number ∙ sym after;
        one_more =
            after
            ∙ ap (λ k. k + 1) (sym (row_count_lem b t n schema size (omega (arith, fewer n size))));
        appended = rows_at;
        others = λ u differs. set_rows_other b.rows u t (b.rows (value t) ++ cells) differs;
      }

-- A row that `add_row` takes is appended to the cells of its table, whose rows stay whole and become
-- one more; it has the number of the last row, and no other table changes. The cells of the table are
-- fewer than 2^32.
pub add_row-RowAdded :
    (t : TableIndex) (cells : List ℕ) (b : MetadataBuilder) {rid : ℕ} {c : MetadataBuilder}
    → WholeRows b
    → add_row t cells b ≡ ok (rid, c)
    → length (b.rows (value t) ++ cells) < 2 ^ 32
    → RowAdded t cells b rid c
unfolding add_row
add_row-RowAdded t cells b {rid} {c} w e small =
    let (kinds, known, rest) = >>=-eq-ok (ok_or (column_kinds t) unsupported) _ e in
    let schema = ok_or-eq_ok (column_kinds t) unsupported known in
    elim (Bool-cases (length cells == length kinds)) [
      | inr other ↦
          let refused : ◌≡◌ {A = Result (ℕ × MetadataBuilder)} (err argument) (ok (rid, c)) =
            rw other at rest in
          cc
      | inl sized ↦
          let done : ok
                (length (b.rows (value t) ++ cells) / length kinds % 2 ^ 32, extended b t cells)
              ≡ ok (rid, c) =
            rw sized at rest in
          subst (λ r. RowAdded t cells b r.0 r.1) (ok-injective done)
            (extended-RowAdded b t cells w schema ((==_iff (length cells) (length kinds)).0 sized)
              small)
    ]

-- A new builder has whole rows.
pub new-WholeRows : (version : List ℕ) → WholeRows (new version)
new-WholeRows version = record { whole = λ t s. (0, omega arith) }
