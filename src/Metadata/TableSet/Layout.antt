-- ===== src/Metadata/TableSet/Layout.antt =====
-- crates/cecil-metadata/src/tables.rs, `TableSet::compute`: the columns of one row.
use cecil_rs.Base.{
  ℕ, zero, suc, ◌+◌, ◌*◌, ◌%◌, ◌^◌, ◌<◌, ◌≤◌, Bool, true, false, some, List, [], ◌∷◌, ◌++◌, length,
  get_elem?, append_assoc, append-nil, map, ◌≡◌, refl, ap, arith,
}
use cecil_rs.Metadata.Schema.{
  ColumnKind, u8_cell, u16_cell, u32_cell, string_idx, guid_idx, blob_idx, coded, simple,
}
use cecil_rs.Metadata.TableSet.{ColumnDesc, width_of, push_columns, wide}

wide-small : (b : Bool) → (1 ≤ wide b) × (wide b ≤ 4)
wide-small true = (omega arith, omega arith)
wide-small false = (omega arith, omega arith)

module _ (valid : ℕ) (counts : ℕ → ℕ) (flags : ℕ) where
  abbrev width : ColumnKind → ℕ
  width kind = width_of flags counts kind

  -- A cell has between one and four bytes.
  pub width_small : (kind : ColumnKind) → (1 ≤ width kind) × (width kind ≤ 4)
  unfolding width_of
  width_small u8_cell = (omega arith, omega arith)
  width_small u16_cell = (omega arith, omega arith)
  width_small u32_cell = (omega arith, omega arith)
  width_small string_idx = wide-small _
  width_small guid_idx = wide-small _
  width_small blob_idx = wide-small _
  width_small (simple t) = wide-small _
  width_small (coded g) = wide-small _

  -- The bytes of the columns before one, and of all.
  unfoldable pub before : List ColumnKind → ℕ → ℕ
  before [] k = 0
  before (kind ∷ kinds) zero = 0
  before (kind ∷ kinds) (suc k) = width kind + before kinds k

  unfoldable pub row_bytes : List ColumnKind → ℕ
  row_bytes [] = 0
  row_bytes (kind ∷ kinds) = width kind + row_bytes kinds

  pub row_bytes_small : (kinds : List ColumnKind) → row_bytes kinds ≤ 4 * length kinds
  unfolding row_bytes
  row_bytes_small [] = omega arith
  row_bytes_small (kind ∷ kinds) = omega (arith, width_small kind, row_bytes_small kinds)

  -- The columns of a row that starts at an offset.
  unfoldable pub descs : ℕ → List ColumnKind → List ColumnDesc
  descs r [] = []
  descs r (kind ∷ kinds) = record { kind = kind; offset = r } ∷ descs (r + width kind) kinds

  pub push_columns_eq :
      (kinds : List ColumnKind) (r : ℕ) (columns : List ColumnDesc) (widths : List ℕ)
      → r + row_bytes kinds < 2 ^ 16
      → push_columns valid counts flags kinds r columns widths
        ≡ (columns ++ descs r kinds, widths ++ map width kinds, r + row_bytes kinds)
  unfolding push_columns descs row_bytes
  push_columns_eq [] r columns widths h =
      let e : r + 0 ≡ r = omega arith in rw (append-nil columns, append-nil widths, e) refl
  push_columns_eq (kind ∷ kinds) r columns widths h =
      let byte : width kind % 2 ^ 8 ≡ width kind = omega (arith, width_small kind) in
      let short : (r + width kind) % 2 ^ 16 ≡ r + width kind = omega arith in
      let rest =
        push_columns_eq kinds (r + width kind)
          (columns ++ (record { kind = kind; offset = r } ∷ [])) (widths ++ (width kind ∷ []))
          (omega arith) in
      let sum : r + width kind + row_bytes kinds ≡ r + (width kind + row_bytes kinds) =
        omega arith in
      rw (byte, short, rest, append_assoc columns, append_assoc widths, sum) refl

  pub get_elem?-descs :
      (r : ℕ) (kinds : List ColumnKind) (k : ℕ) {kind : ColumnKind}
      → get_elem? kinds k ≡ some kind
      → get_elem? (descs r kinds) k ≡ some (record { kind = kind; offset = r + before kinds k })
  unfolding descs before
  get_elem?-descs r [] k h = cc
  get_elem?-descs r (c ∷ kinds) zero {kind} h =
      let same : c ≡ kind = cc in let e : r + 0 ≡ r = omega arith in rw (same, e) refl
  get_elem?-descs r (c ∷ kinds) (suc k) h =
      let e : r + (width c + before kinds k) ≡ r + width c + before kinds k = omega arith in
      rw e (get_elem?-descs (r + width c) kinds k h)

  pub get_elem?-widths :
      (kinds : List ColumnKind) (k : ℕ) {kind : ColumnKind}
      → get_elem? kinds k ≡ some kind
      → get_elem? (map width kinds) k ≡ some (width kind)
  get_elem?-widths [] k h = cc
  get_elem?-widths (c ∷ kinds) zero h = cc
  get_elem?-widths (c ∷ kinds) (suc k) h = get_elem?-widths kinds k h

  -- The cells of a row lie inside it, one after the other.
  pub before_within :
      (kinds : List ColumnKind) (k : ℕ) {kind : ColumnKind}
      → get_elem? kinds k ≡ some kind
      → before kinds k + width kind ≤ row_bytes kinds
  unfolding before row_bytes
  before_within [] k h = cc
  before_within (c ∷ kinds) zero {kind} h = let same : c ≡ kind = cc in rw same (omega arith)
  before_within (c ∷ kinds) (suc k) h = omega (arith, before_within kinds k h)

  pub before_ordered :
      (kinds : List ColumnKind) (k m : ℕ) {kind : ColumnKind}
      → k < m
      → get_elem? kinds k ≡ some kind
      → before kinds k + width kind ≤ before kinds m
  unfolding before
  before_ordered [] k m l h = cc
  before_ordered (c ∷ kinds) k zero l h = absurd (omega arith)
  before_ordered (c ∷ kinds) zero (suc m) {kind} l h =
      let same : c ≡ kind = cc in rw same (omega arith)
  before_ordered (c ∷ kinds) (suc k) (suc m) l h =
      omega (arith, before_ordered kinds k m (omega arith) h)

  pub length-descs : (r : ℕ) (kinds : List ColumnKind) → length (descs r kinds) ≡ length kinds
  unfolding descs
  length-descs r [] = refl
  length-descs r (kind ∷ kinds) = ap suc (length-descs (r + width kind) kinds)
