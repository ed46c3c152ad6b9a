-- ===== src/Metadata/Schema/Laws.antt =====
-- crates/cecil-metadata/src/tables.rs, `MAX_COLUMNS`: the lengths of the schemas.
use cecil_rs.Base.{
  ◌≤◌, Bool, true, false, ◌&&◌, Option, none, some, List, length, leb, ◌≡◌, refl, arith,
}
use cecil_rs.Core.TableIndex.{TableIndex, module_}
use cecil_rs.Metadata.Schema.{ColumnKind, column_kinds}

abbrev fits : Option (List ColumnKind) → Bool
fits none = false
fits (some kinds) = leb 1 (length kinds) && leb (length kinds) 9

column_kinds-fits : (t : TableIndex) → fits (column_kinds t) ≡ true
unfolding column_kinds
column_kinds-fits module_ = refl
column_kinds-fits _ = refl

-- A schema has between one and nine columns.
pub column_kinds-length :
    (t : TableIndex) {kinds : List ColumnKind}
    → column_kinds t ≡ some kinds
    → (1 ≤ length kinds) × (length kinds ≤ 9)
column_kinds-length t {kinds} e =
    let all : fits (some kinds) ≡ true = rw e at (column_kinds-fits t) in
    (ground arith, ground arith)
