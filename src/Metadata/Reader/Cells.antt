-- ===== src/Metadata/Reader/Cells.antt =====
-- crates/cecil-metadata/src/reader.rs, the cells of a parsed root.
use cecil_rs.Base.{
  ℕ, ◌+◌, ◌-◌, ◌≤◌, Bool, true, false, not, ◌&&◌, ◌||◌, ◌==◌, Bool-cases, Option, List, length,
  take, drop, length-take, length-drop, ltb, ltb→le, ◌≡◌, refl, sym, subst, ◌∙◌, inl, inr,
  if◌then◌else◌, arith,
}
use cecil_rs.Core.Error.{
  Error, Result, ok, err, panic, bad_image, unsupported, ok_or, >>=-eq-ok, ok-injective,
}
use cecil_rs.Core.Reader
use cecil_rs.Core.Reader.{at, le_value}
use cecil_rs.Metadata.Heaps.{PdbHeap, slice, read_counts}
use cecil_rs.Metadata.Root.{parse_root}
use cecil_rs.Metadata.TableSet.{TableSet, table_count, compute_checked, tables_extent}
use cecil_rs.Metadata.TableSet.Checked.{Checked, compute_checked-Checked}
use cecil_rs.Metadata.Reader.{
  MetadataReader, table_stream_data_start, pdb_counts, check_extent, parse_table_heap, Streams,
  take_streams, no_streams, read_tables, new_reader, parse_with_tolerance,
}

-- A set of tables that was checked against the bytes of its heap.
pub record Fits (heap : List ℕ) (set : TableSet) : Type 0 where
  pub valid : ℕ
  pub counts : ℕ → ℕ
  pub flags : ℕ
  pub checked : Checked valid counts flags set
  pub start : ℕ
  pub start_eq : table_stream_data_start heap ≡ ok start
  pub inside : start + tables_extent set ≤ length heap

guard_passed {ℓ} :
    {A : Type ℓ} (test : Bool) (e : Error) (r : Result A) {a : A}
    → (if test then err e else r) ≡ ok a
    → (test ≡ false) × (r ≡ ok a)
guard_passed true e r h = cc
guard_passed false e r h = (refl, h)

check_extent_lem :
    (heap : List ℕ) (set : TableSet) {tables : TableSet}
    → check_extent heap set ≡ ok tables
    → (set ≡ tables)
      × ((start : ℕ) × (table_stream_data_start heap ≡ ok start)
          × (start + tables_extent set ≤ length heap))
unfolding check_extent
check_extent_lem heap set {tables} e =
    let (start, started, rest) = >>=-eq-ok (table_stream_data_start heap) _ e in
    let (small, done) =
      guard_passed (ltb (length heap) (start + tables_extent set)) bad_image (ok set) rest in
    let same : set ≡ tables = cc in
    (same, (start, started, ltb→le (length heap) (start + tables_extent set) small))

Fits-checked :
    (heap : List ℕ) (valid : ℕ) (counts : ℕ → ℕ) (flags : ℕ) (set : TableSet) {tables : TableSet}
    → compute_checked valid counts flags ≡ ok set
    → check_extent heap set ≡ ok tables
    → Fits heap tables
Fits-checked heap valid counts flags set {tables} computed last =
    let (same, (start, started, inside)) = check_extent_lem heap set last in
    record {
      valid = valid;
      counts = counts;
      flags = flags;
      checked =
          subst (λ s. Checked valid counts flags s) same
            (compute_checked-Checked valid counts flags computed);
      start = start;
      start_eq = started;
      inside = subst (λ s. start + tables_extent s ≤ length heap) same inside;
    }

pub parse_table_heap-Fits :
    (heap : List ℕ) (pdb : Option PdbHeap) (tolerant : Bool) {tables : TableSet}
    → parse_table_heap heap pdb tolerant ≡ ok tables
    → Fits heap tables
unfolding parse_table_heap
parse_table_heap-Fits heap pdb tolerant {tables} e =
    let (reserved, e₁, r₁) = >>=-eq-ok (Reader.u32 (at heap 0)) _ e in
    let (major, e₂, r₂) = >>=-eq-ok (Reader.u8 reserved.1) _ r₁ in
    let (minor, e₃, r₃) = >>=-eq-ok (Reader.u8 major.1) _ r₂ in
    let (version, r₄) =
      guard_passed (not tolerant && not (major.0 == 1) && not (major.0 == 2)) unsupported _ r₃ in
    let (flags, e₅, r₅) = >>=-eq-ok (Reader.u8 minor.1) _ r₄ in
    let (reserved2, e₆, r₆) = >>=-eq-ok (Reader.u8 flags.1) _ r₅ in
    let (valid, e₇, r₇) = >>=-eq-ok (Reader.u64 reserved2.1) _ r₆ in
    let (sorted, e₈, r₈) = >>=-eq-ok (Reader.u64 valid.1) _ r₇ in
    let (counts, e₉, r₉) =
      >>=-eq-ok (read_counts valid.0 table_count 0 (pdb_counts pdb) sorted.1) _ r₈ in
    let (set, computed, last) = >>=-eq-ok (compute_checked valid.0 counts.0 flags.0) _ r₉ in
    Fits-checked heap valid.0 counts.0 flags.0 set computed last

-- The rows are the table heap from the end of its header on.
pub record Parsed (tables : TableSet) (rows : List ℕ) : Type 0 where
  pub heap : List ℕ
  pub fits : Fits heap tables
  pub rows_length : length rows ≡ length heap - fits.start

slice-length :
    (xs : List ℕ) (start end : ℕ) {ys : List ℕ}
    → slice xs start end ≡ ok ys
    → length ys ≡ end - start
slice-length xs start end {ys} e = elim (Bool-cases (ltb end start || ltb (length xs) end)) [
  | inl out ↦ let refused : panic ≡ ok ys = rw out at e in cc
  | inr within ↦
      let done : ok (take (end - start) (drop start xs)) ≡ ok ys = rw within at e in
      let same : take (end - start) (drop start xs) ≡ ys = cc in
      rw (← same) (length-take (end - start) (drop start xs) (ground (arith, length-drop start xs)))
]

Parsed-rows :
    (heap rows : List ℕ) (tables : TableSet) (start : ℕ)
    → Fits heap tables
    → table_stream_data_start heap ≡ ok start
    → slice heap start (length heap) ≡ ok rows
    → Parsed tables rows
Parsed-rows heap rows tables start fits started sliced =
    let both : ok fits.start ≡ ok start = sym fits.start_eq ∙ started in
    let same : fits.start ≡ start = cc in
    record {
      heap = heap;
      fits = fits;
      rows_length = rw same (slice-length heap start (length heap) sliced);
    }

read_tables-Parsed :
    (heap : List ℕ) (pdb : Option PdbHeap) (tolerant : Bool) {tables : TableSet × List ℕ}
    → read_tables heap pdb tolerant ≡ ok tables
    → Parsed tables.0 tables.1
unfolding read_tables
read_tables-Parsed heap pdb tolerant {tables} e =
    let (set, parsed, r₁) = >>=-eq-ok (parse_table_heap heap pdb tolerant) _ e in
    let (start, started, r₂) = >>=-eq-ok (table_stream_data_start heap) _ r₁ in
    let (rows, sliced, last) = >>=-eq-ok (slice heap start (length heap)) _ r₂ in
    let both : ok (set, rows) ≡ ok tables = last in
    let same : (set, rows) ≡ tables = ok-injective both in
    subst (λ t. Parsed t.0 t.1) same
      (Parsed-rows heap rows set start (parse_table_heap-Fits heap pdb tolerant parsed) started
        sliced)

new_reader-Parsed :
    (version : List ℕ) (found : Streams) (tables : TableSet × List ℕ) (tolerant : Bool) (n : ℕ)
    {reader : MetadataReader}
    → ok (new_reader version found tables tolerant n) ≡ ok reader
    → Parsed tables.0 tables.1
    → Parsed reader.tables reader.table_data
new_reader-Parsed version found tables tolerant n e p =
    subst (λ r. Parsed r.tables r.table_data) (ok-injective e) p

module _ (from_utf8_lossy : List ℕ → List ℕ) where
  pub parse-Parsed :
      (root : List ℕ) (tolerant : Bool) {reader : MetadataReader}
      → parse_with_tolerance from_utf8_lossy root tolerant ≡ ok reader
      → Parsed reader.tables reader.table_data
  unfolding parse_with_tolerance
  parse-Parsed root tolerant {reader} e =
      let (header, e₁, r₁) = >>=-eq-ok (parse_root from_utf8_lossy root) _ e in
      let (found, e₂, r₂) = >>=-eq-ok (take_streams tolerant root header.streams no_streams) _ r₁ in
      let (heap, e₃, r₃) = >>=-eq-ok (ok_or found.table_heap bad_image) _ r₂ in
      let (tables, read, last) = >>=-eq-ok (read_tables heap found.pdb tolerant) _ r₃ in
      new_reader-Parsed header.version found tables tolerant (length root) last
        (read_tables-Parsed heap found.pdb tolerant read)
