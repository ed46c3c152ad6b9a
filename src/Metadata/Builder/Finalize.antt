-- ===== src/Metadata/Builder/Finalize.antt =====
-- crates/cecil-metadata/src/builder.rs, `MetadataBuilder::finalize`: the streams of the root. A stream's
-- name is the list of its bytes.
use cecil_rs.Base.{ℕ, ◌^◌, bit_or, none, some, List, [], ◌∷◌, length, ltb, if◌then◌else◌}
use cecil_rs.Core.Error.{Result, ok, ◌>>=◌}
use cecil_rs.Core.Writer.{ByteWriter, bytes, u8, u32, u64}
use cecil_rs.Core.Writer
use cecil_rs.Metadata.TableSet.{TableSet, table_count, compute}
use cecil_rs.Metadata.Root.{write_root}
use cecil_rs.Metadata.Builder.Rows.{
  MetadataBuilder, PdbHeapBuffer, count_tables, heap_flags, width_counts, write_counts,
  write_tables,
}

abbrev pub sorted_mask_default : ℕ
sorted_mask_default = 0x00C4_1600_3301_FA00

-- The fixed part of the table stream: reserved word, version, flags, mask, sorted tables.
unfoldable pub table_header : ℕ → ℕ → ByteWriter
table_header flags valid =
    u64 sorted_mask_default (u64 valid (u8 10 (u8 flags (u8 0 (u8 2 (u32 0 Writer.new))))))

unfoldable pub table_stream : MetadataBuilder → (ℕ → ℕ) → ℕ → TableSet → Result (List ℕ)
unfolding table_header write_counts write_tables
table_stream builder counts valid set =
    write_tables builder valid set table_count 0
      (write_counts valid counts table_count 0 (table_header (heap_flags builder) valid))
    >>= λ w. ok w.buf

-- The mask of the `#Pdb` stream, and its counts.
abbrev pub pdb_mask : List (ℕ × ℕ) → ℕ → ℕ
pdb_mask [] valid = valid
pdb_mask ((table, count) ∷ given) valid = pdb_mask given (bit_or valid (2 ^ table))

abbrev pub write_pdb_counts : List (ℕ × ℕ) → ByteWriter → ByteWriter
write_pdb_counts [] w = w
write_pdb_counts ((table, count) ∷ given) w = write_pdb_counts given (u32 count w)

unfoldable pub pdb_stream : PdbHeapBuffer → List ℕ
pdb_stream pdb =
    (write_pdb_counts pdb.table_counts
      (u64 (pdb_mask pdb.table_counts 0) (u32 pdb.entry_point (bytes pdb.id Writer.new)))).buf

-- A stream that is left out where a test fails.
abbrev pub optional : ℕ → List ℕ → List ℕ → List (List ℕ × List ℕ) → List (List ℕ × List ℕ)
optional least name payload rest =
    if ltb (length payload) least then rest else (name, payload) ∷ rest

unfoldable pub streams : MetadataBuilder → List ℕ → List (List ℕ × List ℕ)
unfolding pdb_stream
streams builder tables =
    let pdb : List (List ℕ × List ℕ) = elim builder.pdb [
      | none ↦ []
      | some p ↦ (0x23 ∷ 0x50 ∷ 0x64 ∷ 0x62 ∷ [], pdb_stream p) ∷ []
    ] in
    let blobs = optional 2 (0x23 ∷ 0x42 ∷ 0x6C ∷ 0x6F ∷ 0x62 ∷ []) builder.blobs.payload pdb in
    let guids = optional 1 (0x23 ∷ 0x47 ∷ 0x55 ∷ 0x49 ∷ 0x44 ∷ []) builder.guids.payload blobs in
    let user_strings =
      optional 1 (0x23 ∷ 0x55 ∷ 0x53 ∷ []) builder.user_strings.payload.buf guids in
    (0x23 ∷ 0x7E ∷ [], tables)
    ∷ (0x23 ∷ 0x53 ∷ 0x74 ∷ 0x72 ∷ 0x69 ∷ 0x6E ∷ 0x67 ∷ 0x73 ∷ [], builder.strings.payload)
    ∷ user_strings

unfoldable pub finalize : MetadataBuilder → Result (List ℕ)
unfolding count_tables table_stream streams heap_flags
finalize builder = count_tables builder table_count 0 ((λ i. 0), 0) >>= λ found.
    let (counts, valid) = found in
    let widths : ℕ → ℕ = elim builder.pdb [
      | none ↦ counts
      | some p ↦ width_counts valid p.table_counts counts
    ] in
    table_stream builder counts valid (compute valid widths (heap_flags builder)) >>= λ tables.
    write_root builder.version (streams builder tables)
