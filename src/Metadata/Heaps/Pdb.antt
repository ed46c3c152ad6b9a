-- ===== src/Metadata/Heaps/Pdb.antt =====
-- crates/cecil-metadata/src/heaps.rs, `PdbHeap::parse`: the heap of a portable debug file.
use cecil_rs.Base.{ℕ, ◌/◌, ◌^◌, Bool, not, List, ◌==◌, if◌then◌else◌}
use cecil_rs.Core.Error.{Result, ok, err, bad_image, ◌>>=◌}
use cecil_rs.Core.Reader.{ByteReader, Read, at, take_bytes, compressed_u32, return, fail}
use cecil_rs.Core.Reader
use cecil_rs.Core.TableIndex.{TableIndex, value}
use cecil_rs.Metadata.TableSet.{table_count, has_bit}
use cecil_rs.Metadata.Heaps.{PdbHeap, read_counts}

unfoldable pub parse : List ℕ → Result PdbHeap
unfolding read_counts
parse payload = take_bytes 20 (at payload 0) >>= λ id. Reader.u32 id.1 >>= λ entry.
    Reader.u64 entry.1 >>= λ tables.
    if not (tables.0 / 2 ^ 0x38 == 0)
    then err bad_image
    else (read_counts tables.0 table_count 0 (λ i. 0) tables.1 >>= λ counts. ok (record {
      payload = payload;
      id = id.0;
      entry_point = entry.0;
      type_system_tables = tables.0;
      row_counts = counts.0;
    }))

unfoldable pub has_table : PdbHeap → TableIndex → Bool
has_table heap table = has_bit heap.type_system_tables (value table)

unfoldable pub row_count : PdbHeap → TableIndex → ℕ
row_count heap table = heap.row_counts (value table)
