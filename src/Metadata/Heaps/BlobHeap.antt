-- ===== src/Metadata/Heaps/BlobHeap.antt =====
-- crates/cecil-metadata/src/heaps.rs, `BlobHeap`: byte blobs after a compressed length.
use cecil_rs.Base.{ℕ, ◌+◌, ◌-◌, ◌||◌, List, [], length, ltb, ◌==◌, if◌then◌else◌}
use cecil_rs.Core.Error.{Result, ok, err, panic, out_of_fuel, bad_image, ◌>>=◌}
use cecil_rs.Core.Reader.{at, compressed_u32}
use cecil_rs.Metadata.Heaps.{slice}

unfoldable pub get : List ℕ → ℕ → Result (List ℕ)
get payload index =
    if index == 0 || ltb (length payload - 1) index
    then ok []
    else (compressed_u32 (at payload index) >>= λ read.
        let start = read.1.position in
        if ltb (length payload) start
        then panic
        else if ltb (length payload - start) read.0
        then err bad_image
        else slice payload start (start + read.0))

-- `unwrap_or(&[])`
unfoldable pub get_tolerant : List ℕ → ℕ → Result (List ℕ)
unfolding get
get_tolerant payload index = elim (get payload index) [
  | ok blob ↦ ok blob
  | err e ↦ ok []
  | panic ↦ panic
  | out_of_fuel ↦ out_of_fuel
]
