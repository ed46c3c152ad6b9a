-- ===== src/Metadata/Heaps/GuidHeap.antt =====
-- crates/cecil-metadata/src/heaps.rs, `GuidHeap`: GUIDs of sixteen bytes.
use cecil_rs.Base.{ℕ, ◌+◌, ◌-◌, ◌*◌, ◌/◌, ◌||◌, List, length, replicate, ltb, ◌==◌, if◌then◌else◌}
use cecil_rs.Core.Error.{Result, ok}
use cecil_rs.Metadata.Heaps.{slice}

unfoldable pub get : List ℕ → ℕ → Result (List ℕ)
get payload index =
    if index == 0 || ltb (length payload / 16) index
    then ok (replicate 16 0)
    else slice payload ((index - 1) * 16) ((index - 1) * 16 + 16)
