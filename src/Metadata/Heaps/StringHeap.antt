-- ===== src/Metadata/Heaps/StringHeap.antt =====
-- crates/cecil-metadata/src/heaps.rs, `StringHeap`: strings that end at a zero byte. The UTF-8 conversions of the
-- standard library are parameters.
use cecil_rs.Base.{
  ℕ, ◌+◌, ◌-◌, Option, none, some, List, [], length, take, drop, ltb, ◌==◌, if◌then◌else◌,
}
use cecil_rs.Core.Error.{Result, ok, bad_image, ok_or, ◌>>=◌}
use cecil_rs.Metadata.Heaps.{zero_position, slice}

module _ (from_utf8 : List ℕ → Option (List ℕ)) where
  unfoldable pub get : List ℕ → ℕ → Result (List ℕ)
  get payload index =
      if index == 0
      then ok []
      else if ltb (length payload - 1) index
      then ok []
      else (ok_or (zero_position (drop index payload)) bad_image >>= λ end.
          slice payload index (end + index) >>= λ text. ok_or (from_utf8 text) bad_image)

module _ (from_utf8_lossy : List ℕ → List ℕ) where
  unfoldable pub get_lossy : List ℕ → ℕ → List ℕ
  get_lossy payload index =
      if index == 0
      then []
      else if ltb (length payload) index
      then []
      else (let tail = drop index payload in
          from_utf8_lossy
            (take (elim (zero_position tail) [ none ↦ length tail | some n ↦ n ]) tail))
