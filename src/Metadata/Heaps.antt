-- ===== src/Metadata/Heaps.antt =====
-- crates/cecil-metadata/src/heaps.rs: the views over the heaps. A view is its payload, a string the
-- bytes of its UTF-8 form; the conversions of the standard library are parameters.
pub mod StringHeap
pub mod UserStringHeap
pub mod BlobHeap
pub mod GuidHeap
pub mod Pdb
use cecil_rs.Base.{
  ℕ, zero, suc, ◌+◌, ◌-◌, ◌*◌, ◌/◌, ◌%◌, ◌^◌, bit_and, Bool, true, false, not, ◌||◌, Option, none,
  some, List, [], ◌∷◌, ◌++◌, length, take, drop, replicate, ltb, ◌==◌, if◌then◌else◌,
}
use cecil_rs.Base.Bits.{bit_clear}
use cecil_rs.Core.Error.{Result, ok, err, panic, out_of_fuel, bad_image, ok_or, ◌>>=◌}
use cecil_rs.Core.Reader.{ByteReader, Read, at, take_bytes, compressed_u32, return, fail}
use cecil_rs.Core.Reader
use cecil_rs.Core.TableIndex.{TableIndex, value}
use cecil_rs.Metadata.TableSet.{table_count, has_bit}

-- `iter().position(|&b| b == 0)`
abbrev pub zero_position : List ℕ → Option ℕ
zero_position [] = none
zero_position (b ∷ bs) =
    let rest = zero_position bs in
    if b == 0 then some 0 else elim rest [ none ↦ none | some n ↦ some (suc n) ]

-- `&payload[start..end]`
abbrev pub slice : List ℕ → ℕ → ℕ → Result (List ℕ)
slice payload start end =
    if ltb end start || ltb (length payload) end
    then panic
    else ok (take (end - start) (drop start payload))

pub record PdbHeap : Type 0 where
  pub payload : List ℕ
  pub id : List ℕ
  pub entry_point : ℕ
  pub type_system_tables : ℕ
  pub row_counts : ℕ → ℕ

-- `counts[i] = count`
abbrev pub set_count : (ℕ → ℕ) → ℕ → ℕ → ℕ → ℕ
set_count counts i count j = if j == i then count else counts j

-- The loop that reads a count for every bit of a mask, from a table number on.
unfoldable pub read_counts : ℕ → ℕ → ℕ → (ℕ → ℕ) → Read (ℕ → ℕ)
read_counts mask zero i counts r = ok (counts, r)
read_counts mask (suc n) i counts r =
    let skipped = read_counts mask n (suc i) counts r in
    let counted =
      Reader.u32 r >>= λ read. read_counts mask n (suc i) (set_count counts i read.0) read.1 in
    if has_bit mask i then counted else skipped

pub record Heaps : Type 0 where
  pub strings : List ℕ
  pub user_strings : List ℕ
  pub blob : List ℕ
  pub guid : List ℕ
  pub pdb : Option PdbHeap
