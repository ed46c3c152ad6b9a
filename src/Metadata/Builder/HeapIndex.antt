-- ===== src/Metadata/Builder/HeapIndex.antt =====
-- crates/cecil-metadata/src/builder.rs, `HeapIndex`: the ranges of a heap's payloads, chained by
-- their hash. The hash of the standard library is a parameter of the callers. The map of the chains'
-- heads is a function that is 0 where it has no key, as every caller reads it.
pub mod Laws
pub mod Growth
pub mod Insert
use cecil_rs.Base.{
  ℕ, zero, suc, ◌+◌, ◌-◌, ◌%◌, ◌^◌, Bool, true, false, Option, none, some, List, [], ◌∷◌, ◌++◌,
  length, get_elem?, ◌==◌, if◌then◌else◌,
}
use cecil_rs.Core.Error.{Result, ok, out_of_fuel, expect, ◌>>=◌}
use cecil_rs.Metadata.Heaps.{slice}
use cecil_rs.Metadata.Root.{same_bytes}

pub record HeapEntry : Type 0 where
  pub start : ℕ
  pub len : ℕ
  pub index : ℕ
  pub next : ℕ

pub record HeapIndex : Type 0 where
  pub heads : ℕ → ℕ
  pub entries : List HeapEntry

abbrev pub empty : HeapIndex
empty = record { heads = λ hash. 0; entries = [] }

-- The test of a chain's entry: the slice is taken only where the lengths agree.
unfoldable pub matches : List ℕ → List ℕ → HeapEntry → Result Bool
matches payload key row =
    if row.len == length key
    then (slice payload row.start (row.start + row.len) >>= λ text. ok (same_bytes text key))
    else ok false

-- The loop along a chain, on fuel.
unfoldable pub find_from : ℕ → List HeapEntry → List ℕ → List ℕ → ℕ → Result (Option ℕ)
unfolding matches
find_from zero entries payload key entry = out_of_fuel
find_from (suc fuel) entries payload key entry =
    if entry == 0
    then ok none
    else (expect (get_elem? entries (entry - 1)) >>= λ row. matches payload key row >>= λ same.
        if same then ok (some row.index) else find_from fuel entries payload key row.next)

-- A chain goes down in the entries, so their number is fuel enough.
unfoldable pub find : HeapIndex → ℕ → List ℕ → List ℕ → Result (Option ℕ)
unfolding find_from
find map hash payload key =
    find_from (suc (length map.entries)) map.entries payload key (map.heads hash)

unfoldable pub insert : HeapIndex → ℕ → ℕ → ℕ → ℕ → HeapIndex
insert map hash index start len =
    let entry = (length map.entries % 2 ^ 32 + 1) % 2 ^ 32 in
    record {
      heads = λ h. if h == hash then entry else map.heads h;
      entries =
          map.entries
          ++ (record { start = start; len = len; index = index; next = map.heads hash } ∷ []);
    }
