-- ===== src/Metadata/Builder/HeapIndex/Growth.antt =====
-- crates/cecil-metadata/src/builder.rs, `HeapIndex` as the heap grows.
use cecil_rs.Base.{
  ℕ, suc, ◌≤◌, Option, none, some, List, ◌++◌, length, length-drop, drop, get_elem?,
  get_elem?-append_left, drop-append_left, take-append_left, ◌≡◌, subst, arith,
}
use cecil_rs.Core.Error.{Result, ok}
use cecil_rs.Metadata.Builder.HeapIndex.{HeapEntry, HeapIndex, find}
use cecil_rs.Metadata.Builder.HeapIndex.Laws.{
  text, Within, Reach, here, there, Chained, Search, hit, miss, find_from-Search,
}

pub text-append :
    (payload more : List ℕ) (e : HeapEntry)
    → Within payload e
    → text (payload ++ more) e ≡ text payload e
text-append payload more e w =
    let dropped = drop-append_left e.start payload more (omega (arith, w.inside)) in
    rw dropped (
      take-append_left e.len (drop e.start payload) more
        (omega (arith, length-drop e.start payload, w.inside)))

pub Reach-append :
    {entries : List HeapEntry} (more : List HeapEntry) {a b : ℕ}
    → Reach entries a b
    → Reach (entries ++ more) a b
Reach-append more (here n) = here n
Reach-append {entries} more (there m e k at_m rest) =
    there m e k (get_elem?-append_left entries more m at_m) (Reach-append more rest)

-- An index of the payloads of a heap: every chain goes down and stays inside the heap, every entry is
-- on the chain of its hash, and no payload has two entries.
pub record Indexed (hash : List ℕ → ℕ) (payload : List ℕ) (map : HeapIndex) : Type 0 where
  pub chained : Chained payload map.entries
  pub heads_low : (h : ℕ) → map.heads h ≤ length map.entries
  pub few : length map.entries ≤ length payload
  pub complete :
      (n : ℕ) {e : HeapEntry}
      → get_elem? map.entries n ≡ some e
      → Reach map.entries (map.heads (hash (text payload e))) (suc n)
  pub distinct :
      (n m : ℕ) {e f : HeapEntry}
      → get_elem? map.entries n ≡ some e
      → get_elem? map.entries m ≡ some f
      → text payload e ≡ text payload f
      → n ≡ m

-- What `find` says of a key: the index of the one entry that has it, or that none has.
pub data Lookup (payload key : List ℕ) (entries : List HeapEntry) : Result (Option ℕ) → Type 0 where
  found :
      (n : ℕ) (e : HeapEntry)
      → get_elem? entries n ≡ some e
      → text payload e ≡ key
      → Lookup payload key entries (ok (some e.index))
  absent :
      ((n : ℕ) (e : HeapEntry) → get_elem? entries n ≡ some e → ¬ (text payload e ≡ key))
      → Lookup payload key entries (ok none)

module _ (hash : List ℕ → ℕ) (payload : List ℕ) (map : HeapIndex)
    (x : Indexed hash payload map) where
  looked_up :
      (key : List ℕ) {r : Result (Option ℕ)}
      → Search payload key map.entries (map.heads (hash key)) r
      → Lookup payload key map.entries r
  looked_up key (hit n e at_n same) = found n e at_n same
  looked_up key (miss none_on_chain) = absent (λ n e at_n same.
      none_on_chain n e
        (subst (λ k. Reach map.entries (map.heads (hash k)) (suc n)) same (x.complete n at_n)) at_n
        same)

  -- On an indexed heap, the search along the chain of a key's hash comes to an end inside the heap; it
  -- gives the index of an entry that has the key, or nothing where no entry of the whole index has it.
  pub find-Lookup :
      (key : List ℕ) → Lookup payload key map.entries (find map (hash key) payload key)
  unfolding find
  find-Lookup key =
      let low = x.heads_low (hash key) in
      looked_up key (
        find_from-Search payload key map.entries x.chained (suc (length map.entries))
          (map.heads (hash key)) (omega (arith, x.heads_low (hash key))) (x.heads_low (hash key)))
