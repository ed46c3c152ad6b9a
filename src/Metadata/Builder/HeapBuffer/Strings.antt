-- ===== src/Metadata/Builder/HeapBuffer/Strings.antt =====
-- crates/cecil-metadata/src/builder.rs, `StringHeapBuffer::insert`, and heaps.rs, `StringHeap::get`.
use cecil_rs.Base.{
  ℕ, ◌+◌, ◌%◌, ◌^◌, ◌≤◌, true, false, ◌==◌, Bool-cases, Option, none, some, List, [], ◌∷◌, ◌++◌,
  append_assoc, length, length-append, ◌≡◌, refl, sym, subst, inl, inr, arith,
}
use cecil_rs.Core.Error.{Result, ok, ok-injective, ◌>>=◌, >>=-eq-ok}
use cecil_rs.Metadata.Builder.HeapIndex.{find}
use cecil_rs.Metadata.Builder.HeapIndex.Growth.{Lookup, found, absent, find-Lookup}
use cecil_rs.Metadata.Builder.HeapBuffer.{HeapBuffer, add_string, insert_string}
use cecil_rs.Metadata.Builder.HeapBuffer.Laws.{HeapOf, added}
use cecil_rs.Metadata.Builder.HeapBuffer.Interning.{Inserted, known, grown, Interning}

abbrev pub no_prefix : List ℕ → List ℕ
no_prefix s = []

abbrev pub zero_byte : List ℕ
zero_byte = 0 ∷ []

module _ (hash : List ℕ → ℕ) where
  -- The strings of a heap: each stands at its index before a zero byte.
  abbrev pub StringHeapOf : HeapBuffer → Type 0
  StringHeapOf = HeapOf hash no_prefix zero_byte

  add_string_eq :
      (s : List ℕ) (b : HeapBuffer) → add_string hash s b ≡ added hash no_prefix zero_byte s b
  add_string_eq s b =
      let start : length b.payload + 0 ≡ length b.payload = omega arith in
      rw (append_assoc b.payload s zero_byte, start) refl

  inserted_of :
      (s : List ℕ) (b : HeapBuffer) {r : Result (Option ℕ)}
      → Lookup b.payload s b.map.entries r
      → Inserted hash no_prefix zero_byte s b (
          r >>= λ found_at. elim found_at [
            | some idx ↦ ok (idx, b)
            | none ↦ ok (length b.payload % 2 ^ 32, add_string hash s b)
          ])
  inserted_of s b (found n e at_n same) =
      known e.index
        (record { number = n; entry = e; at_number = at_n; text_eq = same; index_eq = refl })
  inserted_of s b (absent none_has) =
      subst (λ q. Inserted hash no_prefix zero_byte s b (ok (length b.payload % 2 ^ 32, q)))
        (sym (add_string_eq s b)) (grown none_has)

  pub string_inserted :
      (s : List ℕ) (b : HeapBuffer)
      → StringHeapOf b
      → 1 ≤ length s
      → Inserted hash no_prefix zero_byte s b (insert_string hash s b)
  unfolding insert_string
  string_inserted s b good nonempty =
      let some_there : (length s == 0) ≡ false = ground arith in
      rw some_there (inserted_of s b (find-Lookup hash b.payload b.map good.indexed s))

  pub string_empty :
      (s : List ℕ) (b : HeapBuffer) → length s ≡ 0 → insert_string hash s b ≡ ok (0, b)
  unfolding insert_string
  string_empty s b e = let none_there : (length s == 0) ≡ true = ground arith in rw none_there refl

  longer_of :
      (s : List ℕ) (b : HeapBuffer) (found_at : Option ℕ) {r : ℕ × HeapBuffer}
      → ◌≡◌ {A = Result (ℕ × HeapBuffer)}
          (elim found_at [
            | some idx ↦ ok (idx, b)
            | none ↦ ok (length b.payload % 2 ^ 32, add_string hash s b)
          ])
          (ok r)
      → length b.payload ≤ length r.1.payload
  longer_of s b (some idx) e =
      subst (λ q. length b.payload ≤ length q.1.payload) (ok-injective e) (omega arith)
  longer_of s b none e =
      subst (λ q. length b.payload ≤ length q.1.payload) (ok-injective e)
        (omega (arith, length-append (b.payload ++ s) zero_byte, length-append b.payload s))

  pub string_longer :
      (s : List ℕ) (b : HeapBuffer) {r : ℕ × HeapBuffer}
      → insert_string hash s b ≡ ok r
      → length b.payload ≤ length r.1.payload
  unfolding insert_string
  string_longer s b {r} e = elim (Bool-cases (length s == 0)) [
    | inl none_there ↦
        let same : ok (0, b) ≡ ok r = rw none_there at e in
        subst (λ q. length b.payload ≤ length q.1.payload) (ok-injective same) (omega arith)
    | inr some_there ↦
        let run : (find b.map (hash s) b.payload s >>= λ found_at. elim found_at [
          | some idx ↦ ok (idx, b)
          | none ↦ ok (length b.payload % 2 ^ 32, add_string hash s b)
        ])
            ≡ ok r =
          rw some_there at e in
        let (found_at, first, rest) = >>=-eq-ok (find b.map (hash s) b.payload s) _ run in
        longer_of s b found_at rest
  ]

  -- The insertion of strings keeps the laws of a heap.
  unfoldable pub strings : Interning hash no_prefix zero_byte
  strings = record {
    insert = insert_string hash;
    inserted = string_inserted;
    empty = string_empty;
    longer = string_longer;
  }
