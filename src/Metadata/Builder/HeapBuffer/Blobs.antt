-- ===== src/Metadata/Builder/HeapBuffer/Blobs.antt =====
-- crates/cecil-metadata/src/builder.rs, `BlobHeapBuffer::insert`.
use cecil_rs.Base.{
  ℕ, ◌%◌, ◌^◌, ◌≤◌, true, false, ◌==◌, Bool-cases, Option, none, some, List, [], ◌++◌, append_assoc,
  append-nil, length, length-append, ◌≡◌, refl, sym, ap, subst, inl, inr, arith,
}
use cecil_rs.Core.Error.{Result, ok, ok-injective, ◌>>=◌, >>=-eq-ok}
use cecil_rs.Core.Writer.{compressed_u32}
use cecil_rs.Core.Writer.RoundTrip.{compressed, compressed_u32-Writes}
use cecil_rs.Metadata.Builder.HeapIndex.{find}
use cecil_rs.Metadata.Builder.HeapIndex.Growth.{Lookup, found, absent, find-Lookup}
use cecil_rs.Metadata.Builder.HeapBuffer.{HeapBuffer, add_blob, insert_blob}
use cecil_rs.Metadata.Builder.HeapBuffer.Laws.{HeapOf, added}
use cecil_rs.Metadata.Builder.HeapBuffer.Interning.{Inserted, known, grown, Interning}

abbrev pub length_prefix : List ℕ → List ℕ
length_prefix blob = compressed (length blob % 2 ^ 32)

module _ (hash : List ℕ → ℕ) where
  -- The blobs of a heap: each stands at its index behind its length.
  abbrev pub BlobHeapOf : HeapBuffer → Type 0
  BlobHeapOf = HeapOf hash length_prefix []

  prefixed :
      (blob payload : List ℕ)
      → (compressed_u32 (length blob % 2 ^ 32) (record { buf = payload })).buf
        ≡ payload ++ length_prefix blob
  prefixed blob payload =
      ap (λ w. w.buf)
        ((compressed_u32-Writes (length blob % 2 ^ 32) (omega arith)).appends
          (record { buf = payload }))

  add_blob_eq :
      (blob : List ℕ) (b : HeapBuffer) → add_blob hash blob b ≡ added hash length_prefix [] blob b
  add_blob_eq blob b =
      rw
        (
          prefixed blob b.payload,
          length-append b.payload (length_prefix blob),
          append_assoc b.payload (length_prefix blob) blob,
          append-nil blob,
        )
        refl

  inserted_of :
      (s : List ℕ) (b : HeapBuffer) {r : Result (Option ℕ)}
      → Lookup b.payload s b.map.entries r
      → Inserted hash length_prefix [] s b (
          r >>= λ found_at. elim found_at [
            | some idx ↦ ok (idx, b)
            | none ↦ ok (length b.payload % 2 ^ 32, add_blob hash s b)
          ])
  inserted_of s b (found n e at_n same) =
      known e.index
        (record { number = n; entry = e; at_number = at_n; text_eq = same; index_eq = refl })
  inserted_of s b (absent none_has) =
      subst (λ q. Inserted hash length_prefix [] s b (ok (length b.payload % 2 ^ 32, q)))
        (sym (add_blob_eq s b)) (grown none_has)

  pub blob_inserted :
      (s : List ℕ) (b : HeapBuffer)
      → BlobHeapOf b
      → 1 ≤ length s
      → Inserted hash length_prefix [] s b (insert_blob hash s b)
  unfolding insert_blob
  blob_inserted s b good nonempty =
      let some_there : (length s == 0) ≡ false = ground arith in
      rw some_there (inserted_of s b (find-Lookup hash b.payload b.map good.indexed s))

  pub blob_empty : (s : List ℕ) (b : HeapBuffer) → length s ≡ 0 → insert_blob hash s b ≡ ok (0, b)
  unfolding insert_blob
  blob_empty s b e = let none_there : (length s == 0) ≡ true = ground arith in rw none_there refl

  longer_of :
      (s : List ℕ) (b : HeapBuffer) (found_at : Option ℕ) {r : ℕ × HeapBuffer}
      → ◌≡◌ {A = Result (ℕ × HeapBuffer)}
          (elim found_at [
            | some idx ↦ ok (idx, b)
            | none ↦ ok (length b.payload % 2 ^ 32, add_blob hash s b)
          ])
          (ok r)
      → length b.payload ≤ length r.1.payload
  longer_of s b (some idx) e =
      subst (λ q. length b.payload ≤ length q.1.payload) (ok-injective e) (omega arith)
  longer_of s b none e =
      subst (λ q. length b.payload ≤ length q.1.payload) (ok-injective e)
        (rw (prefixed s b.payload) (
          omega (
            arith,
            length-append (b.payload ++ length_prefix s) s,
            length-append b.payload (length_prefix s),
          )))

  pub blob_longer :
      (s : List ℕ) (b : HeapBuffer) {r : ℕ × HeapBuffer}
      → insert_blob hash s b ≡ ok r
      → length b.payload ≤ length r.1.payload
  unfolding insert_blob
  blob_longer s b {r} e = elim (Bool-cases (length s == 0)) [
    | inl none_there ↦
        let same : ok (0, b) ≡ ok r = rw none_there at e in
        subst (λ q. length b.payload ≤ length q.1.payload) (ok-injective same) (omega arith)
    | inr some_there ↦
        let run : (find b.map (hash s) b.payload s >>= λ found_at. elim found_at [
          | some idx ↦ ok (idx, b)
          | none ↦ ok (length b.payload % 2 ^ 32, add_blob hash s b)
        ])
            ≡ ok r =
          rw some_there at e in
        let (found_at, first, rest) = >>=-eq-ok (find b.map (hash s) b.payload s) _ run in
        longer_of s b found_at rest
  ]

  -- The insertion of blobs keeps the laws of a heap.
  unfoldable pub blobs : Interning hash length_prefix []
  blobs = record {
    insert = insert_blob hash;
    inserted = blob_inserted;
    empty = blob_empty;
    longer = blob_longer;
  }
