-- ===== src/Metadata/Builder/HeapBuffer/ReadBack.antt =====
-- crates/cecil-metadata/src/builder.rs, the heap buffers, read by heaps.rs.
use cecil_rs.Base.{
  ℕ, true, ◌^◌, ◌<◌, ◌==◌, Bool-cases, Option, List, [], ◌∷◌, length, ◌≡◌, refl, sym, ap, ◌∙◌, inl,
  inr, if◌then◌else◌, arith,
}
use cecil_rs.Core.Error.{ok, bad_image, ok_or}
use cecil_rs.Metadata.Heaps.StringHeap
use cecil_rs.Metadata.Heaps.BlobHeap
use cecil_rs.Metadata.Builder.HeapBuffer.{HeapBuffer, new, insert_string, insert_blob}
use cecil_rs.Metadata.Builder.HeapBuffer.Laws.{Interned-Holds}
use cecil_rs.Metadata.Builder.HeapBuffer.Interning.{
  Later, Later-Follows, insert-Interned, insert_empty, insert-Later, insert_succeeds,
}
use cecil_rs.Metadata.Builder.HeapBuffer.Held.{up_to_zero, new-HeapOf, Holds-get, Holds-get_blob}
use cecil_rs.Metadata.Builder.HeapBuffer.Strings.{no_prefix, zero_byte, strings}
use cecil_rs.Metadata.Builder.HeapBuffer.Blobs.{length_prefix, blobs}

no_bytes : (xs : List ℕ) → (length xs == 0) ≡ true → xs ≡ []
no_bytes [] e = refl
no_bytes (x ∷ xs) e = absurd (ground (arith, e))

module _ (hash : List ℕ → ℕ) where
  get-index_0 :
      (from_utf8 : List ℕ → Option (List ℕ)) (payload : List ℕ)
      → StringHeap.get from_utf8 payload 0 ≡ ok []
  unfolding StringHeap.get
  get-index_0 from_utf8 payload = refl

  get_blob-index_0 : (payload : List ℕ) → BlobHeap.get payload 0 ≡ ok []
  unfolding BlobHeap.get
  get_blob-index_0 payload = refl

  -- A string that is inserted into a heap that insertions lead to from the empty one reads back from
  -- its index, in the heap of every later run of insertions, while the heap is below 2^32 bytes: the
  -- empty string as itself, any other as the bytes before its first zero byte, which `from_utf8`, the
  -- standard library's test for UTF-8, takes or refuses.
  pub get-insert_string :
      (from_utf8 : List ℕ → Option (List ℕ)) (s : List ℕ) (b b' c : HeapBuffer) {i : ℕ}
      → Later (insert_string hash) new b
      → insert_string hash s b ≡ ok (i, b')
      → Later (insert_string hash) b' c
      → length c.payload < 2 ^ 32
      → StringHeap.get from_utf8 c.payload i
        ≡ (if length s == 0 then ok [] else ok_or (from_utf8 (up_to_zero s)) bad_image)
  unfolding strings
  get-insert_string from_utf8 s b b' c {i} reached e later fits =
      elim (Bool-cases (length s == 0)) [
        | inl nothing ↦
            let index_0 =
              insert_empty hash no_prefix zero_byte (strings hash) s b (ground arith) e in
            rw (nothing, index_0) (get-index_0 from_utf8 c.payload)
        | inr some_there ↦
            let (good, at_i) =
              insert-Interned hash no_prefix zero_byte (strings hash) s new b b' c
                (new-HeapOf hash no_prefix zero_byte) reached (ground arith) e later fits in
            rw some_there (
              Holds-get hash from_utf8 c.payload s i
                (Interned-Holds hash no_prefix zero_byte good at_i))
      ]

  -- A string that was inserted into a heap that insertions lead to from the empty one is found again in
  -- the heap of every later run of insertions, while the heap is below 2^32 bytes: a second insertion
  -- gives the same index and leaves the heap as it is.
  pub insert_string_again :
      (s : List ℕ) (b b' c : HeapBuffer) {i : ℕ}
      → Later (insert_string hash) new b
      → insert_string hash s b ≡ ok (i, b')
      → Later (insert_string hash) b' c
      → length c.payload < 2 ^ 32
      → insert_string hash s c ≡ ok (i, c)
  unfolding strings
  insert_string_again s b b' c reached e later fits =
      insert-Later hash no_prefix zero_byte (strings hash) s new b b' c
        (new-HeapOf hash no_prefix zero_byte) reached e later fits

  -- A blob of less than 2^30 bytes, empty or not, that is inserted into a heap that insertions lead to
  -- from the empty one reads back from its index, in the heap of every later run of insertions, while
  -- the heap is below 2^32 bytes.
  pub get-insert_blob :
      (blob : List ℕ) (b b' c : HeapBuffer) {i : ℕ}
      → Later (insert_blob hash) new b
      → length blob < 2 ^ 30
      → insert_blob hash blob b ≡ ok (i, b')
      → Later (insert_blob hash) b' c
      → length c.payload < 2 ^ 32
      → BlobHeap.get c.payload i ≡ ok blob
  unfolding blobs
  get-insert_blob blob b b' c {i} reached small e later fits =
      elim (Bool-cases (length blob == 0)) [
        | inl nothing ↦
            let index_0 = insert_empty hash length_prefix [] (blobs hash) blob b (ground arith) e in
            rw index_0 (get_blob-index_0 c.payload ∙ ap ok (sym (no_bytes blob nothing)))
        | inr some_there ↦
            let (good, at_i) =
              insert-Interned hash length_prefix [] (blobs hash) blob new b b' c
                (new-HeapOf hash length_prefix []) reached (ground arith) e later fits in
            Holds-get_blob hash c.payload blob i small
              (Interned-Holds hash length_prefix [] good at_i)
      ]

  -- A blob that was inserted into a heap that insertions lead to from the empty one is found again in
  -- the heap of every later run of insertions, while the heap is below 2^32 bytes: a second insertion
  -- gives the same index and leaves the heap as it is.
  pub insert_blob_again :
      (blob : List ℕ) (b b' c : HeapBuffer) {i : ℕ}
      → Later (insert_blob hash) new b
      → insert_blob hash blob b ≡ ok (i, b')
      → Later (insert_blob hash) b' c
      → length c.payload < 2 ^ 32
      → insert_blob hash blob c ≡ ok (i, c)
  unfolding blobs
  insert_blob_again blob b b' c reached e later fits =
      insert-Later hash length_prefix [] (blobs hash) blob new b b' c
        (new-HeapOf hash length_prefix []) reached e later fits

  -- An insertion of a string or a blob into a heap of less than 2^32 bytes that insertions of its kind
  -- lead to from the empty one gives an index and a heap: the search along the chain of the hash ends,
  -- and no index of it leaves the heap.
  pub inserts_succeed :
      (s : List ℕ) (b c : HeapBuffer)
      → Later (insert_string hash) new b
      → Later (insert_blob hash) new c
      → length b.payload < 2 ^ 32
      → length c.payload < 2 ^ 32
      → ((i : ℕ) × (b' : HeapBuffer) × (insert_string hash s b ≡ ok (i, b')))
        × ((i : ℕ) × (c' : HeapBuffer) × (insert_blob hash s c ≡ ok (i, c')))
  unfolding strings blobs
  inserts_succeed s b c reached reached_too fits fits_too = (
    insert_succeeds hash no_prefix zero_byte (strings hash) s b
        (Later-Follows hash no_prefix zero_byte (strings hash) (new-HeapOf hash no_prefix zero_byte)
          reached fits).good,
    insert_succeeds hash length_prefix [] (blobs hash) s c
        (Later-Follows hash length_prefix [] (blobs hash) (new-HeapOf hash length_prefix [])
          reached_too fits_too).good,
  )
