-- ===== src/Metadata/Builder/HeapBuffer/Interning.antt =====
-- crates/cecil-metadata/src/builder.rs, runs of insertions into a heap.
use cecil_rs.Base.{
  ℕ, ◌%◌, ◌^◌, ◌<◌, ◌≤◌, List, length, some, get_elem?, ◌==◌, Bool-cases, ◌≡◌, refl, sym, ap, subst,
  ◌∙◌, inl, inr, arith,
}
use cecil_rs.Core.Error.{Result, ok, ok-injective}
use cecil_rs.Metadata.Builder.HeapIndex.{HeapEntry}
use cecil_rs.Metadata.Builder.HeapIndex.Laws.{text}
use cecil_rs.Metadata.Builder.HeapBuffer.{HeapBuffer}
use cecil_rs.Metadata.Builder.HeapBuffer.Laws.{
  HeapOf, Interned, Interned-unique, added, added-HeapOf, added-Interned, kept,
}

-- The buffers that insertions lead to.
pub data Later (insert : List ℕ → HeapBuffer → Result (ℕ × HeapBuffer))
    : HeapBuffer → HeapBuffer → Type 0 where
  done : (b : HeapBuffer) → Later insert b b
  step :
      (s : List ℕ) (i : ℕ) (b b' c : HeapBuffer)
      → insert s b ≡ ok (i, b')
      → Later insert b' c
      → Later insert b c

module _ (hash : List ℕ → ℕ) (prefix : List ℕ → List ℕ) (suffix : List ℕ) where
  -- What an insertion of a payload does: it finds the payload's index, or appends the payload.
  pub data Inserted (s : List ℕ) (b : HeapBuffer) : Result (ℕ × HeapBuffer) → Type 0 where
    known : (i : ℕ) → Interned hash prefix suffix b s i → Inserted s b (ok (i, b))
    grown :
        ((n : ℕ) (e : HeapEntry) → get_elem? b.map.entries n ≡ some e → ¬ (text b.payload e ≡ s))
        → Inserted s b (ok (length b.payload % 2 ^ 32, added hash prefix suffix s b))

  -- A heap's insertion, with its laws.
  pub record Interning : Type 0 where
    pub insert : List ℕ → HeapBuffer → Result (ℕ × HeapBuffer)
    pub inserted :
        (s : List ℕ) (b : HeapBuffer)
        → HeapOf hash prefix suffix b
        → 1 ≤ length s
        → Inserted s b (insert s b)
    pub empty : (s : List ℕ) (b : HeapBuffer) → length s ≡ 0 → insert s b ≡ ok (0, b)
    pub longer :
        (s : List ℕ) (b : HeapBuffer) {r : ℕ × HeapBuffer}
        → insert s b ≡ ok r
        → length b.payload ≤ length r.1.payload

  -- A good buffer, in which everything of an earlier one has kept its index.
  pub record Follows (b c : HeapBuffer) : Type 0 where
    pub good : HeapOf hash prefix suffix c
    pub keeps :
        {t : List ℕ} {j : ℕ} → Interned hash prefix suffix b t j → Interned hash prefix suffix c t j

  module _ (h : Interning) where
    Later-length : {b c : HeapBuffer} → Later h.insert b c → length b.payload ≤ length c.payload
    Later-length (done b) = omega arith
    Later-length (step s i b b' c e rest) = omega (arith, h.longer s b e, Later-length rest)

    after_insert :
        (s : List ℕ) (b : HeapBuffer) {r : Result (ℕ × HeapBuffer)} {i : ℕ} {b' : HeapBuffer}
        → HeapOf hash prefix suffix b
        → 1 ≤ length s
        → Inserted s b r
        → r ≡ ok (i, b')
        → length b'.payload < 2 ^ 32
        → Follows b b' × Interned hash prefix suffix b' s i
    after_insert s b {r} {i} {b'} good nonempty (known j p) e fits =
        let both : (j, b) ≡ (i, b') = ok-injective e in
        subst (λ q. Follows b q.1 × Interned hash prefix suffix q.1 s q.0) both
          (record { good = good; keeps = λ q. q }, p)
    after_insert s b {r} {i} {b'} good nonempty (grown absent) e fits =
        let both : (length b.payload % 2 ^ 32, added hash prefix suffix s b) ≡ (i, b') =
          ok-injective e in
        let small : length (added hash prefix suffix s b).payload < 2 ^ 32 =
          subst (λ q. length q.1.payload < 2 ^ 32) (sym both) fits in
        subst (λ q. Follows b q.1 × Interned hash prefix suffix q.1 s q.0) both
          (
            record {
              good = added-HeapOf hash prefix suffix s b good nonempty absent small;
              keeps = λ p. kept hash prefix suffix s b good nonempty absent small p;
            },
            added-Interned hash prefix suffix s b good nonempty absent small,
          )

    insert-Follows :
        (s : List ℕ) (b : HeapBuffer) {i : ℕ} {b' : HeapBuffer}
        → HeapOf hash prefix suffix b
        → h.insert s b ≡ ok (i, b')
        → length b'.payload < 2 ^ 32
        → Follows b b'
    insert-Follows s b {i} {b'} good e fits = elim (Bool-cases (length s == 0)) [
      | inl none_there ↦
          let both : (0, b) ≡ (i, b') = ok-injective (sym (h.empty s b (ground arith)) ∙ e) in
          subst (λ q. Follows b q.1) both (record { good = good; keeps = λ q. q })
      | inr some_there ↦
          (after_insert s b good (ground arith) (h.inserted s b good (ground arith)) e fits).0
    ]

    pub Later-Follows :
        {b c : HeapBuffer}
        → HeapOf hash prefix suffix b
        → Later h.insert b c
        → length c.payload < 2 ^ 32
        → Follows b c
    Later-Follows good (done b) fits = record { good = good; keeps = λ p. p }
    Later-Follows good (step s i b b' c e rest) fits =
        let first = insert-Follows s b good e (omega (arith, Later-length rest)) in
        let others = Later-Follows first.good rest fits in
        record { good = others.good; keeps = λ p. others.keeps (first.keeps p) }

    -- What is inserted keeps its index in every later buffer, unless it is empty.
    pub insert-Interned :
        (s : List ℕ) (a b b' c : HeapBuffer) {i : ℕ}
        → HeapOf hash prefix suffix a
        → Later h.insert a b
        → 1 ≤ length s
        → h.insert s b ≡ ok (i, b')
        → Later h.insert b' c
        → length c.payload < 2 ^ 32
        → HeapOf hash prefix suffix c × Interned hash prefix suffix c s i
    insert-Interned s a b b' c good reached nonempty e later fits =
        let short : length b'.payload < 2 ^ 32 = omega (arith, Later-length later) in
        let before = Later-Follows good reached (omega (arith, h.longer s b e)) in
        let (first, at_i) =
          after_insert s b before.good nonempty (h.inserted s b before.good nonempty) e short in
        let others = Later-Follows first.good later fits in (others.good, others.keeps at_i)

    Inserted-ok :
        (s : List ℕ) (b : HeapBuffer) {r : Result (ℕ × HeapBuffer)}
        → Inserted s b r
        → (i : ℕ) × (b' : HeapBuffer) × (r ≡ ok (i, b'))
    Inserted-ok s b (known i p) = (i, b, refl)
    Inserted-ok s b (grown absent) = (_, _, refl)

    -- On a good buffer an insertion comes to an end without a panic.
    pub insert_succeeds :
        (s : List ℕ) (b : HeapBuffer)
        → HeapOf hash prefix suffix b
        → (i : ℕ) × (b' : HeapBuffer) × (h.insert s b ≡ ok (i, b'))
    insert_succeeds s b good = elim (Bool-cases (length s == 0)) [
      | inl none_there ↦ (0, b, h.empty s b (ground arith))
      | inr some_there ↦ Inserted-ok s b (h.inserted s b good (ground arith))
    ]

    again :
        (s : List ℕ) (c : HeapBuffer) {r : Result (ℕ × HeapBuffer)} {i : ℕ}
        → HeapOf hash prefix suffix c
        → Interned hash prefix suffix c s i
        → Inserted s c r
        → r ≡ ok (i, c)
    again s c good p (known j q) = ap (λ k. ok (k, c)) (Interned-unique hash prefix suffix good q p)
    again s c good p (grown absent) = absurd (absent p.number p.entry p.at_number p.text_eq)

    insert_again :
        (s : List ℕ) (c : HeapBuffer) {i : ℕ}
        → HeapOf hash prefix suffix c
        → 1 ≤ length s
        → Interned hash prefix suffix c s i
        → h.insert s c ≡ ok (i, c)
    insert_again s c good nonempty p = again s c good p (h.inserted s c good nonempty)

    -- An insertion of nothing has the index 0 and changes nothing.
    pub insert_empty :
        (s : List ℕ) (b : HeapBuffer) {i : ℕ} {b' : HeapBuffer}
        → length s ≡ 0
        → h.insert s b ≡ ok (i, b')
        → i ≡ 0
    insert_empty s b {i} {b'} none_there e =
        let both : (0, b) ≡ (i, b') = ok-injective (sym (h.empty s b none_there) ∙ e) in
        sym (ap (λ q. q.0) both)

    -- What was inserted is found again in every later buffer.
    pub insert-Later :
        (s : List ℕ) (a b b' c : HeapBuffer) {i : ℕ}
        → HeapOf hash prefix suffix a
        → Later h.insert a b
        → h.insert s b ≡ ok (i, b')
        → Later h.insert b' c
        → length c.payload < 2 ^ 32
        → h.insert s c ≡ ok (i, c)
    insert-Later s a b b' c good reached e later fits = elim (Bool-cases (length s == 0)) [
      | inl nothing ↦
          let none_there : length s ≡ 0 = ground arith in
          h.empty s c none_there ∙ ap (λ k. ok (k, c)) (sym (insert_empty s b none_there e))
      | inr some_there ↦
          let nonempty : 1 ≤ length s = ground arith in
          let (there, at_i) = insert-Interned s a b b' c good reached nonempty e later fits in
          insert_again s c there nonempty at_i
    ]
