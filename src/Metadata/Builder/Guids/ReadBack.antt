-- ===== src/Metadata/Builder/Guids/ReadBack.antt =====
-- crates/cecil-metadata/src/builder.rs, `GuidHeapBuffer::insert`, and heaps.rs, `GuidHeap::get`.
use cecil_rs.Base.{
  ℕ, ◌+◌, ◌-◌, ◌*◌, ◌/◌, ◌%◌, ◌^◌, ◌<◌, ◌≤◌, false, ◌||◌, ◌==◌, ltb, Bool-cases, Option, none, some,
  Option-cases, List, [], ◌∷◌, ◌++◌, All, length, length-append, take, drop, drop-append_left,
  take-append_left, drop-append_length, take-append_length, length-drop, ◌≡◌, refl, sym, ap, subst,
  ◌∙◌, inl, inr, append-nil, arith,
}
use cecil_rs.Core.Error.{ok}
use cecil_rs.Metadata.Root.{same_bytes}
use cecil_rs.Metadata.Heaps.GuidHeap.{get}
use cecil_rs.Metadata.Builder.HeapIndex.Laws.{same_bytes-eq, same_bytes_refl}
use cecil_rs.Metadata.Builder.UserStrings.{lookup}
use cecil_rs.Metadata.Builder.Guids.{GuidHeapBuffer, new, insert}

abbrev pub insert_all : List (List ℕ) → GuidHeapBuffer → GuidHeapBuffer
insert_all [] b = b
insert_all (g ∷ gs) b = insert_all gs (insert g b).1

-- A number of the map names a GUID of the heap.
record Stands (payload : List ℕ) (count i : ℕ) (g : List ℕ) : Type 0 where
  positive : 1 ≤ i
  within : i ≤ count
  bytes_eq : take 16 (drop ((i - 1) * 16) payload) ≡ g

record Numbered (b : GuidHeapBuffer) : Type 0 where
  size : length b.payload ≡ b.count * 16
  stands : (g : List ℕ) {i : ℕ} → lookup g b.map ≡ some i → Stands b.payload b.count i g

record Step (g : List ℕ) (i : ℕ) (b c : GuidHeapBuffer) : Type 0 where
  numbered : Numbered c
  found : lookup g c.map ≡ some i
  keeps : (t : List ℕ) {j : ℕ} → lookup t b.map ≡ some j → lookup t c.map ≡ some j

Stands-append :
    {payload : List ℕ} {count i : ℕ} {g : List ℕ} (more : List ℕ)
    → length payload ≡ count * 16
    → Stands payload count i g
    → Stands (payload ++ more) (count + 1) i g
Stands-append {payload} {count} {i} more size s = record {
  positive = s.positive;
  within = omega (arith, s.within);
  bytes_eq =
      let room = length-drop ((i - 1) * 16) payload in
      let dropped =
        drop-append_left ((i - 1) * 16) payload more (omega (arith, s.within, s.positive)) in
      rw dropped (
        take-append_left 16 (drop ((i - 1) * 16) payload) more
          (omega (arith, room, s.within, s.positive))
        ∙ s.bytes_eq);
}

-- The buffer after a GUID that it did not have.
abbrev extended : List ℕ → GuidHeapBuffer → GuidHeapBuffer
extended g b = record {
  payload = b.payload ++ g;
  count = b.count + 1;
  map = (g, b.count + 1) ∷ b.map;
}

module _ (g : List ℕ) (b : GuidHeapBuffer) (n : Numbered b) (sized : length g ≡ 16)
    (absent : lookup g b.map ≡ none) where
  extended-Stands : Stands (b.payload ++ g) (b.count + 1) (b.count + 1) g
  extended-Stands =
      let place : (b.count + 1 - 1) * 16 ≡ length b.payload = omega (arith, n.size) in
      record {
        positive = omega arith;
        within = omega arith;
        bytes_eq =
            rw (place, drop-append_length b.payload g)
              (subst (λ k. take k g ≡ g) sized
                (ap (λ xs. take (length g) xs) (sym (append-nil g)) ∙ take-append_length g []));
      }

  extended-Numbered : Numbered (extended g b)
  extended-Numbered = record {
    size = omega (arith, length-append b.payload g, n.size, sized);
    stands = λ t {i} h. elim (Bool-cases (same_bytes g t)) [
      | inl same ↦
          let last : some (b.count + 1) ≡ some i = rw same at h in
          let number : b.count + 1 ≡ i = cc in
          rw (← number, ← same_bytes-eq g t same) extended-Stands
      | inr other ↦
          let old : lookup t b.map ≡ some i = rw other at h in
          Stands-append g n.size (n.stands t old)
    ];
  }

  extended-Step : Step g (b.count + 1) b (extended g b)
  extended-Step = record {
    numbered = extended-Numbered;
    found = rw (same_bytes_refl g) refl;
    keeps = λ t {j} h. elim (Bool-cases (same_bytes g t)) [
      | inl same ↦
          let gone : lookup t b.map ≡ none = rw (← same_bytes-eq g t same) absent in
          let contra : ◌≡◌ {A = Option ℕ} none (some j) = sym gone ∙ h in cc
      | inr other ↦ rw other h
    ];
  }

insert_found :
    (g : List ℕ) (b : GuidHeapBuffer) {i : ℕ} → lookup g b.map ≡ some i → insert g b ≡ (i, b)
unfolding insert
insert_found g b e = rw (e, insert) refl

insert_extends :
    (g : List ℕ) (b : GuidHeapBuffer)
    → (b.count + 1) % 2 ^ 32 ≡ b.count + 1
    → lookup g b.map ≡ none
    → insert g b ≡ (b.count + 1, extended g b)
unfolding insert
insert_extends g b count e = rw (e, count, insert) refl

insert-Step :
    (g : List ℕ) (b : GuidHeapBuffer)
    → Numbered b
    → length g ≡ 16
    → length b.payload < 2 ^ 32
    → Step g (insert g b).0 b (insert g b).1
insert-Step g b n sized small = elim (Option-cases (lookup g b.map)) [
  | inr (i, there) ↦
      subst (λ r. Step g r.0 b r.1) (sym (insert_found g b there))
        (record { numbered = n; found = there; keeps = λ t h. h })
  | inl absent ↦
      let count : (b.count + 1) % 2 ^ 32 ≡ b.count + 1 = omega (arith, n.size) in
      subst (λ r. Step g r.0 b r.1) (sym (insert_extends g b count absent))
        (extended-Step g b n sized absent)
]

insert_longer : (g : List ℕ) (b : GuidHeapBuffer) → length b.payload ≤ length (insert g b).1.payload
unfolding insert
insert_longer g b = elim (Option-cases (lookup g b.map)) [
  | inr (i, there) ↦
      subst (λ r. length b.payload ≤ length r.1.payload) (sym (insert_found g b there))
        (omega arith)
  | inl absent ↦ rw (absent, insert) (omega (arith, length-append b.payload g))
]

insert_all_longer :
    (gs : List (List ℕ)) (b : GuidHeapBuffer) → length b.payload ≤ length (insert_all gs b).payload
insert_all_longer [] b = omega arith
insert_all_longer (g ∷ gs) b = omega (arith, insert_longer g b, insert_all_longer gs (insert g b).1)

abbrev pub Sized : List (List ℕ) → Type 0
Sized gs = All (λ g. length g ≡ 16) gs

insert_all_keeps :
    (gs : List (List ℕ)) (b : GuidHeapBuffer)
    → Sized gs
    → Numbered b
    → length (insert_all gs b).payload < 2 ^ 32
    → Numbered (insert_all gs b)
      × ((t : List ℕ) (j : ℕ) → lookup t b.map ≡ some j → lookup t (insert_all gs b).map ≡ some j)
insert_all_keeps [] b sized n small = (n, λ t j h. h)
insert_all_keeps (g ∷ gs) b sized n small =
    let first =
      insert-Step g b n sized.0
        (omega (arith, insert_longer g b, insert_all_longer gs (insert g b).1)) in
    let (rest, keeps) = insert_all_keeps gs (insert g b).1 sized.1 first.numbered small in
    (rest, λ t j h. keeps t j (first.keeps t h))

Numbered-get :
    (b : GuidHeapBuffer) (g : List ℕ) {i : ℕ}
    → Numbered b
    → lookup g b.map ≡ some i
    → get b.payload i ≡ ok g
unfolding get
Numbered-get b g {i} n h =
    let s = n.stands g h in
    let first : (i == 0 || ltb (length b.payload / 16) i) ≡ false =
      ground (arith, s.positive, s.within, n.size) in
    let range : (ltb ((i - 1) * 16 + 16) ((i - 1) * 16)
          || ltb (length b.payload) ((i - 1) * 16 + 16))
        ≡ false =
      ground (arith, s.positive, s.within, n.size) in
    let len : (i - 1) * 16 + 16 - (i - 1) * 16 ≡ 16 = omega arith in
    rw (first, range, len, s.bytes_eq) refl

-- A GUID that is inserted among others into an empty heap has its number from then on: while the heap
-- is below 2^32 bytes, the number reads back as the GUID after every later run of insertions, and a
-- second insertion gives it again and leaves the heap as it is.
pub get-insert_guid :
    (before after : List (List ℕ)) (g : List ℕ)
    → Sized before
    → Sized after
    → length g ≡ 16
    → length (insert_all after (insert g (insert_all before new)).1).payload < 2 ^ 32
    → (get
          (insert_all after (insert g (insert_all before new)).1).payload
          (insert g (insert_all before new)).0
        ≡ ok g)
      × (insert g (insert_all after (insert g (insert_all before new)).1) ≡ (
        (insert g (insert_all before new)).0,
        insert_all after (insert g (insert_all before new)).1,
      ))
get-insert_guid before after g sized_before sized_after sized small =
    let b = insert_all before new in
    let c = insert_all after (insert g b).1 in
    let short : length b.payload < 2 ^ 32 =
      omega (arith, insert_longer g b, insert_all_longer after (insert g b).1) in
    let (numbered, _) =
      insert_all_keeps before new sized_before (record { size = refl; stands = λ t h. cc }) short in
    let one = insert-Step g b numbered sized short in
    let (others, keeps) = insert_all_keeps after (insert g b).1 sized_after one.numbered small in
    (
      Numbered-get c g others (keeps g (insert g b).0 one.found),
      insert_found g c (keeps g (insert g b).0 one.found),
    )
