-- ===== src/Metadata/Builder/HeapIndex/Insert.antt =====
-- crates/cecil-metadata/src/builder.rs, `HeapIndex::insert` on an indexed heap.
use native.Mathlib.Nat.{mod-eq_of_lt}
use cecil_rs.Base.{
  ℕ, suc, ◌+◌, ◌%◌, ◌^◌, ◌<◌, ◌≤◌, true, Bool-cases, ==_iff, ◌==◌, some, List, [], ◌∷◌, ◌++◌,
  length, length-append, take, drop, get_elem?, get_elem?-append_right, get_elem?-snoc, ◌≡◌, refl,
  sym, ap, subst, ◌∙◌, ◌⊎◌, inl, inr, arith,
}
use cecil_rs.Metadata.Builder.HeapIndex.{HeapEntry, HeapIndex, insert}
use cecil_rs.Metadata.Builder.HeapIndex.Laws.{text, Within, Reach, here, there}
use cecil_rs.Metadata.Builder.HeapIndex.Growth.{Indexed, text-append, Reach-append}

-- What is inserted: a payload's range in the grown heap, which no entry has yet.
pub record Fresh (payload more key : List ℕ) (map : HeapIndex) (start len : ℕ) : Type 0 where
  pub in_heap : start + len ≤ length (payload ++ more)
  pub range : take len (drop start (payload ++ more)) ≡ key
  pub absent : (n : ℕ) (e : HeapEntry) → get_elem? map.entries n ≡ some e → ¬ (text payload e ≡ key)
  pub grows : 1 ≤ length more
  pub small : length payload + 1 < 2 ^ 32

module _ (hash : List ℕ → ℕ) (payload more key : List ℕ) (map : HeapIndex) (start len index : ℕ)
    (x : Indexed hash payload map) (f : Fresh payload more key map start len) where
  abbrev added : HeapEntry
  added = record { start = start; len = len; index = index; next = map.heads (hash key) }

  abbrev count : ℕ
  count = length map.entries

  abbrev grown : List HeapEntry
  grown = map.entries ++ (added ∷ [])

  number : (count % 2 ^ 32 + 1) % 2 ^ 32 ≡ suc count
  number =
      let low : count % 2 ^ 32 ≡ count = mod-eq_of_lt (omega (arith, x.few, f.small)) in
      let next : (count + 1) % 2 ^ 32 ≡ suc count = omega (arith, x.few, f.small) in rw low next

  entry_of :
      (n : ℕ) {e : HeapEntry}
      → get_elem? grown n ≡ some e
      → (get_elem? map.entries n ≡ some e) ⊎ ((n ≡ count) × (added ≡ e))
  entry_of n h = get_elem?-snoc map.entries added n h

  last_at : get_elem? grown count ≡ some added
  last_at =
      let e : count + 0 ≡ count = omega arith in
      subst (λ k. get_elem? grown k ≡ some added) e
        (get_elem?-append_right map.entries (added ∷ []) 0)

  down_grown : (n : ℕ) {e : HeapEntry} → get_elem? grown n ≡ some e → e.next ≤ n
  down_grown n {e} h = elim (entry_of n h) [
    | inl old ↦ x.chained.down n old
    | inr (last, same) ↦ subst (λ e. e.next ≤ n) same (rw last (x.heads_low (hash key)))
  ]

  Within-added : (n : ℕ) {e : HeapEntry} → get_elem? grown n ≡ some e → Within (payload ++ more) e
  Within-added n {e} h = elim (entry_of n h) [
    | inl old ↦ record {
      inside = omega (arith, (x.chained.within n old).inside, length-append payload more);
    }
    | inr (last, same) ↦
        subst (λ e. Within (payload ++ more) e) same (record { inside = f.in_heap })
  ]

  text_old :
      (n : ℕ) {e : HeapEntry}
      → get_elem? map.entries n ≡ some e
      → text (payload ++ more) e ≡ text payload e
  text_old n {e} old = text-append payload more e (x.chained.within n old)

  complete_old :
      (n : ℕ) (k : List ℕ)
      → Reach map.entries (map.heads (hash k)) (suc n)
      → Reach grown ((insert map (hash key) index start len).heads (hash k)) (suc n)
  unfolding insert
  complete_old n k reach = elim (Bool-cases (hash k == hash key)) [
    | inr other ↦ rw other (Reach-append (added ∷ []) reach)
    | inl same ↦
        let eq : hash k ≡ hash key = (==_iff (hash k) (hash key)).0 same in
        let on_chain : Reach map.entries (map.heads (hash key)) (suc n) =
          subst (λ h. Reach map.entries (map.heads h) (suc n)) eq reach in
        rw (same, number) (there count added (suc n) last_at (Reach-append (added ∷ []) on_chain))
  ]

  complete_new : Reach grown ((insert map (hash key) index start len).heads (hash key)) (suc count)
  unfolding insert
  complete_new =
      let same : (hash key == hash key) ≡ true = (==_iff (hash key) (hash key)).1 refl in
      rw (same, number) (here (suc count))

  complete_grown :
      (n : ℕ) {e : HeapEntry}
      → get_elem? grown n ≡ some e
      → Reach grown
          ((insert map (hash key) index start len).heads (hash (text (payload ++ more) e)))
          (suc n)
  complete_grown n {e} h = elim (entry_of n h) [
    | inl old ↦ rw (text_old n old) (complete_old n (text payload e) (x.complete n old))
    | inr (last, same) ↦
        subst
          (λ e.
            Reach grown
              ((insert map (hash key) index start len).heads (hash (text (payload ++ more) e)))
              (suc n))
          same (rw (f.range, last) complete_new)
  ]

  not_new :
      (n : ℕ) {e : HeapEntry}
      → get_elem? map.entries n ≡ some e
      → ¬ (text (payload ++ more) e ≡ key)
  not_new n {e} old same = f.absent n e old (sym (text_old n old) ∙ same)

  distinct_grown :
      (n m : ℕ) {e g : HeapEntry}
      → get_elem? grown n ≡ some e
      → get_elem? grown m ≡ some g
      → text (payload ++ more) e ≡ text (payload ++ more) g
      → n ≡ m
  distinct_grown n m {e} {g} h k same = elim (entry_of n h) [
    | inl old ↦ elim (entry_of m k) [
      | inl old_too ↦ x.distinct n m old old_too (sym (text_old n old) ∙ same ∙ text_old m old_too)
      | inr (last, added_is) ↦
          absurd
            (not_new n old (same ∙ sym (ap (λ e. text (payload ++ more) e) added_is) ∙ f.range))
    ]
    | inr (last, added_is) ↦ elim (entry_of m k) [
      | inl old_too ↦ absurd (
          not_new m old_too
            (sym same ∙ sym (ap (λ e. text (payload ++ more) e) added_is) ∙ f.range))
      | inr (last_too, _) ↦ last ∙ sym last_too
    ]
  ]

  heads_grown : (h : ℕ) → (insert map (hash key) index start len).heads h ≤ suc count
  unfolding insert
  heads_grown h = elim (Bool-cases (h == hash key)) [
    | inl same ↦ rw (same, number) (omega arith)
    | inr other ↦ rw other (omega (arith, x.heads_low h))
  ]

  pub insert-Indexed : Indexed hash (payload ++ more) (insert map (hash key) index start len)
  unfolding insert
  insert-Indexed =
      let longer = length-append map.entries (added ∷ []) in
      record {
        chained = record { down = down_grown; within = Within-added };
        heads_low = λ h. omega (arith, heads_grown h, longer);
        few = omega (arith, longer, x.few, length-append payload more, f.grows);
        complete = complete_grown;
        distinct = distinct_grown;
      }
