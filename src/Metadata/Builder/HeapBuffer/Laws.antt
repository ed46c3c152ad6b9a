-- ===== src/Metadata/Builder/HeapBuffer/Laws.antt =====
-- crates/cecil-metadata/src/builder.rs, the heaps of payloads that stand between a prefix and a
-- suffix: strings before a zero byte, blobs behind their length.
use native.Mathlib.Nat.{mod-eq_of_lt}
use cecil_rs.Base.{
  ℕ, ◌+◌, ◌%◌, ◌^◌, ◌<◌, ◌≤◌, some, List, [], ◌∷◌, ◌++◌, append_assoc, append-nil, length,
  length-append, take, drop, drop-drop, get_elem?, get_elem?-snoc, get_elem?-append_left,
  get_elem?-append_right, take-append_length, drop-append_length, drop-append_left, ◌≡◌, refl, sym,
  ap, subst, ◌∙◌, inl, inr, arith,
}
use cecil_rs.Metadata.Builder.HeapIndex.{HeapEntry, insert}
use cecil_rs.Metadata.Builder.HeapIndex.Laws.{text}
use cecil_rs.Metadata.Builder.HeapIndex.Growth.{Indexed, text-append}
use cecil_rs.Metadata.Builder.HeapIndex.Insert.{Fresh, insert-Indexed}
use cecil_rs.Metadata.Builder.HeapBuffer.{HeapBuffer}

module _ (hash : List ℕ → ℕ) (prefix : List ℕ → List ℕ) (suffix : List ℕ) where
  abbrev pub framed : List ℕ → List ℕ
  framed s = prefix s ++ (s ++ suffix)

  -- The framed payload stands at an index of the heap.
  pub record Holds (payload : List ℕ) (index : ℕ) (s : List ℕ) : Type 0 where
    pub positive : 1 ≤ index
    pub within : index + length (framed s) ≤ length payload
    pub rest : List ℕ
    pub there_it_is : drop index payload ≡ framed s ++ rest

  Holds-append :
      {payload : List ℕ} {index : ℕ} {s : List ℕ} (more : List ℕ)
      → Holds payload index s
      → Holds (payload ++ more) index s
  Holds-append {payload} {index} {s} more h = record {
    positive = h.positive;
    within = omega (arith, h.within, length-append payload more);
    rest = h.rest ++ more;
    there_it_is =
        drop-append_left index payload more (omega (arith, h.within))
        ∙ ap (λ xs. xs ++ more) h.there_it_is
        ∙ append_assoc (framed s) h.rest more;
  }

  -- The heap is indexed, and every entry's framed payload stands at the entry's index.
  pub record HeapOf (b : HeapBuffer) : Type 0 where
    pub indexed : Indexed hash b.payload b.map
    pub started : 1 ≤ length b.payload
    pub holds :
        (n : ℕ) {e : HeapEntry}
        → get_elem? b.map.entries n ≡ some e
        → Holds b.payload e.index (text b.payload e)

  -- An entry gives a payload an index.
  pub record Interned (b : HeapBuffer) (s : List ℕ) (index : ℕ) : Type 0 where
    pub number : ℕ
    pub entry : HeapEntry
    pub at_number : get_elem? b.map.entries number ≡ some entry
    pub text_eq : text b.payload entry ≡ s
    pub index_eq : entry.index ≡ index

  pub Interned-unique :
      {b : HeapBuffer} {s : List ℕ} {i j : ℕ} → HeapOf b → Interned b s i → Interned b s j → i ≡ j
  Interned-unique {b} h p q =
      let same =
        h.indexed.distinct p.number q.number p.at_number q.at_number (p.text_eq ∙ sym q.text_eq) in
      let both : some p.entry ≡ some q.entry =
        sym p.at_number ∙ ap (λ n. get_elem? b.map.entries n) same ∙ q.at_number in
      let entries : p.entry ≡ q.entry = cc in
      sym p.index_eq ∙ ap (λ e. e.index) entries ∙ q.index_eq

  pub Interned-Holds :
      {b : HeapBuffer} {s : List ℕ} {i : ℕ} → HeapOf b → Interned b s i → Holds b.payload i s
  Interned-Holds {b} {s} {i} h p =
      subst (λ t. Holds b.payload i t) p.text_eq
        (subst (λ i. Holds b.payload i (text b.payload p.entry)) p.index_eq
          (h.holds p.number p.at_number))

  -- The buffer after a payload that it did not have.
  abbrev pub added : List ℕ → HeapBuffer → HeapBuffer
  added s b = record {
    payload = b.payload ++ framed s;
    map =
        insert b.map (hash s) (length b.payload % 2 ^ 32) (length b.payload + length (prefix s))
          (length s);
  }

  module _ (s : List ℕ) (b : HeapBuffer) (h : HeapOf b) (nonempty : 1 ≤ length s)
      (absent : (n : ℕ) (e : HeapEntry)
        → get_elem? b.map.entries n ≡ some e
        → ¬ (text b.payload e ≡ s))
      (fits : length (b.payload ++ framed s) < 2 ^ 32) where
    length-framed : length (framed s) ≡ length (prefix s) + (length s + length suffix)
    length-framed = omega (arith, length-append (prefix s) (s ++ suffix), length-append s suffix)

    behind_prefix :
        drop (length b.payload + length (prefix s)) (b.payload ++ framed s) ≡ s ++ suffix
    behind_prefix =
        sym (drop-drop (length b.payload) (length (prefix s)) (b.payload ++ framed s))
        ∙ ap (λ xs. drop (length (prefix s)) xs) (drop-append_length b.payload (framed s))
        ∙ drop-append_length (prefix s) (s ++ suffix)

    fresh : Fresh b.payload (framed s) s b.map (length b.payload + length (prefix s)) (length s)
    fresh = record {
      in_heap = omega (arith, length-framed, length-append b.payload (framed s));
      range = ap (λ xs. take (length s) xs) behind_prefix ∙ take-append_length s suffix;
      absent = absent;
      grows = omega (arith, length-framed, nonempty);
      small = omega (arith, length-framed, fits, length-append b.payload (framed s), nonempty);
    }

    index_fits : length b.payload % 2 ^ 32 ≡ length b.payload
    index_fits = mod-eq_of_lt (omega (arith, fits, length-append b.payload (framed s)))

    new_Holds : Holds (b.payload ++ framed s) (length b.payload % 2 ^ 32) s
    new_Holds =
        subst (λ i. Holds (b.payload ++ framed s) i s) (sym index_fits)
          (record {
            positive = h.started;
            within = omega (arith, length-append b.payload (framed s));
            rest = [];
            there_it_is = drop-append_length b.payload (framed s) ∙ sym (append-nil (framed s));
          })

    abbrev new_entry : HeapEntry
    new_entry = record {
      start = length b.payload + length (prefix s);
      len = length s;
      index = length b.payload % 2 ^ 32;
      next = b.map.heads (hash s);
    }

    pub added-Interned : Interned (added s b) s (length b.payload % 2 ^ 32)
    unfolding insert
    added-Interned = record {
      number = length b.map.entries;
      entry = new_entry;
      at_number =
          let e : length b.map.entries + 0 ≡ length b.map.entries = omega arith in
          subst (λ k. get_elem? (added s b).map.entries k ≡ some new_entry) e
            (get_elem?-append_right b.map.entries (new_entry ∷ []) 0);
      text_eq = fresh.range;
      index_eq = refl;
    }

    pub kept : {t : List ℕ} {i : ℕ} → Interned b t i → Interned (added s b) t i
    unfolding insert
    kept p = record {
      number = p.number;
      entry = p.entry;
      at_number = get_elem?-append_left b.map.entries _ p.number p.at_number;
      text_eq =
          text-append b.payload (framed s) p.entry (h.indexed.chained.within p.number p.at_number)
          ∙ p.text_eq;
      index_eq = p.index_eq;
    }

    holds_grown :
        (n : ℕ) {e : HeapEntry}
        → get_elem? (added s b).map.entries n ≡ some e
        → Holds (b.payload ++ framed s) e.index (text (b.payload ++ framed s) e)
    unfolding insert
    holds_grown n {e} at_n = elim (get_elem?-snoc b.map.entries _ n at_n) [
      | inl old ↦
          subst (λ t. Holds (b.payload ++ framed s) e.index t)
            (sym (text-append b.payload (framed s) e (h.indexed.chained.within n old)))
            (Holds-append (framed s) (h.holds n old))
      | inr (last, same) ↦
          subst (λ e. Holds (b.payload ++ framed s) e.index (text (b.payload ++ framed s) e)) same
            (subst (λ t. Holds (b.payload ++ framed s) (length b.payload % 2 ^ 32) t)
              (sym fresh.range) new_Holds)
    ]

    pub added-HeapOf : HeapOf (added s b)
    added-HeapOf = record {
      indexed =
          insert-Indexed hash b.payload (framed s) s b.map (length b.payload + length (prefix s))
            (length s) (length b.payload % 2 ^ 32) h.indexed fresh;
      started = omega (arith, h.started, length-append b.payload (framed s));
      holds = holds_grown;
    }
