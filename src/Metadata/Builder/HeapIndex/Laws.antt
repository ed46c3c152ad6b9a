-- ===== src/Metadata/Builder/HeapIndex/Laws.antt =====
-- crates/cecil-metadata/src/builder.rs, `HeapIndex::find` against the entries of the index.
use cecil_rs.Base.{
  ℕ, zero, suc, ◌+◌, ◌-◌, ◌<◌, ◌≤◌, Bool, true, false, ◌||◌, Bool-cases, ltb, Option, none, some,
  List, [], ◌∷◌, length, take, drop, length-take, length-drop, get_elem?, get_elem?-lt, ◌==◌, ◌≡◌,
  refl, sym, ap, ◌∙◌, ◌⊎◌, inl, inr, arith,
}
use cecil_rs.Core.Error.{Result, ok}
use cecil_rs.Metadata.Root.{same_bytes}
use cecil_rs.Metadata.Builder.HeapIndex.{HeapEntry, matches, find_from}

-- The bytes that an entry stands for.
abbrev pub text : List ℕ → HeapEntry → List ℕ
text payload e = take e.len (drop e.start payload)

pub same_bytes-eq : (xs ys : List ℕ) → same_bytes xs ys ≡ true → xs ≡ ys
same_bytes-eq [] [] h = refl
same_bytes-eq [] (y ∷ ys) h = cc
same_bytes-eq (x ∷ xs) [] h = cc
same_bytes-eq (x ∷ xs) (y ∷ ys) h =
    let head : x ≡ y = ground arith in
    let tail : xs ≡ ys = same_bytes-eq xs ys (ground arith) in rw (head, tail) refl

pub same_bytes_refl : (xs : List ℕ) → same_bytes xs xs ≡ true
same_bytes_refl [] = refl
same_bytes_refl (x ∷ xs) = ground (arith, same_bytes_refl xs)

-- An entry inside the payload.
pub record Within (payload : List ℕ) (e : HeapEntry) : Type 0 where
  pub inside : e.start + e.len ≤ length payload

matches_lem :
    (payload key : List ℕ) (e : HeapEntry)
    → Within payload e
    → (b : Bool) × (matches payload key e ≡ ok b)
      × (b ≡ true → text payload e ≡ key)
      × (text payload e ≡ key → b ≡ true)
unfolding matches
matches_lem payload key e w =
    let size : length (text payload e) ≡ e.len =
      length-take e.len (drop e.start payload)
        (omega (arith, length-drop e.start payload, w.inside)) in
    elim (Bool-cases (e.len == length key)) [
      | inr other ↦ (false, rw other refl, λ h. cc, λ same. absurd (ground (arith, ap length same)))
      | inl same_len ↦
          let range : (ltb (e.start + e.len) e.start || ltb (length payload) (e.start + e.len))
              ≡ false =
            ground (arith, w.inside) in
          let len : e.start + e.len - e.start ≡ e.len = omega arith in
          (
            same_bytes (text payload e) key,
            rw (same_len, range, len) refl,
            λ h. same_bytes-eq (text payload e) key h,
            λ same. rw same (same_bytes_refl key),
          )
    ]

-- The entries of a chain, by their numbers from one on.
pub data Reach (entries : List HeapEntry) : ℕ → ℕ → Type 0 where
  here : (n : ℕ) → Reach entries n n
  there :
      (m : ℕ) (e : HeapEntry) (k : ℕ)
      → get_elem? entries m ≡ some e
      → Reach entries e.next k
      → Reach entries (suc m) k

-- A chain goes down, and its entries lie inside the payload.
pub record Chained (payload : List ℕ) (entries : List HeapEntry) : Type 0 where
  pub down : (n : ℕ) {e : HeapEntry} → get_elem? entries n ≡ some e → e.next ≤ n
  pub within : (n : ℕ) {e : HeapEntry} → get_elem? entries n ≡ some e → Within payload e

-- What a search from an entry finds.
pub data Search (payload key : List ℕ) (entries : List HeapEntry) (entry : ℕ)
    : Result (Option ℕ) → Type 0 where
  hit :
      (n : ℕ) (e : HeapEntry)
      → get_elem? entries n ≡ some e
      → text payload e ≡ key
      → Search payload key entries entry (ok (some e.index))
  miss :
      ((n : ℕ) (e : HeapEntry)
        → Reach entries entry (suc n)
        → get_elem? entries n ≡ some e
        → ¬ (text payload e ≡ key))
      → Search payload key entries entry (ok none)

module _ {entries : List HeapEntry} where
  Reach-zero : {a k : ℕ} → Reach entries a k → a ≡ 0 → k ≡ 0
  Reach-zero (here n) e = e
  Reach-zero (there m e k at_m rest) z = absurd (omega arith)

  Reach-suc :
      {a k : ℕ} (m : ℕ)
      → Reach entries a k
      → a ≡ suc m
      → (suc m ≡ k) ⊎ ((e : HeapEntry) × (get_elem? entries m ≡ some e) × Reach entries e.next k)
  Reach-suc m (here n) z = inl (sym z)
  Reach-suc m (there m' e k at_m rest) z =
      let same : m' ≡ m = omega arith in inr (e, rw same at at_m, rest)

module _ (payload key : List ℕ) (entries : List HeapEntry) where
  go_on :
      (m : ℕ) {e : HeapEntry} {r : Result (Option ℕ)}
      → get_elem? entries m ≡ some e
      → ¬ (text payload e ≡ key)
      → Search payload key entries e.next r
      → Search payload key entries (suc m) r
  go_on m at_m differs (hit n e' at_n same) = hit n e' at_n same
  go_on m {e} at_m differs (miss none_below) = miss (λ n e' reach at_n same.
      elim (Reach-suc m reach refl) [
        | inl here_n ↦
            let number : m ≡ n = omega arith in
            let both : some e ≡ some e' = sym at_m ∙ rw (← number) at at_n in
            let entry : e ≡ e' = cc in differs (rw (← entry) at same)
        | inr (e'', at_m', rest) ↦
            let both : some e'' ≡ some e = sym at_m' ∙ at_m in
            let entry : e'' ≡ e = cc in none_below n e' (rw entry at rest) at_n same
      ])

module _ (payload key : List ℕ) (entries : List HeapEntry) (c : Chained payload entries) where
  Search-there :
      (fuel m : ℕ) (e : HeapEntry)
      → suc m < suc fuel
      → suc m ≤ length entries
      → get_elem? entries m ≡ some e
      → Search payload key entries e.next (find_from fuel entries payload key e.next)
      → Search payload key entries (suc m) (find_from (suc fuel) entries payload key (suc m))
  unfolding find_from
  Search-there fuel m e lt le at_m rest =
      let (b, tested, sound, complete) = matches_lem payload key e (c.within m at_m) in
      let number : suc m - 1 ≡ m = omega arith in
      let positive : (suc m == 0) ≡ false = ground arith in
      elim (Bool-cases b) [
        | inl same ↦ rw (positive, number, at_m, tested, same) (hit m e at_m (sound same))
        | inr other ↦
            rw (positive, number, at_m, tested, other)
              (go_on payload key entries m at_m
                (λ same. let contra : true ≡ false = sym (complete same) ∙ other in cc) rest)
      ]

  -- Enough fuel is one turn more than the number of the entry where the search starts.
  pub find_from-Search :
      (fuel entry : ℕ)
      → entry < fuel
      → entry ≤ length entries
      → Search payload key entries entry (find_from fuel entries payload key entry)
  unfolding find_from
  find_from-Search zero entry lt le = absurd (omega arith)
  find_from-Search (suc fuel) zero lt le =
      miss
        (λ n e reach at_n same. let z : suc n ≡ 0 = Reach-zero reach refl in absurd (omega arith))
  find_from-Search (suc fuel) (suc m) lt le =
      let (e, at_m) = get_elem?-lt m entries (omega arith) in
      let lower = c.down m at_m in
      Search-there fuel m e lt le at_m
        (find_from-Search fuel e.next (omega (arith, c.down m at_m)) (omega (arith, c.down m at_m)))
