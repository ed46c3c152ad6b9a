-- ===== src/Metadata/Builder/HeapBuffer/Held.antt =====
-- crates/cecil-metadata/src/heaps.rs, the lookup of a string or a blob that a heap holds at an index.
use cecil_rs.Base.{
  ℕ, suc, ◌+◌, ◌-◌, ◌%◌, ◌^◌, ◌<◌, ◌≤◌, false, ◌==◌, ◌||◌, Bool-cases, ltb, le→ltb, Option, some,
  List, [], ◌∷◌, ◌++◌, append_assoc, append-nil, length, length-append, take, drop, drop-drop,
  take-append_length, drop-append_length, ◌≡◌, refl, sym, ap, ◌∙◌, inl, inr, if◌then◌else◌, arith,
}
use cecil_rs.Core.Error.{ok, bad_image, ok_or}
use cecil_rs.Core.Reader.{at}
use cecil_rs.Core.Reader.Laws.{Rest}
use cecil_rs.Core.Writer.RoundTrip.{compressed, compressed-Decodes}
use cecil_rs.Metadata.Heaps.{zero_position}
use cecil_rs.Metadata.Heaps.StringHeap
use cecil_rs.Metadata.Heaps.BlobHeap
use cecil_rs.Metadata.Builder.HeapIndex.{empty}
use cecil_rs.Metadata.Builder.HeapIndex.Growth.{Indexed}
use cecil_rs.Metadata.Builder.HeapBuffer.{new}
use cecil_rs.Metadata.Builder.HeapBuffer.Laws.{Holds, HeapOf}
use cecil_rs.Metadata.Builder.HeapBuffer.Strings.{no_prefix, zero_byte}
use cecil_rs.Metadata.Builder.HeapBuffer.Blobs.{length_prefix}

-- The bytes before the first zero byte.
abbrev pub up_to_zero : List ℕ → List ℕ
up_to_zero [] = []
up_to_zero (b ∷ bs) = let rest = up_to_zero bs in if b == 0 then [] else b ∷ rest

zero_position-up_to_zero :
    (s rest : List ℕ) → zero_position (s ++ (0 ∷ rest)) ≡ some (length (up_to_zero s))
zero_position-up_to_zero [] rest = refl
zero_position-up_to_zero (b ∷ bs) rest = elim (Bool-cases (b == 0)) [
  | inl end ↦ rw end refl
  | inr more ↦ rw (more, zero_position-up_to_zero bs rest) refl
]

take-up_to_zero : (s rest : List ℕ) → take (length (up_to_zero s)) (s ++ rest) ≡ up_to_zero s
take-up_to_zero [] rest = refl
take-up_to_zero (b ∷ bs) rest = elim (Bool-cases (b == 0)) [
  | inl end ↦ rw end refl
  | inr more ↦ rw more (ap (λ t. b ∷ t) (take-up_to_zero bs rest))
]

length-up_to_zero : (s : List ℕ) → length (up_to_zero s) ≤ length s
length-up_to_zero [] = omega arith
length-up_to_zero (b ∷ bs) = elim (Bool-cases (b == 0)) [
  | inl end ↦ rw end (omega arith)
  | inr more ↦ rw more (omega (arith, length-up_to_zero bs))
]

-- The tests and the length of a slice of known length.
slice_range : (i n len : ℕ) → i + n ≤ len → (ltb (i + n) i || ltb len (i + n)) ≡ false
slice_range i n len h = ground arith

slice_len : (i n : ℕ) → i + n - i ≡ n
slice_len i n = omega arith

index_inside : (i len : ℕ) → 1 ≤ i → i < len → (i == 0 || ltb (len - 1) i) ≡ false
index_inside i len one below = ground arith

-- A length takes one byte at least.
length-compressed : (v : ℕ) → 1 ≤ length (compressed v)
length-compressed v = elim (Bool-cases (ltb v 0x80)) [
  | inl small ↦ rw small (omega arith)
  | inr large ↦ elim (Bool-cases (ltb v 0x4000)) [
    | inl small ↦ rw (large, small) (omega arith)
    | inr larger ↦ rw (large, larger) (omega arith)
  ]
]

module _ (hash : List ℕ → ℕ) where
  new-Indexed : Indexed hash (0 ∷ []) empty
  new-Indexed = record {
    chained = record { down = λ n h. cc; within = λ n h. cc };
    heads_low = λ h. omega arith;
    few = omega arith;
    complete = λ n h. cc;
    distinct = λ n m h k same. cc;
  }

  pub new-HeapOf : (prefix : List ℕ → List ℕ) (suffix : List ℕ) → HeapOf hash prefix suffix new
  new-HeapOf prefix suffix = record {
    indexed = new-Indexed;
    started = omega arith;
    holds = λ n h. cc;
  }

  pub Holds-get :
      (from_utf8 : List ℕ → Option (List ℕ)) (payload s : List ℕ) (i : ℕ)
      → Holds hash no_prefix zero_byte payload i s
      → StringHeap.get from_utf8 payload i ≡ ok_or (from_utf8 (up_to_zero s)) bad_image
  unfolding StringHeap.get
  Holds-get from_utf8 payload s i h =
      let size : length (s ++ zero_byte) ≡ suc (length s) =
        omega (arith, length-append s zero_byte) in
      let positive : (i == 0) ≡ false = ground (arith, h.positive) in
      let inside : ltb (length payload - 1) i ≡ false =
        le→ltb _ _ (omega (arith, h.within, size)) in
      let there : drop i payload ≡ s ++ (0 ∷ h.rest) =
        h.there_it_is ∙ append_assoc s zero_byte h.rest in
      let end = zero_position-up_to_zero s h.rest in
      let turned : length (up_to_zero s) + i ≡ i + length (up_to_zero s) = omega arith in
      let range =
        slice_range i (length (up_to_zero s)) (length payload)
          (omega (arith, h.within, size, length-up_to_zero s)) in
      rw
        (
          positive,
          inside,
          there,
          end,
          turned,
          range,
          slice_len i (length (up_to_zero s)),
          take-up_to_zero s (0 ∷ h.rest),
        )
        refl

  pub Holds-get_blob :
      (payload blob : List ℕ) (i : ℕ)
      → length blob < 2 ^ 30
      → Holds hash length_prefix [] payload i blob
      → BlobHeap.get payload i ≡ ok blob
  unfolding BlobHeap.get
  Holds-get_blob payload blob i small h =
      let size : length (length_prefix blob ++ (blob ++ []))
          ≡ length (length_prefix blob) + length blob =
        omega (arith, length-append (length_prefix blob) (blob ++ []), length-append blob []) in
      let first =
        index_inside i (length payload) h.positive
          (omega (arith, h.within, size, length-compressed (length blob % 2 ^ 32))) in
      let framed_eq : drop i payload ≡ length_prefix blob ++ (blob ++ h.rest) =
        h.there_it_is
        ∙ append_assoc (length_prefix blob) (blob ++ []) h.rest
        ∙ ap (λ xs. length_prefix blob ++ (xs ++ h.rest)) (append-nil blob) in
      let at_prefix : Rest (at payload i) (length_prefix blob ++ (blob ++ h.rest)) = record {
        within = omega (arith, h.within);
        unread = framed_eq;
      } in
      let read =
        (compressed-Decodes (length blob % 2 ^ 32) (omega arith)).runs (at payload i)
          (blob ++ h.rest) at_prefix in
      let whole : length blob % 2 ^ 32 % 2 ^ 30 ≡ length blob = omega arith in
      let start_in : ltb (length payload) (i + length (length_prefix blob)) ≡ false =
        le→ltb _ _ (omega (arith, h.within, size)) in
      let enough : ltb (length payload - (i + length (length_prefix blob))) (length blob) ≡ false =
        le→ltb _ _ (omega (arith, h.within, size)) in
      let range =
        slice_range (i + length (length_prefix blob)) (length blob) (length payload)
          (omega (arith, h.within, size)) in
      let behind : drop (i + length (length_prefix blob)) payload ≡ blob ++ h.rest =
        sym (drop-drop i (length (length_prefix blob)) payload)
        ∙ ap (λ xs. drop (length (length_prefix blob)) xs) framed_eq
        ∙ drop-append_length (length_prefix blob) (blob ++ h.rest) in
      rw
        (
          first,
          read,
          whole,
          start_in,
          enough,
          range,
          slice_len (i + length (length_prefix blob)) (length blob),
          behind,
          take-append_length blob h.rest,
        )
        refl
