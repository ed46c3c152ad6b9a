-- ===== src/Metadata/TableSet/Checked.antt =====
-- crates/cecil-metadata/src/tables.rs, `TableSet::compute_checked`: what its two tests say.
use cecil_rs.Base.{
  ℕ, zero, suc, ◌<◌, ◌≤◌, Bool, true, false, ◌&&◌, ◌||◌, Bool-cases, none, some, Option-cases, ltb,
  ltb→le, ◌≡◌, refl, inl, inr, trichotomy, arith,
}
use cecil_rs.Core.Error.{ok, err, bad_image, unsupported}
use cecil_rs.Core.TableIndex.{from_u8}
use cecil_rs.Metadata.Schema.{column_kinds}
use cecil_rs.Metadata.TableSet.{
  TableSet, has_bit, kinds_at, any_too_many, any_unknown, compute, compute_checked,
}

or_false : (a b : Bool) → (a || b) ≡ false → (a ≡ false) × (b ≡ false)
or_false true b h = cc
or_false false b h = (refl, h)

module _ (valid : ℕ) (counts : ℕ → ℕ) (flags : ℕ) where
  any_too_many_lem :
      (n j : ℕ) → any_too_many valid counts flags n ≡ false → j < n → counts j ≤ 0x00FF_FFFF
  unfolding any_too_many
  any_too_many_lem zero j h lt = absurd (omega arith)
  any_too_many_lem (suc n) j h lt =
      let (before, last) =
        or_false (any_too_many valid counts flags n) (ltb 0x00FF_FFFF (counts n)) h in
      elim (trichotomy j n) [
        | inl less ↦ any_too_many_lem n j before less
        | inr (inl same) ↦ rw same (ltb→le 0x00FF_FFFF (counts n) last)
        | inr (inr more) ↦ absurd (omega arith)
      ]

  known_bit :
      (i : ℕ)
      → has_bit valid i ≡ true
      → (has_bit valid i && elim (from_u8 i) [
        | none ↦ true
        | some table ↦ elim (column_kinds table) [ none ↦ true | some kinds ↦ false ]
      ])
        ≡ false
      → (kinds : _) × (kinds_at valid counts flags i ≡ some kinds)
  unfolding kinds_at
  known_bit i set h = elim (Option-cases (from_u8 i)) [
    | inl unknown ↦ let contra : true ≡ false = rw (set, unknown) at h in cc
    | inr (t, known) ↦ elim (Option-cases (column_kinds t)) [
      | inl missing ↦ let contra : true ≡ false = rw (set, known, missing) at h in cc
      | inr (kinds, found) ↦ (kinds, rw (set, known) found)
    ]
  ]

  any_unknown_lem :
      (n i : ℕ)
      → any_unknown valid counts flags n ≡ false
      → i < n
      → has_bit valid i ≡ true
      → (kinds : _) × (kinds_at valid counts flags i ≡ some kinds)
  unfolding any_unknown
  any_unknown_lem zero i h lt set = absurd (omega arith)
  any_unknown_lem (suc n) i h lt set =
      let (before, last) = or_false (any_unknown valid counts flags n) _ h in
      elim (trichotomy i n) [
        | inl less ↦ any_unknown_lem n i before less set
        | inr (inl same) ↦ rw same (known_bit n (rw same at set) last)
        | inr (inr more) ↦ absurd (omega arith)
      ]

  -- A checked set is the computed one, with every count and every bit of the mask known.
  pub record Checked (set : TableSet) : Type 0 where
    pub same : set ≡ compute valid counts flags
    pub few : (j : ℕ) → j < 56 → counts j ≤ 0x00FF_FFFF
    pub known :
        (i : ℕ)
        → i < 64
        → has_bit valid i ≡ true
        → (kinds : _) × (kinds_at valid counts flags i ≡ some kinds)

  pub compute_checked-Checked :
      {set : TableSet} → compute_checked valid counts flags ≡ ok set → Checked set
  unfolding compute_checked
  compute_checked-Checked {set} e = elim (Bool-cases (any_too_many valid counts flags 56)) [
    | inl many ↦ let refused : err bad_image ≡ ok set = rw many at e in cc
    | inr few ↦ elim (Bool-cases (any_unknown valid counts flags 64)) [
      | inl unknown ↦ let refused : err unsupported ≡ ok set = rw (few, unknown) at e in cc
      | inr known ↦
          let done : ok (compute valid counts flags) ≡ ok set = rw (few, known) at e in
          record {
            same = cc;
            few = λ j lt. any_too_many_lem 56 j few lt;
            known = λ i lt bit. any_unknown_lem 64 i known lt bit;
          }
    ]
  ]
