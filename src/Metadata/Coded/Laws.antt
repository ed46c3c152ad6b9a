-- ===== src/Metadata/Coded/Laws.antt =====
-- crates/cecil-core/src/token.rs and crates/cecil-metadata/src/tables.rs: encoding against decoding
-- of a coded index.
use native.Mathlib.Nat.{
  mul-add-div_right, mod-eq_of_lt, mod-lt, mul-le-mul, pow-le-pow_right, div-eq_of_lt,
  mul-add-mod_self_right, div-add-mod',
}
use cecil_rs.Base.{
  ℕ, zero, suc, ◌+◌, ◌-◌, ◌*◌, ◌/◌, ◌%◌, ◌^◌, ◌<◌, ◌≤◌, bit_and, bit_or, Bool, true, false, ◌&&◌,
  not, Option, none, some, List, [], ◌∷◌, length, get_elem?, get_elem?-below, ltb, leb, le→ltb,
  ==_iff, Bool-cases, Option-cases, ◌≡◌, refl, ap, ◌∙◌, inl, inr, arith,
}
use cecil_rs.Base.Bits.{bit_or_disjoint, bit_and_mask, pow_pos}
use cecil_rs.Core.Error.{ok, err, argument, ok_or, >>=-eq-ok, ok_or-eq_ok}
use cecil_rs.Core.TableIndex.{TableIndex, value}
use cecil_rs.Core.TableIndex.Laws.{value-injective, is_some}
use cecil_rs.Metadata.Coded.{
  CodedIndexGroup, is_table, position, encode_coded, decode_tag, decode_coded,
}

-- No table stands twice.
abbrev pub distinct : List TableIndex → Bool
distinct [] = true
distinct (t ∷ us) = not (is_some (position t us)) && distinct us

-- A group whose tags fit its bits, which leave room for a row of 24 bits.
abbrev pub tags_fit : CodedIndexGroup → Bool
tags_fit g = leb (g.first_tag + length g.tables) (2 ^ g.tag_bits) && leb g.tag_bits 40

-- Such a group, in which no table stands twice.
abbrev pub well_formed : CodedIndexGroup → Bool
well_formed g = distinct g.tables && tags_fit g

pub is_table-eq : (t u : TableIndex) → is_table t u ≡ true → t ≡ u
unfolding is_table
is_table-eq t u h = value-injective t u ((==_iff (value t) (value u)).0 h)

pub is_table-same : (t : TableIndex) → is_table t t ≡ true
unfolding is_table
is_table-same t = (==_iff (value t) (value t)).1 refl

pub position-get :
    (t : TableIndex) (us : List TableIndex) {i : ℕ}
    → position t us ≡ some i
    → get_elem? us i ≡ some t
unfolding position
position-get t [] h = cc
position-get t (u ∷ us) {i} h = elim (Bool-cases (is_table u t)) [
  | inl e ↦
      let hit : some 0 ≡ some i = rw e at h in
      let here : 0 ≡ i = cc in rw (← here) (ap some (is_table-eq u t e))
  | inr e ↦ elim (Option-cases (position t us)) [
    | inl miss ↦ let none_at : none ≡ some i = rw (e, miss) at h in cc
    | inr (j, found) ↦
        let hit : some (suc j) ≡ some i = rw (e, found) at h in
        let there : suc j ≡ i = cc in rw (← there) (position-get t us found)
  ]
]

-- In a list without repetitions a table stands only at its position.
pub get-position :
    (us : List TableIndex) {t : TableIndex} (i : ℕ)
    → distinct us ≡ true
    → get_elem? us i ≡ some t
    → position t us ≡ some i
unfolding position
get-position [] i d h = cc
get-position (u ∷ us) {t} zero d h = let same : u ≡ t = cc in rw (same, is_table-same t) refl
get-position (u ∷ us) {t} (suc i) d h =
    let rest : position t us ≡ some i = get-position us i (ground arith) h in
    elim (Bool-cases (is_table u t)) [
      | inl e ↦
          let here : position u us ≡ some i = rw (is_table-eq u t e) rest in
          let twice : (not (is_some (some i)) && distinct us) ≡ true = rw here at d in cc
      | inr e ↦ rw (e, rest) refl
    ]

-- The word of a tag below a row id.
tag_word :
    (k rid tag : ℕ)
    → k ≤ 40
    → rid ≤ 0x00FF_FFFF
    → tag < 2 ^ k
    → bit_or (rid * 2 ^ k % 2 ^ 64) tag ≡ rid * 2 ^ k + tag
tag_word k rid tag hk hr ht =
    let p : 2 ^ k ≤ 2 ^ 40 = pow-le-pow_right (omega arith) hk in
    let q : rid * 2 ^ k ≤ 0x00FF_FFFF * 2 ^ 40 = mul-le-mul hr p in
    let fits : rid * 2 ^ k % 2 ^ 64 ≡ rid * 2 ^ k = mod-eq_of_lt (omega arith) in
    rw fits (bit_or_disjoint k rid tag ht)

-- What the tests of a group say.
record TagsFit (g : CodedIndexGroup) : Type 0 where
  room : g.first_tag + length g.tables ≤ 2 ^ g.tag_bits
  few_bits : g.tag_bits ≤ 40

tags_fit-TagsFit : (g : CodedIndexGroup) → tags_fit g ≡ true → TagsFit g
tags_fit-TagsFit g h = record { room = ground arith; few_bits = ground arith }

module _ (g : CodedIndexGroup) (t : TableIndex) (rid : ℕ) where
  encode_coded_eq :
      {v : ℕ}
      → TagsFit g
      → encode_coded g t rid ≡ ok v
      → (i : ℕ) × (position t g.tables ≡ some i)
        × (rid ≤ 0x00FF_FFFF)
        × (v ≡ rid * 2 ^ g.tag_bits + (i + g.first_tag))
  unfolding encode_coded
  encode_coded_eq {v} w e =
      let (i, found, rest) = >>=-eq-ok (ok_or (position t g.tables) argument) _ e in
      let at_i = ok_or-eq_ok (position t g.tables) argument found in
      let below = get_elem?-below g.tables i (position-get t g.tables at_i) in
      elim (Bool-cases (ltb 0x00FF_FFFF rid)) [
        | inl over ↦ let refused : err argument ≡ ok v = rw over at rest in cc
        | inr fits ↦
            let value_of : ok (bit_or (rid * 2 ^ g.tag_bits % 2 ^ 64) (i + g.first_tag)) ≡ ok v =
              rw fits at rest in
            let small : rid ≤ 0x00FF_FFFF = ground arith in
            let word =
              tag_word g.tag_bits rid (i + g.first_tag) w.few_bits small (omega (arith, w.room)) in
            (i, at_i, small, cc)
      ]

  decode_tag_eq :
      (i : ℕ)
      → rid ≤ 0x00FF_FFFF
      → get_elem? g.tables i ≡ some t
      → decode_tag g (i + g.first_tag) rid ≡ some (t, rid)
  unfolding decode_tag
  decode_tag_eq i small at_i =
      let fits : ltb 0x00FF_FFFF rid ≡ false = le→ltb _ _ small in
      let above : ltb (i + g.first_tag) g.first_tag ≡ false = le→ltb _ _ (omega arith) in
      let back : i + g.first_tag - g.first_tag ≡ i = omega arith in
      rw (fits, above, back, at_i) refl

-- In a group whose tags fit its bits, of which it has at most 40, an encoded row of a table decodes to
-- the table and the row.
pub encode-decode_coded :
    (g : CodedIndexGroup) (t : TableIndex) (rid : ℕ) {v : ℕ}
    → tags_fit g ≡ true
    → encode_coded g t rid ≡ ok v
    → decode_coded g v ≡ some (t, rid)
unfolding decode_coded
encode-decode_coded g t rid {v} wf e =
    let w = tags_fit-TagsFit g wf in
    let (i, at_i, small, eq) = encode_coded_eq g t rid w e in
    let got = position-get t g.tables at_i in
    let below = get_elem?-below g.tables i got in
    let tag : i + g.first_tag < 2 ^ g.tag_bits = omega (arith, w.room) in
    let shift : leb 64 g.tag_bits ≡ false = ground (arith, w.few_bits) in
    let low : bit_and v (2 ^ g.tag_bits - 1) ≡ i + g.first_tag =
      bit_and_mask g.tag_bits v
      ∙ rw eq (mul-add-mod_self_right rid (2 ^ g.tag_bits) (i + g.first_tag) ∙ mod-eq_of_lt tag) in
    let high : v / 2 ^ g.tag_bits ≡ rid =
      let none_left : (i + g.first_tag) / 2 ^ g.tag_bits ≡ 0 = div-eq_of_lt tag in
      let q = mul-add-div_right (pow_pos g.tag_bits) rid (i + g.first_tag) in
      rw eq (q ∙ rw none_left (omega arith)) in
    rw (shift, low, high) (decode_tag_eq g t rid i small got)

module _ (g : CodedIndexGroup) (t : TableIndex) (rid : ℕ) where
  decode_tag_back :
      (tag row : ℕ)
      → decode_tag g tag row ≡ some (t, rid)
      → (row ≡ rid)
        × (rid ≤ 0x00FF_FFFF)
        × (g.first_tag ≤ tag)
        × (get_elem? g.tables (tag - g.first_tag) ≡ some t)
  unfolding decode_tag
  decode_tag_back tag row e = elim (Bool-cases (ltb 0x00FF_FFFF row)) [
    | inl over ↦
        let refused : ◌≡◌ {A = Option (TableIndex × ℕ)} none (some (t, rid)) = rw over at e in cc
    | inr fits ↦ elim (Bool-cases (ltb tag g.first_tag)) [
      | inl low ↦
          let refused : ◌≡◌ {A = Option (TableIndex × ℕ)} none (some (t, rid)) =
            rw (fits, low) at e in
          cc
      | inr high ↦ elim (Option-cases (get_elem? g.tables (tag - g.first_tag))) [
        | inl miss ↦
            let refused : ◌≡◌ {A = Option (TableIndex × ℕ)} none (some (t, rid)) =
              rw (fits, high, miss) at e in
            cc
        | inr (u, hit) ↦
            let both : ◌≡◌ {A = Option (TableIndex × ℕ)} (some (u, row)) (some (t, rid)) =
              rw (fits, high, hit) at e in
            let same_row : row ≡ rid = cc in
            let same_table : u ≡ t = cc in (same_row, ground arith, ground arith, cc)
      ]
    ]
  ]

  encode_coded_value :
      (i : ℕ)
      → rid ≤ 0x00FF_FFFF
      → position t g.tables ≡ some i
      → encode_coded g t rid ≡ ok (bit_or (rid * 2 ^ g.tag_bits % 2 ^ 64) (i + g.first_tag))
  unfolding encode_coded
  encode_coded_value i small found =
      let fits : ltb 0x00FF_FFFF rid ≡ false = le→ltb _ _ small in rw (found, fits) refl

-- In a group of which no table stands twice and whose tags fit its bits, of which it has at most 40, a
-- number that decodes to a row of a table is the encoding of that row.
pub decode-encode_coded :
    (g : CodedIndexGroup) (v : ℕ) {t : TableIndex} {rid : ℕ}
    → well_formed g ≡ true
    → decode_coded g v ≡ some (t, rid)
    → encode_coded g t rid ≡ ok v
unfolding decode_coded
decode-encode_coded g v {t} {rid} wf e =
    let (no_repeats, fit) : (distinct g.tables ≡ true) × (tags_fit g ≡ true) =
      (ground arith, ground arith) in
    let w = tags_fit-TagsFit g fit in
    let shift : leb 64 g.tag_bits ≡ false = ground (arith, w.few_bits) in
    let kept : decode_tag g (v % 2 ^ g.tag_bits) (v / 2 ^ g.tag_bits) ≡ some (t, rid) =
      rw (shift, bit_and_mask g.tag_bits v) at e in
    let (row, small, low, hit) =
      decode_tag_back g t rid (v % 2 ^ g.tag_bits) (v / 2 ^ g.tag_bits) kept in
    let i : ℕ = v % 2 ^ g.tag_bits - g.first_tag in
    let back : i + g.first_tag ≡ v % 2 ^ g.tag_bits = omega arith in
    let below : i + g.first_tag < 2 ^ g.tag_bits = rw back (mod-lt v (pow_pos g.tag_bits)) in
    let word = tag_word g.tag_bits rid (i + g.first_tag) w.few_bits small below in
    let whole : rid * 2 ^ g.tag_bits + (i + g.first_tag) ≡ v =
      rw (back, ← row) (div-add-mod' v (2 ^ g.tag_bits)) in
    encode_coded_value g t rid i small (get-position g.tables i no_repeats hit)
    ∙ ap ok (word ∙ whole)
