-- ===== src/Core/Writer/RoundTrip.antt =====
-- crates/cecil-core/src/io.rs, compressed integers, written and read.
use cecil_rs.Base.{
  ℕ, ◌+◌, ◌*◌, ◌/◌, ◌%◌, ◌^◌, ◌<◌, ◌≡◌, bit_and, bit_or, List, [], ◌∷◌, ◌++◌, length, arith,
  append_assoc, ltb, ◌==◌, if◌then◌else◌, Bool-cases, false, inl, inr,
}
use cecil_rs.Base.Bits.{bit_clear, bit_or_disjoint, bit_and_mask}
use cecil_rs.Base.Bytes.{bit_and-0x80, bit_and-0x40, bit_clear-0x80, bit_clear-0xC0, bit_or-0xC0}
use cecil_rs.Core.Error.{ok}
use cecil_rs.Core.Reader
use cecil_rs.Core.Reader.{ByteReader, at, return, bias}
use cecil_rs.Core.Reader.Laws.{Decodes, u8-Decodes, >>=-Decodes, >>=-Decodes_last, return-Decodes}
use cecil_rs.Core.Writer.{ByteWriter, compressed_u32}
use cecil_rs.Core.Writer.Laws.{Writes, read-write}

-- Four bytes joined, highest first.
join_bytes :
    (x a b c : ℕ)
    → a < 256
    → b < 256
    → c < 256
    → bit_or (bit_or (bit_or (x * 2 ^ 24) (a * 2 ^ 16)) (b * 2 ^ 8)) c
      ≡ x * 2 ^ 24 + a * 2 ^ 16 + b * 2 ^ 8 + c
join_bytes x a b c ha hb hc =
    let e₁ : bit_or (x * 2 ^ 24) (a * 2 ^ 16) ≡ (x * 2 ^ 8 + a) * 2 ^ 16 =
      omega (arith, bit_or_disjoint 24 x (a * 2 ^ 16) (omega arith)) in
    let e₂ : bit_or ((x * 2 ^ 8 + a) * 2 ^ 16) (b * 2 ^ 8) ≡ (x * 2 ^ 16 + a * 2 ^ 8 + b) * 2 ^ 8 =
      omega (arith, bit_or_disjoint 16 (x * 2 ^ 8 + a) (b * 2 ^ 8) (omega arith)) in
    rw (e₁, e₂) (omega (arith, bit_or_disjoint 8 (x * 2 ^ 16 + a * 2 ^ 8 + b) c hc))

pub one-Decodes : (b : ℕ) → b < 128 → Decodes Reader.compressed_u32 (b ∷ []) b
unfolding Reader.compressed_u32
one-Decodes b h = >>=-Decodes_last _ (u8-Decodes b) (
    let e : bit_and b 0x80 ≡ 0 = omega (arith, bit_and-0x80 b (omega arith)) in
    rw e (return-Decodes b))

pub two-Decodes :
    (x c : ℕ) → x < 64 → c < 256 → Decodes Reader.compressed_u32 ((128 + x) ∷ c ∷ []) (x * 256 + c)
unfolding Reader.compressed_u32
two-Decodes x c hx hc = >>=-Decodes _ (u8-Decodes (128 + x)) (
    let top : (bit_and (128 + x) 0x80 == 0) ≡ false =
      ground (arith, bit_and-0x80 (128 + x) (omega arith)) in
    let next : bit_and (128 + x) 0x40 ≡ 0 = omega (arith, bit_and-0x40 (128 + x) (omega arith)) in
    let low : bit_clear (128 + x) 0x80 ≡ x =
      omega (arith, bit_clear-0x80 (128 + x) (omega arith)) in
    rw (top, next)
      (>>=-Decodes_last _ (u8-Decodes c)
        (rw (low, bit_or_disjoint 8 x c hc) (return-Decodes (x * 256 + c)))))

pub four-Decodes :
    (x a b c : ℕ)
    → x < 64
    → a < 256
    → b < 256
    → c < 256
    → Decodes Reader.compressed_u32
        ((192 + x) ∷ a ∷ b ∷ c ∷ [])
        (x * 2 ^ 24 + a * 2 ^ 16 + b * 2 ^ 8 + c)
unfolding Reader.compressed_u32
four-Decodes x a b c hx ha hb hc = >>=-Decodes _ (u8-Decodes (192 + x)) (
    let top : (bit_and (192 + x) 0x80 == 0) ≡ false =
      ground (arith, bit_and-0x80 (192 + x) (omega arith)) in
    let next : (bit_and (192 + x) 0x40 == 0) ≡ false =
      ground (arith, bit_and-0x40 (192 + x) (omega arith)) in
    let low : bit_clear (192 + x) 0xC0 ≡ x =
      omega (arith, bit_clear-0xC0 (192 + x) (omega arith)) in
    rw (top, next)
      (>>=-Decodes _ (u8-Decodes a) (
        >>=-Decodes _ (u8-Decodes b) (
          >>=-Decodes_last _ (u8-Decodes c)
            (rw (low, join_bytes x a b c ha hb hc) (return-Decodes _))))))

-- The bytes of a compressed unsigned integer, in plain arithmetic.
abbrev pub compressed : ℕ → List ℕ
compressed v =
    if ltb v 0x80
    then v ∷ []
    else if ltb v 0x4000
    then (128 + v / 2 ^ 8) ∷ v % 256 ∷ []
    else (192 + v / 2 ^ 24 % 64) ∷ v / 2 ^ 16 % 256 ∷ v / 2 ^ 8 % 256 ∷ v % 256 ∷ []

pub compressed_u32-Writes : (v : ℕ) → v < 2 ^ 32 → Writes (compressed_u32 v) (compressed v)
unfolding compressed_u32
compressed_u32-Writes v h = record {
  appends = λ w. elim (Bool-cases (ltb v 0x80)) [
    | inl small ↦ let e : v % 256 ≡ v = ground arith in rw (small, e)
    | inr large ↦ elim (Bool-cases (ltb v 0x4000)) [
      | inl small ↦
          let high : bit_or 0x80 (v / 2 ^ 8) % 256 ≡ 128 + v / 2 ^ 8 =
            ground (arith, bit_or_disjoint 7 1 (v / 2 ^ 8) (ground arith)) in
          rw (large, small, high, bit_and_mask 8 v) (simp append_assoc)
      | inr larger ↦
          let high : bit_or (v / 2 ^ 24) 0xC0 % 256 ≡ 192 + v / 2 ^ 24 % 64 =
            omega (arith, bit_or-0xC0 (v / 2 ^ 24) (omega arith)) in
          rw
            (
              large,
              larger,
              high,
              bit_and_mask 8 v,
              bit_and_mask 8 (v / 2 ^ 8),
              bit_and_mask 8 (v / 2 ^ 16),
            )
            (simp append_assoc)
    ]
  ];
}

pub compressed-Decodes :
    (v : ℕ) → v < 2 ^ 32 → Decodes Reader.compressed_u32 (compressed v) (v % 2 ^ 30)
compressed-Decodes v h = elim (Bool-cases (ltb v 0x80)) [
  | inl small ↦
      let e : v % 2 ^ 30 ≡ v = ground arith in rw (small, e) (one-Decodes v (ground arith))
  | inr large ↦ elim (Bool-cases (ltb v 0x4000)) [
    | inl small ↦
        let e : v % 2 ^ 30 ≡ v / 2 ^ 8 * 256 + v % 256 = ground arith in
        rw (large, small, e) (two-Decodes (v / 2 ^ 8) (v % 256) (ground arith) (omega arith))
    | inr larger ↦
        let e : v % 2 ^ 30
            ≡ v / 2 ^ 24 % 64 * 2 ^ 24
              + v / 2 ^ 16 % 256 * 2 ^ 16
              + v / 2 ^ 8 % 256 * 2 ^ 8
              + v % 256 =
          omega arith in
        rw (large, larger, e)
          (four-Decodes (v / 2 ^ 24 % 64) _ _ _ (omega arith) (omega arith) (omega arith)
            (omega arith))
  ]
]

-- For every `u32` the reader takes back its low 30 bits, and nothing else of the input.
pub compressed_u32_round_trip :
    (w : ByteWriter) (v : ℕ) (rest : List ℕ)
    → v < 2 ^ 32
    → Reader.compressed_u32 (at ((compressed_u32 v w).buf ++ rest) (length w.buf))
      ≡ ok (v % 2 ^ 30, at ((compressed_u32 v w).buf ++ rest) (length (compressed_u32 v w).buf))
compressed_u32_round_trip w v rest h =
    read-write (compressed_u32-Writes v h) (compressed-Decodes v h) w rest
