-- ===== src/Core/Reader/Safety.antt =====
-- crates/cecil-core/src/io.rs, the reads of `ByteReader` on any bytes.
use cecil_rs.Base.{
  ℕ, ◌+◌, ◌-◌, ◌%◌, ◌^◌, ◌≤◌, ◌≡◌, refl, ◌∙◌, ap, bit_and, length, get_elem?-lt,
  get_elem?-take-drop, ltb, ◌==◌, arith, Bool-cases, inl, inr, subst, le→ltb,
}
use cecil_rs.Core.Error
use cecil_rs.Core.Error.{Result, ok, err, Error, bad_image, argument, expect}
use cecil_rs.Core.Reader.{
  ByteReader, Read, ◌>>=◌, at, take_bytes, return, u8, i8, u16, i16, u32, i32, u64, i64, f32, f64,
  compressed_u32, compressed_i32, align,
}

-- The outcome of a read from `r` that takes `k` bytes at least.
pub data Outcome {ℓ} {A : Type ℓ} (k : ℕ) (r : ByteReader) : Result (A × ByteReader) → Type ℓ where
  moved :
      (a : A) (r' : ByteReader)
      → r'.bytes ≡ r.bytes
      → r.position + k ≤ r'.position
      → r'.position ≤ length r.bytes
      → Outcome k r (ok (a, r'))
  failed : (e : Error) → Outcome k r (err e)

pub record Takes {ℓ} {A : Type ℓ} (k : ℕ) (read : Read A) : Type ℓ where
  pub runs : (r : ByteReader) → r.position ≤ length r.bytes → Outcome k r (read r)

shift {ℓ} :
    {A : Type ℓ} (j : ℕ) {k : ℕ} {r r' : ByteReader} {p : Result (A × ByteReader)}
    → r'.bytes ≡ r.bytes
    → r.position + j ≤ r'.position
    → Outcome k r' p
    → Outcome (j + k) r p
shift j same far (moved a r'' same' far' within') =
    moved a r'' (same' ∙ same) (omega arith) (omega (arith, ap length same))
shift j same far (failed e) = failed e

module _ {ℓ κ} {A : Type ℓ} {B : Type κ} where
  after :
      {j k : ℕ} {r : ByteReader} {p : Result (A × ByteReader)} (f : A → Read B)
      → Outcome j r p
      → ((a : A) → Takes k (f a))
      → Outcome (j + k) r (Error.◌>>=◌ p λ q. f q.0 q.1)
  after {j} f (moved a r' same far within) h =
      shift j same far ((h a).runs r' (omega (arith, ap length same)))
  after f (failed e) h = failed e

  pub >>=-Takes :
      {j k : ℕ} {m : Read A} (f : A → Read B)
      → Takes j m
      → ((a : A) → Takes k (f a))
      → Takes (j + k) (m >>= f)
  >>=-Takes f hm hf = record { runs = λ r h. after f (hm.runs r h) hf }

pub return-Takes {ℓ} : {A : Type ℓ} (a : A) → Takes 0 (return a)
return-Takes a = record { runs = λ r h. moved a r refl (omega arith) h }

-- A read that takes `j` bytes, and after it one that leaves the reader alone.
pub >>=-Takes_last {ℓ κ} :
    {A : Type ℓ} {B : Type κ} {j : ℕ} {m : Read A} (f : A → Read B)
    → Takes j m
    → ((a : A) → Takes 0 (f a))
    → Takes j (m >>= f)
>>=-Takes_last {j} {m} f hm hf =
    let e : j + 0 ≡ j = omega arith in subst (λ k. Takes k (m >>= f)) e (>>=-Takes f hm hf)

pub take_bytes-Takes : (n : ℕ) → Takes n (take_bytes n)
unfolding take_bytes
take_bytes-Takes n = record {
  runs = λ r h. elim (Bool-cases (ltb (length r.bytes - r.position) n)) [
    | inl short ↦ rw (le→ltb _ _ h, short) (failed bad_image)
    | inr enough ↦
        rw (le→ltb _ _ h, enough)
          (moved _ (at r.bytes (r.position + n)) refl (omega arith) (ground arith))
  ];
}

pub u8-Takes : Takes 1 u8
unfolding u8
u8-Takes = record {
  runs = λ r h. elim (Bool-cases (ltb (length r.bytes - r.position) 1)) [
    | inl short ↦ rw (le→ltb _ _ h, short) (failed bad_image)
    | inr enough ↦
        let (b, here) = get_elem?-lt r.position r.bytes (ground arith) in
        rw (le→ltb _ _ h, enough, get_elem?-take-drop 0 r.position r.bytes here)
          (moved b (at r.bytes (r.position + 1)) refl (omega arith) (ground arith))
  ];
}

module _ where
  pub i8-Takes : Takes 1 i8
  unfolding i8
  i8-Takes = >>=-Takes_last _ u8-Takes (λ b. return-Takes _)

  pub u16-Takes : Takes 2 u16
  unfolding u16
  u16-Takes = >>=-Takes_last _ (take_bytes-Takes 2) (λ b. return-Takes _)

  pub i16-Takes : Takes 2 i16
  unfolding i16
  i16-Takes = >>=-Takes_last _ u16-Takes (λ b. return-Takes _)

  pub u32-Takes : Takes 4 u32
  unfolding u32
  u32-Takes = >>=-Takes_last _ (take_bytes-Takes 4) (λ b. return-Takes _)

  pub i32-Takes : Takes 4 i32
  unfolding i32
  i32-Takes = >>=-Takes_last _ u32-Takes (λ b. return-Takes _)

  pub u64-Takes : Takes 8 u64
  unfolding u64
  u64-Takes = >>=-Takes_last _ (take_bytes-Takes 8) (λ b. return-Takes _)

  pub i64-Takes : Takes 8 i64
  unfolding i64
  i64-Takes = >>=-Takes_last _ u64-Takes (λ b. return-Takes _)

pub f32-Takes : Takes 4 f32
unfolding f32
f32-Takes = u32-Takes

pub f64-Takes : Takes 8 f64
unfolding f64
f64-Takes = u64-Takes

pub weaken {ℓ} : {A : Type ℓ} (j k : ℕ) {read : Read A} → Takes j read → k ≤ j → Takes k read
weaken {A} j k h le = record { runs = λ r w. go (h.runs r w) }
  where
    go : {r : ByteReader} {p : Result (A × ByteReader)} → Outcome j r p → Outcome k r p
    go (moved a r' same far within) = moved a r' same (omega arith) within
    go (failed e) = failed e

pub compressed_u32-Takes : Takes 1 compressed_u32
unfolding compressed_u32
compressed_u32-Takes = >>=-Takes_last _ u8-Takes λ first.
    elim (Bool-cases (bit_and first 0x80 == 0)) [
      | inl one ↦ rw one (return-Takes first)
      | inr more ↦ elim (Bool-cases (bit_and first 0x40 == 0)) [
        | inl two ↦
            rw (more, two)
              (weaken 1 0 (>>=-Takes_last _ u8-Takes (λ b. return-Takes _)) (omega arith))
        | inr four ↦
            rw (more, four)
              (weaken 3 0
                (>>=-Takes _ u8-Takes (λ a.
                  >>=-Takes _ u8-Takes (λ b. >>=-Takes_last _ u8-Takes (λ c. return-Takes _))))
                (omega arith))
      ]
    ]

pub compressed_i32-Takes : Takes 1 compressed_i32
unfolding compressed_i32
compressed_i32-Takes = record {
  runs = λ r h. elim (Bool-cases (length r.bytes - r.position == 0)) [
    | inl end ↦ rw end (failed bad_image)
    | inr more ↦
        let (first, here) = get_elem?-lt r.position r.bytes (ground arith) in
        rw (more, here) ((>>=-Takes_last _ compressed_u32-Takes (λ u. return-Takes _)).runs r h)
  ];
}

pub align-Takes : (alignment : ℕ) → Takes 0 (align alignment)
unfolding align
align-Takes alignment = record {
  runs = λ r h.
      let aligned = r.position + (alignment - r.position % alignment) in
      elim (Bool-cases (alignment == 0)) [
        | inl zero ↦ rw zero (failed argument)
        | inr positive ↦ elim (Bool-cases (r.position % alignment == 0)) [
          | inl there ↦ rw (positive, le→ltb _ _ h, there) (moved tt r refl (omega arith) h)
          | inr off ↦ elim (Bool-cases (ltb aligned (2 ^ 64))) [
            | inl fits ↦ elim (Bool-cases (ltb (length r.bytes) aligned)) [
              | inl beyond ↦ rw (positive, le→ltb _ _ h, off, fits, beyond) (failed bad_image)
              | inr inside ↦
                  rw (positive, le→ltb _ _ h, off, fits, inside)
                    (moved tt (at r.bytes aligned) refl (omega arith) (ground arith))
            ]
            | inr wraps ↦ rw (positive, le→ltb _ _ h, off, wraps) (failed bad_image)
          ]
        ]
      ];
}

-- From a cursor inside the bytes, each read ends in an error or in a value; with a value it keeps
-- the bytes, leaves the cursor inside them, and has moved it forward by the width of what it read
-- at least (one byte for a compressed integer, none for `align`). No read panics.
pub reads_safe :
    Takes 1 u8
    × Takes 1 i8
    × Takes 2 u16
    × Takes 2 i16
    × Takes 4 u32
    × Takes 4 i32
    × Takes 8 u64
    × Takes 8 i64
    × Takes 4 f32
    × Takes 8 f64
    × ((n : ℕ) → Takes n (take_bytes n))
    × Takes 1 compressed_u32
    × Takes 1 compressed_i32
    × ((alignment : ℕ) → Takes 0 (align alignment))
reads_safe = (
  u8-Takes, i8-Takes, u16-Takes, i16-Takes, u32-Takes, i32-Takes, u64-Takes, i64-Takes, f32-Takes,
  f64-Takes, take_bytes-Takes, compressed_u32-Takes, compressed_i32-Takes, align-Takes,
)
