-- ===== src/Core/Writer/Signed.antt =====
-- crates/cecil-core/src/io.rs, compressed signed integers, written and read.
use cecil_rs.Base.{
  ℕ, ◌+◌, ◌-◌, ◌*◌, ◌/◌, ◌%◌, ◌^◌, ◌≤◌, ◌<◌, ◌≡◌, subst, bit_and, bit_or, List, [], ◌∷◌, ◌++◌,
  length, arith, ltb, ◌==◌, if◌then◌else◌, Bool-cases, false, inl, inr, get_elem?-drop, lt→ltb,
  le→ltb,
}
use cecil_rs.Base.Bits.{bit_clear, bit_or_disjoint, bit_and_mask}
use cecil_rs.Base.Bytes.{bit_and-0xC0}
use cecil_rs.Base.Int.{ℤ, pos, negsuc, ◌-ℤ◌, IsI32, half32, to_unsigned}
use cecil_rs.Core.Error.{ok}
use cecil_rs.Core.Reader
use cecil_rs.Core.Reader.{ByteReader, at, return, bias}
use cecil_rs.Core.Reader.Laws.{Decodes, Rest-length, >>=-Decodes_last, return-Decodes}
use cecil_rs.Core.Writer.{ByteWriter, compressed_i32, sign_mask, rotate}
use cecil_rs.Core.Writer.Laws.{Writes, read-write}
use cecil_rs.Core.Writer.RoundTrip.{one-Decodes, two-Decodes, four-Decodes}

-- The integer that the bits `u` and the first byte stand for.
abbrev signed : ℕ → ℕ → ℤ
signed u first = if bit_and u 1 == 0 then pos (u / 2) else pos (u / 2) -ℤ pos (bias first)

signed-Decodes :
    {b u : ℕ} {bs : List ℕ}
    → Decodes Reader.compressed_u32 (b ∷ bs) u
    → Decodes Reader.compressed_i32 (b ∷ bs) (signed u b)
unfolding Reader.compressed_i32
signed-Decodes {b} {u} {bs} h = record {
  runs = λ r ys here.
      let some_left : (length r.bytes - r.position == 0) ≡ false =
        ground (arith, Rest-length here) in
      rw (some_left, get_elem?-drop r.position r.bytes here.unread)
        ((>>=-Decodes_last _ h (return-Decodes (signed u b))).runs r ys here);
}

rotate_lem :
    (k value sign : ℕ)
    → value % 2 ^ k * 2 < 2 ^ 32
    → rotate value sign (2 ^ k - 1) ≡ value % 2 ^ k * 2 + sign % 2
unfolding rotate
rotate_lem k value sign h =
    let fits : value % 2 ^ k * 2 % 2 ^ 32 ≡ value % 2 ^ k * 2 ^ 1 = omega arith in
    rw (bit_and_mask k value, fits, bit_and_mask 1 sign)
      (bit_or_disjoint 1 (value % 2 ^ k) (sign % 2) (omega arith))

-- The 28 low bits and the sign of an integer.
abbrev pub wrap28 : ℤ → ℤ
wrap28 (pos n) = pos (n % 2 ^ 28)
wrap28 (negsuc n) = negsuc (n % 2 ^ 28)

abbrev pub magnitude : ℤ → ℕ
magnitude (pos n) = n
magnitude (negsuc n) = n

-- The `k` low bits of an integer, moved left by one, with the sign in the lowest bit.
abbrev rotated : ℕ → ℤ → ℕ
unfolding sign_mask
rotated k z = to_unsigned half32 z % 2 ^ k * 2 + sign_mask z % 2

-- With the envelope's bias the rotated bits stand for the integer, where they hold it.
signed-rotated_six :
    (z : ℤ) (first : ℕ)
    → IsI32 z
    → magnitude z < 2 ^ 6
    → bias first ≡ 2 ^ 6
    → signed (rotated 6 z) first ≡ wrap28 z
unfolding sign_mask ◌-ℤ◌
signed-rotated_six (pos n) first h small e = ground (arith, bit_and_mask 1 (rotated 6 (pos n)))
signed-rotated_six (negsuc n) first h small e =
    rw e (ground (arith, bit_and_mask 1 (rotated 6 (negsuc n))))

signed-rotated_thirteen :
    (z : ℤ) (first : ℕ)
    → IsI32 z
    → magnitude z < 2 ^ 13
    → bias first ≡ 2 ^ 13
    → signed (rotated 13 z) first ≡ wrap28 z
unfolding sign_mask ◌-ℤ◌
signed-rotated_thirteen (pos n) first h small e =
    ground (arith, bit_and_mask 1 (rotated 13 (pos n)))
signed-rotated_thirteen (negsuc n) first h small e =
    rw e (ground (arith, bit_and_mask 1 (rotated 13 (negsuc n))))

signed-rotated_all :
    (z : ℤ) (first : ℕ) → IsI32 z → bias first ≡ 2 ^ 28 → signed (rotated 28 z) first ≡ wrap28 z
unfolding sign_mask ◌-ℤ◌
signed-rotated_all (pos n) first h e = ground (arith, bit_and_mask 1 (rotated 28 (pos n)))
signed-rotated_all (negsuc n) first h e =
    rw e (ground (arith, bit_and_mask 1 (rotated 28 (negsuc n))))

bias_one : (b : ℕ) → b < 128 → bias b ≡ 2 ^ 6
bias_one b h = ground (arith, bit_and-0xC0 b (omega arith))

bias_two : (x : ℕ) → x < 64 → bias (128 + x) ≡ 2 ^ 13
bias_two x h = ground (arith, bit_and-0xC0 (128 + x) (omega arith))

bias_four : (x : ℕ) → x < 64 → bias (192 + x) ≡ 2 ^ 28
bias_four x h = ground (arith, bit_and-0xC0 (192 + x) (omega arith))

clear_six :
    (z : ℤ)
    → IsI32 z
    → (bit_clear (to_unsigned half32 z) (2 ^ 6 - 1) == bit_clear (sign_mask z) (2 ^ 6 - 1))
      ≡ ltb (magnitude z) (2 ^ 6)
unfolding sign_mask
clear_six (pos n) h = ground (arith, bit_and_mask 6 (n % 2 ^ 32))
clear_six (negsuc n) h = ground (arith, bit_and_mask 6 (2 ^ 32 - 1 - n % 2 ^ 32))

clear_thirteen :
    (z : ℤ)
    → IsI32 z
    → (bit_clear (to_unsigned half32 z) (2 ^ 13 - 1) == bit_clear (sign_mask z) (2 ^ 13 - 1))
      ≡ ltb (magnitude z) (2 ^ 13)
unfolding sign_mask
clear_thirteen (pos n) h = ground (arith, bit_and_mask 13 (n % 2 ^ 32))
clear_thirteen (negsuc n) h = ground (arith, bit_and_mask 13 (2 ^ 32 - 1 - n % 2 ^ 32))

-- The bytes that the writer appends for an integer, and the reader takes back.
abbrev Codec : ℤ → List ℕ → Type 0
Codec z xs = Writes (compressed_i32 z) xs × Decodes Reader.compressed_i32 xs (wrap28 z)

small_mod : (u : ℕ) → u < 2 ^ 16 → u % 2 ^ 16 ≡ u
small_mod u h = omega arith

module _ (z : ℤ) (h : IsI32 z) where
  six-Codec : magnitude z < 2 ^ 6 → Codec z (rotated 6 z ∷ [])
  unfolding compressed_i32
  six-Codec small =
      let e : rotate (to_unsigned half32 z) (sign_mask z) (2 ^ 6 - 1) % 256 ≡ rotated 6 z =
        omega (arith, rotate_lem 6 (to_unsigned half32 z) (sign_mask z) (omega arith)) in
      (
        record { appends = λ w. rw (clear_six z h, lt→ltb _ _ small, e) },
        rw (← signed-rotated_six z (rotated 6 z) h small (bias_one (rotated 6 z) (omega arith)))
            (signed-Decodes (one-Decodes (rotated 6 z) (omega arith))),
      )

  thirteen-Codec :
      2 ^ 6 ≤ magnitude z
      → magnitude z < 2 ^ 13
      → Codec z ((128 + rotated 13 z / 2 ^ 8) ∷ rotated 13 z % 256 ∷ [])
  unfolding compressed_i32
  thirteen-Codec large small =
      let u = rotated 13 z in
      let word : bit_or 0x8000 (rotate (to_unsigned half32 z) (sign_mask z) (2 ^ 13 - 1) % 2 ^ 16)
          ≡ 0x8000 + u =
        rw
          (
            rotate_lem 13 (to_unsigned half32 z) (sign_mask z) (omega arith),
            small_mod u (omega arith),
          )
          (bit_or_disjoint 14 2 u (omega arith)) in
      let high : (0x8000 + u) / 256 % 256 ≡ 128 + u / 2 ^ 8 = omega arith in
      let low : (0x8000 + u) % 256 ≡ u % 256 = omega arith in
      let split : u / 2 ^ 8 * 256 + u % 256 ≡ u = omega arith in
      (
        record {
          appends = λ w. rw (
            clear_six z h,
            le→ltb _ _ large,
            clear_thirteen z h,
            lt→ltb _ _ small,
            word,
            high,
            low,
          );
        },
        rw
            (← signed-rotated_thirteen z (128 + u / 2 ^ 8) h small
              (bias_two (u / 2 ^ 8) (omega arith)))
            (signed-Decodes (
              subst (Decodes Reader.compressed_u32 _) split
                (two-Decodes (u / 2 ^ 8) (u % 256) (omega arith) (omega arith)))),
      )

  all-Codec :
      2 ^ 13 ≤ magnitude z
      → Codec z (
          (192 + rotated 28 z / 2 ^ 24)
          ∷ rotated 28 z / 2 ^ 16 % 256
          ∷ rotated 28 z / 2 ^ 8 % 256
          ∷ rotated 28 z % 256
          ∷ [])
  unfolding compressed_i32
  all-Codec large =
      let u = rotated 28 z in
      let word : bit_or 0xC0000000 (rotate (to_unsigned half32 z) (sign_mask z) (2 ^ 28 - 1))
          ≡ 0xC0000000 + u =
        rw (rotate_lem 28 (to_unsigned half32 z) (sign_mask z) (omega arith))
          (bit_or_disjoint 30 3 u (omega arith)) in
      let b₀ : (0xC0000000 + u) / 256 / 256 / 256 % 256 ≡ 192 + u / 2 ^ 24 = omega arith in
      let b₁ : (0xC0000000 + u) / 256 / 256 % 256 ≡ u / 2 ^ 16 % 256 = omega arith in
      let b₂ : (0xC0000000 + u) / 256 % 256 ≡ u / 2 ^ 8 % 256 = omega arith in
      let b₃ : (0xC0000000 + u) % 256 ≡ u % 256 = omega arith in
      let split : u / 2 ^ 24 * 2 ^ 24
            + u / 2 ^ 16 % 256 * 2 ^ 16
            + u / 2 ^ 8 % 256 * 2 ^ 8
            + u % 256
          ≡ u =
        omega arith in
      (
        record {
          appends = λ w. rw (
            clear_six z h,
            le→ltb (magnitude z) (2 ^ 6) (omega arith),
            clear_thirteen z h,
            le→ltb _ _ large,
            word,
            b₀,
            b₁,
            b₂,
            b₃,
          );
        },
        rw (← signed-rotated_all z (192 + u / 2 ^ 24) h (bias_four (u / 2 ^ 24) (omega arith))) (
            signed-Decodes (
              subst (Decodes Reader.compressed_u32 _) split (
                four-Decodes (u / 2 ^ 24) _ _ _ (omega arith) (omega arith) (omega arith)
                  (omega arith)))),
      )

-- For every `i32` the reader takes back its sign and its low 28 bits: the integer itself where it
-- lies in `-2^28 .. 2^28 - 1`.
pub compressed_i32_round_trip :
    (w : ByteWriter) (z : ℤ) (rest : List ℕ)
    → IsI32 z
    → Reader.compressed_i32 (at ((compressed_i32 z w).buf ++ rest) (length w.buf))
      ≡ ok (wrap28 z, at ((compressed_i32 z w).buf ++ rest) (length (compressed_i32 z w).buf))
compressed_i32_round_trip w z rest h = elim (Bool-cases (ltb (magnitude z) (2 ^ 6))) [
  | inl small ↦ back (six-Codec z h (ground arith))
  | inr large ↦ elim (Bool-cases (ltb (magnitude z) (2 ^ 13))) [
    | inl small ↦ back (thirteen-Codec z h (ground arith) (ground arith))
    | inr larger ↦ back (all-Codec z h (ground arith))
  ]
]
  where
    back :
        {xs : List ℕ}
        → Codec z xs
        → Reader.compressed_i32 (at ((compressed_i32 z w).buf ++ rest) (length w.buf))
          ≡ ok (wrap28 z, at ((compressed_i32 z w).buf ++ rest) (length (compressed_i32 z w).buf))
    back c = read-write c.0 c.1 w rest
