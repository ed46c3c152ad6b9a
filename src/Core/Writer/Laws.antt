-- ===== src/Core/Writer/Laws.antt =====
-- What a write appends, and how a read takes it back.
use cecil_rs.Base.{
  ℕ, ◌^◌, ◌<◌, ◌≡◌, refl, List, [], ◌∷◌, ◌++◌, length, arith, append_assoc, length-append, subst,
}
use cecil_rs.Base.Int.{
  ℤ, IsSigned, IsI32, half32, to_unsigned, to_signed-to_unsigned, to_unsigned-lt,
}
use cecil_rs.Core.Error.{ok}
use cecil_rs.Core.Reader
use cecil_rs.Core.Reader.{Read, at, le_value, return}
use cecil_rs.Core.Reader.Laws.{
  Decodes, Rest-at, u8-Decodes, u16-Decodes, u32-Decodes, u64-Decodes, >>=-Decodes_last,
  return-Decodes,
}
use cecil_rs.Core.Writer.{ByteWriter, le_bytes, u8, i8, u16, u32, i32, u64, i64}

-- `write` appends `xs` to whatever is there.
pub record Writes (write : ByteWriter → ByteWriter) (xs : List ℕ) : Type 0 where
  pub appends : (w : ByteWriter) → write w ≡ record { buf = w.buf ++ xs }

-- What a write appends, the read takes back, whatever stands before it and after it.
pub read-write {ℓ} :
    {A : Type ℓ} {write : ByteWriter → ByteWriter} {read : Read A} {xs : List ℕ} {a : A}
    → Writes write xs
    → Decodes read xs a
    → (w : ByteWriter) (rest : List ℕ)
    → read (at ((write w).buf ++ rest) (length w.buf))
      ≡ ok (a, at ((write w).buf ++ rest) (length (write w).buf))
read-write {xs} hw hr w rest =
    rw (hw.appends w, append_assoc, length-append)
      (hr.runs (at (w.buf ++ (xs ++ rest)) (length w.buf)) rest (Rest-at w.buf (xs ++ rest)))

pub Writes-compose :
    {f g : ByteWriter → ByteWriter} {xs ys : List ℕ}
    → Writes f xs
    → Writes g ys
    → Writes (λ w. g (f w)) (xs ++ ys)
Writes-compose {xs} {ys} hf hg = record {
  appends =
      λ w. rw (hf.appends w, hg.appends (record { buf = w.buf ++ xs }), append_assoc w.buf xs ys);
}

module _ (v : ℕ) where
  pub u8-Writes : Writes (u8 v) (v ∷ [])
  unfolding u8
  u8-Writes = record { appends = λ w. refl }

  pub u16-Writes : Writes (u16 v) (le_bytes 2 v)
  unfolding u16
  u16-Writes = record { appends = λ w. refl }

  pub u32-Writes : Writes (u32 v) (le_bytes 4 v)
  unfolding u32
  u32-Writes = record { appends = λ w. refl }

  pub u64-Writes : Writes (u64 v) (le_bytes 8 v)
  unfolding u64
  u64-Writes = record { appends = λ w. refl }

pub i8-Writes : (v : ℤ) → Writes (i8 v) (to_unsigned 128 v ∷ [])
unfolding i8
i8-Writes v = record { appends = λ w. refl }

pub i32-Writes : (v : ℤ) → Writes (i32 v) (le_bytes 4 (to_unsigned half32 v))
unfolding i32
i32-Writes v = record { appends = λ w. refl }

pub i64-Writes : (v : ℤ) → Writes (i64 v) (le_bytes 8 (to_unsigned (2 ^ 63) v))
unfolding i64
i64-Writes v = record { appends = λ w. refl }

-- The value of the bytes of a word is the word.
module _ (v : ℕ) where
  pub u16-le_bytes : v < 2 ^ 16 → Decodes Reader.u16 (le_bytes 2 v) v
  u16-le_bytes h =
      let e : le_value (le_bytes 2 v) ≡ v = omega arith in
      subst (Decodes Reader.u16 (le_bytes 2 v)) e (u16-Decodes (le_bytes 2 v) refl)

  pub u32-le_bytes : v < 2 ^ 32 → Decodes Reader.u32 (le_bytes 4 v) v
  u32-le_bytes h =
      let e : le_value (le_bytes 4 v) ≡ v = omega arith in
      subst (Decodes Reader.u32 (le_bytes 4 v)) e (u32-Decodes (le_bytes 4 v) refl)

  pub u64-le_bytes : v < 2 ^ 64 → Decodes Reader.u64 (le_bytes 8 v) v
  u64-le_bytes h =
      let e : le_value (le_bytes 8 v) ≡ v = omega arith in
      subst (Decodes Reader.u64 (le_bytes 8 v)) e (u64-Decodes (le_bytes 8 v) refl)

module _ (z : ℤ) where
  pub i8-bytes : IsSigned 128 z → Decodes Reader.i8 (to_unsigned 128 z ∷ []) z
  unfolding Reader.i8
  i8-bytes h =
      >>=-Decodes_last _ (u8-Decodes (to_unsigned 128 z))
        (rw (to_signed-to_unsigned 128 z h) (return-Decodes z))

  pub i32-bytes : IsI32 z → Decodes Reader.i32 (le_bytes 4 (to_unsigned half32 z)) z
  unfolding Reader.i32
  i32-bytes h =
      >>=-Decodes_last _
        (u32-le_bytes (to_unsigned half32 z) (to_unsigned-lt half32 z (omega arith)))
        (rw (to_signed-to_unsigned half32 z h) (return-Decodes z))

  pub i64-bytes : IsSigned (2 ^ 63) z → Decodes Reader.i64 (le_bytes 8 (to_unsigned (2 ^ 63) z)) z
  unfolding Reader.i64
  i64-bytes h =
      >>=-Decodes_last _
        (u64-le_bytes (to_unsigned (2 ^ 63) z) (to_unsigned-lt (2 ^ 63) z (omega arith)))
        (rw (to_signed-to_unsigned (2 ^ 63) z h) (return-Decodes z))
