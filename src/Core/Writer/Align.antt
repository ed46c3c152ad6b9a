-- ===== src/Core/Writer/Align.antt =====
-- crates/cecil-core/src/io.rs, the loop of `align`.
use mathlib.Core.Logic.{◌≢◌}
use native.Mathlib.Nat.{mod-lt, mod-add-mod, mod_self, add-zero}
use cecil_rs.Base.{
  ℕ, zero, suc, ◌+◌, ◌-◌, ◌%◌, ◌≤◌, ◌<◌, ◌≡◌, sym, ap, ◌∙◌, List, [], ◌∷◌, ◌++◌, length, arith,
  append_assoc, append-nil, ◌==◌, if◌then◌else◌, Bool-cases, inl, inr, replicate, length-append,
}
use cecil_rs.Core.Error.{ok}
use cecil_rs.Core.Writer.{ByteWriter, align, align_loop}

-- The distance from `n` to the next multiple of `a`.
abbrev pub gap : ℕ → ℕ → ℕ
gap a n = if n % a == 0 then 0 else a - n % a

next_mod : (a n : ℕ) → 0 < a → n % a + 1 < a → (n + 1) % a ≡ n % a + 1
next_mod a n h lt = grind arith

next_mod_wrap : (a n : ℕ) → 0 < a → n % a + 1 ≡ a → (n + 1) % a ≡ 0
next_mod_wrap a n h e = sym (mod-add-mod n a 1) ∙ (ap (λ t. t % a) e ∙ mod_self a)

gap_step : (a n : ℕ) → 0 < a → n % a ≢ 0 → gap a n ≡ suc (gap a (n + 1))
gap_step a n h ne = ground (arith, next_mod a n h, next_mod_wrap a n h, mod-lt n h)

pub align_loop_lem :
    (fuel a : ℕ) (buf : List ℕ)
    → 0 < a
    → gap a (length buf) < fuel
    → align_loop fuel a buf ≡ ok (buf ++ replicate (gap a (length buf)) 0)
unfolding align_loop
align_loop_lem zero a buf h f = absurd (omega arith)
align_loop_lem (suc fuel) a buf h f = elim (Bool-cases (length buf % a == 0)) [
  | inl there ↦ rw (there, append-nil)
  | inr off ↦
      let step : gap a (length buf) ≡ suc (gap a (length buf + 1)) =
        gap_step a (length buf) h (ground arith) in
      let size : length (buf ++ 0 ∷ []) ≡ length buf + 1 = length-append buf (0 ∷ []) in
      rw step (
        rw off (
          align_loop_lem fuel a (buf ++ 0 ∷ []) h (rw size (omega (arith, step)))
          ∙ rw (size, append_assoc buf (0 ∷ []))))
]

gap-le : (a n : ℕ) → gap a n ≤ a
gap-le a n = ground arith

pub gap-lt : (a n : ℕ) → 0 < a → gap a n < a
gap-lt a n h = ground arith

gap-IsMultiple : (a n : ℕ) → 0 < a → (n + gap a n) % a ≡ 0
gap-IsMultiple a n h = elim (Bool-cases (n % a == 0)) [
  | inl there ↦ rw (there, add-zero) (ground arith)
  | inr off ↦
      let whole : n % a + (a - n % a) ≡ a = omega (arith, mod-lt n h) in
      rw off (sym (mod-add-mod n a (a - n % a)) ∙ (ap (λ t. t % a) whole ∙ mod_self a))
]

-- For a positive alignment `align` ends; it appends fewer zeros than the alignment, so many that
-- the length is a multiple of it.
pub align_lem :
    (a : ℕ) (w : ByteWriter)
    → 0 < a
    → (align a w ≡ ok (record { buf = w.buf ++ replicate (gap a (length w.buf)) 0 }))
      × (gap a (length w.buf) < a)
      × ((length w.buf + gap a (length w.buf)) % a ≡ 0)
unfolding align
align_lem a w h = (
  rw (align_loop_lem (a + 1) a w.buf h (omega (arith, gap-le a (length w.buf)))),
  gap-lt a (length w.buf) h,
  gap-IsMultiple a (length w.buf) h,
)
