-- ===== src/Metadata/Builder/UserStrings/Flag.antt =====
-- crates/cecil-metadata/src/builder.rs, the flag byte of a user string.
use cecil_rs.Base.{
  ℕ, Bool, false, ◌&&◌, ◌||◌, Bool-cases, List, [], ◌∷◌, ltb, leb, if◌then◌else◌, ◌≡◌, refl, inl,
  inr, arith,
}
use cecil_rs.Metadata.Builder.UserStrings.{is_special, special_flag}

-- Whether some character is above the printable range of ASCII or a control character other than NUL
-- and the white space from 9 to 13.
abbrev pub any_outside : List ℕ → Bool
any_outside [] = false
any_outside (c ∷ cs) =
    (ltb 0x7e c || (leb 1 c && leb c 8) || (leb 14 c && leb c 31)) || any_outside cs

special_outside :
    (c : ℕ) → is_special c ≡ (ltb 0x7e c || (leb 1 c && leb c 8) || (leb 14 c && leb c 31))
unfolding is_special
special_outside c = ground arith

-- The flag byte of a user string is 1 exactly where some character is above 0x7E, or from 1 to 8, or
-- from 14 to 31; a quote or a hyphen does not set it.
pub special_flag_lem : (cs : List ℕ) → special_flag cs ≡ (if any_outside cs then 1 else 0)
unfolding special_flag
special_flag_lem [] = refl
special_flag_lem (c ∷ cs) =
    rw (special_outside c, special_flag_lem cs)
      (elim (Bool-cases (ltb 0x7e c || (leb 1 c && leb c 8) || (leb 14 c && leb c 31))) [
        | inl e ↦ rw e refl
        | inr e ↦ rw e refl
      ])
