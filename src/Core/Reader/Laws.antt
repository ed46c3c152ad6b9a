-- ===== src/Core/Reader/Laws.antt =====
-- crates/cecil-core/src/io.rs, the reads of `ByteReader` on known bytes.
use cecil_rs.Base.{
  ℕ, ◌+◌, ◌-◌, ◌≤◌, ◌≡◌, refl, sym, ap, subst, ◌∙◌, false, List, [], ◌∷◌, ◌++◌, length, take, drop,
  ltb, arith, append_assoc, le→ltb, length-append, length-drop, take-append_length,
  drop-append_length, drop-drop, append-nil,
}
use cecil_rs.Core.Error.{ok}
use cecil_rs.Core.Reader.{
  ByteReader, Read, ◌>>=◌, at, take_bytes, le_value, u8, u16, u32, u64, return,
}

-- `xs` is what the reader has not read.
pub record Rest (r : ByteReader) (xs : List ℕ) : Type 0 where
  pub within : r.position ≤ length r.bytes
  pub unread : drop r.position r.bytes ≡ xs

abbrev pub advance : ℕ → ByteReader → ByteReader
advance n r = at r.bytes (r.position + n)

-- `read` takes exactly `xs` from any input that begins with it, and returns `a`.
pub record Decodes {ℓ} {A : Type ℓ} (read : Read A) (xs : List ℕ) (a : A) : Type ℓ where
  pub runs :
      (r : ByteReader) (ys : List ℕ) → Rest r (xs ++ ys) → read r ≡ ok (a, advance (length xs) r)

pub Rest-advance :
    {r : ByteReader} (xs ys : List ℕ) → Rest r (xs ++ ys) → Rest (advance (length xs) r) ys
Rest-advance {r} xs ys h = record {
  within =
      omega
        (arith, h.within, length-drop r.position r.bytes, ap length h.unread, length-append xs ys);
  unread =
      sym (drop-drop r.position (length xs) r.bytes)
      ∙ ap (drop (length xs)) h.unread
      ∙ drop-append_length xs ys;
}

pub Rest-length :
    {r : ByteReader} {xs : List ℕ} → Rest r xs → length r.bytes ≡ r.position + length xs
Rest-length {r} h = omega (arith, h.within, length-drop r.position r.bytes, ap length h.unread)

pub Rest-at : (xs ys : List ℕ) → Rest (at (xs ++ ys) (length xs)) ys
Rest-at xs ys = record {
  within = omega (arith, length-append xs ys);
  unread = drop-append_length xs ys;
}

advance-advance : (m n : ℕ) (r : ByteReader) → advance n (advance m r) ≡ advance (m + n) r
advance-advance m n r = ap (at r.bytes) (omega arith)

pub take_bytes-Decodes : (n : ℕ) (xs : List ℕ) → length xs ≡ n → Decodes (take_bytes n) xs xs
unfolding take_bytes
take_bytes-Decodes n xs e = record {
  runs = λ r ys h.
      let taken : take n (xs ++ ys) ≡ xs = rw (← e) (take-append_length xs ys) in
      let enough : ltb (length r.bytes - r.position) n ≡ false =
        le→ltb _ n (omega (arith, Rest-length h, length-append xs ys, e)) in
      rw (le→ltb _ _ h.within, enough, h.unread, taken, e);
}

module _ {ℓ κ} {A : Type ℓ} {B : Type κ} where
  pub >>=-Decodes :
      {m : Read A} (f : A → Read B) {xs ys : List ℕ} {a : A} {b : B}
      → Decodes m xs a
      → Decodes (f a) ys b
      → Decodes (m >>= f) (xs ++ ys) b
  >>=-Decodes {m} f {xs} {ys} {a} {b} hm hf = record {
    runs = λ r zs h.
        let h' : Rest r (xs ++ (ys ++ zs)) = rw (append_assoc xs ys zs) at h in
        rw (hm.runs r (ys ++ zs) h') (
          hf.runs (advance (length xs) r) zs (Rest-advance xs (ys ++ zs) h')
          ∙ ap (λ q. ok (b, q))
              (advance-advance (length xs) (length ys) r
                ∙ ap (λ n. advance n r) (sym (length-append xs ys))));
  }

  pub >>=-Decodes_last :
      {m : Read A} (f : A → Read B) {xs : List ℕ} {a : A} {b : B}
      → Decodes m xs a
      → Decodes (f a) [] b
      → Decodes (m >>= f) xs b
  >>=-Decodes_last {m} f {xs} {a} {b} hm hf =
      subst (λ zs. Decodes (m >>= f) zs b) (append-nil xs) (>>=-Decodes f hm hf)

pub return-Decodes {ℓ} : {A : Type ℓ} (a : A) → Decodes (return a) [] a
return-Decodes a = record {
  runs = λ r ys h. ap (λ n. ok (a, at r.bytes n)) {x = r.position} (omega arith);
}

pub u8-Decodes : (b : ℕ) → Decodes u8 (b ∷ []) b
unfolding u8
u8-Decodes b =
    >>=-Decodes_last _ (take_bytes-Decodes 1 (b ∷ []) refl)
      (record { runs = (return-Decodes b).runs })

pub u16-Decodes : (bs : List ℕ) → length bs ≡ 2 → Decodes u16 bs (le_value bs)
unfolding u16
u16-Decodes bs e = >>=-Decodes_last _ (take_bytes-Decodes 2 bs e) (return-Decodes (le_value bs))

pub u32-Decodes : (bs : List ℕ) → length bs ≡ 4 → Decodes u32 bs (le_value bs)
unfolding u32
u32-Decodes bs e = >>=-Decodes_last _ (take_bytes-Decodes 4 bs e) (return-Decodes (le_value bs))

pub u64-Decodes : (bs : List ℕ) → length bs ≡ 8 → Decodes u64 bs (le_value bs)
unfolding u64
u64-Decodes bs e = >>=-Decodes_last _ (take_bytes-Decodes 8 bs e) (return-Decodes (le_value bs))
