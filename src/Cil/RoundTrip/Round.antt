-- ===== src/Cil/RoundTrip/Round.antt =====
-- A round: the bytes that a write has appended, which a read takes back.
use cecil_rs.Base.{
  ℕ, ◌+◌, ◌≡◌, refl, ap, ◌∙◌, List, [], ◌++◌, length, append_assoc, length-append, arith,
}
use cecil_rs.Core.Error.{ok}
use cecil_rs.Core.Reader.{ByteReader, Read, ◌>>=◌}
use cecil_rs.Core.Reader.Laws.{Decodes, Rest, >>=-Decodes, >>=-Decodes_last}
use cecil_rs.Core.Writer.{ByteWriter}
use cecil_rs.Core.Writer.Laws.{Writes}

-- The step from `w` to `w'` has appended `n` bytes, from which `read` takes `a`.
pub record Round {ℓ} {A : Type ℓ} (read : Read A) (a : A) (n : ℕ) (w w' : ByteWriter) : Type ℓ where
  pub bytes : List ℕ
  pub appended : w'.buf ≡ w.buf ++ bytes
  pub decodes : Decodes read bytes a
  pub width : length bytes ≡ n

pub round {ℓ} :
    {A : Type ℓ} {f : ByteWriter → ByteWriter} {read : Read A} {xs : List ℕ} {a : A}
    {w w' : ByteWriter}
    → Writes f xs
    → Decodes read xs a
    → ok (f w) ≡ ok w'
    → Round read a (length xs) w w'
round {f} {xs} {w} {w'} hw hd e = record {
  bytes = xs;
  appended = ap (λ (v : ByteWriter). v.buf) w'-eq ∙ ap (λ (v : ByteWriter). v.buf) (hw.appends w);
  decodes = hd;
  width = refl;
}
  where
    w'-eq : w' ≡ f w
    w'-eq = cc

-- A read is the same at every reader, so what one takes the other does.
pub Round-map {ℓ κ} :
    {A : Type ℓ} {B : Type κ} {read : Read A} {a : A} {n : ℕ} {w w' : ByteWriter} (f : A → Read B)
    {b : B}
    → Round read a n w w'
    → Decodes (f a) [] b
    → Round (read >>= f) b n w w'
Round-map f r h = record {
  bytes = r.bytes;
  appended = r.appended;
  decodes = >>=-Decodes_last f r.decodes h;
  width = r.width;
}

pub Round-seq {ℓ κ} :
    {A : Type ℓ} {B : Type κ} {read : Read A} {a : A} {m n : ℕ} {w w' w'' : ByteWriter}
    (f : A → Read B) {b : B}
    → Round read a m w w'
    → Round (f a) b n w' w''
    → Round (read >>= f) b (m + n) w w''
Round-seq {w} f r s = record {
  bytes = r.bytes ++ s.bytes;
  appended = s.appended ∙ (ap (λ t. t ++ s.bytes) r.appended ∙ append_assoc w.buf r.bytes s.bytes);
  decodes = >>=-Decodes f r.decodes s.decodes;
  width = omega (arith, length-append r.bytes s.bytes, r.width, s.width);
}

-- A computation in front that takes no byte.
pub Round-before {ℓ κ} :
    {A : Type ℓ} {B : Type κ} {m : Read A} {a : A} {n : ℕ} {w w' : ByteWriter} (f : A → Read B)
    {b : B}
    → Decodes m [] a
    → Round (f a) b n w w'
    → Round (m >>= f) b n w w'
Round-before f h r = record {
  bytes = r.bytes;
  appended = r.appended;
  decodes = >>=-Decodes f h r.decodes;
  width = r.width;
}

pub Round-width {ℓ} :
    {A : Type ℓ} {read : Read A} {a : A} {m n : ℕ} {w w' : ByteWriter}
    → Round read a m w w'
    → m ≡ n
    → Round read a n w w'
Round-width r e = record {
  bytes = r.bytes;
  appended = r.appended;
  decodes = r.decodes;
  width = r.width ∙ e;
}

-- A read that agrees with another wherever the bytes stand.
pub Round-agree {ℓ} :
    {A : Type ℓ} {read read' : Read A} {a : A} {n : ℕ} {w w' : ByteWriter}
    → ((r : ByteReader) (xs ys : List ℕ) → length xs ≡ n → Rest r (xs ++ ys) → read' r ≡ read r)
    → Round read a n w w'
    → Round read' a n w w'
Round-agree same r = record {
  bytes = r.bytes;
  appended = r.appended;
  decodes = record { runs = λ q ys h. same q r.bytes ys r.width h ∙ r.decodes.runs q ys h };
  width = r.width;
}
