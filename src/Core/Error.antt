-- ===== src/Core/Error.antt =====
-- crates/cecil-core/src/error.rs: the error kinds and the result type. The text of a message is
-- not modelled.
use cecil_rs.Base.{Bool, true, false, if◌then◌else◌, Option, none, some, ◌≡◌, refl}

pub data Error : Type 0 where
  io bad_image unsupported invalid_operation argument : Error

-- `Result<T>`, with the ends of a run that are no Rust value: a panic (a slice or an index out of
-- range, an `expect` of nothing), and a loop that has used up the fuel of the model.
pub data Result {ℓ} (A : Type ℓ) : Type ℓ where
  ok : A → Result A
  err : Error → Result A
  panic : Result A
  out_of_fuel : Result A

infixl 5 ◌>>=◌ ◌>>◌
abbrev pub ◌>>=◌ {ℓ κ} : {X : Type ℓ} {Y : Type κ} → Result X → (X → Result Y) → Result Y
panic >>= next = panic
out_of_fuel >>= next = out_of_fuel
err reason >>= next = err reason
ok x >>= next = next x

abbrev pub ◌>>◌ {ℓ} : {Y : Type ℓ} → Result (Unit {0}) → Result Y → Result Y
first >> second = first >>= λ _. second

-- `if !test { return Err(reason) }`
abbrev pub guard : Bool → Error → Result (Unit {0})
guard test reason = if test then ok tt else err reason

-- `o.ok_or(e)`
abbrev pub ok_or {ℓ} : {A : Type ℓ} → Option A → Error → Result A
ok_or (some a) e = ok a
ok_or none e = err e

-- `o.expect(..)`, and an index that panics out of range
abbrev pub expect {ℓ} : {A : Type ℓ} → Option A → Result A
expect (some a) = ok a
expect none = panic

-- The run ends in a value or an error that the code returns.
pub data Returns {ℓ} {A : Type ℓ} : Result A → Type ℓ where
  value : (a : A) → Returns (ok a)
  error : (e : Error) → Returns (err e)

-- A chain that ends in a value has passed through one.
pub >>=-eq-ok {ℓ κ} :
    {X : Type ℓ} {Y : Type κ} (first : Result X) (next : X → Result Y) {b : Y}
    → (first >>= next) ≡ ok b
    → (x : X) × (first ≡ ok x) × (next x ≡ ok b)
>>=-eq-ok panic next e = cc
>>=-eq-ok out_of_fuel next e = cc
>>=-eq-ok (err reason) next e = cc
>>=-eq-ok (ok x) next e = (x, refl, e)

pub >>=-Returns {ℓ κ} :
    {A : Type ℓ} {B : Type κ} {m : Result A} {f : A → Result B}
    → Returns m
    → ((a : A) → m ≡ ok a → Returns (f a))
    → Returns (m >>= f)
>>=-Returns (value a) k = k a refl
>>=-Returns (error e) k = error e

pub guard-eq_ok : (b : Bool) (e : Error) {u : Unit {0}} → guard b e ≡ ok u → b ≡ true
guard-eq_ok true e h = refl
guard-eq_ok false e h = cc

pub ok-injective {ℓ} : {A : Type ℓ} {a b : A} → ok a ≡ ok b → a ≡ b
ok-injective e = cc

pub ok_or-eq_ok {ℓ} :
    {A : Type ℓ} (o : Option A) (e : Error) {a : A} → ok_or o e ≡ ok a → o ≡ some a
ok_or-eq_ok none e h = cc
ok_or-eq_ok (some b) e h = cc
