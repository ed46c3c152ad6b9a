-- ===== src/Core/Token/Laws.antt =====
-- crates/cecil-core/src/token.rs, building a token and taking it apart.
use cecil_rs.Base.{ℕ, ◌*◌, ◌+◌, ◌/◌, ◌%◌, ◌^◌, ◌<◌, ◌≡◌, ap, sym, some, arith}
use cecil_rs.Base.Bits.{bit_or_disjoint, bit_and_mask}
use cecil_rs.Core.Error.{ok}
use cecil_rs.Core.TableIndex.{TableIndex, module_, value, from_u8}
use cecil_rs.Core.TableIndex.Laws.{from_u8_iff}
use cecil_rs.Core.Token.{Token, new, table, try_table, rid}

value-lt : (t : TableIndex) → value t < 0x38
unfolding value
value-lt module_ = omega arith
value-lt _ = omega arith

new-raw : (t : TableIndex) (n : ℕ) → (new t n).raw ≡ value t * 2 ^ 24 + n % 2 ^ 24
unfolding new
new-raw t n = rw (bit_and_mask 24 n) (bit_or_disjoint 24 (value t) (n % 2 ^ 24) (omega arith))

-- A new token has the table and the low 24 bits of the row number that it was made of.
pub table-new :
    (t : TableIndex) (n : ℕ)
    → (table (new t n) ≡ ok t) × (try_table (new t n) ≡ some t) × (rid (new t n) ≡ n % 2 ^ 24)
unfolding table try_table rid
table-new t n =
    let byte : (new t n).raw / 2 ^ 24 % 256 ≡ value t = omega (arith, new-raw t n, value-lt t) in
    let found : from_u8 ((new t n).raw / 2 ^ 24 % 256) ≡ some t = (from_u8_iff _ t).1 (sym byte) in
    (rw found, found, omega (arith, bit_and_mask 24 (new t n).raw, new-raw t n))

-- A token with a known table is the token made of its table and its row number.
pub new-table-rid :
    (k : Token) (t : TableIndex) → k.raw < 2 ^ 32 → try_table k ≡ some t → new t (rid k) ≡ k
unfolding try_table rid
new-table-rid k t h e =
    let byte : value t ≡ k.raw / 2 ^ 24 % 256 = (from_u8_iff _ t).0 e in
    let same : (new t (rid k)).raw ≡ k.raw =
      omega (arith, new-raw t (rid k), bit_and_mask 24 k.raw, byte) in
    ap (λ n. record { raw = n }) same
