-- ===== src/Core/Writer.antt =====
-- crates/cecil-core/src/io.rs, `ByteWriter`: an append-only buffer. A method with `&mut self`
-- returns the new writer. A cast to a narrower word is a remainder.
pub mod Laws
pub mod RoundTrip
pub mod Signed
pub mod Align
use cecil_rs.Base.{
  ℕ, zero, suc, ◌+◌, ◌-◌, ◌*◌, ◌/◌, ◌%◌, ◌^◌, bit_and, bit_or, List, [], ◌∷◌, ◌++◌, length, take,
  drop, replicate, ltb, ◌==◌, if◌then◌else◌,
}
use cecil_rs.Base.Bits.{bit_clear}
use cecil_rs.Base.Int.{ℤ, pos, negsuc, to_unsigned, half32}
use cecil_rs.Core.Error.{Result, ok, panic, out_of_fuel, ◌>>=◌}

pub record ByteWriter : Type 0 where
  pub buf : List ℕ

abbrev pub new : ByteWriter
new = record { buf = [] }

-- `to_le_bytes` and `to_be_bytes` of a word of `n` bytes.
abbrev pub le_bytes : ℕ → ℕ → List ℕ
le_bytes zero v = []
le_bytes (suc n) v = v % 256 ∷ le_bytes n (v / 256)

abbrev pub be_bytes : ℕ → ℕ → List ℕ
be_bytes zero v = []
be_bytes (suc n) v = be_bytes n (v / 256) ++ v % 256 ∷ []

unfoldable pub bytes : List ℕ → ByteWriter → ByteWriter
bytes v w = record { buf = w.buf ++ v }

unfoldable pub u8 : ℕ → ByteWriter → ByteWriter
unfolding bytes
u8 v = bytes (v ∷ [])

unfoldable pub i8 : ℤ → ByteWriter → ByteWriter
unfolding u8
i8 v = u8 (to_unsigned 128 v)

unfoldable pub u16 : ℕ → ByteWriter → ByteWriter
unfolding bytes
u16 v = bytes (le_bytes 2 v)

unfoldable pub u32 : ℕ → ByteWriter → ByteWriter
unfolding bytes
u32 v = bytes (le_bytes 4 v)

unfoldable pub i32 : ℤ → ByteWriter → ByteWriter
unfolding u32
i32 v = u32 (to_unsigned half32 v)

unfoldable pub u64 : ℕ → ByteWriter → ByteWriter
unfolding bytes
u64 v = bytes (le_bytes 8 v)

unfoldable pub i64 : ℤ → ByteWriter → ByteWriter
unfolding u64
i64 v = u64 (to_unsigned (2 ^ 63) v)

-- A float is the pattern of its bits.
unfoldable pub f32 : ℕ → ByteWriter → ByteWriter
unfolding u32
f32 v = u32 v

unfoldable pub f64 : ℕ → ByteWriter → ByteWriter
unfolding u64
f64 v = u64 v

unfoldable pub zeros : ℕ → ByteWriter → ByteWriter
zeros n w = record { buf = w.buf ++ replicate n 0 }

-- The slice `buf[pos .. pos + 4]` panics where it leaves the buffer.
unfoldable pub patch_u32_at : ℕ → ℕ → ByteWriter → Result ByteWriter
patch_u32_at position v w =
    if ltb (length w.buf) (position + 4)
    then panic
    else ok (record { buf = take position w.buf ++ (le_bytes 4 v ++ drop (position + 4) w.buf) })

unfoldable pub compressed_u32 : ℕ → ByteWriter → ByteWriter
unfolding u8
compressed_u32 v w =
    if ltb v 0x80
    then u8 (v % 256) w
    else if ltb v 0x4000
    then u8 (bit_and v 0xff) (u8 (bit_or 0x80 (v / 2 ^ 8) % 256) w)
    else u8 (bit_and v 0xff) (
        u8 (bit_and (v / 2 ^ 8) 0xff)
          (u8 (bit_and (v / 2 ^ 16) 0xff) (u8 (bit_or (v / 2 ^ 24) 0xC0 % 256) w)))

-- `value >> 31` of an `i32`, as the bits of the word.
pub sign_mask : ℤ → ℕ
sign_mask (pos n) = 0
sign_mask (negsuc n) = 2 ^ 32 - 1

-- `((value & mask) << 1) | (sign_mask & 1)`, on the bits of the words.
pub rotate : ℕ → ℕ → ℕ → ℕ
rotate value sign mask = bit_or (bit_and value mask * 2 % 2 ^ 32) (bit_and sign 1)

pub compressed_bits : ℕ → ℕ → ByteWriter → ByteWriter
unfolding rotate u8 bytes
compressed_bits value sign w =
    if bit_clear value (2 ^ 6 - 1) == bit_clear sign (2 ^ 6 - 1)
    then u8 (rotate value sign (2 ^ 6 - 1) % 256) w
    else if bit_clear value (2 ^ 13 - 1) == bit_clear sign (2 ^ 13 - 1)
    then bytes (be_bytes 2 (bit_or 0x8000 (rotate value sign (2 ^ 13 - 1) % 2 ^ 16))) w
    else bytes (be_bytes 4 (bit_or 0xC0000000 (rotate value sign (2 ^ 28 - 1)))) w

-- The masks work on the bits of the `i32`.
unfoldable pub compressed_i32 : ℤ → ByteWriter → ByteWriter
unfolding sign_mask compressed_bits
compressed_i32 value = compressed_bits (to_unsigned half32 value) (sign_mask value)

-- `while !len.is_multiple_of(alignment) { push 0 }`, on fuel. A length is a multiple of 0 only
-- where it is 0, as is its remainder.
unfoldable pub align_loop : ℕ → ℕ → List ℕ → Result (List ℕ)
align_loop zero alignment buf = out_of_fuel
align_loop (suc fuel) alignment buf =
    let padded = align_loop fuel alignment (buf ++ 0 ∷ []) in
    if length buf % alignment == 0 then ok buf else padded

-- A round moves one byte closer to a multiple of the alignment, so `alignment` rounds are enough.
unfoldable pub align : ℕ → ByteWriter → Result ByteWriter
unfolding align_loop
align alignment w = align_loop (alignment + 1) alignment w.buf >>= λ b. ok (record { buf = b })
