-- ===== src/Metadata/Root.antt =====
-- crates/cecil-metadata/src/root.rs: the metadata root and its streams. A string is the bytes of its
-- UTF-8 form; the lossy conversion of the standard library is a parameter.
use cecil_rs.Base.{
  ℕ, zero, suc, ◌+◌, ◌-◌, ◌/◌, ◌%◌, ◌^◌, Bool, true, false, not, ◌&&◌, Option, none, some, List, [],
  ◌∷◌, length, take, drop, ltb, ◌==◌, if◌then◌else◌,
}
use Prim.Native.Nat.{min}
use cecil_rs.Base.Bits.{bit_clear}
use cecil_rs.Core.Error.{Result, ok, err, panic, bad_image, ok_or, ◌>>=◌}
use cecil_rs.Core.Reader.{ByteReader, Read, at, take_bytes, remaining, seek}
use cecil_rs.Core.Reader
use cecil_rs.Core.Writer.{ByteWriter, bytes, u16, u32, zeros, align_loop}
use cecil_rs.Core.Writer
use cecil_rs.Metadata.Heaps.{zero_position, slice}

abbrev pub metadata_signature : ℕ
metadata_signature = 0x424A5342

pub record StreamHeader : Type 0 where
  pub offset : ℕ
  pub size : ℕ
  pub name : List ℕ

pub record RootHeader : Type 0 where
  pub major_version : ℕ
  pub minor_version : ℕ
  pub version : List ℕ
  pub flags : ℕ
  pub streams : List StreamHeader

-- The equality of strings.
abbrev pub same_bytes : List ℕ → List ℕ → Bool
same_bytes [] [] = true
same_bytes [] (b ∷ bs) = false
same_bytes (a ∷ as_) [] = false
same_bytes (a ∷ as_) (b ∷ bs) = a == b && same_bytes as_ bs

abbrev pub find_stream : List ℕ → List StreamHeader → Option StreamHeader
find_stream name [] = none
find_stream name (s ∷ streams) =
    let rest = find_stream name streams in if same_bytes s.name name then some s else rest

unfoldable pub stream : RootHeader → List ℕ → Option StreamHeader
stream header name = find_stream name header.streams

module _ (from_utf8_lossy : List ℕ → List ℕ) where
  unfoldable pub parse_stream : Read StreamHeader
  parse_stream r = Reader.u32 r >>= λ offset. Reader.u32 offset.1 >>= λ size.
      let start = size.1.position in
      if ltb (length size.1.bytes) start
      then panic
      else (ok_or (zero_position (drop start size.1.bytes)) bad_image >>= λ len.
          slice size.1.bytes start (start + len) >>= λ name.
          seek (bit_clear (start + len + 1 + 3) 3) size.1 >>= λ moved.
          ok (record { offset = offset.0; size = size.0; name = from_utf8_lossy name }, moved.1))

  unfoldable pub parse_streams : ℕ → Read (List StreamHeader)
  unfolding parse_stream
  parse_streams zero r = ok ([], r)
  parse_streams (suc n) r =
      parse_stream r >>= λ first. parse_streams n first.1 >>= λ rest. ok (first.0 ∷ rest.0, rest.1)

  -- The version string, up to its first zero byte.
  abbrev pub version_text : List ℕ → List ℕ
  version_text version_bytes = from_utf8_lossy (
      take (elim (zero_position version_bytes) [ none ↦ length version_bytes | some n ↦ n ])
        version_bytes)

  unfoldable pub parse_directory : ℕ → ℕ → List ℕ → Read RootHeader
  unfolding parse_streams
  parse_directory major_version minor_version version_bytes r = Reader.u16 r >>= λ flags.
      Reader.u16 flags.1 >>= λ stream_count.
      if ltb (remaining stream_count.1 / 8) stream_count.0
      then err bad_image
      else (parse_streams stream_count.0 stream_count.1 >>= λ streams. ok (
        record {
          major_version = major_version;
          minor_version = minor_version;
          version = version_text version_bytes;
          flags = flags.0;
          streams = streams.0;
        },
        streams.1,
      ))

  unfoldable pub parse_root : List ℕ → Result RootHeader
  unfolding parse_directory
  parse_root root = Reader.u32 (at root 0) >>= λ signature.
      if not (signature.0 == metadata_signature)
      then err bad_image
      else (Reader.u16 signature.1 >>= λ major. Reader.u16 major.1 >>= λ minor.
          Reader.u32 minor.1 >>= λ reserved. Reader.u32 reserved.1 >>= λ version_length.
          if ltb (remaining version_length.1) version_length.0
          then err bad_image
          else (take_bytes version_length.0 version_length.1 >>= λ version_bytes.
              parse_directory major.0 minor.0 version_bytes.0 version_bytes.1 >>= λ header.
              ok header.0))

-- `checked_add` on 64-bit lengths.
unfoldable pub stream_slice : List ℕ → StreamHeader → Result (List ℕ)
stream_slice root header =
    let end = header.offset + header.size in
    if not (ltb end (2 ^ 64))
    then err bad_image
    else if ltb (length root) end
    then err bad_image
    else slice root header.offset end

unfoldable pub stream_slice_tolerant : List ℕ → StreamHeader → List ℕ
stream_slice_tolerant root header =
    if ltb (length root) header.offset
    then []
    else (let tail = drop header.offset root in take (min (length tail) header.size) tail)

unfoldable pub padded_len : List ℕ → ℕ
padded_len name = bit_clear (length name + 1 + 3) 3

abbrev pub directory_size : List (List ℕ × List ℕ) → ℕ
directory_size [] = 0
directory_size ((name, payload) ∷ streams) = 8 + padded_len name + directory_size streams

unfoldable pub write_directory : List (List ℕ × List ℕ) → ℕ → ByteWriter → ByteWriter
unfolding padded_len
write_directory [] offset w = w
write_directory ((name, payload) ∷ streams) offset w =
    write_directory streams (bit_clear (offset + length payload + 3) 3) (
      zeros (padded_len name - length name)
        (bytes name (u32 (length payload % 2 ^ 32) (u32 (offset % 2 ^ 32) w))))

-- The payloads, each padded by a loop to a multiple of four: three turns and the last test.
unfoldable pub write_payloads : List (List ℕ × List ℕ) → ByteWriter → Result ByteWriter
write_payloads [] w = ok w
write_payloads ((name, payload) ∷ streams) w = align_loop 4 4 (bytes payload w).buf >>= λ padded.
    write_payloads streams (record { buf = padded })

unfoldable pub root_header : List ℕ → List (List ℕ × List ℕ) → ByteWriter
root_header version streams =
    let padded_version_len = padded_len version in
    u16 (length streams % 2 ^ 16) (
      u16 0 (
        zeros (padded_version_len - length version) (
          bytes version (
            u32 (padded_version_len % 2 ^ 32)
              (u32 0 (u16 1 (u16 1 (u32 metadata_signature Writer.new))))))))

unfoldable pub write_root : List ℕ → List (List ℕ × List ℕ) → Result (List ℕ)
unfolding root_header write_directory write_payloads
write_root version streams =
    let w = root_header version streams in
    write_payloads streams (write_directory streams (length w.buf + directory_size streams) w)
    >>= λ written. ok written.buf
