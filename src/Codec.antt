-- ===== src/Codec.antt =====
-- vtr-rs/src/codec.rs: blobs with a codec byte and the raw length, and the choice of the codec. The LZ4
-- and zstd libraries are the record `Backend`. Contexts that the source keeps for reuse hold no data
-- from one call to the next, so they are not state here.
pub mod Blob
pub mod RoundTrip
use vtr.Prelude.{
  ℕ, ◌+◌, ◌-◌, ◌*◌, ◌/◌, ◌^◌, Bool, true, false, ◌&&◌, Option, none, some, List, [], ◌∷◌, ◌++◌,
  length, take, drop, ltb, leb, ◌==◌, if◌then◌else◌,
}
use vtr.Error.{Result, ok, err, corrupt, ◌>>=◌}
use vtr.Wire.Varint
use vtr.Wire.Varint.{Reader, reader, put_u64}

pub data Codec : Type 0 where
  stored lz4 zstd : Codec

unfoldable pub codec_u8 : Codec → ℕ
codec_u8 stored = 0
codec_u8 lz4 = 1
codec_u8 zstd = 2

unfoldable pub codec_from_u8 : ℕ → Result Codec
codec_from_u8 v =
    if v == 0
    then ok stored
    else if v == 1
    then ok lz4
    else if v == 2
    then ok zstd
    else err (corrupt "unknown codec id")

-- The level is an `i32` by its bit pattern.
pub record Compression : Type 0 where
  pub codec : Codec
  pub level : ℕ

-- `Compression::NONE`
abbrev no_compression : Compression
no_compression = record { codec = stored; level = 0 }

abbrev zstd_fast : Compression
zstd_fast = record { codec = zstd; level = 1 }

abbrev pub zstd_default : Compression
zstd_default = record { codec = zstd; level = 3 }

abbrev zstd_high : Compression
zstd_high = record { codec = zstd; level = 9 }

abbrev default_compression : Compression
default_compression = zstd_fast

-- `Compression::LZ4`
abbrev pub lz4_compression : Compression
lz4_compression = record { codec = lz4; level = 0 }

-- The C libraries. A result of bytes stands for the part of the output buffer that was written; `none`
-- is a code that is not positive (for `lz4_decompress_safe`, negative).
pub record Backend : Type 0 where
  pub lz4_compress_bound : ℕ → ℕ
  pub lz4_compress_default : List ℕ → ℕ → Option (List ℕ)
  pub lz4_decompress_safe : List ℕ → ℕ → Option (List ℕ)
  pub zstd_compress_bound : ℕ → ℕ
  -- A context of the level, and `ZSTD_compress2` in it.
  pub zstd_compress : ℕ → List ℕ → ℕ → Result (List ℕ)
  pub zstd_decompress : List ℕ → ℕ → Result (List ℕ)

module _ (backend : Backend) where
  open backend use {
    lz4_compress_bound, lz4_compress_default, lz4_decompress_safe, zstd_compress_bound,
    zstd_compress, zstd_decompress,
  }

  -- `i32::try_from` fails from 2^31 on.
  pub lz4_bound : ℕ → Result ℕ
  lz4_bound length =
      if leb (2 ^ 31) length
      then err (corrupt "LZ4 input exceeds i32")
      else if lz4_compress_bound length == 0
      then err (corrupt "LZ4 input exceeds codec limit")
      else ok (lz4_compress_bound length)

  pub lz4_compress : List ℕ → ℕ → Result (List ℕ)
  lz4_compress input capacity =
      if leb (2 ^ 31) (length input)
      then err (corrupt "LZ4 input exceeds i32")
      else if leb (2 ^ 31) capacity
      then err (corrupt "LZ4 output exceeds i32")
      else elim (lz4_compress_default input capacity) [
        | none ↦ err (corrupt "LZ4 compression failed")
        | some bytes ↦ ok bytes
      ]

  pub lz4_decompress : List ℕ → ℕ → Result (List ℕ)
  lz4_decompress input capacity =
      if leb (2 ^ 31) (length input)
      then err (corrupt "LZ4 input exceeds i32")
      else if leb (2 ^ 31) capacity
      then err (corrupt "LZ4 output exceeds i32")
      else elim (lz4_decompress_safe input capacity) [
        | none ↦ err (corrupt "invalid LZ4 block")
        | some bytes ↦ ok bytes
      ]

  pub sample_incompressible : ℕ → ℕ → Bool
  sample_incompressible compressed raw = leb (raw * 96) (compressed * 100)

  pub trial_size : List ℕ → Result ℕ
  trial_size input = do
    bytes ← zstd_compress 1 input (zstd_compress_bound (length input))
    ok (length bytes)

  pub looks_incompressible : List ℕ → Bool
  unfolding sample_incompressible
  looks_incompressible input =
      if ltb (length input) (4 * 4096)
      then false
      else elim (trial_size (take 4096 (drop ((length input - 4096) / 2) input))) [
        | ok c ↦ sample_incompressible c 4096
        | err e ↦ false
      ]

  -- The stored form, and the form with a compressed payload.
  abbrev stored_blob : List ℕ → List ℕ → List ℕ
  stored_blob out input = put_u64 (out ++ codec_u8 stored ∷ []) (length input) ++ input

  -- The last test: a payload that is no shorter than the input is replaced by the input.
  shorter : List ℕ → Codec → List ℕ → List ℕ → List ℕ
  shorter out codec input payload =
      if leb (length input) (length payload)
      then stored_blob out input
      else put_u64 (out ++ codec_u8 codec ∷ []) (length input) ++ payload

  compress_as : Compression → List ℕ → List ℕ → Result (List ℕ)
  compress_as comp input out = elim comp.codec [
    | stored ↦ ok (stored_blob out input)
    | lz4 ↦ do
      bound ← lz4_bound (length input)
      payload ← lz4_compress input bound
      ok (shorter out lz4 input payload)
    | zstd ↦ do
      payload ← zstd_compress comp.level input (zstd_compress_bound (length input))
      ok (shorter out zstd input payload)
  ]

  abbrev is_zstd : Codec → Bool
  is_zstd zstd = true
  is_zstd _ = false

  -- The result is the output vector; on an error the caller gives its vector up.
  pub compress_into_probed : Compression → List ℕ → List ℕ → Bool → Result (List ℕ)
  compress_into_probed comp input out incompressible =
      compress_as (if is_zstd comp.codec && incompressible then lz4_compression else comp) input out

  unfoldable pub compress_into : Compression → List ℕ → List ℕ → Result (List ℕ)
  unfolding compress_into_probed compress_as lz4_bound lz4_compress shorter looks_incompressible
      trial_size
  compress_into comp input out =
      compress_into_probed comp input out (is_zstd comp.codec && looks_incompressible input)

  unfoldable pub raw_len : List ℕ → Result ℕ
  raw_len blob = do
    (c, r) ← Varint.u8 (reader blob)
    codec ← codec_from_u8 c
    (length, r') ← Varint.usize r
    ok length

  -- `decompress_into` behind its codec and raw length: the bytes, and how much of the input they took.
  unfoldable pub decompress_as : Codec → ℕ → List ℕ → ℕ → Result (List ℕ × ℕ)
  decompress_as stored size input pos =
      if ltb (length (drop pos input)) size
      then err (corrupt "truncated raw blob")
      else ok (take size (drop pos input), pos + size)
  decompress_as lz4 size input pos = do
    bytes ← lz4_decompress (drop pos input) size
    if length bytes == size then ok (bytes, length input) else err (corrupt "lz4 length mismatch")
  decompress_as zstd size input pos = do
    bytes ← zstd_decompress (drop pos input) size
    if length bytes == size then ok (bytes, length input) else err (corrupt "zstd length mismatch")

  unfoldable pub decompress_into : List ℕ → List ℕ → Result (List ℕ × ℕ)
  decompress_into input out = do
    (c, r) ← Varint.u8 (reader input)
    codec ← codec_from_u8 c
    (size, r') ← Varint.usize r
    (bytes, consumed) ← decompress_as codec size input r'.pos
    ok (out ++ bytes, consumed)

  pub decompress : List ℕ → Result (List ℕ)
  decompress input = do (out, consumed) ← decompress_into input []; ok out
