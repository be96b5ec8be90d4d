-- ===== src/Codec/Blob.antt =====
-- vtr-rs/src/wire.rs: `compress`, `decompress` and `decompress_any`, blobs of a bounded size.
use vtr.Prelude.{ℕ, Bool, true, false, not, ◌&&◌, ◌||◌, List, [], length, leb, ◌==◌, if◌then◌else◌}
use vtr.Error.{Result, ok, err, corrupt, invalid, ◌>>=◌}
use vtr.Wire.Cursor
use vtr.Wire.Columns.{max_block_bytes}
use vtr.Codec.{Codec, Compression, Backend, stored, codec_from_u8, compress_into, decompress_into}

abbrev is_stored : Codec → Bool
is_stored stored = true
is_stored _ = false

module _ (backend : Backend) where
  pub compress : List ℕ → Compression → Result (List ℕ)
  compress input compression =
      if leb max_block_bytes (length input)
      then err (invalid "compression block exceeds format limit")
      else compress_into backend compression input []

  -- `decompress` once the codec and the size are read; `left` is what follows them.
  checked_blob : Codec → ℕ → ℕ → List ℕ → ℕ → Result (List ℕ)
  checked_blob codec size left input expected =
      if leb max_block_bytes size || not (size == expected)
      then err (corrupt "decompressed length exceeds bounds")
      else if is_stored codec && not (left == expected)
      then err (corrupt "stored blob size mismatch")
      else do
        (out, consumed) ← decompress_into backend input []
        if not (consumed == length input) || not (length out == expected)
            then err (corrupt "compressed blob size mismatch")
            else ok out

  pub decompress : List ℕ → ℕ → Result (List ℕ)
  decompress input expected = do
    (c, d1) ← Cursor.byte input
    codec ← codec_from_u8 c
    (size, d2) ← Cursor.var d1
    checked_blob codec size (Cursor.remaining d2) input expected

  pub decompress_any : List ℕ → Result (List ℕ)
  decompress_any input = do
    (c, d1) ← Cursor.byte input
    (expected, d2) ← Cursor.var d1
    decompress input expected
