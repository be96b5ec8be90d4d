-- ===== src/Tests/Codec.antt =====
-- The blobs of vtr-rs/src/codec.rs over libraries that compress a run of one byte.
use vtr.Prelude.{
  ℕ, zero, suc, ◌+◌, ◌≤◌, ◌≡◌, refl, sym, ap, Bool, true, false, Option, none, some, List, [], ◌∷◌,
  length, replicate, ◌==◌, if◌then◌else◌, arith,
}
use vtr.Error.{ok}
use vtr.Wire.Varint.{put_u64, len_u64}
use vtr.Codec.{Backend, codec_u8, lz4_compression, compress_into, decompress_into}
use vtr.Codec.RoundTrip.{IsLossless, decompress_into-compress_into, compress_into_bound}

-- The run's byte, if all bytes are zero: the only input that these libraries compress.
abbrev all_zero : List ℕ → Bool
all_zero [] = true
all_zero (b ∷ bs) = if b == 0 then all_zero bs else false

abbrev squeeze : List ℕ → ℕ → Option (List ℕ)
squeeze input capacity = if all_zero input then some [] else none

abbrev spread : List ℕ → ℕ → Option (List ℕ)
spread bytes capacity = some (replicate capacity 0)

all_zero_lem : (input : List ℕ) → all_zero input ≡ true → replicate (length input) 0 ≡ input
all_zero_lem [] h = refl
all_zero_lem (zero ∷ bs) h = ap (λ t. 0 ∷ t) (all_zero_lem bs h)
all_zero_lem (suc b ∷ bs) h = absurd (ground arith)

-- LZ4 that knows runs of zero, and zstd that copies.
abbrev pub zeros : Backend
zeros = record {
  lz4_compress_bound = λ n. n + 16;
  lz4_compress_default = squeeze;
  lz4_decompress_safe = spread;
  zstd_compress_bound = λ n. n;
  zstd_compress = λ level input capacity. ok input;
  zstd_decompress = λ bytes capacity. ok bytes;
}

squeeze_lem :
    (input : List ℕ) (capacity : ℕ) (bytes : List ℕ)
    → squeeze input capacity ≡ some bytes
    → (length bytes ≤ capacity) × (all_zero input ≡ true)
squeeze_lem input capacity bytes h = (ground arith, ground arith)

pub zeros-IsLossless : IsLossless zeros
zeros-IsLossless = record {
  lz4_fits = λ input capacity bytes h. (squeeze_lem input capacity bytes h).0;
  lz4_back =
      λ input capacity bytes h. ap some (all_zero_lem input (squeeze_lem input capacity bytes h).1);
  zstd_back = λ level input capacity bytes h. sym h;
}

abbrev run_of_zeros : List ℕ
run_of_zeros = 0 ∷ 0 ∷ 0 ∷ 0 ∷ []

-- LZ4, four bytes, no payload.
abbrev small_blob : List ℕ
small_blob = 1 ∷ 4 ∷ []

compress_into_run : compress_into zeros lz4_compression run_of_zeros [] ≡ ok small_blob
unfolding compress_into put_u64 codec_u8
compress_into_run = refl

decompress_into-compress_into_example :
    decompress_into zeros small_blob (9 ∷ []) ≡ ok (9 ∷ 0 ∷ 0 ∷ 0 ∷ 0 ∷ [], 2)
decompress_into-compress_into_example =
    decompress_into-compress_into zeros zeros-IsLossless lz4_compression run_of_zeros small_blob
      (9 ∷ []) (omega arith) compress_into_run

compress_into_bound_example :
    length small_blob ≤ 0 + 1 + len_u64 (length run_of_zeros) + length run_of_zeros
compress_into_bound_example =
    compress_into_bound zeros zeros-IsLossless lz4_compression run_of_zeros [] small_blob
      (omega arith) compress_into_run
