-- ===== src/Codec/RoundTrip.antt =====
-- Compressed blobs are read back, and they are never longer than the stored form.
use vtr.Prelude.{
  ℕ, ◌+◌, ◌^◌, ◌≤◌, ◌<◌, ◌≡◌, refl, ap, ◌∙◌, Bool-cases, some, inl, inr, List, [], ◌∷◌, ◌++◌,
  length, length-append, drop, drop-add, drop-append, take-all, leb, eq→==, le→ltb, arith,
}
use mathlib.Core.Path.{subst}
use vtr.Prelude.Bytes.{IsU64}
use vtr.Error.{ok, >>=-eq-ok}
use vtr.Wire.Varint.{put_u64, len_u64}
use vtr.Wire.Varint.Encode.{encoded, put_u64-encoded}
use vtr.Wire.Varint.RoundTrip.{u8-cons, usize-encoded}
use vtr.Wire.Varint.Length.{length-put_u64}
use vtr.Codec.{
  Codec, Compression, Backend, stored, lz4, zstd, codec_u8, codec_from_u8, lz4_bound, lz4_compress,
  lz4_decompress, stored_blob, shorter, compress_as, compress_into, decompress_as, decompress_into,
}

-- What LZ4 and zstd promise: what they compress is decompressed into a buffer of the input's length, and
-- the compressed bytes fit the buffer that they were given.
pub record IsLossless (b : Backend) : Type 0 where
  pub lz4_fits :
      (input : List ℕ) (capacity : ℕ) (bytes : List ℕ)
      → b.lz4_compress_default input capacity ≡ some bytes
      → length bytes ≤ capacity
  pub lz4_back :
      (input : List ℕ) (capacity : ℕ) (bytes : List ℕ)
      → b.lz4_compress_default input capacity ≡ some bytes
      → b.lz4_decompress_safe bytes (length input) ≡ some input
  pub zstd_back :
      (level : ℕ) (input : List ℕ) (capacity : ℕ) (bytes : List ℕ)
      → b.zstd_compress level input capacity ≡ ok bytes
      → b.zstd_decompress bytes (length input) ≡ ok input

-- A blob of a payload, and what a reader has to make of the payload.
abbrev blob_of : Codec → ℕ → List ℕ → List ℕ
blob_of codec n payload = put_u64 (codec_u8 codec ∷ []) n ++ payload

codec_from_u8-codec_u8 : (codec : Codec) → codec_from_u8 (codec_u8 codec) ≡ ok codec
unfolding codec_from_u8 codec_u8
codec_from_u8-codec_u8 stored = refl
codec_from_u8-codec_u8 lz4 = refl
codec_from_u8-codec_u8 zstd = refl

module _ (b : Backend) where
  abbrev Decodes : Codec → List ℕ → List ℕ → Type 0
  Decodes stored payload input = payload ≡ input
  Decodes lz4 payload input = lz4_decompress b payload (length input) ≡ ok input
  Decodes zstd payload input = b.zstd_decompress payload (length input) ≡ ok input

  decompress_as_lem :
      (codec : Codec) (blob payload input : List ℕ) (pos : ℕ)
      → drop pos blob ≡ payload
      → pos + length payload ≡ length blob
      → Decodes codec payload input
      → decompress_as b codec (length input) blob pos ≡ ok (input, length blob)
  unfolding decompress_as
  decompress_as_lem stored blob payload input pos tail whole h =
      rw
        (
          tail ∙ h,
          le→ltb (length input) (length input) (omega arith),
          take-all (length input) input (omega arith),
        )
        (ap (λ (t : ℕ). ok (input, t)) (omega (arith, ap length h)))
  decompress_as_lem lz4 blob payload input pos tail whole h =
      rw (tail, h, eq→== (length input) (length input) refl)
  decompress_as_lem zstd blob payload input pos tail whole h =
      rw (tail, h, eq→== (length input) (length input) refl)

  decompress_into-blob_of :
      (codec : Codec) (payload input out : List ℕ)
      → IsU64 (length input)
      → Decodes codec payload input
      → decompress_into b (blob_of codec (length input) payload) out
        ≡ ok (out ++ input, length (blob_of codec (length input) payload))
  unfolding decompress_into
  decompress_into-blob_of codec payload input out h d =
      let n = length input in
      let blob : List ℕ = codec_u8 codec ∷ (encoded n ++ payload) in
      let pos : ℕ = 1 + length (encoded n) in
      let tail : drop pos blob ≡ payload =
        drop-add 1 (length (encoded n)) blob
        ∙ drop-append (length (encoded n)) (encoded n) payload refl in
      rw (
        put_u64-encoded (codec_u8 codec ∷ []) n,
        u8-cons (codec_u8 codec) (encoded n ++ payload),
        codec_from_u8-codec_u8 codec,
        usize-encoded blob 1 n payload h refl,
        decompress_as_lem codec blob payload input pos tail
            (omega (arith, length-append (encoded n) payload)) d,
      )

  data Shape (out input : List ℕ) : List ℕ → Type 0 where
    shape :
        (codec : Codec) (payload : List ℕ)
        → Decodes codec payload input
        → length payload ≤ length input
        → Shape out input (put_u64 (out ++ codec_u8 codec ∷ []) (length input) ++ payload)

  stored-Shape : (out input : List ℕ) → Shape out input (stored_blob b out input)
  stored-Shape out input = shape stored input refl (omega arith)

  shorter-Shape :
      (out : List ℕ) (codec : Codec) (input payload : List ℕ)
      → Decodes codec payload input
      → Shape out input (shorter b out codec input payload)
  unfolding shorter
  shorter-Shape out codec input payload d =
      elim (Bool-cases (leb (length input) (length payload))) [
        | inl e ↦ rw e (stored-Shape out input)
        | inr e ↦ rw e (shape codec payload d (ground arith))
      ]

  lz4_compress_ok :
      (input : List ℕ) (capacity : ℕ) (payload : List ℕ)
      → lz4_compress b input capacity ≡ ok payload
      → (length input < 2 ^ 31)
        × (capacity < 2 ^ 31)
        × (b.lz4_compress_default input capacity ≡ some payload)
  unfolding lz4_compress
  lz4_compress_ok input capacity payload h = (ground arith, ground arith, ground arith)

  lz4_decompress_ok :
      (bytes : List ℕ) (capacity : ℕ) (input : List ℕ)
      → length bytes < 2 ^ 31
      → capacity < 2 ^ 31
      → b.lz4_decompress_safe bytes capacity ≡ some input
      → lz4_decompress b bytes capacity ≡ ok input
  unfolding lz4_decompress
  lz4_decompress_ok bytes capacity input hb hc h = ground arith

  module _ (law : IsLossless b) where
    compress_as-Shape :
        (codec : Codec) (level : ℕ) (input out blob : List ℕ)
        → compress_as b (record { codec = codec; level = level }) input out ≡ ok blob
        → Shape out input blob
    unfolding compress_as
    compress_as-Shape stored level input out blob h =
        subst (Shape out input) (cc) (stored-Shape out input)
    compress_as-Shape lz4 level input out blob h =
        let (bound, bounded, h1) = >>=-eq-ok (lz4_bound b (length input)) _ h in
        let (payload, made, h2) = >>=-eq-ok (lz4_compress b input bound) _ h1 in
        let (hi, hb, default) = lz4_compress_ok input bound payload made in
        let fits = law.lz4_fits input bound payload default in
        subst (Shape out input) (cc) (
          shorter-Shape out lz4 input payload (
            lz4_decompress_ok payload (length input) input (omega arith) hi
              (law.lz4_back input bound payload default)))
    compress_as-Shape zstd level input out blob h =
        let (payload, made, h1) =
          >>=-eq-ok (b.zstd_compress level input (b.zstd_compress_bound (length input))) _ h in
        subst (Shape out input) (cc)
          (shorter-Shape out zstd input payload (law.zstd_back level input _ payload made))

    compress_into-Shape :
        (comp : Compression) (input out blob : List ℕ)
        → compress_into b comp input out ≡ ok blob
        → Shape out input blob
    unfolding compress_into
    compress_into-Shape comp input out blob h = compress_as-Shape _ _ input out blob h

    Shape-decompress_into :
        (input blob out : List ℕ)
        → IsU64 (length input)
        → Shape [] input blob
        → decompress_into b blob out ≡ ok (out ++ input, length blob)
    Shape-decompress_into input blob out h (shape codec payload d le) =
        decompress_into-blob_of codec payload input out h d

    -- Whatever codec is asked for, and whether or not the blob falls back to another, a compressed blob is
    -- decompressed into the input, and all of it is used.
    pub decompress_into-compress_into :
        (comp : Compression) (input blob out : List ℕ)
        → IsU64 (length input)
        → compress_into b comp input [] ≡ ok blob
        → decompress_into b blob out ≡ ok (out ++ input, length blob)
    decompress_into-compress_into comp input blob out h c =
        Shape-decompress_into input blob out h (compress_into-Shape comp input [] blob c)

    Shape-length :
        (input out blob : List ℕ)
        → IsU64 (length input)
        → Shape out input blob
        → length blob ≤ length out + 1 + len_u64 (length input) + length input
    Shape-length input out blob h (shape codec payload d le) =
        rw
          (
            length-append (put_u64 (out ++ codec_u8 codec ∷ []) (length input)) payload,
            length-put_u64 (out ++ codec_u8 codec ∷ []) (length input) h,
            length-append out (codec_u8 codec ∷ []),
          )
          (omega arith)

    -- A blob takes no more than its codec byte, its length and the input itself, whatever the codec.
    pub compress_into_bound :
        (comp : Compression) (input out blob : List ℕ)
        → IsU64 (length input)
        → compress_into b comp input out ≡ ok blob
        → length blob ≤ length out + 1 + len_u64 (length input) + length input
    compress_into_bound comp input out blob h c =
        Shape-length input out blob h (compress_into-Shape comp input out blob c)
