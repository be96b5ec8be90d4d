-- ===== src/Activity/Format/Columns.antt =====
-- The columns that `pack` joins are the ranges that `unpack` returns.
use vtr.Prelude.{
  ℕ, ◌+◌, ◌-◌, ◌≤◌, ◌≡◌, refl, sym, ap, ◌∙◌, List, [], ◌∷◌, ◌++◌, map, append-nil, append_assoc,
  length, length-append, length-drop, drop, take-append, drop-append, drop-add, eq→==, arith,
}
use vtr.Prelude.Bytes.{IsU64}
use vtr.Error.{ok}
use mathlib.Core.Path.{ap₂}
use native.Mathlib.Nat.{zero-add}
use vtr.Wire.Varint.{put_u64, reader}
use vtr.Wire.Varint.Encode.{encoded, put_u64-encoded}
use vtr.Wire.Varint.RoundTrip.{at, usize-encoded}
use vtr.Codec.{Backend, zstd_default}
use vtr.Codec.RoundTrip.{IsLossless, decompress_into-compress_into}
use vtr.Activity.Format.{
  slice, put_lengths, extend_columns, raw_columns, read_lengths, column_end, column_ranges,
  split_raw, pack, unpack,
}

-- A range of the section's bytes, `&raw[begin..end]`.
abbrev pub column_at : List ℕ → ℕ × ℕ → List ℕ
column_at raw (begin, end) = slice begin (end - begin) raw

abbrev codes : List (List ℕ) → List ℕ
codes [] = []
codes (c ∷ cs) = encoded (length c) ++ codes cs

abbrev joined : List (List ℕ) → List ℕ
joined [] = []
joined (c ∷ cs) = c ++ joined cs

put_lengths_lem : (cs : List (List ℕ)) (raw : List ℕ) → put_lengths cs raw ≡ raw ++ codes cs
unfolding put_lengths
put_lengths_lem [] raw = sym (append-nil raw)
put_lengths_lem (c ∷ cs) raw =
    put_lengths_lem cs (put_u64 raw (length c)) ∙ rw (put_u64-encoded raw (length c), append_assoc)

extend_columns_lem : (cs : List (List ℕ)) (raw : List ℕ) → extend_columns cs raw ≡ raw ++ joined cs
unfolding extend_columns
extend_columns_lem [] raw = sym (append-nil raw)
extend_columns_lem (c ∷ cs) raw = extend_columns_lem cs (raw ++ c) ∙ append_assoc raw c (joined cs)

raw_columns_lem : (cs : List (List ℕ)) → raw_columns cs ≡ codes cs ++ joined cs
unfolding raw_columns
raw_columns_lem cs =
    extend_columns_lem cs (put_lengths cs []) ∙ ap (λ t. t ++ joined cs) (put_lengths_lem cs [])

abbrev HasLengths : List (List ℕ) → Type 0
HasLengths [] = Unit
HasLengths (c ∷ cs) = IsU64 (length c) × HasLengths cs

read_lengths_lem :
    (cs : List (List ℕ)) (buf : List ℕ) (pos : ℕ) (rest : List ℕ)
    → HasLengths cs
    → drop pos buf ≡ codes cs ++ rest
    → read_lengths (length cs) (at buf pos) ≡ ok (map length cs, at buf (pos + length (codes cs)))
unfolding read_lengths
read_lengths_lem [] buf pos rest h here = ap (λ t. ok ([], at buf t)) (omega arith)
read_lengths_lem (c ∷ cs) buf pos rest h here =
    let e = rw append_assoc at here in
    rw (usize-encoded buf pos (length c) (codes cs ++ rest) h.0 e) (
      let next : drop (pos + length (encoded (length c))) buf ≡ codes cs ++ rest =
        rw (drop-add pos (length (encoded (length c))) buf, e)
          (drop-append (length (encoded (length c))) (encoded (length c)) (codes cs ++ rest)
            refl) in
      rw (read_lengths_lem cs buf (pos + length (encoded (length c))) rest h.1 next, length-append)
        (ap (λ t. ok (map length (c ∷ cs), at buf t)) (omega arith)))

abbrev ranges_of : ℕ → List (List ℕ) → List (ℕ × ℕ)
ranges_of pos [] = []
ranges_of pos (c ∷ cs) = (pos, pos + length c) ∷ ranges_of (pos + length c) cs

rest_length :
    (pos : ℕ) (raw front rest : List ℕ)
    → pos ≤ length raw
    → drop pos raw ≡ front ++ rest
    → pos + length front + length rest ≡ length raw
rest_length pos raw front rest h here =
    omega (arith, length-drop pos raw, ap length here, length-append front rest)

next_drop :
    (pos : ℕ) (raw front rest : List ℕ)
    → drop pos raw ≡ front ++ rest
    → drop (pos + length front) raw ≡ rest
next_drop pos raw front rest here =
    rw (drop-add pos (length front) raw, here) (drop-append (length front) front rest refl)

column_end_lem :
    (raw : List ℕ) (pos l : ℕ)
    → IsU64 (length raw)
    → pos + l ≤ length raw
    → column_end raw pos l ≡ ok (pos + l)
unfolding column_end
column_end_lem raw pos l wide fits = ground arith

column_ranges_lem :
    (cs : List (List ℕ)) (raw : List ℕ) (pos : ℕ)
    → IsU64 (length raw)
    → pos ≤ length raw
    → drop pos raw ≡ joined cs
    → column_ranges raw (map length cs) pos ≡ ok (ranges_of pos cs, length raw)
unfolding column_ranges
column_ranges_lem [] raw pos wide inside here =
    ap (λ t. ok ([], t)) (omega (arith, length-drop pos raw, ap length here))
column_ranges_lem (c ∷ cs) raw pos wide inside here =
    let total = rest_length pos raw c (joined cs) inside here in
    rw (
      column_end_lem raw pos (length c) wide (omega arith),
      column_ranges_lem cs raw (pos + length c) wide (omega arith)
          (next_drop pos raw c (joined cs) here),
    )

ranges_hold :
    (cs : List (List ℕ)) (raw : List ℕ) (pos : ℕ)
    → drop pos raw ≡ joined cs
    → map (column_at raw) (ranges_of pos cs) ≡ cs
ranges_hold [] raw pos here = refl
ranges_hold (c ∷ cs) raw pos here =
    ap₂ (λ x y. x ∷ y) (rw here (take-append (pos + length c - pos) c (joined cs) (omega arith)))
      (ranges_hold cs raw (pos + length c) (next_drop pos raw c (joined cs) here))

has_lengths : (cs : List (List ℕ)) → IsU64 (length (joined cs)) → HasLengths cs
has_lengths [] h = tt
has_lengths (c ∷ cs) h = (
  omega (arith, length-append c (joined cs)),
  has_lengths cs (omega (arith, length-append c (joined cs))),
)

split_raw-raw_columns :
    (cs : List (List ℕ))
    → IsU64 (length (raw_columns cs))
    → split_raw (length cs) (raw_columns cs) ≡ ok (ranges_of (length (codes cs)) cs)
unfolding split_raw reader
split_raw-raw_columns cs wide =
    let whole = raw_columns_lem cs in
    let size = length-append (codes cs) (joined cs) in
    let size' = ap length whole in
    let lens =
      read_lengths_lem cs (raw_columns cs) 0 (joined cs) (has_lengths cs (omega arith)) whole in
    let ranges =
      column_ranges_lem cs (raw_columns cs) (length (codes cs)) wide (omega arith)
        (rw whole (drop-append (length (codes cs)) (codes cs) (joined cs) refl)) in
    rw (lens, zero-add, ranges, eq→== (length (raw_columns cs)) (length (raw_columns cs)) refl)

-- Where the compressors are lossless, a section of columns that is packed is unpacked into its bytes and one
-- range for each column, and the bytes at the ranges are the columns.
pub unpack-pack :
    (b : Backend) (cs : List (List ℕ)) (blob : List ℕ)
    → IsLossless b
    → IsU64 (length (raw_columns cs))
    → pack b cs ≡ ok blob
    → (out : List ℕ × List (ℕ × ℕ)) × (unpack (length cs) b blob ≡ ok out)
      × (map (column_at out.0) out.1 ≡ cs)
unfolding pack unpack
unpack-pack b cs blob lossless wide packed =
    let back =
      decompress_into-compress_into b lossless zstd_default (raw_columns cs) blob [] wide packed in
    (
      (raw_columns cs, ranges_of (length (codes cs)) cs),
      rw (back, split_raw-raw_columns cs wide),
      ranges_hold cs (raw_columns cs) (length (codes cs))
          (rw (raw_columns_lem cs) (drop-append (length (codes cs)) (codes cs) (joined cs) refl)),
    )
