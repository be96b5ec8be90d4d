-- ===== src/Activity/Format.antt =====
-- vtr-rs/src/activity/format.rs: the sections of the sidecar. A fixed array is the list of its fields in
-- order; a slice of the input is read as it stands, behind the length test that the source makes first.
pub mod RoundTrip
pub mod Columns
use vtr.Prelude.{
  ℕ, zero, suc, ◌≡◌, Bool, true, false, not, ◌||◌, Option, none, some, List, [], ◌∷◌, ◌++◌, length,
  get_elem?, take, drop, replicate, ltb, ◌==◌, if◌then◌else◌,
}
use vtr.Prelude.Bytes.{to_le, from_le, checked_add}
use vtr.Error.{Result, ok, err, corrupt, ◌>>=◌}
use vtr.Wire.Varint
use vtr.Wire.Varint.{Reader, reader, put_u64}
use vtr.Codec
use vtr.Codec.{Backend, Compression, zstd_default}
use vtr.Activity.{Identity, code, from_code}

abbrev pub header_len : ℕ
header_len = 56

abbrev pub block_head_len : ℕ
block_head_len = 40

abbrev pub tail_head_len : ℕ
tail_head_len = 8

pub record Header : Type 0 where
  pub identity : Identity
  pub signals : ℕ
  pub t_min : ℕ

pub record BlockHead : Type 0 where
  pub start : ℕ
  pub end : ℕ
  pub bytes : ℕ
  pub rows : ℕ
  pub closed : ℕ
  pub exponent : ℕ

-- `iter().any(|&b| b != 0)`
unfoldable pub any_set : List ℕ → Bool
any_set [] = false
any_set (b ∷ bs) = not (b == 0) || any_set bs

abbrev pub slice : ℕ → ℕ → List ℕ → List ℕ
slice o n p = take n (drop o p)

abbrev pub le32 : List ℕ → ℕ → ℕ
le32 p o = from_le (slice o 4 p)

abbrev pub le64 : List ℕ → ℕ → ℕ
le64 p o = from_le (slice o 8 p)

-- `p[o]`, behind a test of the length.
abbrev pub byte_at : List ℕ → ℕ → ℕ
byte_at p o = elim (get_elem? p o) [ none ↦ 0 | some b ↦ b ]

unfoldable pub encode_header : Header → List ℕ
encode_header h =
    to_le 8 h.identity.length
    ++ (to_le 4 h.identity.toc_crc
        ++ (code h.identity.format ∷ replicate 3 0
            ++ (to_le 4 h.signals
                ++ (replicate 12 0 ++ (to_le 8 h.t_min ++ h.identity.recording)))))

unfoldable pub decode_header : List ℕ → Result Header
decode_header p =
    if not (length p == header_len)
    then err (corrupt "activity index header has the wrong length")
    else if any_set (slice 13 3 p ++ slice 20 12 p)
    then err (corrupt "activity header reserved fields")
    else do
      format ← from_code (byte_at p 12)
      ok (record {
        identity = record {
          format = format;
          length = le64 p 0;
          toc_crc = le32 p 8;
          recording = slice 40 16 p;
        };
        signals = le32 p 16;
        t_min = le64 p 32;
      })

unfoldable pub encode_block_head : BlockHead → List ℕ
encode_block_head h =
    to_le 8 h.start
    ++ (to_le 8 h.end
        ++ (to_le 8 h.bytes
            ++ (to_le 4 h.rows ++ (to_le 4 h.closed ++ (h.exponent ∷ replicate 7 0)))))

abbrev pub block_head_of : List ℕ → BlockHead
block_head_of p = record {
  start = le64 p 0;
  end = le64 p 8;
  bytes = le64 p 16;
  rows = le32 p 24;
  closed = le32 p 28;
  exponent = byte_at p 32;
}

unfoldable pub decode_block_head : List ℕ → Result BlockHead
decode_block_head p =
    if ltb (length p) block_head_len
    then err (corrupt "activity index block truncated")
    else (let h = block_head_of p in
        if not (h.exponent == 0) || (any_set (slice 33 7 p) || ltb h.end h.start)
        then err (corrupt "activity index block head out of range")
        else ok h)

unfoldable pub tail_rows : List ℕ → Result ℕ
tail_rows p =
    if ltb (length p) tail_head_len
    then err (corrupt "activity index tail truncated")
    else if any_set (slice 4 4 p)
    then err (corrupt "activity tail reserved fields")
    else ok (le32 p 0)

-- The two loops of `pack` over the columns.
put_lengths : List (List ℕ) → List ℕ → List ℕ
put_lengths [] raw = raw
put_lengths (col ∷ cols) raw = put_lengths cols (put_u64 raw (length col))

extend_columns : List (List ℕ) → List ℕ → List ℕ
extend_columns [] raw = raw
extend_columns (col ∷ cols) raw = extend_columns cols (raw ++ col)

unfoldable pub raw_columns : List (List ℕ) → List ℕ
unfolding put_lengths extend_columns
raw_columns cols = extend_columns cols (put_lengths cols [])

-- `for l in &mut lens`
read_lengths : ℕ → Reader → Result (List ℕ × Reader)
read_lengths zero r = ok ([], r)
read_lengths (suc n) r = do
  (l, r') ← Varint.usize r
  (ls, r'') ← read_lengths n r'
  ok (l ∷ ls, r'')

-- `checked_add(l).filter(|&e| e <= raw.len()).ok_or(..)`
column_end : List ℕ → ℕ → ℕ → Result ℕ
column_end raw pos l = elim (checked_add pos l) [
  | none ↦ err (corrupt "activity index column exceeds its section")
  | some e ↦
      if ltb (length raw) e then err (corrupt "activity index column exceeds its section") else ok e
]

column_ranges : List ℕ → List ℕ → ℕ → Result (List (ℕ × ℕ) × ℕ)
column_ranges raw [] pos = ok ([], pos)
column_ranges raw (l ∷ ls) pos = do
  end ← column_end raw pos l
  (out, last) ← column_ranges raw ls end
  ok ((pos, end) ∷ out, last)

unfoldable pub split_raw : ℕ → List ℕ → Result (List (ℕ × ℕ))
unfolding read_lengths column_end column_ranges
split_raw n raw = do
  (lens, r) ← read_lengths n (reader raw)
  (out, pos) ← column_ranges raw lens r.pos
  if not (pos == length raw) then err (corrupt "activity columns leave trailing bytes") else ok out

-- The output vector, cleared first. `COMPRESSION` is `ZSTD_DEFAULT`.
unfoldable pub pack : Backend → List (List ℕ) → Result (List ℕ)
pack backend cols = Codec.compress_into backend zstd_default (raw_columns cols) []

-- The section's bytes and the ranges of its `n` columns in them.
unfoldable pub unpack : ℕ → Backend → List ℕ → Result (List ℕ × List (ℕ × ℕ))
unpack n backend blob = do
  (raw, consumed) ← Codec.decompress_into backend blob []
  out ← split_raw n raw
  ok (raw, out)
