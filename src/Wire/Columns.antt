-- ===== src/Wire/Columns.antt =====
-- vtr-rs/src/wire.rs: `pack_columns` and `unpack_columns`. The array of `N` columns is a list, and `N`
-- its length.
pub mod RoundTrip
use vtr.Prelude.{
  ℕ, zero, suc, ◌+◌, ◌*◌, ◌^◌, Option, none, some, List, [], ◌∷◌, ◌++◌, length, not, ltb, ◌==◌,
  if◌then◌else◌,
}
use vtr.Prelude.Bytes.{checked_add}
use vtr.Error.{Result, ok, err, corrupt, ◌>>=◌, ◌>>◌}
use vtr.Wire.Varint.{put_u64}
use vtr.Wire.Cursor
use vtr.Wire.Cursor.{Cursor}

abbrev pub max_block_bytes : ℕ
max_block_bytes = 2 ^ 30

-- `try_fold`: each column's length is added, and the sum stays below the limit.
packed_size : List (List ℕ) → ℕ → Option ℕ
packed_size [] size = some size
packed_size (column ∷ columns) size = elim (checked_add size (length column)) [
  | none ↦ none
  | some total ↦
      let rest = packed_size columns total in if ltb total max_block_bytes then rest else none
]

put_lengths : List ℕ → List (List ℕ) → List ℕ
put_lengths out [] = out
put_lengths out (column ∷ columns) = put_lengths (put_u64 out (length column)) columns

put_columns : List ℕ → List (List ℕ) → List ℕ
put_columns out [] = out
put_columns out (column ∷ columns) = put_columns (out ++ column) columns

unfoldable pub pack_columns : List (List ℕ) → Result (List ℕ)
unfolding packed_size put_lengths put_columns
pack_columns columns = elim (packed_size columns (length columns * 10 + 10)) [
  | none ↦ err (corrupt "column block exceeds format limit")
  | some size ↦ ok (put_columns (put_lengths (put_u64 [] (length columns)) columns) columns)
]

read_lengths : ℕ → Cursor → Result (List ℕ × Cursor)
read_lengths zero d = ok ([], d)
read_lengths (suc n) d = do
  (length, d') ← Cursor.var d
  (lengths, d'') ← read_lengths n d'
  ok (length ∷ lengths, d'')

take_columns : List ℕ → Cursor → Result (List (List ℕ) × Cursor)
take_columns [] d = ok ([], d)
take_columns (length ∷ lengths) d = do
  (column, d') ← Cursor.take length d
  (columns, d'') ← take_columns lengths d'
  ok (column ∷ columns, d'')

unfoldable pub unpack_columns : ℕ → Cursor → Result (List (List ℕ))
unfolding read_lengths take_columns
unpack_columns n d = do
  (count, d1) ← Cursor.var d
  if not (count == n) then err (corrupt "invalid column count") else do
    (lengths, d2) ← read_lengths n d1
    (columns, d3) ← take_columns lengths d2
    Cursor.done d3
    ok columns
