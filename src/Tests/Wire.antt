-- ===== src/Tests/Wire.antt =====
-- Integers, columns and blobs of vtr-rs/src/varint.rs and vtr-rs/src/wire.rs on concrete bytes.
use vtr.Prelude.{ℕ, ◌+◌, ◌-◌, ◌^◌, ◌≡◌, refl, List, [], ◌∷◌, ◌++◌, length, arith}
use vtr.Prelude.Bytes.{IsU64}
use vtr.Error.{ok}
use vtr.Wire.Varint.{put_u64, put_blob, len_u64, u64, reader}
use vtr.Wire.Varint.RoundTrip.{at, u64-put_u64, u64_canonical}
use vtr.Wire.Varint.Length.{length-put_u64}
use vtr.Wire.Zigzag.{zigzag, unzigzag, signed, interleave, zigzag_inverse, zigzag-interleave}
use vtr.Wire.Cursor
use vtr.Wire.Cursor.Laws.{blob-put_blob, var_canonical}
use vtr.Wire.Columns.{pack_columns, unpack_columns}
use vtr.Wire.Columns.RoundTrip.{unpack_columns-pack_columns, unpack_columns_canonical}

-- 300, and a byte behind it.
abbrev coded : List ℕ
coded = 172 ∷ 2 ∷ 5 ∷ []

abbrev one_byte : List ℕ
one_byte = 1 ∷ []

-- 300 in two groups.
abbrev three_hundred : List ℕ
three_hundred = 172 ∷ 2 ∷ []

abbrev two_columns : List (List ℕ)
two_columns = (7 ∷ 8 ∷ []) ∷ (9 ∷ []) ∷ []

-- The count, the lengths and the columns.
abbrev two_columns_packed : List ℕ
two_columns_packed = 2 ∷ 2 ∷ 1 ∷ 7 ∷ 8 ∷ 9 ∷ []

put_u64_run : put_u64 [] 300 ≡ three_hundred
unfolding put_u64
put_u64_run = refl

u64_run : u64 (reader coded) ≡ ok (300, at coded 2)
unfolding u64 reader
u64_run = refl

pack_columns_run : pack_columns two_columns ≡ ok two_columns_packed
unfolding pack_columns put_u64
pack_columns_run = refl

unpack_columns_run : unpack_columns 2 two_columns_packed ≡ ok two_columns
unfolding unpack_columns Cursor.var Cursor.take Cursor.done u64 reader
unpack_columns_run = refl

var_run : Cursor.var coded ≡ ok (300, 5 ∷ [])
unfolding Cursor.var u64 reader
var_run = refl

u64-put_u64_example :
    u64 (at (put_u64 one_byte 300 ++ 5 ∷ []) 1)
    ≡ ok (300, at (put_u64 one_byte 300 ++ 5 ∷ []) (length (put_u64 one_byte 300)))
u64-put_u64_example = u64-put_u64 one_byte 300 (5 ∷ []) (omega arith)

u64_canonical_example : IsU64 300 × (coded ≡ coded) × (coded ≡ put_u64 [] 300 ++ 5 ∷ [])
unfolding reader
u64_canonical_example =
    u64_canonical (at coded 0) 300 (at coded 2) (omega arith, (omega arith, (omega arith, tt)))
      u64_run

length-put_u64_example : length (put_u64 one_byte 300) ≡ length one_byte + len_u64 300
length-put_u64_example = length-put_u64 one_byte 300 (omega arith)

-- -2 as an `i64`.
zigzag_inverse_example :
    (unzigzag (zigzag (2 ^ 64 - 2)) ≡ 2 ^ 64 - 2) × (zigzag (unzigzag (2 ^ 64 - 2)) ≡ 2 ^ 64 - 2)
zigzag_inverse_example = zigzag_inverse (2 ^ 64 - 2) (omega arith)

zigzag-interleave_example : zigzag (2 ^ 64 - 2) ≡ interleave (signed (2 ^ 64 - 2))
zigzag-interleave_example = zigzag-interleave (2 ^ 64 - 2) (omega arith)

blob-put_blob_example : Cursor.blob (put_blob [] (7 ∷ 8 ∷ []) ++ 9 ∷ []) ≡ ok (7 ∷ 8 ∷ [], 9 ∷ [])
blob-put_blob_example = blob-put_blob (7 ∷ 8 ∷ []) (9 ∷ []) (omega arith)

var_canonical_example : IsU64 300 × (coded ≡ put_u64 [] 300 ++ 5 ∷ [])
var_canonical_example =
    var_canonical coded 300 (5 ∷ []) (omega arith, (omega arith, (omega arith, tt))) var_run

unpack_columns-pack_columns_example : unpack_columns 2 two_columns_packed ≡ ok two_columns
unpack_columns-pack_columns_example =
    unpack_columns-pack_columns two_columns two_columns_packed (omega arith) pack_columns_run

unpack_columns_canonical_example :
    (length two_columns ≡ 2) × (two_columns_packed ≡ two_columns_packed)
unpack_columns_canonical_example =
    unpack_columns_canonical 2 two_columns_packed two_columns two_columns_packed
      (omega arith, (omega arith, (omega arith, (omega arith, (omega arith, (omega arith, tt))))))
      unpack_columns_run pack_columns_run
