-- ===== src/Wire/Columns/RoundTrip.antt =====
-- Column blocks: what is packed is unpacked, and every block that is unpacked is the packed form of
-- its columns.
use vtr.Prelude.{
  ℕ, zero, suc, ◌+◌, ◌*◌, ◌≡◌, refl, sym, ap, ◌∙◌, Option, none, some, List, [], ◌∷◌, ◌++◌, map,
  append-nil, append_assoc, length, not, ◌==◌, if◌then◌else◌, eq→==, All-append_right, arith,
}
use vtr.Prelude.Bytes.{IsByte, AllBytes, IsU64}
use vtr.Error.{Error, Result, ok, err, >>=-eq-ok}
use mathlib.Core.Path.{ap₂}
use vtr.Wire.Varint.{put_u64}
use vtr.Wire.Varint.Encode.{encoded, put_u64-encoded}
use vtr.Wire.Cursor
use vtr.Wire.Cursor.{Cursor}
use vtr.Wire.Cursor.Laws.{take-front, take_ok, var-put_u64, var_canonical}
use vtr.Wire.Columns.{
  packed_size, put_lengths, put_columns, pack_columns, read_lengths, take_columns, unpack_columns,
}

abbrev codes : List ℕ → List ℕ
codes [] = []
codes (n ∷ ns) = encoded n ++ codes ns

abbrev joined : List (List ℕ) → List ℕ
joined [] = []
joined (c ∷ cs) = c ++ joined cs

abbrev HasLengths : List (List ℕ) → Type 0
HasLengths [] = Unit
HasLengths (c ∷ cs) = IsU64 (length c) × HasLengths cs

put_lengths_lem :
    (out : List ℕ) (cs : List (List ℕ)) → put_lengths out cs ≡ out ++ codes (map length cs)
unfolding put_lengths
put_lengths_lem out [] = sym (append-nil out)
put_lengths_lem out (c ∷ cs) =
    put_lengths_lem (put_u64 out (length c)) cs ∙ rw (put_u64-encoded out (length c), append_assoc)

put_columns_lem : (out : List ℕ) (cs : List (List ℕ)) → put_columns out cs ≡ out ++ joined cs
unfolding put_columns
put_columns_lem out [] = sym (append-nil out)
put_columns_lem out (c ∷ cs) = put_columns_lem (out ++ c) cs ∙ append_assoc out c (joined cs)

-- The block in one piece.
abbrev block : List (List ℕ) → List ℕ
block cs = encoded (length cs) ++ (codes (map length cs) ++ joined cs)

block_lem :
    (cs : List (List ℕ)) → put_columns (put_lengths (put_u64 [] (length cs)) cs) cs ≡ block cs
block_lem cs =
    put_columns_lem _ cs
    ∙ ap (λ t. t ++ joined cs) (put_lengths_lem _ cs)
    ∙ append_assoc (encoded (length cs)) (codes (map length cs)) (joined cs)

packed_size-HasLengths :
    (cs : List (List ℕ)) (size total : ℕ) → packed_size cs size ≡ some total → HasLengths cs
unfolding packed_size
packed_size-HasLengths [] size total h = tt
packed_size-HasLengths (c ∷ cs) size total h =
    (ground arith, packed_size-HasLengths cs (size + length c) total (ground arith))

read_lengths_lem :
    (cs : List (List ℕ)) (rest : List ℕ)
    → HasLengths cs
    → read_lengths (length cs) (codes (map length cs) ++ rest) ≡ ok (map length cs, rest)
unfolding read_lengths
read_lengths_lem [] rest h = refl
read_lengths_lem (c ∷ cs) rest h = rw (
  append_assoc,
  var-put_u64 (length c) (codes (map length cs) ++ rest) h.0,
  read_lengths_lem cs rest h.1,
)

take_columns_lem :
    (cs : List (List ℕ)) (rest : List ℕ)
    → take_columns (map length cs) (joined cs ++ rest) ≡ ok (cs, rest)
unfolding take_columns
take_columns_lem [] rest = refl
take_columns_lem (c ∷ cs) rest =
    rw (append_assoc, take-front (length c) c (joined cs ++ rest) refl, take_columns_lem cs rest)

take_columns_all : (cs : List (List ℕ)) → take_columns (map length cs) (joined cs) ≡ ok (cs, [])
take_columns_all cs = rw append-nil at (take_columns_lem cs [])

unpack_columns-block :
    (cs : List (List ℕ))
    → IsU64 (length cs)
    → HasLengths cs
    → unpack_columns (length cs) (block cs) ≡ ok cs
unfolding unpack_columns
unpack_columns-block cs n h =
    rw
      (
        var-put_u64 (length cs) _ n,
        eq→== (length cs) (length cs) refl,
        read_lengths_lem cs (joined cs) h,
        take_columns_all cs,
      )
      (unfold Cursor.done in refl)

-- What `pack_columns` returns, `unpack_columns` takes apart into the same columns.
pub unpack_columns-pack_columns :
    (cs : List (List ℕ)) (out : List ℕ)
    → IsU64 (length cs)
    → pack_columns cs ≡ ok out
    → unpack_columns (length cs) out ≡ ok cs
unfolding pack_columns
unpack_columns-pack_columns cs out n h = go (packed_size cs (length cs * 10 + 10)) refl
  where
    go :
        (size : Option ℕ)
        → packed_size cs (length cs * 10 + 10) ≡ size
        → unpack_columns (length cs) out ≡ ok cs
    go none e = ground arith
    go (some total) e =
        let whole : block cs ≡ out = cc (block_lem cs) in
        rw (← whole) (unpack_columns-block cs n (packed_size-HasLengths cs _ total e))

read_lengths_ok :
    (n : ℕ) (d : Cursor) (ls : List ℕ) (rest : Cursor)
    → AllBytes d
    → read_lengths n d ≡ ok (ls, rest)
    → (length ls ≡ n) × (d ≡ codes ls ++ rest)
unfolding read_lengths
read_lengths_ok zero d ls rest bs h = (cc, cc)
read_lengths_ok (suc n) d ls rest bs h =
    let ((v, d1), read, h1) = >>=-eq-ok (Cursor.var d) _ h in
    let ((ls', d2), more, h2) = >>=-eq-ok (read_lengths n d1) _ h1 in
    let (range, front) = var_canonical d v d1 bs read in
    let bs1 = All-append_right IsByte (encoded v) d1 (rw front at bs) in
    let (count, tail) = read_lengths_ok n d1 ls' d2 bs1 more in
    let values : v ∷ ls' ≡ ls = cc in
    let place : d2 ≡ rest = cc in
    (
      rw (← values) (ap suc count),
      rw (← values, ← place, append_assoc) (front ∙ ap (λ t. encoded v ++ t) tail),
    )

take_columns_ok :
    (ls : List ℕ) (d : Cursor) (cs : List (List ℕ)) (rest : Cursor)
    → take_columns ls d ≡ ok (cs, rest)
    → (map length cs ≡ ls) × (d ≡ joined cs ++ rest)
unfolding take_columns
take_columns_ok [] d cs rest h = (cc, cc)
take_columns_ok (l ∷ ls) d cs rest h =
    let ((c, d1), read, h1) = >>=-eq-ok (Cursor.take l d) _ h in
    let ((cs', d2), more, h2) = >>=-eq-ok (take_columns ls d1) _ h1 in
    let (front, size) = take_ok l d read in
    let (sizes, tail) = take_columns_ok ls d1 cs' d2 more in
    let values : c ∷ cs' ≡ cs = cc in
    let place : d2 ≡ rest = cc in
    (
      rw (← values) (ap₂ (λ x y. x ∷ y) size sizes),
      rw (← values, ← place, append_assoc) (front ∙ ap (λ t. c ++ t) tail),
    )

length-map_length : (cs : List (List ℕ)) → length (map length cs) ≡ length cs
length-map_length [] = refl
length-map_length (c ∷ cs) = ap suc (length-map_length cs)

done_ok : (d : Cursor) → Cursor.done d ≡ ok tt → d ≡ []
done_ok [] h = refl
done_ok (b ∷ d) h = unfold Cursor.done in cc

count_ok :
    (n count : ℕ) (e : Error) {A : Type 0} (r : Result A) {a : A}
    → (if not (count == n) then err e else r) ≡ ok a
    → (count ≡ n) × (r ≡ ok a)
count_ok n count e r h = (ground arith, ground arith)

unpack_columns_ok :
    (n : ℕ) (d : Cursor) (cs : List (List ℕ))
    → AllBytes d
    → unpack_columns n d ≡ ok cs
    → (length cs ≡ n) × (d ≡ block cs)
unfolding unpack_columns
unpack_columns_ok n d cs bs h =
    let ((count, d1), read, h1) = >>=-eq-ok (Cursor.var d) _ h in
    let (same, h2) = count_ok n count _ _ h1 in
    let ((ls, d2), lengths, h3) = >>=-eq-ok (read_lengths n d1) _ h2 in
    let ((cs', d3), columns, h4) = >>=-eq-ok (take_columns ls d2) _ h3 in
    let (u, finished, h5) = >>=-eq-ok (Cursor.done d3) _ h4 in
    let (range, front) = var_canonical d count d1 bs read in
    let bs1 = All-append_right IsByte (encoded count) d1 (rw front at bs) in
    let (size, tail) = read_lengths_ok n d1 ls d2 bs1 lengths in
    let (sizes, tail') = take_columns_ok ls d2 cs' d3 columns in
    let result : cs' ≡ cs = cc in
    let total : length cs ≡ n =
      sym (length-map_length cs) ∙ ap length (ap (map length) (sym result) ∙ sizes) ∙ size in
    (
      total,
      front
          ∙ ap₂ (λ x y. encoded x ++ y) (same ∙ sym total)
              (tail
                ∙ ap₂ (λ x y. codes x ++ y) (sym sizes ∙ ap (map length) result)
                    (tail'
                      ∙ ap₂ (λ x y. joined x ++ y) result (done_ok d3 finished)
                      ∙ append-nil (joined cs))),
    )

pack_columns_ok : (cs : List (List ℕ)) (out : List ℕ) → pack_columns cs ≡ ok out → out ≡ block cs
unfolding pack_columns
pack_columns_ok cs out h = go (packed_size cs (length cs * 10 + 10)) refl
  where
    go : (size : Option ℕ) → packed_size cs (length cs * 10 + 10) ≡ size → out ≡ block cs
    go none e = ground arith
    go (some total) e = cc (block_lem cs)

-- Where `unpack_columns` takes a block apart and `pack_columns` packs the columns, these have the asked number
-- and packing them gives the block again.
pub unpack_columns_canonical :
    (n : ℕ) (d : List ℕ) (cs : List (List ℕ)) (out : List ℕ)
    → AllBytes d
    → unpack_columns n d ≡ ok cs
    → pack_columns cs ≡ ok out
    → (length cs ≡ n) × (out ≡ d)
unpack_columns_canonical n d cs out bs h p =
    let (total, front) = unpack_columns_ok n d cs bs h in
    (total, pack_columns_ok cs out p ∙ sym front)
