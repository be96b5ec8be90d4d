-- ===== src/Wire/Cursor/Laws.antt =====
-- What the cursor reads back, and what a successful read says of the input.
use vtr.Prelude.{
  ℕ, ◌^◌, ◌<◌, ◌≡◌, refl, sym, ◌∙◌, List, [], ◌∷◌, ◌++◌, length, length-append, append_assoc, drop,
  take-append, drop-append, take-append-drop, length-take, arith,
}
use vtr.Prelude.Bytes.{AllBytes, IsU64, IsU32, to_le, length-to_le, from_le-to_le}
use vtr.Error.{ok, >>=-eq-ok}
use mathlib.Core.Path.{ap₂}
use native.Mathlib.Nat.{zero-add}
use vtr.Wire.Varint
use vtr.Wire.Varint.{put_u64, put_blob, reader}
use vtr.Wire.Varint.RoundTrip.{u64-encoded, u64_canonical}
use vtr.Wire.Cursor.{Cursor, take, fixed_le, u32, u64, byte, var, blob}

-- `take` splits off a front of the asked length.
pub take-front :
    (n : ℕ) (bytes rest : List ℕ) → n ≡ length bytes → take n (bytes ++ rest) ≡ ok (bytes, rest)
unfolding take
take-front n bytes rest e =
    ground (arith, take-append n bytes rest e, drop-append n bytes rest e, length-append bytes rest)

pub take_ok :
    (n : ℕ) (d : Cursor) {bytes rest : List ℕ}
    → take n d ≡ ok (bytes, rest)
    → (d ≡ bytes ++ rest) × (length bytes ≡ n)
unfolding take
take_ok n d h = (ground (arith, take-append-drop n d), ground (arith, length-take n d))

pub byte-cons : (b : ℕ) (rest : List ℕ) → byte (b ∷ rest) ≡ ok (b, rest)
unfolding byte
byte-cons b rest = rw (take-front 1 (b ∷ []) rest refl)

pub fixed_le-to_le :
    (n v : ℕ) (rest : List ℕ) → v < 256 ^ n → fixed_le n (to_le n v ++ rest) ≡ ok (v, rest)
unfolding fixed_le
fixed_le-to_le n v rest h =
    rw (take-front n (to_le n v) rest (sym (length-to_le n v)), from_le-to_le n v h)

pub u32-to_le : (v : ℕ) (rest : List ℕ) → IsU32 v → u32 (to_le 4 v ++ rest) ≡ ok (v, rest)
unfolding u32
u32-to_le v rest h = fixed_le-to_le 4 v rest h

pub u64-to_le : (v : ℕ) (rest : List ℕ) → IsU64 v → u64 (to_le 8 v ++ rest) ≡ ok (v, rest)
unfolding u64
u64-to_le v rest h = fixed_le-to_le 8 v rest h

pub var-put_u64 : (v : ℕ) (rest : List ℕ) → IsU64 v → var (put_u64 [] v ++ rest) ≡ ok (v, rest)
unfolding var reader
var-put_u64 v rest h = rw (
  u64-encoded (put_u64 [] v ++ rest) 0 v rest h refl,
  zero-add,
  drop-append (length (put_u64 [] v)) (put_u64 [] v) rest refl,
)

-- A blob is read back as it was put, and the cursor stands behind it.
pub blob-put_blob :
    (b rest : List ℕ) → IsU64 (length b) → blob (put_blob [] b ++ rest) ≡ ok (b, rest)
unfolding blob put_blob
blob-put_blob b rest h =
    rw (append_assoc, var-put_u64 (length b) (b ++ rest) h) (take-front (length b) b rest refl)

-- `var` accepts only the form that `put_u64` writes.
pub var_canonical :
    (d : Cursor) (v : ℕ) (rest : Cursor)
    → AllBytes d
    → var d ≡ ok (v, rest)
    → IsU64 v × (d ≡ put_u64 [] v ++ rest)
unfolding var reader
var_canonical d v rest bs run =
    let ((v0, r), read, e) = >>=-eq-ok (Varint.u64 (reader d)) _ run in
    let (range, same, split) = u64_canonical (reader d) v0 r bs read in
    let value : v0 ≡ v = cc in
    let place : drop r.pos d ≡ rest = cc in
    (rw (← value) range, (rw same at split) ∙ ap₂ (λ x y. put_u64 [] x ++ y) value place)
