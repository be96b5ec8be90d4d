-- ===== src/Wire/Cursor.antt =====
-- vtr-rs/src/wire.rs: `Cursor`, the bytes that are still to be read. An operation returns its value with
-- the cursor behind it; a failed one returns the error alone, since every caller hands it on by `?` and
-- drops the cursor.
pub mod Laws
use vtr.Prelude.{
  ℕ, ◌^◌, Bool, true, false, List, [], ◌∷◌, length, take as front, drop, ltb, leb, ◌==◌, ◌&&◌,
  if◌then◌else◌,
}
use vtr.Prelude.Bytes.{from_le}
use vtr.Error.{Result, ok, err, corrupt, ◌>>=◌}
use vtr.Wire.Varint
use vtr.Wire.Varint.{reader}

abbrev pub Cursor : Type 0
Cursor = List ℕ

unfoldable pub remaining : Cursor → ℕ
remaining d = length d

-- `slice::starts_with`
unfoldable pub starts_with : List ℕ → Cursor → Bool
starts_with [] d = true
starts_with (p ∷ ps) [] = false
starts_with (p ∷ ps) (b ∷ d) = p == b && starts_with ps d

-- `split_at_checked` is none beyond the end.
unfoldable pub take : ℕ → Cursor → Result (List ℕ × Cursor)
take size d =
    if leb size (length d)
    then ok (front size d, drop size d)
    else err (corrupt "truncated VTR data")

-- `bytes[0]` of a slice of one byte.
abbrev first : List ℕ → ℕ
first [] = 0
first (b ∷ _) = b

unfoldable pub byte : Cursor → Result (ℕ × Cursor)
byte d = do (bytes, d') ← take 1 d; ok (first bytes, d')

-- The integer of `size` bytes: `from_le_bytes(self.fixed()?)`.
unfoldable pub fixed_le : ℕ → Cursor → Result (ℕ × Cursor)
fixed_le size d = do (bytes, d') ← take size d; ok (from_le bytes, d')

unfoldable pub u32 : Cursor → Result (ℕ × Cursor)
u32 d = fixed_le 4 d

unfoldable pub u64 : Cursor → Result (ℕ × Cursor)
u64 d = fixed_le 8 d

unfoldable pub var : Cursor → Result (ℕ × Cursor)
var d = do (value, r) ← Varint.u64 (reader d); ok (value, drop r.pos d)

unfoldable pub id : Cursor → Result (ℕ × Cursor)
id d = do
  (v, d') ← var d
  if ltb v (2 ^ 32) then ok (v, d') else err (corrupt "identifier exceeds u32")

-- `usize::try_from` of a `u64` succeeds where `usize` has 64 bits.
unfoldable pub blob : Cursor → Result (List ℕ × Cursor)
blob d = do (size, d') ← var d; take size d'

-- `valid` is `std::str::from_utf8`'s test of the bytes, which are the text.
unfoldable pub text : (List ℕ → Bool) → Cursor → Result (List ℕ × Cursor)
text valid d = do
  (bytes, d') ← blob d
  if valid bytes then ok (bytes, d') else err (corrupt "invalid UTF-8")

unfoldable pub done : Cursor → Result (Unit {0})
done [] = ok tt
done (b ∷ d) = err (corrupt "trailing VTR data")
