-- ===== src/Xform.antt =====
-- vtr-rs/src/xform.rs: the transforms of fixed-width values, and the decoder of dictionary coding.
pub mod Dictionary
use vtr.Prelude.{
  ℕ, ◌+◌, ◌*◌, Bool, false, ◌||◌, Option, none, some, List, [], ◌∷◌, ◌++◌, length, take, drop, leb,
  ltb, ◌==◌, if◌then◌else◌,
}
use vtr.Error.{Result, ok, err, corrupt, ◌>>=◌}
use vtr.Wire.Varint
use vtr.Wire.Varint.{Reader, reader}

pub data Xform : Type 0 where
  plain shuffle delta delta_shuffle dict : Xform

pub from_u8 : ℕ → Option Xform
from_u8 v =
    if v == 0
    then some plain
    else if v == 1
    then some shuffle
    else if v == 2
    then some delta
    else if v == 3
    then some delta_shuffle
    else if v == 4
    then some dict
    else none

abbrev pub dict_max : ℕ
dict_max = 256

-- `codes.iter().any(..)`
unfoldable pub any_outside : ℕ → List ℕ → Bool
any_outside nd [] = false
any_outside nd (c ∷ codes) = leb nd c || any_outside nd codes

-- `dict_expand`, and the last arm of the match, which is the same loop for any width.
dict_expand : ℕ → List ℕ → List ℕ → List ℕ → List ℕ
dict_expand w table [] out = out
dict_expand w table (c ∷ codes) out = dict_expand w table codes (out ++ take w (drop (c * w) table))

-- `dict_decode` behind the number of entries; `rest` is what follows it.
decode_entries : ℕ → ℕ → List ℕ → List ℕ → Result (List ℕ)
decode_entries w nd rest out =
    if nd == 0
    then ok (out ++ rest)
    else if ltb dict_max nd || ltb (length rest) (nd * w)
    then err (corrupt "dictionary-coded column is truncated")
    else if any_outside nd (drop (nd * w) rest)
    then err (corrupt "dictionary code out of range")
    else ok (dict_expand w (take (nd * w) rest) (drop (nd * w) rest) out)

unfoldable pub dict_decode : ℕ → List ℕ → List ℕ → Result (List ℕ)
unfolding decode_entries dict_expand
dict_decode w input out = do
  (nd, r) ← Varint.u64 (reader input)
  decode_entries w nd (drop r.pos input) out
