-- ===== src/Tests/Xform.antt =====
-- A dictionary of two entries of two bytes for vtr-rs/src/xform.rs.
use vtr.Prelude.{ℕ, ◌≡◌, List, [], ◌∷◌, ◌++◌, arith, refl}
use vtr.Error.{ok}
use vtr.Wire.Varint.{put_u64}
use vtr.Xform.{dict_decode}
use vtr.Xform.Dictionary.{dict_decode-named}

abbrev two_entries : List (List ℕ)
two_entries = (1 ∷ 2 ∷ []) ∷ (3 ∷ 4 ∷ []) ∷ []

abbrev output : List ℕ
output = 9 ∷ []

dict_decode-named_example :
    dict_decode 2 (put_u64 [] 2 ++ (1 ∷ 2 ∷ 3 ∷ 4 ∷ 1 ∷ 0 ∷ 1 ∷ [])) output
    ≡ ok (9 ∷ 3 ∷ 4 ∷ 1 ∷ 2 ∷ 3 ∷ 4 ∷ [])
dict_decode-named_example =
    dict_decode-named 2 two_entries (1 ∷ 0 ∷ 1 ∷ []) output (omega arith) (omega arith)
      (refl, (refl, tt)) (omega arith, (omega arith, (omega arith, tt)))
