-- ===== src/Xform/Dictionary.antt =====
-- `dict_decode` on a table of entries and codes.
use vtr.Prelude.{
  ℕ, zero, suc, ◌*◌, ◌≤◌, ◌<◌, ◌≡◌, refl, sym, ap, ◌∙◌, false, none, some, List, [], ◌∷◌, ◌++◌,
  append-nil, append_assoc, length, length-append, get_elem?, take, drop, take-append, drop-append,
  drop-add, All, lt→leb, le→ltb, ne→==, arith,
}
use vtr.Error.{ok}
use native.Mathlib.Nat.{zero-add}
use vtr.Wire.Varint.{put_u64, reader}
use vtr.Wire.Varint.RoundTrip.{u64-encoded}
use vtr.Xform.{dict_max, any_outside, dict_expand, decode_entries, dict_decode}

abbrev pub concat : List (List ℕ) → List ℕ
concat [] = []
concat (e ∷ es) = e ++ concat es

abbrev pub entry : List (List ℕ) → ℕ → List ℕ
entry es c = elim (get_elem? es c) [ none ↦ [] | some e ↦ e ]

-- The entries that the codes name, one after the other.
abbrev pub named : List (List ℕ) → List ℕ → List ℕ
named es [] = []
named es (c ∷ codes) = entry es c ++ named es codes

abbrev pub HasWidth : ℕ → List (List ℕ) → Type 0
HasWidth w es = All (λ e. length e ≡ w) es

length-concat : (w : ℕ) (es : List (List ℕ)) → HasWidth w es → length (concat es) ≡ length es * w
length-concat w [] h = omega arith
length-concat w (e ∷ es) h = omega (arith, length-append e (concat es), length-concat w es h.1, h.0)

entry_bytes :
    (w c : ℕ) (es : List (List ℕ)) (rest : List ℕ)
    → HasWidth w es
    → c < length es
    → take w (drop (c * w) (concat es ++ rest)) ≡ entry es c
entry_bytes w c [] rest h in_range = absurd (omega arith)
entry_bytes w zero (e ∷ es) rest h in_range =
    let start : 0 * w ≡ 0 = omega arith in
    ap (λ (t : ℕ). take w (drop t ((e ++ concat es) ++ rest))) start
    ∙ ap (take w) (append_assoc e (concat es) rest)
    ∙ take-append w e (concat es ++ rest) (sym h.0)
entry_bytes w (suc c) (e ∷ es) rest h in_range =
    ap (take w) (
      ap (λ (t : ℕ). drop t ((e ++ concat es) ++ rest)) (omega arith)
      ∙ drop-add w (c * w) ((e ++ concat es) ++ rest)
      ∙ ap (drop (c * w)) (
          ap (drop w) (append_assoc e (concat es) rest)
          ∙ drop-append w e (concat es ++ rest) (sym h.0)))
    ∙ entry_bytes w c es rest h.1 (omega arith)

dict_expand-named :
    (w : ℕ) (es : List (List ℕ)) (codes out : List ℕ)
    → HasWidth w es
    → All (λ c. c < length es) codes
    → dict_expand w (concat es) codes out ≡ out ++ named es codes
unfolding dict_expand
dict_expand-named w es [] out h inside = sym (append-nil out)
dict_expand-named w es (c ∷ codes) out h inside =
    let here : take w (drop (c * w) (concat es)) ≡ entry es c =
      ap (λ t. take w (drop (c * w) t)) (sym (append-nil (concat es)))
      ∙ entry_bytes w c es [] h inside.0 in
    ap (λ t. dict_expand w (concat es) codes (out ++ t)) here
    ∙ dict_expand-named w es codes (out ++ entry es c) h inside.1
    ∙ append_assoc out (entry es c) (named es codes)

none_outside : (n : ℕ) (codes : List ℕ) → All (λ c. c < n) codes → any_outside n codes ≡ false
unfolding any_outside
none_outside n [] inside = refl
none_outside n (c ∷ codes) inside = rw (lt→leb c n inside.0) (none_outside n codes inside.1)

decode_entries-concat :
    (w : ℕ) (es : List (List ℕ)) (codes out : List ℕ)
    → 1 ≤ length es
    → length es ≤ dict_max
    → HasWidth w es
    → All (λ c. c < length es) codes
    → decode_entries w (length es) (concat es ++ codes) out ≡ ok (out ++ named es codes)
unfolding decode_entries
decode_entries-concat w es codes out some_entry few h inside =
    let size : length es * w ≡ length (concat es) = sym (length-concat w es h) in
    rw (
      ne→== (length es) 0 (λ e. omega arith),
      le→ltb dict_max (length es) few,
      le→ltb (length (concat es ++ codes)) (length es * w)
          (omega (arith, length-append (concat es) codes, size)),
      drop-append (length es * w) (concat es) codes size,
      take-append (length es * w) (concat es) codes size,
      none_outside (length es) codes inside,
      dict_expand-named w es codes out h inside,
    )

-- A table of 1 to 256 entries of `w` bytes, with codes below their number, is decoded into the entries that
-- the codes name, in their order, behind what the output held.
pub dict_decode-named :
    (w : ℕ) (es : List (List ℕ)) (codes out : List ℕ)
    → 1 ≤ length es
    → length es ≤ dict_max
    → HasWidth w es
    → All (λ c. c < length es) codes
    → dict_decode w (put_u64 [] (length es) ++ (concat es ++ codes)) out
      ≡ ok (out ++ named es codes)
unfolding dict_decode reader
dict_decode-named w es codes out some_entry few h inside = rw (
  u64-encoded (put_u64 [] (length es) ++ (concat es ++ codes)) 0 (length es) (concat es ++ codes)
      (omega arith) refl,
  zero-add,
  drop-append (length (put_u64 [] (length es))) (put_u64 [] (length es)) (concat es ++ codes) refl,
  decode_entries-concat w es codes out some_entry few h inside,
)
