-- ===== src/Signal/Text.antt =====
-- `packed_len` is the number of bytes that `unpack_ascii` needs.
use vtr.Prelude.{
  ℕ, zero, suc, ◌+◌, ◌/◌, ◌^◌, bit_and, ◌≤◌, ◌<◌, ◌≡◌, refl, ap, ◌∙◌, some, List, [], ◌∷◌, ◌++◌,
  length, length-append, get_elem?, arith,
}
use vtr.Signal.{
  packed_len, get_code, unpack_ascii, per_byte, shift_of, mask_for, code_in, then_char, char_of,
}

get_elem?-inside : (xs : List ℕ) (i : ℕ) → i < length xs → (b : ℕ) × (get_elem? xs i ≡ some b)
get_elem?-inside [] i h = absurd (omega arith)
get_elem?-inside (x ∷ xs) zero h = (x, refl)
get_elem?-inside (x ∷ xs) (suc i) h = get_elem?-inside xs i (omega arith)

byte_inside : (width i states : ℕ) → i < width → i / per_byte states < packed_len width states
unfolding packed_len
byte_inside width i states h = ground arith

get_code_inside :
    (bytes : List ℕ) (states i : ℕ)
    → i / per_byte states < length bytes
    → (c : ℕ) × (get_code bytes states i ≡ some c)
unfolding get_code
get_code_inside bytes states i h =
    let (b, e) = get_elem?-inside bytes (i / per_byte states) h in
    (bit_and (b / 2 ^ shift_of states i) (mask_for states), ap (code_in states i) e)

unpack_from :
    (bytes : List ℕ) (n width states : ℕ) (out : List ℕ)
    → n ≤ width
    → packed_len width states ≤ length bytes
    → (text : List ℕ) × ((unpack_ascii bytes n states out ≡ some text)
        × (length text ≡ length out + n))
unfolding unpack_ascii
unpack_from bytes zero width states out below enough = (out, (refl, omega arith))
unpack_from bytes (suc i) width states out below enough =
    let (c, e) =
      get_code_inside bytes states i
        (omega (arith, byte_inside width i states (omega arith), enough)) in
    let (text, (run, size)) =
      unpack_from bytes i width states (out ++ char_of c ∷ []) (omega arith) enough in
    (
      text,
      (
        ap (λ t. then_char t (λ x. unpack_ascii bytes i states (out ++ char_of x ∷ []))) e ∙ run,
        omega (arith, size, length-append out (char_of c ∷ [])),
      ),
    )

-- `packed_len` bytes are enough: `unpack_ascii` of a value of `width` then reads no byte beyond them, and
-- appends one character for each place, with two, four or nine states.
pub unpack_ascii_total :
    (bytes : List ℕ) (width states : ℕ) (out : List ℕ)
    → packed_len width states ≤ length bytes
    → (text : List ℕ) × ((unpack_ascii bytes width states out ≡ some text)
        × (length text ≡ length out + width))
unpack_ascii_total bytes width states out enough =
    unpack_from bytes width width states out (omega arith) enough
