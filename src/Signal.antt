-- ===== src/Signal.antt =====
-- vtr-rs/src/signal.rs: logic codes, packed two, four or nine states to a value, and their text. An index
-- beyond the data, where the source panics, is the result none.
pub mod Text
use vtr.Prelude.{
  ℕ, zero, suc, ◌+◌, ◌-◌, ◌*◌, ◌/◌, ◌%◌, ◌^◌, bit_and, bit_or, Bool, true, false, not, ◌&&◌, ◌||◌,
  Option, none, some, List, [], ◌∷◌, ◌++◌, length, get_elem?, min, ltb, ◌==◌, if◌then◌else◌,
}

-- `Logic` by its number, and so `L0` to `LDASH`.
abbrev pub code_ascii : List ℕ
code_ascii = b'0' ∷ b'1' ∷ b'x' ∷ b'z' ∷ b'u' ∷ b'w' ∷ b'l' ∷ b'h' ∷ b'-' ∷ []

pub code_from_ascii : ℕ → ℕ
code_from_ascii c =
    if c == b'0'
    then 0
    else if c == b'1'
    then 1
    else if c == b'z' || c == b'Z'
    then 3
    else if c == b'u' || c == b'U'
    then 4
    else if c == b'w' || c == b'W'
    then 5
    else if c == b'l' || c == b'L'
    then 6
    else if c == b'h' || c == b'H'
    then 7
    else if c == b'-'
    then 8
    else 2

-- Values to a byte and bits to a value, for the three numbers of states.
abbrev per_byte : ℕ → ℕ
per_byte states = if states == 2 then 8 else if states == 4 then 4 else 2

abbrev code_bits : ℕ → ℕ
code_bits states = if states == 2 then 1 else if states == 4 then 2 else 4

pub mask_for : ℕ → ℕ
mask_for states = if states == 2 then 1 else if states == 4 then 3 else 15

-- The place of a value in its byte.
abbrev shift_of : ℕ → ℕ → ℕ
shift_of states i = i % per_byte states * code_bits states

abbrev pub code_in : ℕ → ℕ → Option ℕ → Option ℕ
code_in states i none = none
code_in states i (some b) = some (bit_and (b / 2 ^ shift_of states i) (mask_for states))

pub get_code : List ℕ → ℕ → ℕ → Option ℕ
get_code bytes states i = code_in states i (get_elem? bytes (i / per_byte states))

-- `data[n] |= bits`
or_at : List ℕ → ℕ → ℕ → Option (List ℕ)
or_at [] n bits = none
or_at (b ∷ bytes) zero bits = some (bit_or b bits ∷ bytes)
or_at (b ∷ bytes) (suc n) bits = elim (or_at bytes n bits) [
  | none ↦ none
  | some bytes' ↦ some (b ∷ bytes')
]

pub set_code : List ℕ → ℕ → ℕ → ℕ → Option (List ℕ)
set_code bytes states i c =
    or_at bytes (i / per_byte states) (bit_and c (mask_for states) * 2 ^ shift_of states i % 256)

-- What fills a text that is shorter than the value, by its first character.
pub extension : List ℕ → ℕ
extension [] = 0
extension (c ∷ s) =
    if c == b'x' || c == b'X'
    then 2
    else if c == b'z' || c == b'Z'
    then 3
    else if c == b'u' || c == b'U'
    then 4
    else if c == b'w' || c == b'W'
    then 5
    else if c == b'l' || c == b'L'
    then 6
    else if c == b'h' || c == b'H'
    then 7
    else if c == b'-'
    then 8
    else 0

-- `s[n - 1 - i]` where `i < n`, and the extension beyond.
code_of : List ℕ → ℕ → ℕ
code_of s i =
    if ltb i (length s)
    then (elim (get_elem? s (length s - 1 - i)) [ none ↦ 0 | some c ↦ code_from_ascii c ])
    else extension s

-- The loop from `i` on, with `left` rounds to go, over the data and the flag `two_state`.
pack_loop : List ℕ → ℕ → (left i : ℕ) → List ℕ → Bool → Option (List ℕ × Bool)
pack_loop s states zero i out two_state = some (out, two_state)
pack_loop s states (suc left) i out two_state =
    elim (set_code out states i (bit_and (code_of s i) (mask_for states))) [
      | none ↦ none
      | some out' ↦
          pack_loop s states left (i + 1) out' (if ltb 1 (code_of s i) then false else two_state)
    ]

abbrev zeros : List ℕ → List ℕ
zeros [] = []
zeros (b ∷ out) = 0 ∷ zeros out

pub pack_ascii : List ℕ → ℕ → ℕ → List ℕ → Option (List ℕ × Bool)
pack_ascii s width states out = pack_loop s states width 0 (zeros out) true

abbrev char_of : ℕ → ℕ
char_of c = elim (get_elem? code_ascii (min c 8)) [ none ↦ 0 | some char ↦ char ]

abbrev pub then_char : Option ℕ → (ℕ → Option (List ℕ)) → Option (List ℕ)
then_char none next = none
then_char (some c) next = next c

-- `for i in (0..w).rev()`: the first of `suc i` rounds is that of `i`.
pub unpack_ascii : List ℕ → ℕ → ℕ → List ℕ → Option (List ℕ)
unpack_ascii bytes zero states out = some out
unpack_ascii bytes (suc i) states out =
    then_char (get_code bytes states i) (λ c. unpack_ascii bytes i states (out ++ char_of c ∷ []))

abbrev div_ceil : ℕ → ℕ → ℕ
div_ceil a b = (a + (b - 1)) / b

unfoldable pub packed_len : ℕ → ℕ → ℕ
packed_len width states =
    if states == 2
    then div_ceil width 8
    else if states == 4
    then div_ceil width 4
    else div_ceil width 2
