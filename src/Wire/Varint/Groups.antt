-- ===== src/Wire/Varint/Groups.antt =====
-- The arithmetic of seven-bit groups inside 64 bits.
use vtr.Prelude.{
  ℕ, suc, ◌+◌, ◌-◌, ◌*◌, ◌/◌, ◌%◌, ◌^◌, ◌≤◌, ◌<◌, bit_and, bit_or, ◌≡◌, sym, ap, ◌∙◌, arith,
}
use vtr.Prelude.Bits.{byte_and_127, bit_or_fields, two_pow_add}
use native.Mathlib.Decide.{dec_le}
use native.Mathlib.Nat.{
  mul-le-mul_right, one-le-pow, pow-le-pow_right, pow-suc, mod-eq_of_lt, div-add-mod',
}
use native.Mathlib.Numerals.{towards_suc}

-- The value after one more group, where the group still fits 64 bits.
abbrev pub add_group : ℕ → ℕ → ℕ → ℕ
add_group value byte shift = bit_or value (bit_and byte 127 * 2 ^ shift % 2 ^ 64)

pub add_group_lem :
    (value byte shift : ℕ)
    → byte < 256
    → value < 2 ^ shift
    → byte % 128 * 2 ^ shift < 2 ^ 64
    → add_group value byte shift ≡ value + byte % 128 * 2 ^ shift
add_group_lem value byte shift hb hv fits =
    rw (byte_and_127 byte hb, mod-eq_of_lt fits) (bit_or_fields shift value (byte % 128) hv)

pub shift_seven : (s : ℕ) → 2 ^ (s + 7) ≡ 128 * 2 ^ s
shift_seven s = simp towards_suc (omega (arith, pow-suc 2 s))

-- `w` counts from bit `s`: its lowest group, and the rest counted from bit `s + 7`.
pub split_group : (v bit : ℕ) → v * 2 ^ bit ≡ v % 128 * 2 ^ bit + v / 128 * 2 ^ (bit + 7)
split_group v bit = omega (
  arith,
  ap (λ (t : ℕ). t * 2 ^ bit) (div-add-mod' v 128),
  ap (λ (t : ℕ). v / 128 * t) (shift_seven bit),
)

-- A number that is not 0 has no bit at 64 or above.
pub shift-lt : (w s : ℕ) → 0 < w → w * 2 ^ s < 2 ^ 64 → s < 64
shift-lt w s pos fits = elim (dec_le 64 s) [
  | yes p ↦ absurd (grind (arith, pow-le-pow_right {n = 2} (omega arith) p))
  | no p ↦ omega arith
]

-- A group read below bit 64 fits; at bit 63 the guard lets one bit through.
pub group_fits : (g s j : ℕ) → s ≡ 7 * j → j ≤ 9 → g < 128 → (s ≡ 63 → g ≤ 1) → g * 2 ^ s < 2 ^ 64
group_fits g s j hs hj hg guard = elim (dec_le 9 j) [
  | yes p ↦ rw (nine p) (let one : g ≤ 1 = guard (nine p) in omega arith)
  | no p ↦ grind (arith, pow-le-pow_right {n = 2} (omega arith) (below p), shift_seven s)
]
  where
    nine : 9 ≤ j → s ≡ 63
    nine p = omega arith

    below : ¬ (9 ≤ j) → s + 7 ≤ 63
    below p = omega arith

pub sum_fits : (value g s : ℕ) → value < 2 ^ s → g < 128 → value + g * 2 ^ s < 2 ^ (s + 7)
sum_fits value g s hv hg = grind (arith, shift_seven s)

pub more_low : (w s : ℕ) → 128 ≤ w → w * 2 ^ s < 2 ^ 64 → s + 7 < 64
more_low w s p fits = shift-lt (w / 128) (s + 7) (omega arith) (omega (arith, split_group w s))

below_scaled : (g w q m : ℕ) → g < 128 → w < m → 0 < q → (g + w * 128) * q < m * (128 * q)
below_scaled g w q m hg hw hq =
    let rows : suc w * (128 * q) ≤ m * (128 * q) = mul-le-mul_right (128 * q) hw in
    let group : suc g * q ≤ 128 * q = mul-le-mul_right q hg in omega arith

-- A number counted from bit `s + 7` leaves room for a group at bit `s`.
pub room : (g w s : ℕ) → g < 128 → 0 < w → w * 2 ^ (s + 7) < 2 ^ 64 → (g + w * 128) * 2 ^ s < 2 ^ 64
room g w s hg hw fits =
    let high : 2 ^ (57 - s) * 2 ^ (s + 7) ≡ 2 ^ 64 = top in
    let below : w < 2 ^ (57 - s) = grind arith in
    let scaled = below_scaled g w (2 ^ s) (2 ^ (57 - s)) hg below (one-le-pow s 2 (omega arith)) in
    rw (sym high, shift_seven) scaled
  where
    whole : 57 - s + (s + 7) ≡ 64
    whole = omega (arith, shift-lt w (s + 7) hw fits)

    top : 2 ^ (57 - s) * 2 ^ (s + 7) ≡ 2 ^ 64
    top = sym (two_pow_add (57 - s) (s + 7)) ∙ ap (λ (t : ℕ). 2 ^ t) whole
