-- ===== src/Wire/Varint/Length.antt =====
-- The length that `len_u64` computes from the leading zeros.
use vtr.Prelude.{
  ℕ, zero, suc, ◌+◌, ◌/◌, ◌^◌, ◌≤◌, ◌<◌, ◌≡◌, refl, ap, ◌∙◌, ◌⊎◌, inl, inr, List, [], length,
  length-append, arith,
}
use vtr.Prelude.Bytes.{IsU64}
use vtr.Wire.Varint.{bit_length, len_u64, put_u64}
use vtr.Wire.Varint.Encode.{put_u64-encoded, encoded_last, encoded_more}
use native.Mathlib.Decide.{dec_le}
use native.Mathlib.Nat.{pow-suc}

bit_length_step : (f v : ℕ) → 0 < v → bit_length (suc f) v ≡ bit_length f (v / 2) + 1
unfolding bit_length
bit_length_step f v h = ground arith

bit_length-zero : (f : ℕ) → bit_length f 0 ≡ 0
unfolding bit_length
bit_length-zero zero = refl
bit_length-zero (suc f) = refl

-- More fuel than bits changes nothing.
bit_length_fuel : (f g v : ℕ) → v < 2 ^ f → f ≤ g → bit_length g v ≡ bit_length f v
unfolding bit_length
bit_length_fuel zero g v h p = rw (let z : v ≡ 0 = omega arith in z) (bit_length-zero g)
bit_length_fuel (suc f) zero v h p = absurd (omega arith)
bit_length_fuel (suc f) (suc g) v h p =
    ground (arith, bit_length_fuel f g (v / 2) (omega (arith, pow-suc 2 f)) (omega arith))

bit_length-le : (f k v : ℕ) → v < 2 ^ k → bit_length f v ≤ k
unfolding bit_length
bit_length-le zero k v h = omega arith
bit_length-le (suc f) zero v h = rw (let z : v ≡ 0 = omega arith in z) (omega arith)
bit_length-le (suc f) (suc k) v h =
    ground (arith, bit_length-le f k (v / 2) (omega (arith, pow-suc 2 k)))

seven_halves : (v : ℕ) → v / 2 / 2 / 2 / 2 / 2 / 2 / 2 ≡ v / 128
seven_halves v = omega arith

-- A group of seven bits is seven halvings.
bit_length_group : (v : ℕ) → 128 ≤ v → IsU64 v → bit_length 64 v ≡ bit_length 64 (v / 128) + 7
bit_length_group v p h = omega (
  arith,
  bit_length_fuel 64 71 v h (omega arith),
  bit_length_step 70 v (omega arith),
  bit_length_step 69 (v / 2) (omega arith),
  bit_length_step 68 (v / 2 / 2) (omega arith),
  bit_length_step 67 (v / 2 / 2 / 2) (omega arith),
  bit_length_step 66 (v / 2 / 2 / 2 / 2) (omega arith),
  bit_length_step 65 (v / 2 / 2 / 2 / 2 / 2) (omega arith),
  bit_length_step 64 (v / 2 / 2 / 2 / 2 / 2 / 2) (omega arith),
  ap (bit_length 64) (seven_halves v),
)

length_groups :
    (k v : ℕ)
    → v < 128 ^ suc k
    → 0 < v
    → IsU64 v
    → length (put_u64 [] v) ≡ (6 + bit_length 64 v) / 7
length_groups zero v h pos fits =
    rw (encoded_last v (omega arith))
      (omega (arith, bit_length-le 64 7 v (omega arith), bit_length_step 63 v pos))
length_groups (suc k) v h pos fits = elim (dec_le 128 v) [
  | yes p ↦
      let low : v / 128 < 128 ^ suc k = omega (arith, pow-suc 128 (suc k)) in
      rw (encoded_more v p) (
        omega (
          arith,
          bit_length_group v p fits,
          length_groups k (v / 128) low (omega arith) (omega arith),
        ))
  | no p ↦
      rw (encoded_last v (omega arith))
        (omega (arith, bit_length-le 64 7 v (omega arith), bit_length_step 63 v pos))
]

zero_or_pos : (v : ℕ) → (v ≡ 0) ⊎ (0 < v)
zero_or_pos zero = inl refl
zero_or_pos (suc n) = inr (omega arith)

-- `len_u64` is the number of bytes that `put_u64` appends, for every `u64`.
pub length-put_u64 :
    (out : List ℕ) (v : ℕ) → IsU64 v → length (put_u64 out v) ≡ length out + len_u64 v
unfolding len_u64
length-put_u64 out v h =
    rw (put_u64-encoded, length-append) (ap (λ (t : ℕ). length out + t) (go (zero_or_pos v)))
  where
    go : (v ≡ 0) ⊎ (0 < v) → length (put_u64 [] v) ≡ len_u64 v
    go (inl z) = rw (encoded_last v (omega arith)) (ground arith)
    go (inr p) = length_groups 9 v (omega arith) p h ∙ ground (arith, bit_length-le 64 64 v h)
