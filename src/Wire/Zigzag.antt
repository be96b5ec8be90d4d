-- ===== src/Wire/Zigzag.antt =====
-- vtr-rs/src/varint.rs: `zigzag`, `unzigzag` and `put_i64`. An `i64` is its bit pattern, a number below
-- 2^64.
use vtr.Prelude.{
  ℕ, ◌+◌, ◌-◌, ◌*◌, ◌/◌, ◌%◌, ◌^◌, bit_and, bit_xor, ◌≡◌, List, ltb, if◌then◌else◌, arith,
}
use vtr.Prelude.Bits.{bit_and-one, bit_xor-zero, bit_xor_ones}
use vtr.Prelude.Bytes.{IsU64}
use vtr.Wire.Varint.{put_u64}

-- `v >> 63` on an `i64` copies the sign.
abbrev sign_mask : ℕ → ℕ
sign_mask v = if ltb v (2 ^ 63) then 0 else 2 ^ 64 - 1

pub zigzag : ℕ → ℕ
zigzag v = bit_xor (v * 2 % 2 ^ 64) (sign_mask v)

-- `-((v & 1) as i64)`
abbrev negated_bit : ℕ → ℕ
negated_bit v = (2 ^ 64 - bit_and v 1) % 2 ^ 64

unfoldable pub unzigzag : ℕ → ℕ
unzigzag v = bit_xor (v / 2) (negated_bit v)

pub put_i64 : List ℕ → ℕ → List ℕ
put_i64 out v = put_u64 out (zigzag v)

-- The integer that a pattern stands for: `minus n` is -(n + 1).
pub data Signed : Type 0 where
  plus minus : ℕ → Signed

abbrev pub signed : ℕ → Signed
signed v = if ltb v (2 ^ 63) then plus v else minus (2 ^ 64 - 1 - v)

abbrev pub interleave : Signed → ℕ
interleave (plus n) = 2 * n
interleave (minus n) = 2 * n + 1

-- `zigzag` sends 0, -1, 1, -2, 2 and so on to 0, 1, 2, 3, 4: an integer of small size to a small `u64`.
pub zigzag-interleave : (v : ℕ) → IsU64 v → zigzag v ≡ interleave (signed v)
unfolding zigzag
zigzag-interleave v h =
    ground (arith, bit_xor-zero (v * 2 % 2 ^ 64) (v * 2 % 2 ^ 64), bit_xor_ones 64 (v * 2 % 2 ^ 64))

unzigzag_parts :
    (v : ℕ) → IsU64 v → unzigzag v ≡ (if ltb (v % 2) 1 then v / 2 else 2 ^ 64 - 1 - v / 2)
unfolding unzigzag
unzigzag_parts v h =
    ground (arith, bit_and-one v, bit_xor-zero (v / 2) (v / 2), bit_xor_ones 64 (v / 2))

zigzag_parts :
    (v : ℕ) → IsU64 v → zigzag v ≡ (if ltb v (2 ^ 63) then 2 * v else 2 * (2 ^ 64 - 1 - v) + 1)
zigzag_parts v h = ground (arith, zigzag-interleave v h)

zigzag-IsU64 : (v : ℕ) → IsU64 v → IsU64 (zigzag v)
zigzag-IsU64 v h = ground (arith, zigzag_parts v h)

unzigzag-IsU64 : (v : ℕ) → IsU64 v → IsU64 (unzigzag v)
unzigzag-IsU64 v h = ground (arith, unzigzag_parts v h)

-- `unzigzag` and `zigzag` are inverse to each other on all 64-bit patterns, so no `i64` and no `u64`
-- is without a partner.
pub zigzag_inverse : (v : ℕ) → IsU64 v → (unzigzag (zigzag v) ≡ v) × (zigzag (unzigzag v) ≡ v)
zigzag_inverse v h = (
  ground (arith, zigzag_parts v h, unzigzag_parts (zigzag v) (zigzag-IsU64 v h)),
  ground (arith, unzigzag_parts v h, zigzag_parts (unzigzag v) (unzigzag-IsU64 v h)),
)
