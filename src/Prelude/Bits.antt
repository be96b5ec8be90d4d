-- ===== src/Prelude/Bits.antt =====
-- Bit operations as arithmetic: a sum for disjoint fields, a remainder for a low mask, a
-- difference for an exclusive or with ones. The induction is on the width.
use Prim.Native.Nat.{ℕ, zero, suc, ◌+◌, ◌-◌, ◌*◌, ◌/◌, ◌%◌, ◌^◌, ◌≤◌, ◌<◌, min, max}
use Prim.Native.Nat.{bit_and, bit_or, bit_xor, digits, differ}
use Prim.Native.Nat.{bit_and-bitwise, bit_or-bitwise, bit_xor-bitwise}
use mathlib.Core.Path.{◌≡◌, refl, ap, ◌∙◌}
use mathlib.Core.Bool.{Bool, true, ◌&&◌}
use native.Mathlib.Nat.{
  pow-suc, one-le-pow, div-add-mod', mul-add-mod_self_right, mod-eq_of_lt, mod-lt, zero-add,
  suc-add,
}
use native.Mathlib.Omega.{arith}
use vtr.Prelude.Tests.{◌==◌}

-- The native operations are recursions on digits with fuel: one more digit at both fuels.
module _ (empty : ℕ → ℕ) (digit : ℕ → ℕ → ℕ) where
  digits_enough :
      (n m a b : ℕ) → a ≤ n → a ≤ m → digits empty digit n a b ≡ digits empty digit m a b
  digits_enough zero zero zero b p q = refl
  digits_enough zero (suc m) zero b p q = refl
  digits_enough (suc n) zero zero b p q = refl
  digits_enough (suc n) (suc m) zero b p q = refl
  digits_enough zero m (suc a) b p q = absurd (omega arith)
  digits_enough (suc n) zero (suc a) b p q = absurd (omega arith)
  digits_enough (suc n) (suc m) (suc a) b p q =
      ap (λ (t : ℕ). t * 2 + digit (suc a % 2) (b % 2))
        (digits_enough n m (suc a / 2) (b / 2) (omega arith) (omega arith))

  enough_half :
      (a b : ℕ)
      → digits empty digit a (suc a / 2) (b / 2)
        ≡ digits empty digit (suc a / 2) (suc a / 2) (b / 2)
  enough_half a b = digits_enough a (suc a / 2) (suc a / 2) (b / 2) (omega arith) (omega arith)

bit_or_step :
    (left right : ℕ)
    → bit_or left right ≡ bit_or (left / 2) (right / 2) * 2 + max (left % 2) (right % 2)
bit_or_step zero right = simp bit_or-bitwise (omega arith)
bit_or_step (suc left) right =
    simp bit_or-bitwise (omega (arith, enough_half (λ y. y) max left right))

bit_and_step :
    (left right : ℕ)
    → bit_and left right ≡ bit_and (left / 2) (right / 2) * 2 + min (left % 2) (right % 2)
bit_and_step zero right = simp bit_and-bitwise (omega arith)
bit_and_step (suc left) right =
    simp bit_and-bitwise (omega (arith, enough_half (λ y. 0) min left right))

bit_xor_step :
    (left right : ℕ)
    → bit_xor left right ≡ bit_xor (left / 2) (right / 2) * 2 + differ (left % 2) (right % 2)
bit_xor_step zero right = simp bit_xor-bitwise (omega arith)
bit_xor_step (suc left) right =
    simp bit_xor-bitwise (omega (arith, enough_half (λ y. y) differ left right))

pub two_pow_add : (m n : ℕ) → 2 ^ (m + n) ≡ 2 ^ m * 2 ^ n
two_pow_add zero n = rw zero-add (omega arith)
two_pow_add (suc m) n =
    rw suc-add
      (omega (arith, pow-suc 2 (m + n), two_pow_add m n, ap (λ (t : ℕ). t * 2 ^ n) (pow-suc 2 m)))

-- `(hi << k) | lo` is a sum when `lo` fits `k` bits.
pub bit_or_fields : (k lo hi : ℕ) → lo < 2 ^ k → bit_or lo (hi * 2 ^ k) ≡ lo + hi * 2 ^ k
bit_or_fields zero zero hi h = simp bit_or-bitwise (omega arith)
bit_or_fields zero (suc lo) hi h = absurd (omega arith)
bit_or_fields (suc k) lo hi h = ground (
  arith,
  bit_or_step lo (hi * 2 ^ suc k),
  double k hi,
  pow-suc 2 k,
  bit_or_fields k (lo / 2) hi (omega (arith, pow-suc 2 k)),
)
  where
    double : (k hi : ℕ) → hi * 2 ^ suc k ≡ 2 * (hi * 2 ^ k)
    double k hi = omega (arith, ap (λ (t : ℕ). hi * t) (pow-suc 2 k))

bit_and-zero : (n a : ℕ) → a ≤ n → bit_and a 0 ≡ 0
bit_and-zero n zero h = refl
bit_and-zero zero (suc a) h = absurd (omega arith)
bit_and-zero (suc n) (suc a) h =
    omega (arith, bit_and_step (suc a) 0, bit_and-zero n (suc a / 2) (omega arith))

half_mod : (k a : ℕ) → a % 2 ^ suc k ≡ a / 2 % 2 ^ k * 2 + a % 2
half_mod k a =
    ap (λ (t : ℕ). t % 2 ^ suc k)
      (omega (arith, ap (λ (t : ℕ). a / 2 / 2 ^ k * t) (pow-suc 2 k), div-add-mod' (a / 2) (2 ^ k)))
    ∙ mul-add-mod_self_right (a / 2 / 2 ^ k) (2 ^ suc k) (a / 2 % 2 ^ k * 2 + a % 2)
    ∙ mod-eq_of_lt (omega (arith, pow-suc 2 k, one-le-pow k 2, mod-lt (a / 2) {m = 2 ^ k}))

-- `a & (2^k - 1)` is the remainder by `2^k`.
pub bit_and_mask : (k a : ℕ) → bit_and a (2 ^ k - 1) ≡ a % 2 ^ k
bit_and_mask zero a = omega (arith, bit_and-zero a a (omega arith))
bit_and_mask (suc k) a = ground (
  arith,
  bit_and_step a (2 ^ suc k - 1),
  pow-suc 2 k,
  one-le-pow k 2,
  bit_and_mask k (a / 2),
  half_mod k a,
)

-- `x ^ 0` is `x`.
pub bit_xor-zero : (n a : ℕ) → a ≤ n → bit_xor a 0 ≡ a
bit_xor-zero n zero h = refl
bit_xor-zero zero (suc a) h = absurd (omega arith)
bit_xor-zero (suc n) (suc a) h = ground (
  arith,
  bit_xor_step (suc a) 0,
  differ-zero (suc a % 2),
  bit_xor-zero n (suc a / 2) (omega arith),
)
  where
    differ-zero : (d : ℕ) → differ d 0 ≡ d
    differ-zero zero = refl
    differ-zero (suc d) = refl

-- `x ^ (2^k - 1)` flips the `k` low bits.
pub bit_xor_ones : (k a : ℕ) → a < 2 ^ k → bit_xor a (2 ^ k - 1) ≡ 2 ^ k - 1 - a
bit_xor_ones zero zero h = refl
bit_xor_ones zero (suc a) h = absurd (omega arith)
bit_xor_ones (suc k) a h = ground (
  arith,
  bit_xor_step a (2 ^ suc k - 1),
  pow-suc 2 k,
  one-le-pow k 2,
  differ-one (a % 2),
  bit_xor_ones k (a / 2),
)
  where
    differ-one : (d : ℕ) → d < 2 → differ d 1 ≡ 1 - d
    differ-one zero h = refl
    differ-one (suc zero) h = refl
    differ-one (suc (suc d)) h = absurd (omega arith)

-- Over a small range, an equation is checked at every value.
module _ (f g : ℕ → ℕ) where
  agree_below : ℕ → Bool
  agree_below zero = true
  agree_below (suc n) = f n == g n && agree_below n

  agree_below_sound : (n : ℕ) → agree_below n ≡ true → (x : ℕ) → x < n → f x ≡ g x
  unfolding agree_below
  agree_below_sound zero e x h = absurd (omega arith)
  agree_below_sound (suc n) e x h = ground (arith, agree_below_sound n (ground arith) x)

pub byte_and_127 : (b : ℕ) → b < 256 → bit_and b 127 ≡ b % 128
byte_and_127 b h = bit_and_mask 7 b

pub byte_or_128 : (b : ℕ) → b < 256 → bit_or b 128 ≡ b % 128 + 128
unfolding agree_below
byte_or_128 = agree_below_sound _ _ 256 refl

pub bit_and-one : (a : ℕ) → bit_and a 1 ≡ a % 2
bit_and-one a = bit_and_mask 1 a
