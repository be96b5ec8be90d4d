-- ===== src/Wire/Varint/Encode.antt =====
-- What `put_u64` writes: seven bits a byte, lowest group first.
use vtr.Prelude.{
  ℕ, zero, suc, ◌+◌, ◌/◌, ◌%◌, ◌^◌, ◌≤◌, ◌<◌, bit_or, ◌≡◌, sym, ap, ◌∙◌, List, [], ◌∷◌, ◌++◌,
  length, append_assoc, lt_wf, arith,
}
use vtr.Prelude.Bits.{byte_or_128}
use vtr.Prelude.Bytes.{AllBytes, IsU64}
use vtr.Wire.Varint.{put_loop, put_u64, group_shrinks}
use mathlib.Core.Logic.{dif_pos, dif_neg}
use mathlib.Core.WellFounded.{Acc}
use native.Mathlib.Bridge.{le_prop}
use native.Mathlib.Decide.{dec_le}
use native.Mathlib.Nat.{pow-suc}

-- The encoding of one number.
abbrev pub encoded : ℕ → List ℕ
encoded v = put_u64 [] v

group : (v : ℕ) → bit_or (v % 256) 128 ≡ v % 128 + 128
group v = omega (arith, byte_or_128 (v % 256) (omega arith))

put_loop_more :
    (out : List ℕ) (v : ℕ) (s : (m : ℕ) → m < v → Acc ◌<◌ m) (p : 128 ≤ v)
    → put_loop out v (Acc.intro v s)
      ≡ put_loop (out ++ (v % 128 + 128) ∷ []) (v / 128) (s (v / 128) (group_shrinks v p))
unfolding put_loop
put_loop_more out v s p = rw (dif_pos (dec_le 128 v) le_prop p, group)

put_loop_last : (out : List ℕ) (v : ℕ) (w : Acc ◌<◌ v) → v < 128 → put_loop out v w ≡ out ++ v ∷ []
unfolding put_loop
put_loop_last out v (Acc.intro _ s) h =
    rw (dif_neg (dec_le 128 v) (λ p. absurd (omega arith)))
      (ap (λ (t : ℕ). out ++ t ∷ []) (omega arith))

put_loop-out :
    (out : List ℕ) (v : ℕ) (w w' : Acc ◌<◌ v) → put_loop out v w ≡ out ++ put_loop [] v w'
put_loop-out out v (Acc.intro _ s) (Acc.intro _ s') = elim (dec_le 128 v) [
  | yes p ↦
      put_loop_more out v s p
      ∙ put_loop-out (out ++ (v % 128 + 128) ∷ []) (v / 128) (s (v / 128) (group_shrinks v p))
          (s' (v / 128) (group_shrinks v p))
      ∙ append_assoc out ((v % 128 + 128) ∷ []) _
      ∙ ap (λ t. out ++ t)
          (sym (
            put_loop_more [] v s' p
            ∙ put_loop-out ((v % 128 + 128) ∷ []) (v / 128) (s' (v / 128) (group_shrinks v p))
                (s' (v / 128) (group_shrinks v p))))
  | no p ↦
      put_loop_last out v (Acc.intro v s) (omega arith)
      ∙ ap (λ t. out ++ t) (sym (put_loop_last [] v (Acc.intro v s') (omega arith)))
]

-- `put_u64` keeps what is written, and appends the encoding.
pub put_u64-encoded : (out : List ℕ) (v : ℕ) → put_u64 out v ≡ out ++ encoded v
unfolding put_u64
put_u64-encoded out v = put_loop-out out v (lt_wf.apply v) (lt_wf.apply v)

-- The encoding by recursion on the value.
pub encoded_last : (v : ℕ) → v < 128 → encoded v ≡ v ∷ []
unfolding put_u64
encoded_last v h = put_loop_last [] v (lt_wf.apply v) h

encoded_more_at :
    (v : ℕ) (w : Acc ◌<◌ v) → 128 ≤ v → put_loop [] v w ≡ (v % 128 + 128) ∷ encoded (v / 128)
unfolding put_u64
encoded_more_at v (Acc.intro _ s) p =
    put_loop_more [] v s p
    ∙ put_loop-out ((v % 128 + 128) ∷ []) (v / 128) (s (v / 128) (group_shrinks v p))
        (lt_wf.apply _)

pub encoded_more : (v : ℕ) → 128 ≤ v → encoded v ≡ (v % 128 + 128) ∷ encoded (v / 128)
encoded_more v p = unfold put_u64 in encoded_more_at v (lt_wf.apply v) p

-- `k + 1` bytes are enough below `128 ^ (k + 1)`.
encoded_shape :
    (k v : ℕ)
    → v < 128 ^ suc k
    → AllBytes (encoded v) × (1 ≤ length (encoded v)) × (length (encoded v) ≤ suc k)
encoded_shape zero v h = rw (encoded_last v (omega arith)) (omega arith)
encoded_shape (suc k) v h = elim (dec_le 128 v) [
  | yes p ↦
      let (all, low, high) = encoded_shape k (v / 128) (omega (arith, pow-suc 128 (suc k))) in
      rw (encoded_more v p) ((omega arith, all), omega arith, omega arith)
  | no p ↦ rw (encoded_last v (omega arith)) (omega arith)
]

-- A `u64` takes one to ten bytes.
pub encoded-AllBytes : (v : ℕ) → IsU64 v → AllBytes (encoded v)
encoded-AllBytes v h = (encoded_shape 9 v (omega arith)).0

pub length-encoded : (v : ℕ) → IsU64 v → (1 ≤ length (encoded v)) × (length (encoded v) ≤ 10)
length-encoded v h = let (_, low, high) = encoded_shape 9 v (omega arith) in (low, high)
