-- ===== src/Wire/Varint/Decode.antt =====
-- What `Reader::u64` accepts, and what it makes of it.
use vtr.Prelude.{
  ℕ, zero, suc, ◌+◌, ◌*◌, ◌/◌, ◌%◌, ◌^◌, ◌≤◌, ◌<◌, ◌≡◌, ◌≢◌, refl, ap, ◌∙◌, ◌⊎◌, inl, inr, Option,
  some, none, List, ◌∷◌, ◌++◌, length, get_elem?, drop, All-get_elem?, get_elem?-drop,
  drop-get_elem?, drop-suc, arith,
}
use vtr.Prelude.Bytes.{IsByte, AllBytes}
use vtr.Error.{ok}
use vtr.Wire.Varint.{u64_loop}
use vtr.Wire.Varint.Groups.{
  add_group, add_group_lem, split_group, shift-lt, group_fits, sum_fits, more_low, room,
  shift_seven,
}
use vtr.Wire.Varint.Encode.{encoded, encoded_last, encoded_more}
use mathlib.Core.Path.{ap₂}
use native.Mathlib.Decide.{dec_le}
use native.Mathlib.Nat.{mod-eq_of_lt}

last_group : (w s : ℕ) → w * 2 ^ s < 2 ^ 64 → s ≡ 63 → w ≤ 1
last_group w s fits e = omega (arith, ap (λ (t : ℕ). w * 2 ^ t) e)

mod_high : (g : ℕ) → g < 128 → (g + 128) % 128 ≡ g
mod_high g h = omega arith

-- One round, by the byte that it reads.
u64_loop_last :
    (rounds : ℕ) (buf : List ℕ) (pos shift value w : ℕ) {t : List ℕ}
    → drop pos buf ≡ w ∷ t
    → w < 128
    → value < 2 ^ shift
    → w * 2 ^ shift < 2 ^ 64
    → (shift ≡ 0) ⊎ (0 < w)
    → u64_loop (suc rounds) buf pos shift value ≡ ok (value + w * 2 ^ shift, pos + 1)
unfolding u64_loop
u64_loop_last rounds buf pos shift value w at hw hv fits canonical = ground (
  arith,
  get_elem?-drop buf pos at,
  add_group_lem value w shift,
  mod-eq_of_lt {n = w} {m = 128} hw,
  last_group w shift fits,
)

u64_loop_more :
    (rounds : ℕ) (buf : List ℕ) (pos shift value g : ℕ) {t : List ℕ}
    → drop pos buf ≡ (g + 128) ∷ t
    → g < 128
    → value < 2 ^ shift
    → g * 2 ^ shift < 2 ^ 64
    → shift ≢ 63
    → u64_loop (suc rounds) buf pos shift value
      ≡ u64_loop rounds buf (pos + 1) (shift + 7) (value + g * 2 ^ shift)
unfolding u64_loop
u64_loop_more rounds buf pos shift value g at hg hv fits open_end =
    ground (arith, get_elem?-drop buf pos at, add_group_lem value (g + 128) shift, mod_high g hg)

-- The loop reads an encoding to its end.
pub u64_loop-encoded :
    (rounds j w : ℕ) (buf : List ℕ) (pos shift value : ℕ) (rest : List ℕ)
    → j + rounds ≡ 10
    → shift ≡ 7 * j
    → value < 2 ^ shift
    → w * 2 ^ shift < 2 ^ 64
    → (shift ≡ 0) ⊎ (0 < w)
    → drop pos buf ≡ encoded w ++ rest
    → u64_loop rounds buf pos shift value ≡ ok (value + w * 2 ^ shift, pos + length (encoded w))
u64_loop-encoded zero j w buf pos shift value rest e hs hv fits (inl z) at = absurd (omega arith)
u64_loop-encoded zero j w buf pos shift value rest e hs hv fits (inr p) at =
    absurd (omega (arith, shift-lt w shift p fits))
u64_loop-encoded (suc n) j w buf pos shift value rest e hs hv fits c at = elim (dec_le 128 w) [
  | yes p ↦
      let at' = rw (encoded_more w p) at at in
      rw (encoded_more w p) (
        u64_loop_more n buf pos shift value (w % 128) at' (omega arith) hv
          (omega (arith, split_group w shift)) (omega (arith, more_low w shift p fits))
        ∙ u64_loop-encoded n (j + 1) (w / 128) buf (pos + 1) (shift + 7)
            (value + w % 128 * 2 ^ shift) rest (omega arith) (omega arith)
            (sum_fits value (w % 128) shift hv (omega arith)) (omega (arith, split_group w shift))
            (inr (omega arith)) (drop-suc buf pos at')
        ∙ ap ok (ends (split_group w shift)))
  | no p ↦ rw (encoded_last w (omega arith)) (
      u64_loop_last n buf pos shift value w (rw (encoded_last w (omega arith)) at at) (omega arith)
        hv fits c)
]
  where
    ends :
        w * 2 ^ shift ≡ w % 128 * 2 ^ shift + w / 128 * 2 ^ (shift + 7)
        → ◌≡◌ {A = ℕ × ℕ}
            (
              value + w % 128 * 2 ^ shift + w / 128 * 2 ^ (shift + 7),
              pos + 1 + length (encoded (w / 128)),
            )
            (value + w * 2 ^ shift, pos + suc (length (encoded (w / 128))))
    ends h = ap₂ (λ (x y : ℕ). let pair : ℕ × ℕ = (x, y) in pair) (omega arith) (omega arith)

-- A round that succeeds, by the byte that it read.
data Round (n : ℕ) (buf : List ℕ) (pos shift value v p byte : ℕ) : Type 0 where
  last :
      byte < 128
      → v ≡ add_group value byte shift
      → p ≡ pos + 1
      → (shift ≡ 0) ⊎ (0 < byte)
      → (shift ≡ 63 → byte ≤ 1)
      → Round n buf pos shift value v p byte
  more :
      128 ≤ byte
      → shift ≢ 63
      → u64_loop n buf (pos + 1) (shift + 7) (add_group value byte shift) ≡ ok (v, p)
      → Round n buf pos shift value v p byte

round :
    (n : ℕ) (buf : List ℕ) (pos shift value v p byte : ℕ)
    → get_elem? buf pos ≡ some byte
    → u64_loop (suc n) buf pos shift value ≡ ok (v, p)
    → Round n buf pos shift value v p byte
unfolding u64_loop
round n buf pos shift value v p byte at run = elim (dec_le 128 byte) [
  | yes h ↦ more h (ground arith) (ground arith)
  | no h ↦ last (omega arith) (ground arith) (ground arith) (ground arith) (ground arith)
]

-- What the loop accepts is the encoding of one number, and its value is that number.
pub record Accepts (buf : List ℕ) (pos shift value v p w : ℕ) : Type 0 where
  pub front : drop pos buf ≡ encoded w ++ drop p buf
  pub meaning : v ≡ value + w * 2 ^ shift
  pub in_range : w * 2 ^ shift < 2 ^ 64
  pub canonical : (shift ≡ 0) ⊎ (0 < w)

accept_last :
    (j : ℕ) (buf : List ℕ) (pos shift value v p byte : ℕ)
    → shift ≡ 7 * j
    → j ≤ 9
    → value < 2 ^ shift
    → get_elem? buf pos ≡ some byte
    → byte < 128
    → v ≡ add_group value byte shift
    → p ≡ pos + 1
    → (shift ≡ 0) ⊎ (0 < byte)
    → (shift ≡ 63 → byte ≤ 1)
    → Accepts buf pos shift value v p byte
accept_last j buf pos shift value v p byte hs hj hv at h ev ep c guard = record {
  front = rw (encoded_last byte h, ep) (drop-get_elem? buf pos at);
  meaning =
      ev
      ∙ add_group_lem value byte shift (omega arith) hv (rw small fits)
      ∙ ap (λ (t : ℕ). value + t * 2 ^ shift) small;
  in_range = fits;
  canonical = c;
}
  where
    small : byte % 128 ≡ byte
    small = omega arith

    fits : byte * 2 ^ shift < 2 ^ 64
    fits = group_fits byte shift j hs hj h guard

accept_more :
    (buf : List ℕ) (pos shift value v p byte w : ℕ)
    → get_elem? buf pos ≡ some byte
    → 128 ≤ byte
    → byte < 256
    → Accepts buf (pos + 1) (shift + 7) (value + byte % 128 * 2 ^ shift) v p w
    → Accepts buf pos shift value v p (byte % 128 + w * 128)
accept_more buf pos shift value v p byte w at h hb acc = record {
  front =
      drop-get_elem? buf pos at
      ∙ rw (encoded_more (byte % 128 + w * 128) (omega arith), low, high, acc.front) refl;
  meaning = omega (arith, acc.meaning, whole);
  in_range = room (byte % 128) w shift (omega arith) pos_w acc.in_range;
  canonical = inr (omega arith);
}
  where
    pos_w : 0 < w
    pos_w = elim acc.canonical [ inl z ↦ absurd (omega arith) | inr q ↦ q ]

    low : (byte % 128 + w * 128) % 128 + 128 ≡ byte
    low = omega arith

    high : (byte % 128 + w * 128) / 128 ≡ w
    high = omega arith

    whole : (byte % 128 + w * 128) * 2 ^ shift ≡ byte % 128 * 2 ^ shift + w * 2 ^ (shift + 7)
    whole = omega (arith, ap (λ (t : ℕ). w * t) (shift_seven shift))

pub u64_loop-Accepts :
    (rounds j : ℕ) (buf : List ℕ) (pos shift value v p : ℕ)
    → AllBytes buf
    → j + rounds ≡ 10
    → shift ≡ 7 * j
    → value < 2 ^ shift
    → u64_loop rounds buf pos shift value ≡ ok (v, p)
    → (w : ℕ) × Accepts buf pos shift value v p w
unfolding u64_loop
u64_loop-Accepts zero j buf pos shift value v p bs e hs hv run = cc
u64_loop-Accepts (suc n) j buf pos shift value v p bs e hs hv run =
    go (get_elem? buf pos) refl (λ value' hv' run'.
      u64_loop-Accepts n (j + 1) buf (pos + 1) (shift + 7) value' v p bs (omega arith) (omega arith)
        hv' run')
  where
    go :
        (b : Option ℕ)
        → get_elem? buf pos ≡ b
        → ((value' : ℕ)
            → value' < 2 ^ (shift + 7)
            → u64_loop n buf (pos + 1) (shift + 7) value' ≡ ok (v, p)
            → (w : ℕ) × Accepts buf (pos + 1) (shift + 7) value' v p w)
        → (w : ℕ) × Accepts buf pos shift value v p w
    go none at ih = ground arith
    go (some byte) at ih = elim (round n buf pos shift value v p byte at run) [
      | last h ev ep c g ↦
          (byte, accept_last j buf pos shift value v p byte hs (omega arith) hv at h ev ep c g)
      | more h ne rest ↦
          let hb : byte < 256 = All-get_elem? IsByte buf pos bs at in
          let (w, acc) =
            ih (value + byte % 128 * 2 ^ shift) (sum_fits value (byte % 128) shift hv (omega arith))
              (rw
                (add_group_lem value byte shift hb hv (
                  group_fits (byte % 128) shift j hs (omega arith) (omega arith)
                    (λ e63. absurd (ne e63))))
                at rest) in
          (byte % 128 + w * 128, accept_more buf pos shift value v p byte w at h hb acc)
    ]
