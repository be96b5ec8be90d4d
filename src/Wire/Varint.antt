-- ===== src/Wire/Varint.antt =====
-- vtr-rs/src/varint.rs: LEB128 integers and the positioned reader. A `u64` is a number below 2^64,
-- and `usize` has 64 bits. A failed read returns the error alone: every caller hands it on by `?` and
-- drops the reader.
pub mod Encode
mod Groups
pub mod Decode
pub mod RoundTrip
pub mod Length
use vtr.Prelude.{
  ℕ, zero, suc, ◌+◌, ◌-◌, ◌*◌, ◌/◌, ◌%◌, ◌^◌, ◌≤◌, ◌<◌, bit_and, bit_or, true, false, not, ◌&&◌,
  Option, none, some, List, [], ◌∷◌, ◌++◌, length, get_elem?, take, drop, ltb, leb, ◌==◌,
  if◌then◌else◌, lt_wf, arith,
}
use vtr.Error.{Result, ok, err, corrupt, ◌>>=◌}
use mathlib.Core.Logic.{dite}
use mathlib.Core.WellFounded.{Acc}
use native.Mathlib.Decide.{dec_le}

pub group_shrinks : (v : ℕ) → 128 ≤ v → v / 128 < v
group_shrinks v h = omega arith

-- `while v >= 0x80`: `v as u8` is `v % 256` and `v >>= 7` is `v / 128`.
put_loop : List ℕ → (v : ℕ) → Acc ◌<◌ v → List ℕ
unfolding dec_le
put_loop out v (Acc.intro _ smaller) =
    dite (dec_le 128 v)
      (λ h.
        put_loop (out ++ bit_or (v % 256) 128 ∷ []) (v / 128)
          (smaller (v / 128) (group_shrinks v h)))
      (λ _. out ++ (v % 256) ∷ [])

unfoldable pub put_u64 : List ℕ → ℕ → List ℕ
unfolding put_loop lt_wf
put_u64 out v = put_loop out v (lt_wf.apply v)

unfoldable pub put_blob : List ℕ → List ℕ → List ℕ
put_blob out b = put_u64 out (length b) ++ b

-- The bits below the leading zeros of a `u64`, counted by halving.
bit_length : ℕ → ℕ → ℕ
bit_length zero v = 0
bit_length (suc fuel) v = elim (v == 0) [ true ↦ 0 | false ↦ bit_length fuel (v / 2) + 1 ]

-- `u64::leading_zeros`
abbrev leading_zeros : ℕ → ℕ
leading_zeros v = 64 - bit_length 64 v

pub len_u64 : ℕ → ℕ
unfolding bit_length
len_u64 v = if v == 0 then 1 else (70 - leading_zeros v) / 7

pub record Reader : Type 0 where
  pub buf : List ℕ
  pub pos : ℕ

unfoldable pub reader : List ℕ → Reader
reader buf = record { buf = buf; pos = 0 }

-- The body of `for shift in (0..70).step_by(7)` with `rounds` rounds to go. The result is the value
-- and the position behind it.
pub u64_loop : ℕ → List ℕ → ℕ → ℕ → ℕ → Result (ℕ × ℕ)
u64_loop zero buf pos shift value = err (corrupt "varint overflow")
u64_loop (suc rounds) buf pos shift value = elim (get_elem? buf pos) [
  | none ↦ err (corrupt "truncated varint")
  | some byte ↦
      let value' = bit_or value (bit_and byte 127 * 2 ^ shift % 2 ^ 64) in
      let more = u64_loop rounds buf (pos + 1) (shift + 7) value' in
      if shift == 63 && ltb 1 byte
      then err (corrupt "varint overflow")
      else if ltb byte 128
      then (if not (shift == 0) && byte == 0
          then err (corrupt "noncanonical varint")
          else ok (value', pos + 1))
      else more
]

u64_slow : Reader → Result (ℕ × Reader)
unfolding u64_loop
u64_slow r = do (value, pos) ← u64_loop 10 r.buf r.pos 0 0; ok (value, record r { pos = pos })

unfoldable pub u64 : Reader → Result (ℕ × Reader)
unfolding u64_slow
u64 r = elim (get_elem? r.buf r.pos) [
  | none ↦ u64_slow r
  | some byte ↦ if ltb byte 128 then ok (byte, record r { pos = r.pos + 1 }) else u64_slow r
]

pub u32 : Reader → Result (ℕ × Reader)
u32 r = do
  (v, r') ← u64 r
  if ltb v (2 ^ 32) then ok (v, r') else err (corrupt "varint exceeds u32")

-- `usize::try_from` of a `u64` succeeds where `usize` has 64 bits.
unfoldable pub usize : Reader → Result (ℕ × Reader)
usize r = u64 r

unfoldable pub u8 : Reader → Result (ℕ × Reader)
u8 r = elim (get_elem? r.buf r.pos) [
  | none ↦ err (corrupt "truncated byte")
  | some b ↦ ok (b, record r { pos = r.pos + 1 })
]

-- `buf.get(pos..)` is none beyond the end, and so is `tail.get(..n)`.
pub bytes : ℕ → Reader → Result (List ℕ × Reader)
bytes n r =
    if leb r.pos (length r.buf) && leb n (length (drop r.pos r.buf))
    then ok (take n (drop r.pos r.buf), record r { pos = r.pos + n })
    else err (corrupt "truncated byte run")

pub blob : Reader → Result (List ℕ × Reader)
blob r = do (n, r') ← usize r; bytes n r'
