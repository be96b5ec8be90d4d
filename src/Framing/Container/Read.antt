-- ===== src/Framing/Container/Read.antt =====
-- Reading a section out of a file that holds it: its header, its payload and its sum.
use vtr.Prelude.{
  ℕ, ◌+◌, ◌≡◌, refl, sym, ap, ◌∙◌, Bool, List, [], ◌++◌, append_assoc, length, length-append,
  take-append, drop-append, replicate, arith,
}
use mathlib.Core.Path.{ap₂}
use vtr.Prelude.Bytes.{IsU32, IsU64, to_le, from_le, length-to_le, from_le-to_le}
use vtr.Error.{ok}
use vtr.Wire.Cursor
use vtr.Wire.Cursor.Laws.{u32-to_le, u64-to_le}
use vtr.Codec.{Backend}
use vtr.Framing.{Section, section_header, section_bytes}
use vtr.Framing.Container.{slice, section_of, section_at, check_sum, payload}
use vtr.Framing.Image.Sizes.{length-section_header}

-- `slice` cuts a middle part out of the file.
pub slice-middle :
    (bytes front middle back : List ℕ) (offset size : ℕ)
    → bytes ≡ front ++ (middle ++ back)
    → offset ≡ length front
    → size ≡ length middle
    → slice bytes offset size ≡ ok middle
unfolding slice
slice-middle bytes front middle back offset size e ho hs = rw e (
    ground (
      arith,
      length-append front (middle ++ back),
      length-append middle back,
      drop-append offset front (middle ++ back) ho,
      take-append size middle back hs,
    ))

-- The section that a header describes, before the directory adds to it.
abbrev pub bare : ℕ → ℕ → ℕ → ℕ → Section
bare kind flags offset size = record {
  kind = kind;
  flags = flags;
  offset = offset;
  length = size;
  aux0 = 0;
  aux1 = 0;
  block_number = 0;
}

reserved_zero : Cursor.u32 (replicate 4 0) ≡ ok (0, [])
unfolding Cursor.u32 Cursor.fixed_le Cursor.take from_le
reserved_zero = refl

section_of-section_header :
    (bytes : List ℕ) (offset kind flags size sum : ℕ) {p : List ℕ}
    → IsU32 kind
    → IsU32 flags
    → IsU64 size
    → IsU32 sum
    → slice bytes (offset + section_bytes) size ≡ ok p
    → section_of bytes offset (section_header kind flags size sum)
      ≡ ok (bare kind flags offset size)
unfolding section_of section_header
section_of-section_header bytes offset kind flags size sum hk hf hz hs found = rw (
  u32-to_le kind _ hk,
  u32-to_le flags _ hf,
  u64-to_le size _ hz,
  u32-to_le sum _ hs,
  reserved_zero,
  found,
)

-- A section stands in the file: `front` before it, its header, its payload, and the rest.
module _ (bytes front body back : List ℕ) (kind flags sum : ℕ)
    (here : bytes ≡ front ++ (section_header kind flags (length body) sum ++ (body ++ back)))
    (hk : IsU32 kind) (hf : IsU32 flags) (hz : IsU64 (length body)) (hs : IsU32 sum) where
  abbrev head : List ℕ
  head = section_header kind flags (length body) sum

  slice-body : slice bytes (length front + section_bytes) (length body) ≡ ok body
  slice-body =
      slice-middle bytes (front ++ head) body back _ _
        (here ∙ sym (append_assoc front head (body ++ back)))
        (omega
          (arith, length-append front head, length-section_header kind flags (length body) sum))
        refl

  pub section_at-here :
      section_at bytes (length front) ≡ ok (bare kind flags (length front) (length body))
  unfolding section_at
  section_at-here =
      rw
        (slice-middle bytes front head (body ++ back) (length front) section_bytes here refl
          (sym (length-section_header kind flags (length body) sum)))
        (section_of-section_header bytes (length front) kind flags (length body) sum hk hf hz hs
          slice-body)

  abbrev before_sum : List ℕ
  before_sum = to_le 4 kind ++ (to_le 4 flags ++ to_le 8 (length body))

  length-before_sum : length before_sum ≡ 16
  unfolding to_le
  length-before_sum = refl

  head-regroup :
      front ++ (head ++ (body ++ back))
      ≡ (front ++ before_sum) ++ (to_le 4 sum ++ (replicate 4 0 ++ (body ++ back)))
  unfolding section_header
  head-regroup = simp append_assoc

  slice-sum : slice bytes (length front + 16) 4 ≡ ok (to_le 4 sum)
  slice-sum =
      slice-middle bytes (front ++ before_sum) (to_le 4 sum) (replicate 4 0 ++ (body ++ back)) _ _
        (here ∙ head-regroup) (omega (arith, length-append front before_sum, length-before_sum))
        (sym (length-to_le 4 sum))

  module _ (backend : Backend) (crc : List ℕ → ℕ) (summed : sum ≡ crc body) where
    check_sum-here :
        (s : Section) → s.offset ≡ length front → check_sum backend crc bytes s body ≡ ok body
    unfolding check_sum
    check_sum-here s ho =
        let found : slice bytes (s.offset + 16) 4 ≡ ok (to_le 4 sum) =
          ap (λ (t : ℕ). slice bytes (t + 16) 4) ho ∙ slice-sum in
        ground (arith, found, from_le-to_le 4 sum hs)

    -- The payload is read back, and its sum agrees.
    pub payload-here :
        (s : Section) (verify force : Bool)
        → s.offset ≡ length front
        → s.length ≡ length body
        → payload backend crc bytes verify s force ≡ ok body
    unfolding payload
    payload-here s verify force ho hl =
        let found : slice bytes (s.offset + section_bytes) s.length ≡ ok body =
          ap₂ (λ (x y : ℕ). slice bytes (x + section_bytes) y) ho hl ∙ slice-body in
        ground (arith, found, check_sum-here s ho)
