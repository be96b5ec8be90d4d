-- ===== src/Transactions/Time/Ends.antt =====
-- vtr-rs/src/transactions/page.rs: how the encoder writes a stage's end, which `stage_end` reads back.
use vtr.Prelude.{
  ℕ, ◌+◌, ◌-◌, ◌^◌, ◌≤◌, ◌≡◌, refl, sym, ap, ◌∙◌, Bool-cases, inl, inr, true, false, ◌&&◌, Option,
  none, some, List, [], ◌∷◌, ◌++◌, lt→ltb, ◌==◌, ==→eq, eq→==, ne→==, if◌then◌else◌, arith,
}
use vtr.Prelude.Bytes.{IsU64}
use vtr.Error.{ok, err, corrupt}
use vtr.Wire.Varint.{put_u64, u64, reader}
use vtr.Wire.Cursor.{Cursor, starts_with, var}
use vtr.Wire.Cursor.Laws.{take-front, var-put_u64}
use vtr.Transactions.Time.{full_domain_end, plain_end, stage_end}

-- The duration and one, 0 for a stage without an end, and ten bytes for the one duration that is too long.
unfoldable pub put_stage_end : List ℕ → ℕ → Option ℕ → List ℕ
put_stage_end out begin none = put_u64 out 0
put_stage_end out begin (some end) =
    if end == 2 ^ 64 - 1 && begin == 0
    then out ++ full_domain_end
    else put_u64 out (end - begin + 1)

-- A stage that has an end does not end before it begins.
abbrev pub EndsAfter : ℕ → Option ℕ → Type 0
EndsAfter begin none = Unit
EndsAfter begin (some end) = (begin ≤ end) × IsU64 end

starts_with_split : (ps d : List ℕ) → starts_with ps d ≡ true → (rest : List ℕ) × (d ≡ ps ++ rest)
unfolding starts_with
starts_with_split [] d h = (d, refl)
starts_with_split (p ∷ ps) [] h = cc
starts_with_split (p ∷ ps) (b ∷ d) h = elim (Bool-cases (p == b)) [
  | inl e ↦
      let (rest, same) = starts_with_split ps d (rw e at h) in (rest, rw (==→eq p b e, same) refl)
  | inr e ↦ let no : false ≡ true = rw e at h in cc
]

starts_with-append : (ps rest : List ℕ) → starts_with ps (ps ++ rest) ≡ true
unfolding starts_with
starts_with-append [] rest = refl
starts_with-append (p ∷ ps) rest = rw (eq→== p p refl) (starts_with-append ps rest)

-- The special form is no `u64`.
var_overflow : (rest : List ℕ) → var (full_domain_end ++ rest) ≡ err (corrupt "varint overflow")
unfolding var u64 reader
var_overflow rest = refl

put_u64_plain :
    (v : ℕ) (rest : List ℕ) → IsU64 v → starts_with full_domain_end (put_u64 [] v ++ rest) ≡ false
put_u64_plain v rest h = elim (Bool-cases (starts_with full_domain_end (put_u64 [] v ++ rest))) [
  | inl e ↦
      let (left, same) = starts_with_split full_domain_end (put_u64 [] v ++ rest) e in
      let no = sym (var-put_u64 v rest h) ∙ ap var same ∙ var_overflow left in cc
  | inr e ↦ e
]

plain_end-put_u64 :
    (begin end : ℕ) (rest : List ℕ)
    → begin ≤ end
    → IsU64 end
    → IsU64 (end - begin + 1)
    → plain_end (put_u64 [] (end - begin + 1) ++ rest) begin ≡ ok (some end, rest)
unfolding plain_end
plain_end-put_u64 begin end rest le wide fits =
    let back : begin + ((end - begin + 1) - 1) ≡ end = omega arith in
    rw
      (
        var-put_u64 (end - begin + 1) rest fits,
        ne→== (end - begin + 1) 0 (λ e. omega (arith, e)),
        back,
        lt→ltb end (2 ^ 64) wide,
      )
      refl

stage_end-plain :
    (d : Cursor) (begin : ℕ)
    → starts_with full_domain_end d ≡ false
    → stage_end d begin ≡ plain_end d begin
unfolding stage_end
stage_end-plain d begin h = rw h refl

stage_end-none :
    (begin : ℕ) (rest : List ℕ) → plain_end (put_u64 [] 0 ++ rest) begin ≡ ok (none, rest)
unfolding plain_end
stage_end-none begin rest = rw (var-put_u64 0 rest (omega arith)) refl

stage_end-full :
    (rest : List ℕ) → stage_end (full_domain_end ++ rest) 0 ≡ ok (some (2 ^ 64 - 1), rest)
unfolding stage_end
stage_end-full rest =
    rw (starts_with-append full_domain_end rest, take-front 10 full_domain_end rest refl) refl

-- `stage_end` reads back the end that the encoder wrote, or that there is none, and stands behind it: for every
-- begin and every end from there on below 2^64, the longest stage of all included.
pub stage_end-put_stage_end :
    (begin : ℕ) (end : Option ℕ) (rest : List ℕ)
    → EndsAfter begin end
    → stage_end (put_stage_end [] begin end ++ rest) begin ≡ ok (end, rest)
unfolding put_stage_end
stage_end-put_stage_end begin none rest h =
    stage_end-plain (put_u64 [] 0 ++ rest) begin (put_u64_plain 0 rest (omega arith))
    ∙ stage_end-none begin rest
stage_end-put_stage_end begin (some end) rest h =
    elim (Bool-cases (end == 2 ^ 64 - 1 && begin == 0)) [
      | inl e ↦
          let top : end ≡ 2 ^ 64 - 1 = ground (arith, e) in
          let first : begin ≡ 0 = ground (arith, e) in rw (e, first, top) (stage_end-full rest)
      | inr e ↦
          let fits : IsU64 (end - begin + 1) = ground (arith, e, h) in
          rw e (
            stage_end-plain (put_u64 [] (end - begin + 1) ++ rest) begin
              (put_u64_plain (end - begin + 1) rest fits)
            ∙ plain_end-put_u64 begin end rest h.0 h.1 fits)
    ]
