-- ===== src/Activity/Index/Exact.antt =====
-- The queries of a decoded index name exactly the signals with a stretch in the window.
use vtr.Prelude.{
  ℕ, zero, suc, ◌+◌, ◌-◌, ◌≤◌, ◌<◌, ◌≡◌, refl, ap, ◌∙◌, Bool, false, ◌&&◌, ◌||◌, none, some, List,
  [], ◌∷◌, length, get_elem?, take-all, All, elem, min, ltb, leb, if◌then◌else◌, eq→==, ne→==,
  Bool-cases, inl, inr, lt→leb, le→leb, lt→ltb, le→ltb, arith,
}
use vtr.Error.{ok}
use native.Mathlib.Nat.{zero-add}
use native.Mathlib.Decide.{dec_le}
use vtr.Codec.{Backend}
use vtr.Activity.{Identity}
use vtr.Activity.Index.{
  Index, Stretch, touches, classify_lists, signal_count, classify_range, classify, stretches,
}
use vtr.Activity.Index.Decode.{decode}
use vtr.Activity.Index.Decoded.{IsApart, decode-IsIndex}

abbrev pub meets : ℕ → ℕ → Stretch → Bool
meets first last x = leb first x.end && leb x.start last

-- Some stretch of the list has a time of the window from `first` to `last`.
abbrev pub any_meets : ℕ → ℕ → List Stretch → Bool
any_meets first last [] = false
any_meets first last (x ∷ xs) = meets first last x || any_meets first last xs

none_meets :
    (first last low : ℕ) (xs : List Stretch)
    → IsApart low xs
    → last < low
    → any_meets first last xs ≡ false
none_meets first last low [] h lt = refl
none_meets first last low (x ∷ xs) h lt =
    let rest = none_meets first last (x.end + 2) xs h.2 (omega (arith, h.0, h.1)) in
    let late = h.0 in rw rest (ground arith)

touches_next :
    (first last : ℕ) (x : Stretch) (xs : List Stretch)
    → x.end < first
    → touches first last (x ∷ xs) ≡ touches first last xs
unfolding touches
touches_next first last x xs h = rw (lt→ltb x.end first h)

touches_here :
    (first last : ℕ) (x : Stretch) (xs : List Stretch)
    → first ≤ x.end
    → touches first last (x ∷ xs) ≡ leb x.start last
unfolding touches
touches_here first last x xs h = rw (le→ltb x.end first h)

touches_exact :
    (first last low : ℕ) (list : List Stretch)
    → IsApart low list
    → touches first last list ≡ any_meets first last list
touches_exact first last low [] h = unfold touches in refl
touches_exact first last low (x ∷ xs) h = elim (dec_le first x.end) [
  | yes p ↦ touches_here first last x xs p ∙ (elim (dec_le x.start last) [
    | yes q ↦ rw (le→leb x.start last q, le→leb first x.end p)
    | no q ↦ rw (
      none_meets first last (x.end + 2) xs h.2 (omega (arith, h.1)),
      lt→leb last x.start (omega arith),
      le→leb first x.end p,
    )
  ])
  | no p ↦
      touches_next first last x xs (omega arith)
      ∙ touches_exact first last (x.end + 2) xs h.2
      ∙ rw (lt→leb x.end first (omega arith))
]

abbrev nth_list : List (List Stretch) → ℕ → List Stretch
nth_list lists i = elim (get_elem? lists i) [ none ↦ [] | some list ↦ list ]

module _ (first last : ℕ) where
  classified_above :
      (k s : ℕ) (lists : List (List Stretch))
      → s < k
      → elem s (classify_lists first last k lists) ≡ false
  unfolding classify_lists elem
  classified_above k s [] h = refl
  classified_above k s (l ∷ ls) h =
      let rest = classified_above (suc k) s ls (omega arith) in
      elim (Bool-cases (touches first last l)) [
        | inl e ↦ rw (e, rest, ne→== s k (λ same. omega arith))
        | inr e ↦ rw (e, rest)
      ]

  classified :
      (k i : ℕ) (lists : List (List Stretch))
      → elem (k + i) (classify_lists first last k lists) ≡ touches first last (nth_list lists i)
  unfolding classify_lists elem touches
  classified k i [] = refl
  classified k zero (l ∷ ls) = elim (Bool-cases (touches first last l)) [
    | inl e ↦ rw (e, eq→== (k + 0) k (omega arith))
    | inr e ↦ rw (e, classified_above (suc k) (k + 0) ls (omega arith))
  ]
  classified k (suc i) (l ∷ ls) =
      let rest : elem (k + suc i) (classify_lists first last (suc k) ls)
          ≡ touches first last (nth_list ls i) =
        ap (λ n. elem n (classify_lists first last (suc k) ls)) (omega arith)
        ∙ classified (suc k) i ls in
      elim (Bool-cases (touches first last l)) [
        | inl e ↦ rw (e, ne→== (k + suc i) k (λ same. omega arith)) rest
        | inr e ↦ rw e rest
      ]

nth-IsApart :
    (low : ℕ) (lists : List (List Stretch)) (i : ℕ)
    → All (IsApart low) lists
    → IsApart low (nth_list lists i)
nth-IsApart low [] i h = tt
nth-IsApart low (l ∷ ls) zero h = h.0
nth-IsApart low (l ∷ ls) (suc i) h = nth-IsApart low ls i h.1

classify-lists :
    (index : Index) (first last : ℕ)
    → length index.signals ≡ index.header.signals
    → classify index first last
      ≡ (if ltb last first then [] else classify_lists first last 0 index.signals)
unfolding classify classify_range
classify-lists index first last count = rw (
    take-all (min (signal_count index) (signal_count index) - 0) index.signals
      (omega (arith, count)))

-- Whatever sidecar is decoded, a query with a window names a signal exactly where the window is not reversed and
-- one of the signal's stretches has a time in it.
pub classify-decode :
    (backend : Backend) (crc : List ℕ → ℕ) (bytes : List ℕ) (identity : Identity) (index : Index)
    (signal first last : ℕ)
    → decode backend crc bytes identity ≡ ok index
    → elem signal (classify index first last)
      ≡ (leb first last && any_meets first last (stretches index signal))
unfolding stretches elem
classify-decode backend crc bytes identity index signal first last h =
    let is = decode-IsIndex backend crc bytes identity index h in
    rw (classify-lists index first last is.count) (elim (dec_le first last) [
      | yes p ↦
          rw (le→ltb last first p, le→leb first last p)
            (rw zero-add at (classified first last 0 signal index.signals)
              ∙ touches_exact first last (index.header.t_min + 1) (nth_list index.signals signal)
                  (nth-IsApart (index.header.t_min + 1) index.signals signal is.apart))
      | no p ↦ rw (lt→ltb last first (omega arith), lt→leb last first (omega arith))
    ])
