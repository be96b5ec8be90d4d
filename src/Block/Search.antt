-- ===== src/Block/Search.antt =====
-- `find_group` is a binary search of an index whose groups ascend.
use vtr.Prelude.{
  ℕ, zero, suc, ◌+◌, ◌/◌, ◌≤◌, ◌<◌, ◌≡◌, refl, sym, ap, ◌∙◌, ◌*◌, ◌⊎◌, inl, inr, Option, none, some,
  List, length, lt→ltb, le→ltb, le→leb, eq→==, ne→==, arith,
}
use mathlib.Core.Path.{ap₂}
use native.Mathlib.Decide.{dec_le}
use vtr.Block.{BlockHeader, index_off, prev_off, entry_at, index_entry, find_loop, find_group}

-- The groups of the first `n` entries ascend.
abbrev pub Ascends : (ℕ → ℕ × (ℕ × ℕ)) → ℕ → Type 0
Ascends entry n = (i j : ℕ) → i < j → j < n → (entry i).0 < (entry j).0

abbrev middle : ℕ → ℕ → ℕ
middle lo hi = (lo + hi) / 2

read_cases : (o : Option (ℕ × (ℕ × ℕ))) → (o ≡ none) ⊎ ((e : ℕ × (ℕ × ℕ)) × (o ≡ some e))
read_cases none = inl refl
read_cases (some e) = inr (e, refl)

module _ (group : ℕ) where
  data Compared (x : ℕ) : Type 0 where
    below : x < group → Compared x
    same : x ≡ group → Compared x
    above : group < x → Compared x

  compared : (x : ℕ) → Compared x
  compared x = elim (dec_le group x) [
    | yes p ↦ elim (dec_le x group) [ yes q ↦ same (omega arith) | no q ↦ above (omega arith) ]
    | no p ↦ below (omega arith)
  ]

module _ (entry : ℕ → ℕ × (ℕ × ℕ)) where
  -- Where two entries compare by group, so do their places.
  place_below : (n i j : ℕ) → Ascends entry n → i < n → (entry i).0 < (entry j).0 → i < j
  place_below n i j asc in_range less = elim (dec_le j i) [
    | yes p ↦ elim (dec_le i j) [
      | yes q ↦
          let same : i ≡ j = omega arith in absurd (omega (arith, ap (λ (t : ℕ). (entry t).0) same))
      | no q ↦ absurd (omega (arith, asc j i (omega arith) in_range))
    ]
    | no p ↦ omega arith
  ]

  same_place : (n i j : ℕ) → Ascends entry n → i < n → j < n → (entry i).0 ≡ (entry j).0 → i ≡ j
  same_place n i j asc hi hj e = elim (dec_le i j) [
    | yes p ↦ elim (dec_le j i) [
      | yes q ↦ omega arith
      | no q ↦ absurd (omega (arith, asc i j (omega arith) hj))
    ]
    | no p ↦ absurd (omega (arith, asc j i (omega arith) hi))
  ]

module _ (read : ℕ → Option (ℕ × (ℕ × ℕ))) (group : ℕ) where
  found_here :
      (rounds lo hi : ℕ) (e : ℕ × (ℕ × ℕ))
      → lo < hi
      → read (middle lo hi) ≡ some e
      → e.0 ≡ group
      → find_loop read group (suc rounds) lo hi ≡ some (some e.1)
  unfolding find_loop
  found_here rounds lo hi e some_left at here =
      rw (lt→ltb lo hi some_left, at, eq→== e.0 group here)

  found_above :
      (rounds lo hi : ℕ) (e : ℕ × (ℕ × ℕ))
      → lo < hi
      → read (middle lo hi) ≡ some e
      → e.0 < group
      → find_loop read group (suc rounds) lo hi ≡ find_loop read group rounds (middle lo hi + 1) hi
  unfolding find_loop
  found_above rounds lo hi e some_left at less = rw (
    lt→ltb lo hi some_left,
    at,
    ne→== e.0 group (λ equal. omega (arith, equal)),
    lt→ltb e.0 group less,
  )

  found_below :
      (rounds lo hi : ℕ) (e : ℕ × (ℕ × ℕ))
      → lo < hi
      → read (middle lo hi) ≡ some e
      → group < e.0
      → find_loop read group (suc rounds) lo hi ≡ find_loop read group rounds lo (middle lo hi)
  unfolding find_loop
  found_below rounds lo hi e some_left at more = rw (
    lt→ltb lo hi some_left,
    at,
    ne→== e.0 group (λ equal. omega (arith, equal)),
    le→ltb e.0 group (omega arith),
  )

  found_panic :
      (rounds lo hi : ℕ)
      → lo < hi
      → read (middle lo hi) ≡ none
      → find_loop read group (suc rounds) lo hi ≡ none
  unfolding find_loop
  found_panic rounds lo hi some_left at = rw (lt→ltb lo hi some_left, at)

  find_loop_finds :
      (entry : ℕ → ℕ × (ℕ × ℕ)) (n rounds lo hi i : ℕ)
      → ((j : ℕ) → j < n → read j ≡ some (entry j))
      → Ascends entry n
      → hi ≤ n
      → hi ≤ lo + rounds
      → lo ≤ i
      → i < hi
      → (entry i).0 ≡ group
      → find_loop read group rounds lo hi ≡ some (some (entry i).1)
  find_loop_finds entry n zero lo hi i stands asc inside enough low high e = absurd (omega arith)
  find_loop_finds entry n (suc rounds) lo hi i stands asc inside enough low high e =
      let mid = entry (middle lo hi) in
      let at : read (middle lo hi) ≡ some mid = stands (middle lo hi) (omega arith) in
      elim (compared group mid.0) [
        | below less ↦
            found_above rounds lo hi mid (omega arith) at less
            ∙ find_loop_finds entry n rounds (middle lo hi + 1) hi i stands asc inside (omega arith)
                (omega
                  (arith, place_below entry n (middle lo hi) i asc (omega arith) (omega arith)))
                high e
        | same here ↦
            found_here rounds lo hi mid (omega arith) at here
            ∙ ap (λ (t : ℕ). some (some (entry t).1))
                (same_place entry n (middle lo hi) i asc (omega arith) (omega arith) (here ∙ sym e))
        | above more ↦
            found_below rounds lo hi mid (omega arith) at more
            ∙ find_loop_finds entry n rounds lo (middle lo hi) i stands asc (omega arith)
                (omega arith) low
                (place_below entry n i (middle lo hi) asc (omega arith) (omega arith)) e
      ]

  find_loop_empty : (rounds lo hi : ℕ) → hi ≤ lo → find_loop read group rounds lo hi ≡ some none
  unfolding find_loop
  find_loop_empty zero lo hi h = refl
  find_loop_empty (suc rounds) lo hi h = rw (le→ltb lo hi h)

  -- What the loop returns stands in the index.
  find_loop_sound :
      (rounds lo hi : ℕ) (r : ℕ × ℕ)
      → find_loop read group rounds lo hi ≡ some (some r)
      → (i : ℕ) × ((i < hi) × (read i ≡ some (group, r)))
  find_loop_sound zero lo hi r h =
      let nothing : some none ≡ some (some r) = unfold find_loop in h in cc
  find_loop_sound (suc rounds) lo hi r h = elim (dec_le hi lo) [
    | yes p ↦ let nothing = sym (find_loop_empty (suc rounds) lo hi p) ∙ h in cc
    | no p ↦ elim (read_cases (read (middle lo hi))) [
      | inl panics ↦ let nothing = sym (found_panic rounds lo hi (omega arith) panics) ∙ h in cc
      | inr (e, at) ↦ elim (compared group e.0) [
        | below less ↦
            find_loop_sound rounds (middle lo hi + 1) hi r
              (sym (found_above rounds lo hi e (omega arith) at less) ∙ h)
        | same here ↦
            let found = sym (found_here rounds lo hi e (omega arith) at here) ∙ h in
            let tail : e.1 ≡ r = cc in
            (
              middle lo hi,
              (omega arith, at ∙ ap some (ap₂ (λ (a : ℕ) (b : ℕ × ℕ). (a, b)) here tail)),
            )
        | above more ↦
            let (i, (small, it)) =
              find_loop_sound rounds lo (middle lo hi) r
                (sym (found_below rounds lo hi e (omega arith) at more) ∙ h) in
            (i, (omega (arith, small), it))
      ]
    ]
  ]

index_entry-entry_at :
    (p : List ℕ) (h : BlockHeader) (i : ℕ)
    → prev_off h ≤ length p
    → i < h.n_dirty
    → index_entry p h i ≡ some (entry_at p h i)
unfolding index_entry
index_entry-entry_at p h i stands inside =
    rw (le→leb (index_off h + (i + 1) * 16) (length p) (omega arith)) refl

-- In a block that holds its whole index, as `parse` makes sure, and where the groups ascend, `find_group` finds the
-- container of every group that has an entry.
pub find_group_finds :
    (p : List ℕ) (h : BlockHeader) (group i : ℕ)
    → prev_off h ≤ length p
    → Ascends (entry_at p h) h.n_dirty
    → i < h.n_dirty
    → (entry_at p h i).0 ≡ group
    → find_group p h group ≡ some (some (entry_at p h i).1)
unfolding find_group
find_group_finds p h group i stands asc inside e =
    find_loop_finds (index_entry p h) group (entry_at p h) h.n_dirty h.n_dirty 0 h.n_dirty i
      (λ j small. index_entry-entry_at p h j stands small) asc (omega arith) (omega arith)
      (omega arith) inside e

-- What `find_group` returns is the container of an entry with that group, in any index.
pub find_group_sound :
    (p : List ℕ) (h : BlockHeader) (group : ℕ) (r : ℕ × ℕ)
    → find_group p h group ≡ some (some r)
    → (i : ℕ) × ((i < h.n_dirty) × (index_entry p h i ≡ some (group, r)))
unfolding find_group
find_group_sound p h group r found =
    find_loop_sound (index_entry p h) group h.n_dirty 0 h.n_dirty r found
