-- ===== src/Activity/Scan/Push.antt =====
-- One call of `push`, by the place that its time has against the last stretch.
use vtr.Prelude.{
  ℕ, ◌+◌, ◌-◌, ◌≤◌, ◌<◌, ◌≡◌, refl, ap, true, Option, none, some, List, [], ◌∷◌, ◌++◌, append-nil,
  append_assoc, length, length-append, lt→leb, le→leb, eq→==, ne→==, arith,
}
use vtr.Activity.Scan.{
  Stretch, Row, BlockScan, last, set_last, needs_row, open_row, new_stretch, continued, in_row,
  with_row, push,
}

pub last_snoc {ℓ} : {A : Type ℓ} (xs : List A) (a : A) → last (xs ++ a ∷ []) ≡ some a
unfolding last
last_snoc [] a = refl
last_snoc (x ∷ []) a = refl
last_snoc (x ∷ (y ∷ ys)) a = last_snoc (y ∷ ys) a

pub set_last_snoc {ℓ} :
    {A : Type ℓ} (xs : List A) (a b : A) → set_last (xs ++ a ∷ []) b ≡ xs ++ b ∷ []
unfolding set_last
set_last_snoc [] a b = refl
set_last_snoc (x ∷ []) a b = refl
set_last_snoc (x ∷ (y ∷ ys)) a b = ap (λ t. x ∷ t) (set_last_snoc (y ∷ ys) a b)

module _ (s : BlockScan) (signal : ℕ) where
  -- The scan `s` behind calls with `signal` that have left the stretches `front` and `prev`.
  abbrev pub behind : List Stretch → Stretch → ℕ → BlockScan
  behind front prev changes = record s {
    rows =
        s.rows
        ++ record { signal = signal; first = length s.stretches; count = length front + 1 } ∷ [];
    stretches = (s.stretches ++ front) ++ prev ∷ [];
    changes = changes;
  }

  abbrev pub row_of : ℕ → Row
  row_of count = record { signal = signal; first = length s.stretches; count = count }

  new_stretch_first :
      (time : ℕ) (last_stretch : Option Stretch)
      → in_row time (some (row_of 0)) last_stretch (record s { rows = s.rows ++ row_of 0 ∷ [] })
        ≡ behind [] (record { start = time; end = time }) (s.changes + 1)
  unfolding in_row new_stretch
  new_stretch_first time none =
      rw (set_last_snoc s.rows (row_of 0) (row_of (0 + 1)), append-nil) refl
  new_stretch_first time (some p) =
      rw (set_last_snoc s.rows (row_of 0) (row_of (0 + 1)), append-nil) refl

  pub push_first :
      (time : ℕ)
      → needs_row signal (last s.rows) ≡ true
      → s.t_min < time
      → push signal time s ≡ behind [] (record { start = time; end = time }) (s.changes + 1)
  unfolding push open_row with_row
  push_first time fresh late =
      rw (lt→leb s.t_min time late, fresh, last_snoc s.rows (row_of 0))
        (new_stretch_first time (last s.stretches))

  pub push_next :
      (time : ℕ) (front : List Stretch) (prev : Stretch) (changes : ℕ)
      → s.t_min < time
      → push signal time (behind front prev changes)
        ≡ continued time (row_of (length front + 1)) prev (behind front prev changes)
  unfolding push open_row with_row in_row needs_row
  push_next time front prev changes late = rw (
    lt→leb s.t_min time late,
    last_snoc s.rows (row_of (length front + 1)),
    eq→== signal signal refl,
    last_snoc s.rows (row_of (length front + 1)),
    last_snoc (s.stretches ++ front) prev,
    ne→== (length front + 1) 0 (omega arith),
  )

  pub continued_same :
      (time : ℕ) (front : List Stretch) (prev : Stretch) (changes : ℕ)
      → time ≤ prev.end
      → continued time (row_of (length front + 1)) prev (behind front prev changes)
        ≡ behind front prev changes
  unfolding continued
  continued_same time front prev changes h = rw (le→leb time prev.end h)

  pub continued_grown :
      (time : ℕ) (front : List Stretch) (prev : Stretch) (changes : ℕ)
      → time ≡ prev.end + 1
      → continued time (row_of (length front + 1)) prev (behind front prev changes)
        ≡ behind front (record prev { end = time }) (changes + 1)
  unfolding continued
  continued_grown time front prev changes h = rw (
    lt→leb prev.end time (omega arith),
    eq→== (time - prev.end) 1 (omega arith),
    set_last_snoc (s.stretches ++ front) prev (record prev { end = time }),
  )

  pub continued_new :
      (time : ℕ) (front : List Stretch) (prev : Stretch) (changes : ℕ)
      → prev.end + 1 < time
      → continued time (row_of (length front + 1)) prev (behind front prev changes)
        ≡ behind (front ++ prev ∷ []) (record { start = time; end = time }) (changes + 1)
  unfolding continued new_stretch
  continued_new time front prev changes h = rw (
    lt→leb prev.end time (omega arith),
    ne→== (time - prev.end) 1 (omega arith),
    set_last_snoc s.rows (row_of (length front + 1)) (row_of (length front + 1 + 1)),
    length-append,
    append_assoc s.stretches front (prev ∷ []),
  )
