-- ===== src/Activity/Scan/Exact.antt =====
-- The stretches of a signal hold its times, no others and each once.
use vtr.Prelude.{
  ℕ, ◌+◌, ◌≤◌, ◌<◌, ◌≡◌, refl, sym, ap, ◌∙◌, Bool, true, false, ◌&&◌, ◌||◌, List, [], ◌∷◌, ◌++◌,
  append-nil, append_assoc, length, length-append, elem, ltb, ◌==◌, le→leb, arith, Bool-cases, inl,
  inr,
}
use native.Mathlib.Decide.{dec_le}
use vtr.Activity.Scan.{Stretch, Row, BlockScan, last, needs_row, push}
use vtr.Activity.Scan.Stretches.{
  holds, covers, measure, IsAscending, IsSeparated, measure-append, IsSeparated-grown,
  IsSeparated-new, IsSeparated-last,
}
use vtr.Activity.Scan.Push.{
  behind, push_first, push_next, continued_same, continued_grown, continued_new,
}

-- The calls of `push` with one signal.
abbrev pub push_all : ℕ → List ℕ → BlockScan → BlockScan
push_all signal [] s = s
push_all signal (t ∷ ts) s = push_all signal ts (push signal t s)

-- What calls with ascending times make of the stretches `before` of their row.
record HasGrown (before after : List Stretch) (ts : List ℕ) (changes changes' : ℕ) : Type 0 where
  exact : (t : ℕ) → covers after t ≡ (covers before t || elem t ts)
  counted : changes' + measure before ≡ changes + measure after
  separated : IsSeparated 0 after

lower : (ts : List ℕ) (t : ℕ) → IsAscending t ts → IsAscending 0 ts
lower [] t h = tt
lower (u ∷ us) t h = (omega arith, h.1)

same_low : (ts : List ℕ) (low t : ℕ) → t ≡ low → IsAscending t ts → IsAscending low ts
same_low [] low t e h = tt
same_low (u ∷ us) low t e h = (omega (arith, h.0), h.1)

held :
    (prev : Stretch) (u t : ℕ)
    → prev.start ≤ prev.end
    → t ≡ prev.end
    → holds prev u ≡ (holds prev u || u == t)
held prev u t h same = ground arith

held_grown :
    (prev : Stretch) (e t : ℕ)
    → prev.start ≤ prev.end
    → e ≡ prev.end + 1
    → holds (record prev { end = e }) t ≡ (holds prev t || t == e)
held_grown prev e t h same = ground arith

held_new : (e t : ℕ) → holds (record { start = e; end = e }) t ≡ (t == e)
held_new e t = ground arith

or_false : (b : Bool) → b ≡ (b || false)
or_false true = refl
or_false false = refl

or_assoc : (a b c : Bool) → ((a || b) || c) ≡ (a || (b || c))
or_assoc true b c = refl
or_assoc false b c = refl

-- The calls behind a first one that has put one time into the stretches.
HasGrown-step :
    (before middle after : List Stretch) (t : ℕ) (ts : List ℕ) (changes middle_changes changes' : ℕ)
    → ((u : ℕ) → covers middle u ≡ (covers before u || u == t))
    → middle_changes + measure before ≡ changes + measure middle
    → HasGrown middle after ts middle_changes changes'
    → HasGrown before after (t ∷ ts) changes changes'
unfolding elem
HasGrown-step before middle after t ts c m c' here counted rest = record {
  exact = λ u.
      rest.exact u
      ∙ ap (λ b. b || elem u ts) (here u)
      ∙ or_assoc (covers before u) (u == t) (elem u ts);
  counted = omega (arith, rest.counted);
  separated = rest.separated;
}

-- One more stretch, or another one, at the end.
covers_end :
    (front : List Stretch) (x y : Stretch) (u t : ℕ)
    → holds y u ≡ (holds x u || u == t)
    → covers (front ++ y ∷ []) u ≡ (covers (front ++ x ∷ []) u || u == t)
covers_end [] x y u t h = ground arith
covers_end (z ∷ zs) x y u t h =
    ap (λ b. holds z u || b) (covers_end zs x y u t h)
    ∙ sym (or_assoc (holds z u) (covers (zs ++ x ∷ []) u) (u == t))

covers_snoc :
    (xs : List Stretch) (u t : ℕ)
    → covers (xs ++ record { start = t; end = t } ∷ []) u ≡ (covers xs u || u == t)
covers_snoc [] u t = ground arith
covers_snoc (z ∷ zs) u t =
    ap (λ b. holds z u || b) (covers_snoc zs u t)
    ∙ sym (or_assoc (holds z u) (covers zs u) (u == t))

module _ (s : BlockScan) (signal : ℕ) where
  record Outcome (front : List Stretch) (prev : Stretch) (changes : ℕ) (ts : List ℕ) : Type 0 where
    front' : List Stretch
    prev' : Stretch
    changes' : ℕ
    result :
        push_all signal ts (behind s signal front prev changes)
        ≡ behind s signal front' prev' changes'
    grown : HasGrown (front ++ prev ∷ []) (front' ++ prev' ∷ []) ts changes changes'

  push_all_lem :
      (ts : List ℕ) (front : List Stretch) (prev : Stretch) (changes : ℕ)
      → s.t_min < prev.end
      → IsAscending prev.end ts
      → IsSeparated 0 (front ++ prev ∷ [])
      → Outcome front prev changes ts
  unfolding elem
  push_all_lem [] front prev changes late asc sep = record {
    front' = front;
    prev' = prev;
    changes' = changes;
    result = refl;
    grown = record {
      exact = λ t. or_false (covers (front ++ prev ∷ []) t);
      counted = refl;
      separated = sep;
    };
  }
  push_all_lem (t ∷ ts) front prev changes late asc sep =
      let first = push_next s signal t front prev changes (omega (arith, asc.0)) in
      elim (dec_le t prev.end) [
        | yes p ↦
            let rest =
              push_all_lem ts front prev changes late
                (same_low ts prev.end t (omega (arith, asc.0)) asc.1) sep in
            record {
              front' = rest.front';
              prev' = rest.prev';
              changes' = rest.changes';
              result = rw (first, continued_same s signal t front prev changes p) rest.result;
              grown =
                  HasGrown-step _ _ _ t ts changes changes rest.changes'
                    (λ u.
                      covers_end front prev prev u t
                        (held prev u t (IsSeparated-last 0 front prev sep) (omega (arith, asc.0))))
                    refl rest.grown;
            }
        | no p ↦ elim (dec_le t (prev.end + 1)) [
          | yes q ↦
              let grown_prev : Stretch = record prev { end = t } in
              let rest =
                push_all_lem ts front grown_prev (changes + 1) (omega arith) asc.1
                  (IsSeparated-grown 0 t front prev sep (omega arith)) in
              record {
                front' = rest.front';
                prev' = rest.prev';
                changes' = rest.changes';
                result =
                    rw (first, continued_grown s signal t front prev changes (omega arith))
                      rest.result;
                grown =
                    HasGrown-step _ _ _ t ts changes (changes + 1) rest.changes'
                      (λ u.
                        covers_end front prev grown_prev u t
                          (held_grown prev t u (IsSeparated-last 0 front prev sep) (omega arith)))
                      (omega (
                        arith,
                        measure-append front (prev ∷ []),
                        measure-append front (grown_prev ∷ []),
                        IsSeparated-last 0 front prev sep,
                      ))
                      rest.grown;
              }
          | no q ↦
              let rest =
                push_all_lem ts (front ++ prev ∷ []) (record { start = t; end = t }) (changes + 1)
                  (omega arith) asc.1 (IsSeparated-new 0 t front prev sep (omega arith)) in
              record {
                front' = rest.front';
                prev' = rest.prev';
                changes' = rest.changes';
                result =
                    rw (first, continued_new s signal t front prev changes (omega arith))
                      rest.result;
                grown =
                    HasGrown-step _ _ _ t ts changes (changes + 1) rest.changes'
                      (λ u. covers_snoc (front ++ prev ∷ []) u t)
                      (omega (
                        arith,
                        measure-append (front ++ prev ∷ []) (record { start = t; end = t } ∷ []),
                      ))
                      rest.grown;
              }
        ]
      ]

-- The row that holds the stretches `new` of a signal, which has none where there are no stretches.
abbrev pub rows_for : ℕ → ℕ → List Stretch → List Row
rows_for signal first [] = []
rows_for signal first (x ∷ xs) =
    record { signal = signal; first = first; count = length (x ∷ xs) } ∷ []

rows_for_snoc :
    (signal first : ℕ) (xs : List Stretch) (x : Stretch)
    → rows_for signal first (xs ++ x ∷ [])
      ≡ record { signal = signal; first = first; count = length xs + 1 } ∷ []
rows_for_snoc signal first [] x = refl
rows_for_snoc signal first (y ∷ ys) x =
    ap (λ n. record { signal = signal; first = first; count = n } ∷ [])
      (omega (arith, length-append ys (x ∷ [])))

-- What `after` has of a signal's times beyond the scan `s`.
pub record IsExact (s after : BlockScan) (signal : ℕ) (ts : List ℕ) : Type 0 where
  pub new : List Stretch
  pub stretches : after.stretches ≡ s.stretches ++ new
  pub rows : after.rows ≡ s.rows ++ rows_for signal (length s.stretches) new
  pub exact : (t : ℕ) → covers new t ≡ (ltb s.t_min t && elem t ts)
  pub separated : IsSeparated 0 new
  pub counted : after.changes ≡ s.changes + measure new

elem_above : (low u : ℕ) (ts : List ℕ) → IsAscending low ts → elem u ts ≡ true → low ≤ u
unfolding elem
elem_above low u [] asc h = cc
elem_above low u (t ∷ ts) asc h = elim (dec_le t u) [
  | yes p ↦ omega (arith, asc.0)
  | no p ↦ absurd (omega (arith, elem_above t u ts asc.1 (ground arith)))
]

late_times :
    (low t u : ℕ) (ts : List ℕ)
    → low < t
    → IsAscending t ts
    → (u == t || elem u ts) ≡ (ltb low u && (u == t || elem u ts))
late_times low t u ts late asc = elim (Bool-cases (elem u ts)) [
  | inl h ↦ rw h (let above = elem_above t u ts asc h in ground arith)
  | inr h ↦ rw h (ground arith)
]

early_time : (low t u : ℕ) (b : Bool) → t ≤ low → (ltb low u && (u == t || b)) ≡ (ltb low u && b)
early_time low t u b early = ground arith

first_time : (t u : ℕ) → (holds (record { start = t; end = t }) u || false) ≡ (u == t)
first_time t u = ground arith

module _ (s : BlockScan) (signal : ℕ) where
  push_early : (t : ℕ) → t ≤ s.t_min → push signal t s ≡ s
  unfolding push
  push_early t h = rw (le→leb t s.t_min h)

  Outcome-IsExact :
      (t : ℕ) (ts : List ℕ)
      → s.t_min < t
      → IsAscending t ts
      → Outcome s signal [] (record { start = t; end = t }) (s.changes + 1) ts
      → IsExact s
          (push_all signal ts (behind s signal [] (record { start = t; end = t }) (s.changes + 1)))
          signal
          (t ∷ ts)
  unfolding elem
  Outcome-IsExact t ts late asc o = record {
    new = o.front' ++ o.prev' ∷ [];
    stretches =
        ap (λ (r : BlockScan). r.stretches) o.result
        ∙ append_assoc s.stretches o.front' (o.prev' ∷ []);
    rows =
        ap (λ (r : BlockScan). r.rows) o.result
        ∙ ap (λ t. s.rows ++ t) (sym (rows_for_snoc signal (length s.stretches) o.front' o.prev'));
    exact = λ u.
        o.grown.exact u
        ∙ ap (λ b. b || elem u ts) (first_time t u)
        ∙ late_times s.t_min t u ts late asc;
    separated = o.grown.separated;
    counted = omega (arith, o.grown.counted, ap (λ (r : BlockScan). r.changes) o.result);
  }

  -- Pushing a signal's times in ascending order, where the last row is not already the signal's, adds stretches
  -- that hold exactly the times after `t_min`, that are apart by more than one and in order, and whose number of
  -- times is what `changes` has grown by; one row with all of them is added, or none where there are none.
  pub push_all-IsExact :
      (ts : List ℕ)
      → IsAscending 0 ts
      → needs_row signal (last s.rows) ≡ true
      → IsExact s (push_all signal ts s) signal ts
  unfolding elem
  push_all-IsExact [] asc fresh = record {
    new = [];
    stretches = sym (append-nil s.stretches);
    rows = sym (append-nil s.rows);
    exact = λ t. ground arith;
    separated = tt;
    counted = omega arith;
  }
  push_all-IsExact (t ∷ ts) asc fresh = elim (dec_le t s.t_min) [
    | yes p ↦
        let rest = push_all-IsExact ts (lower ts t asc.1) fresh in
        rw (push_early t p) (record {
          new = rest.new;
          stretches = rest.stretches;
          rows = rest.rows;
          exact = λ u. rest.exact u ∙ sym (early_time s.t_min t u (elem u ts) p);
          separated = rest.separated;
          counted = rest.counted;
        })
    | no p ↦ rw (push_first s signal t fresh (omega arith)) (
        Outcome-IsExact t ts (omega arith) asc.1 (
          push_all_lem s signal ts [] (record { start = t; end = t }) (s.changes + 1) (omega arith)
            asc.1 (omega arith, omega arith, tt)))
  ]
