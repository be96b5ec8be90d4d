-- ===== src/Activity/Index/Ordered.antt =====
-- The rows of a section keep each signal's stretches in order and apart.
use vtr.Prelude.{
  ℕ, String, ap, zero, suc, ◌+◌, ◌/◌, ◌≤◌, ◌≡◌, ◌≢◌, ◌∙◌, ◌%◌, Bool-cases, inl, inr, refl, sym,
  Bool, true, false, ◌&&◌, Option, none, some, List, [], ◌∷◌, ◌++◌, length, get_elem?, All,
  All-get_elem?, ltb, leb, ◌==◌, if◌then◌else◌, arith,
}
use vtr.Prelude.Bytes.{checked_add}
use vtr.Error.{Error, Result, ok, err, >>=-eq-ok, guard_ok, ok_injective}
use mathlib.Core.Path.{subst}
use vtr.Wire.Cursor
use vtr.Wire.Cursor.{Cursor}
use vtr.Activity.Index.{
  IndexBlock, Stretch, Slot, Columns, Part, block_part, tail_part, last_block, ok_or, read_stretch,
  next_start, one_stretch, row_stretches, open_slot, count_closed, row_head, set_at, Rows, one_row,
  all_rows, columns_done, section_rows,
}

-- Each stretch starts at `low` or later, is not reversed, and the next one, also the open one, starts at
-- least two later.
abbrev pub Fits : ℕ → List Stretch → Option ℕ → Type 0
Fits low [] none = Unit
Fits low [] (some t) = low ≤ t
Fits low (x ∷ xs) start = (low ≤ x.start) × (x.start ≤ x.end) × Fits (x.end + 2) xs start

-- A slot between sections: what is not open has no stretch before the tail.
pub record IsSlot (t_min : ℕ) (slot : Slot) : Type 0 where
  pub fits : Fits (t_min + 1) slot.list slot.start
  pub fresh : slot.start ≡ none → slot.list ≡ []

ok_or_ok :
    {A : Type 0} (message : String) (o : Option A) (a : A) → ok_or message o ≡ ok a → o ≡ some a
ok_or_ok message none a h = cc
ok_or_ok message (some b) a h = cc

checked_add_ok : (a b c : ℕ) → checked_add a b ≡ some c → c ≡ a + b
checked_add_ok a b c h = ground arith

-- The end of a list of stretches, with the start of the next.
Follows : ℕ → Option ℕ → Type 0
Follows end none = Unit
Follows end (some n) = end + 2 ≤ n

Fits-snoc :
    (low begin end gap : ℕ) (list : List Stretch) (start : Option ℕ)
    → Fits low list (some begin)
    → begin ≤ end
    → Follows end start
    → Fits low (list ++ record { start = begin; end = end; gap = gap } ∷ []) start
unfolding Follows
Fits-snoc low begin end gap [] none h le f = (h, le, tt)
Fits-snoc low begin end gap [] (some n) h le f = (h, le, f)
Fits-snoc low begin end gap (x ∷ xs) start h le f =
    (h.0, h.1, Fits-snoc (x.end + 2) begin end gap xs start h.2 le f)

next_start-Follows :
    (silence : Option ℕ) (end maximum : ℕ) (start : Option ℕ)
    → next_start silence end maximum ≡ ok start
    → Follows end start
unfolding next_start Follows
next_start-Follows none end maximum none h = tt
next_start-Follows none end maximum (some n) h = cc
next_start-Follows (some gap) end maximum none h = tt
next_start-Follows (some gap) end maximum (some n) h = ground arith

-- What a stretch that is read is made of.
record Made (part : Part) (slot : Slot) (cols : Columns) (slot' : Slot) : Type 0 where
  begin : ℕ
  length : ℕ
  silence : Option ℕ
  gap : ℕ
  end : ℕ
  maximum : ℕ
  start : Option ℕ
  cols1 : Columns
  open_at : slot.start ≡ some begin
  read : read_stretch part cols ≡ ok ((length, (silence, gap)), cols1)
  sum : end ≡ begin + length
  next : next_start silence end maximum ≡ ok start
  same : slot' ≡ record {
    list = slot.list ++ record { start = begin; end = end; gap = gap } ∷ [];
    start = start;
  }

one_stretch-Made :
    (part : Part) (slot : Slot) (cols : Columns) (slot' : Slot) (cols' : Columns)
    → one_stretch part slot cols ≡ ok (slot', cols')
    → Made part slot cols slot'
unfolding one_stretch
one_stretch-Made part slot cols slot' cols' h =
    let (begin, hb, h1) = >>=-eq-ok (ok_or "activity stretch has no start" slot.start) _ h in
    let (((length, (silence, gap)), cols1), hr, h2) = >>=-eq-ok (read_stretch part cols) _ h1 in
    let (end, he, h3) =
      >>=-eq-ok (ok_or "activity time overflow" (checked_add begin length)) _ h2 in
    let (last, hl, h4) =
      >>=-eq-ok (ok_or "activity rows without source blocks" (last_block part)) _ h3 in
    let (clear, h5) = guard_ok _ _ _ h4 in
    let (start, hs, h6) = >>=-eq-ok (next_start silence end last.end) _ h5 in
    record {
      begin = begin;
      length = length;
      silence = silence;
      gap = gap;
      end = end;
      maximum = last.end;
      start = start;
      cols1 = cols1;
      open_at = ok_or_ok "activity stretch has no start" slot.start begin hb;
      read = hr;
      sum =
          checked_add_ok begin length end
            (ok_or_ok "activity time overflow" (checked_add begin length) end he);
      next = hs;
      same = sym (ap (λ (t : Slot × Columns). t.0) (ok_injective h6));
    }

one_stretch-Fits :
    (low : ℕ) (part : Part) (slot : Slot) (cols : Columns) (slot' : Slot) (cols' : Columns)
    → Fits low slot.list slot.start
    → one_stretch part slot cols ≡ ok (slot', cols')
    → Fits low slot'.list slot'.start
one_stretch-Fits low part slot cols slot' cols' fits h =
    let m = one_stretch-Made part slot cols slot' cols' h in
    rw m.same (
      Fits-snoc low m.begin m.end m.gap slot.list m.start (rw m.open_at at fits)
        (omega (arith, m.sum)) (next_start-Follows m.silence m.end m.maximum m.start m.next))

-- In a block a stretch is followed by an open one.
block_silence :
    (b : IndexBlock) (cols cols' : Columns) (length gap : ℕ) (silence : Option ℕ)
    → read_stretch (block_part b) cols ≡ ok ((length, (silence, gap)), cols')
    → silence ≢ none
unfolding read_stretch
block_silence b cols cols' length gap silence h none_here =
    let ((l, c3), h1, k1) = >>=-eq-ok (Cursor.var cols.c3) _ h in
    let ((s, c4), h2, k2) = >>=-eq-ok (Cursor.var cols.c4) _ k1 in
    let ((g, c5), h3, k3) = >>=-eq-ok (Cursor.var cols.c5) _ k2 in
    cc (ap (λ (t : (ℕ × (Option ℕ × ℕ)) × Columns). t.0.1.0) (ok_injective k3))

next_start_opens :
    (silence : Option ℕ) (end maximum : ℕ) (start : Option ℕ)
    → silence ≢ none
    → next_start silence end maximum ≡ ok start
    → start ≢ none
unfolding next_start
next_start_opens none end maximum start some_here h e = some_here refl
next_start_opens (some gap) end maximum none some_here h e = ground arith
next_start_opens (some gap) end maximum (some n) some_here h e = cc

one_stretch_opens :
    (b : IndexBlock) (slot : Slot) (cols : Columns) (slot' : Slot) (cols' : Columns)
    → one_stretch (block_part b) slot cols ≡ ok (slot', cols')
    → slot'.start ≢ none
one_stretch_opens b slot cols slot' cols' h =
    let m = one_stretch-Made (block_part b) slot cols slot' cols' h in
    rw m.same (
      next_start_opens m.silence m.end m.maximum m.start
        (block_silence b cols m.cols1 m.length m.gap m.silence m.read) m.next)

row_stretches-Fits :
    (n low : ℕ) (part : Part) (slot : Slot) (cols : Columns) (slot' : Slot) (cols' : Columns)
    → Fits low slot.list slot.start
    → row_stretches n part slot cols ≡ ok (slot', cols')
    → Fits low slot'.list slot'.start
unfolding row_stretches
row_stretches-Fits zero low part slot cols slot' cols' fits h =
    subst (λ (t : Slot). Fits low t.list t.start)
      (ap (λ (t : Slot × Columns). t.0) (ok_injective h)) fits
row_stretches-Fits (suc n) low part slot cols slot' cols' fits h =
    let ((slot1, cols1), h1, h2) = >>=-eq-ok (one_stretch part slot cols) _ h in
    row_stretches-Fits n low part slot1 cols1 slot' cols'
      (one_stretch-Fits low part slot cols slot1 cols1 fits h1) h2

-- A row of a block leaves the slot as it was between sections.
row_stretches-IsSlot :
    (n t_min : ℕ) (b : IndexBlock) (slot : Slot) (cols : Columns) (slot' : Slot) (cols' : Columns)
    → IsSlot t_min slot
    → row_stretches n (block_part b) slot cols ≡ ok (slot', cols')
    → IsSlot t_min slot'
unfolding row_stretches
row_stretches-IsSlot zero t_min b slot cols slot' cols' is h =
    subst (IsSlot t_min) (ap (λ (t : Slot × Columns). t.0) (ok_injective h)) is
row_stretches-IsSlot (suc n) t_min b slot cols slot' cols' is h =
    let ((slot1, cols1), h1, h2) = >>=-eq-ok (one_stretch (block_part b) slot cols) _ h in
    row_stretches-IsSlot n t_min b slot1 cols1 slot' cols'
      (record {
        fits = one_stretch-Fits (t_min + 1) (block_part b) slot cols slot1 cols1 is.fits h1;
        fresh = λ e. absurd (one_stretch_opens b slot cols slot1 cols1 h1 e);
      })
      h2

guard_else :
    {A : Type 0} (c : Bool) (e : Error) (m : Result A) {a : A}
    → (if c then m else err e) ≡ ok a
    → (c ≡ true) × (m ≡ ok a)
guard_else true e m h = (refl, h)
guard_else false e m h = cc

first_late : (t_min first end : ℕ) → (ltb t_min first && leb first end) ≡ true → t_min + 1 ≤ first
first_late t_min first end h = ground arith

open_slot-IsSlot :
    (t_min : ℕ) (b : IndexBlock) (slot : Slot) (cols : Columns) (slot' : Slot) (cols' : Columns)
    → IsSlot t_min slot
    → open_slot t_min b slot cols ≡ ok (slot', cols')
    → IsSlot t_min slot'
unfolding open_slot
open_slot-IsSlot t_min b slot cols slot' cols' is h = opened slot.start refl
  where
    opened : (start : Option ℕ) → slot.start ≡ start → IsSlot t_min slot'
    opened (some t) e = ground arith
    opened none e =
        let ((delta, c2), h1, h2) = >>=-eq-ok (Cursor.var cols.c2) _ (rw e at h) in
        let (first, h3, h4) =
          >>=-eq-ok (ok_or "activity first change outside source block" (checked_add b.start delta))
            _ h2 in
        let (guards, h5) = guard_else _ _ _ h4 in
        let empty : slot.list ≡ [] = is.fresh e in
        let opened_slot : IsSlot t_min (record slot { start = some first }) = record {
          fits = rw empty (first_late t_min first b.end guards);
          fresh = λ (k : some first ≡ none). cc;
        } in
        subst (IsSlot t_min) (ap (λ (t : Slot × Columns). t.0) (ok_injective h5)) opened_slot

-- A head of a block's row, and then its stretches.
block_row-IsSlot :
    (t_min closed : ℕ) (b : IndexBlock) (observed : ℕ) (slot : Slot) (cols : Columns)
    (n observed' : ℕ) (slot' : Slot) (cols' : Columns)
    → IsSlot t_min slot
    → row_head t_min closed (block_part b) observed slot cols ≡ ok ((n, observed'), (slot', cols'))
    → IsSlot t_min slot'
unfolding row_head
block_row-IsSlot t_min closed b observed slot cols n observed' slot' cols' is h =
    let ((head, c1), h1, h2) = >>=-eq-ok (Cursor.var cols.c1) _ h in
    let (guard, h3) = guard_ok _ _ _ h2 in
    let ((slot1, cols1), h4, h5) =
      >>=-eq-ok
        (if head % 2 == 0
          then ok (slot, record cols { c1 = c1 })
          else open_slot t_min b slot (record cols { c1 = c1 }))
        _ h3 in
    let (observed1, h6, h7) = >>=-eq-ok (count_closed observed (head / 2) closed) _ h5 in
    let first : IsSlot t_min slot1 = maybe_opened head c1 slot1 cols1 h4 in
    subst (IsSlot t_min) (ap (λ (t : (ℕ × ℕ) × (Slot × Columns)). t.1.0) (ok_injective h7)) first
  where
    maybe_opened :
        (head : ℕ) (c1 : Cursor) (slot1 : Slot) (cols1 : Columns)
        → (if head % 2 == 0
            then ok (slot, record cols { c1 = c1 })
            else open_slot t_min b slot (record cols { c1 = c1 }))
          ≡ ok (slot1, cols1)
        → IsSlot t_min slot1
    maybe_opened head c1 slot1 cols1 k = elim (Bool-cases (head % 2 == 0)) [
      | inl e ↦
          subst (IsSlot t_min) (ap (λ (t : Slot × Columns). t.0) (ok_injective (rw e at k))) is
      | inr e ↦ open_slot-IsSlot t_min b slot (record cols { c1 = c1 }) slot1 cols1 is (rw e at k)
    ]

All-set_at :
    {A : Type 0} (P : A → Type 0) (xs : List A) (i : ℕ) (a : A)
    → All P xs
    → P a
    → All P (set_at xs i a)
All-set_at P [] i a h k = tt
All-set_at P (x ∷ xs) zero a h k = (k, h.1)
All-set_at P (x ∷ xs) (suc i) a h k = (h.0, All-set_at P xs i a h.1 k)

length-set_at : {A : Type 0} (xs : List A) (i : ℕ) (a : A) → length (set_at xs i a) ≡ length xs
length-set_at [] i a = refl
length-set_at (x ∷ xs) zero a = refl
length-set_at (x ∷ xs) (suc i) a = ap suc (length-set_at xs i a)

-- What every row of a part keeps of its slot, the section keeps of all of them.
module _ (t_min closed : ℕ) (part : Part) (Keeps : Slot → Type 0)
    (keeps : (observed : ℕ) (slot : Slot) (cols : Columns) (n observed' : ℕ) (slot' : Slot)
        (cols' : Columns) (slot'' : Slot) (cols'' : Columns)
      → Keeps slot
      → row_head t_min closed part observed slot cols ≡ ok ((n, observed'), (slot', cols'))
      → row_stretches n part slot' cols' ≡ ok (slot'', cols'')
      → Keeps slot'') where
  one_row-Keeps :
      (first : Bool) (r r' : Rows)
      → All Keeps r.slots
      → one_row t_min closed part first r ≡ ok r'
      → All Keeps r'.slots × (length r'.slots ≡ length r.slots)
  unfolding one_row
  one_row-Keeps first r r' all h =
      let ((delta, c0), h1, k1) = >>=-eq-ok (Cursor.var r.columns.c0) _ h in
      let (signal, h2, k2) =
        >>=-eq-ok (ok_or "unknown activity signal" (checked_add r.signal delta)) _ k1 in
      let (slot, h3, k3) =
        >>=-eq-ok (ok_or "unknown activity signal" (get_elem? r.slots signal)) _ k2 in
      let (guard, k4) = guard_ok _ _ _ k3 in
      let (((n, observed), (slot', cols)), h5, k5) =
        >>=-eq-ok (row_head t_min closed part r.observed slot (record r.columns { c0 = c0 })) _
          k4 in
      let ((slot'', cols'), h6, k6) = >>=-eq-ok (row_stretches n part slot' cols) _ k5 in
      let here =
        All-get_elem? Keeps r.slots signal all
          (ok_or_ok "unknown activity signal" (get_elem? r.slots signal) slot h3) in
      let kept =
        keeps r.observed slot (record r.columns { c0 = c0 }) n observed slot' cols slot'' cols' here
          h5 h6 in
      let same : set_at r.slots signal slot'' ≡ r'.slots =
        ap (λ (t : Rows). t.slots) (ok_injective k6) in
      (
        subst (All Keeps) same (All-set_at Keeps r.slots signal slot'' all kept),
        ap length (sym same) ∙ length-set_at r.slots signal slot'',
      )

  all_rows-Keeps :
      (rows : ℕ) (first : Bool) (r r' : Rows)
      → All Keeps r.slots
      → all_rows rows t_min closed part first r ≡ ok r'
      → All Keeps r'.slots × (length r'.slots ≡ length r.slots)
  unfolding all_rows
  all_rows-Keeps zero first r r' all h =
      let same : r.slots ≡ r'.slots = ap (λ (t : Rows). t.slots) (ok_injective h) in
      (subst (All Keeps) same all, ap length (sym same))
  all_rows-Keeps (suc n) first r r' all h =
      let (r1, h1, h2) = >>=-eq-ok (one_row t_min closed part first r) _ h in
      let one = one_row-Keeps first r r1 all h1 in
      let rest = all_rows-Keeps n false r1 r' one.0 h2 in (rest.0, rest.1 ∙ one.1)

  section_rows-Keeps :
      (rows : ℕ) (slots : List Slot) (cols : Columns) (slots' : List Slot)
      → All Keeps slots
      → section_rows rows t_min closed part slots cols ≡ ok slots'
      → All Keeps slots' × (length slots' ≡ length slots)
  unfolding section_rows
  section_rows-Keeps rows slots cols slots' all h =
      let (r, h1, k1) =
        >>=-eq-ok
          (all_rows rows t_min closed part true
            (record { slots = slots; signal = 0; observed = 0; columns = cols }))
          _ h in
      let (guard, k2) = guard_ok _ _ _ k1 in
      let (u, h3, k3) = >>=-eq-ok (columns_done r.columns) _ k2 in
      let kept =
        all_rows-Keeps rows true
          (record { slots = slots; signal = 0; observed = 0; columns = cols }) r all h1 in
      let same : r.slots ≡ slots' = ok_injective k3 in
      (subst (All Keeps) same kept.0, ap length (sym same) ∙ kept.1)

abbrev pub IsFit : ℕ → Slot → Type 0
IsFit t_min slot = Fits (t_min + 1) slot.list slot.start

pub block_rows-IsSlot :
    (rows t_min closed : ℕ) (b : IndexBlock) (slots : List Slot) (cols : Columns)
    (slots' : List Slot)
    → All (IsSlot t_min) slots
    → section_rows rows t_min closed (block_part b) slots cols ≡ ok slots'
    → All (IsSlot t_min) slots' × (length slots' ≡ length slots)
block_rows-IsSlot rows t_min closed b =
    section_rows-Keeps t_min closed (block_part b) (IsSlot t_min)
      (λ observed slot cols n observed' slot' cols' slot'' cols'' is head run.
        row_stretches-IsSlot n t_min b slot' cols' slot'' cols''
          (block_row-IsSlot t_min closed b observed slot cols n observed' slot' cols' is head) run)
      rows

tail_row-IsFit :
    (t_min closed : ℕ) (o : Option IndexBlock) (observed : ℕ) (slot : Slot) (cols : Columns)
    (n observed' : ℕ) (slot' : Slot) (cols' : Columns)
    → IsFit t_min slot
    → row_head t_min closed (tail_part o) observed slot cols ≡ ok ((n, observed'), (slot', cols'))
    → IsFit t_min slot'
unfolding row_head
tail_row-IsFit t_min closed o observed slot cols n observed' slot' cols' is h =
    subst (IsFit t_min) (ap (λ (t : (ℕ × ℕ) × (Slot × Columns)). t.1.0) (ok_injective h)) is

pub tail_rows-IsFit :
    (rows t_min closed : ℕ) (o : Option IndexBlock) (slots : List Slot) (cols : Columns)
    (slots' : List Slot)
    → All (IsFit t_min) slots
    → section_rows rows t_min closed (tail_part o) slots cols ≡ ok slots'
    → All (IsFit t_min) slots' × (length slots' ≡ length slots)
tail_rows-IsFit rows t_min closed o =
    section_rows-Keeps t_min closed (tail_part o) (IsFit t_min)
      (λ observed slot cols n observed' slot' cols' slot'' cols'' is head run.
        row_stretches-Fits n (t_min + 1) (tail_part o) slot' cols' slot'' cols''
          (tail_row-IsFit t_min closed o observed slot cols n observed' slot' cols' is head) run)
      rows
