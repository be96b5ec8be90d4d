-- ===== src/Activity/Scan.antt =====
-- vtr-rs/src/activity/scan.rs: the changes of one source block, grouped by signal. A vector is a list in the
-- same order, which grows at its end.
mod Push
pub mod Stretches
pub mod Exact
use vtr.Prelude.{
  ℕ, ◌+◌, ◌-◌, ◌*◌, ◌^◌, min, Bool, true, false, not, Option, none, some, List, [], ◌∷◌, ◌++◌,
  length, ltb, leb, ◌==◌, if◌then◌else◌,
}
use vtr.Activity.{Block}

pub record Stretch : Type 0 where
  pub start : ℕ
  pub end : ℕ

pub record Row : Type 0 where
  pub signal : ℕ
  pub first : ℕ
  pub count : ℕ

pub record BlockScan : Type 0 where
  pub block : Block
  pub prev_end : Option ℕ
  pub t_min : ℕ
  pub rows : List Row
  pub stretches : List Stretch
  pub changes : ℕ

abbrev pub empty_scan : Block → Option ℕ → ℕ → BlockScan
empty_scan block prev_end t_min = record {
  block = block;
  prev_end = prev_end;
  t_min = t_min;
  rows = [];
  stretches = [];
  changes = 0;
}

-- `Vec::last`, and the assignment through `Vec::last_mut`.
unfoldable pub last {ℓ} : {A : Type ℓ} → List A → Option A
last [] = none
last (x ∷ []) = some x
last (x ∷ (y ∷ ys)) = last (y ∷ ys)

unfoldable pub set_last {ℓ} : {A : Type ℓ} → List A → A → List A
set_last [] a = []
set_last (x ∷ []) a = a ∷ []
set_last (x ∷ (y ∷ ys)) a = x ∷ set_last (y ∷ ys) a

-- `rows.last().is_none_or(|row| row.signal != signal)`
unfoldable pub needs_row : ℕ → Option Row → Bool
needs_row signal none = true
needs_row signal (some row) = not (row.signal == signal)

open_row : ℕ → BlockScan → BlockScan
unfolding needs_row
open_row signal s =
    if needs_row signal (last s.rows)
    then record s {
      rows = s.rows ++ record { signal = signal; first = length s.stretches; count = 0 } ∷ [];
    }
    else s

-- The end of `push`: a stretch of one time, and one more in the row.
new_stretch : ℕ → Row → BlockScan → BlockScan
new_stretch time row s = record s {
  rows = set_last s.rows (record row { count = row.count + 1 });
  stretches = s.stretches ++ record { start = time; end = time } ∷ [];
  changes = s.changes + 1;
}

-- A row that has stretches, the last of which may grow.
pub continued : ℕ → Row → Stretch → BlockScan → BlockScan
unfolding new_stretch
continued time row previous s =
    if leb time previous.end
    then s
    else if time - previous.end == 1
    then record s {
      stretches = set_last s.stretches (record previous { end = time });
      changes = s.changes + 1;
    }
    else new_stretch time row s

-- The row that `open_row` leaves last; a row with a count has a stretch, so the `none` are not met.
in_row : ℕ → Option Row → Option Stretch → BlockScan → BlockScan
unfolding new_stretch continued
in_row time none previous s = s
in_row time (some row) none s = new_stretch time row s
in_row time (some row) (some previous) s =
    if not (row.count == 0) then continued time row previous s else new_stretch time row s

with_row : ℕ → BlockScan → BlockScan
unfolding in_row
with_row time s = in_row time (last s.rows) (last s.stretches) s

unfoldable pub push : ℕ → ℕ → BlockScan → BlockScan
unfolding open_row with_row
push signal time s = if leb time s.t_min then s else with_row time (open_row signal s)

-- `saturating_add` and `saturating_mul` stop at `u64::MAX`; a `Row` has 24 bytes.
unfoldable pub estimate : ℕ → ℕ → ℕ
estimate rows points =
    min (min (rows * 24) (2 ^ 64 - 1) + min (points * 32) (2 ^ 64 - 1)) (2 ^ 64 - 1)
