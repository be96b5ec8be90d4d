-- ===== src/Activity/Index.antt =====
-- vtr-rs/src/activity/index.rs: the index that a sidecar holds, and its queries. A signal's entries in the two
-- tables `index.signals` and `starts` are one `Slot`. The admission of memory and the checkpoints, which can only
-- end the decoding with the caller's error, are left out.
pub mod Decode
pub mod Ordered
pub mod Decoded
pub mod Exact
use vtr.Prelude.{
  ℕ, String, zero, suc, ◌+◌, ◌-◌, ◌/◌, ◌%◌, min, Bool, true, false, not, ◌&&◌, ◌||◌, Option, none,
  some, List, [], ◌∷◌, ◌++◌, length, take, drop, get_elem?, ltb, leb, ◌==◌, if◌then◌else◌,
}
use vtr.Prelude.Bytes.{checked_add}
use vtr.Error.{Result, ok, err, corrupt, ◌>>=◌, ◌>>◌}
use vtr.Wire.Cursor
use vtr.Wire.Cursor.{Cursor}
use vtr.Activity.Format.{Header}

pub record IndexBlock : Type 0 where
  pub start : ℕ
  pub end : ℕ
  pub bytes : ℕ
  pub delta : ℕ

pub record Stretch : Type 0 where
  pub start : ℕ
  pub end : ℕ
  pub gap : ℕ

pub record Index : Type 0 where
  pub header : Header
  pub blocks : List IndexBlock
  pub signals : List (List Stretch)
  pub generators : List (ℕ × List (ℕ × ℕ))

-- `signals[i]` and `starts[i]`.
pub record Slot : Type 0 where
  pub list : List Stretch
  pub start : Option ℕ

-- The columns of a section; a tail has the first three.
pub record Columns : Type 0 where
  pub c0 : Cursor
  pub c1 : Cursor
  pub c2 : Cursor
  pub c3 : Cursor
  pub c4 : Cursor
  pub c5 : Cursor

-- The section that is read: a block's, or the tail with the last block before it.
pub data Part : Type 0 where
  block_part : IndexBlock → Part
  tail_part : Option IndexBlock → Part

abbrev pub last_block : Part → Option IndexBlock
last_block (block_part b) = some b
last_block (tail_part b) = b

-- `ok_or(Error::Corrupt(..))`
abbrev pub ok_or {ℓ} : {A : Type ℓ} → String → Option A → Result A
ok_or message none = err (corrupt message)
ok_or message (some a) = ok a

-- `filter`
abbrev pub when : Bool → ℕ → Option ℕ
when c v = if c then some v else none

-- A stretch's length, silence and gap.
read_stretch : Part → Columns → Result ((ℕ × (Option ℕ × ℕ)) × Columns)
read_stretch (block_part b) cols = do
  (length, c3) ← Cursor.var cols.c3
  (silence, c4) ← Cursor.var cols.c4
  (gap, c5) ← Cursor.var cols.c5
  ok ((length, (some silence, gap)), record cols { c3 = c3; c4 = c4; c5 = c5 })
read_stretch (tail_part b) cols = do
  (length, c1) ← Cursor.var cols.c1
  (gap, c2) ← Cursor.var cols.c2
  ok ((length, (none, gap)), record cols { c1 = c1; c2 = c2 })

-- `match silence`: where the signal's next stretch starts.
next_start : Option ℕ → ℕ → ℕ → Result (Option ℕ)
next_start none end maximum = ok none
next_start (some gap) end maximum = elim (checked_add end gap) [
  | none ↦ err (corrupt "invalid activity silence")
  | some next ↦
      if ltb 1 gap && leb next maximum
      then ok (some next)
      else err (corrupt "invalid activity silence")
]

abbrev differ : Bool → Bool → Bool
differ a b = if a then not b else b

-- The body of `for _ in 0..head >> 1`.
one_stretch : Part → Slot → Columns → Result (Slot × Columns)
unfolding read_stretch next_start
one_stretch part slot cols = do
  begin ← ok_or "activity stretch has no start" slot.start
  ((length, (silence, gap)), cols') ← read_stretch part cols
  end ← ok_or "activity time overflow" (checked_add begin length)
  last ← ok_or "activity rows without source blocks" (last_block part)
  if ltb last.end end || (ltb 1 gap || differ (length == 0) (gap == 0))
      then err (corrupt "invalid exact activity stretch")
      else do
        start ← next_start silence end last.end
        ok (
          record {
            list = slot.list ++ record { start = begin; end = end; gap = gap } ∷ [];
            start = start;
          },
          cols',
        )

row_stretches : ℕ → Part → Slot → Columns → Result (Slot × Columns)
unfolding one_stretch
row_stretches zero part slot cols = ok (slot, cols)
row_stretches (suc n) part slot cols = do
  (slot', cols') ← one_stretch part slot cols
  row_stretches n part slot' cols'

-- The first change of a signal, where the row's head is odd.
open_slot : ℕ → IndexBlock → Slot → Columns → Result (Slot × Columns)
open_slot t_min block slot cols = elim slot.start [
  | some t ↦ err (corrupt "activity signal opened twice")
  | none ↦ do
    (delta, c2) ← Cursor.var cols.c2
    first ← ok_or "activity first change outside source block" (checked_add block.start delta)
    if ltb t_min first && leb first block.end
        then ok (record slot { start = some first }, record cols { c2 = c2 })
        else err (corrupt "activity first change outside source block")
]

-- `checked_add(head >> 1).filter(|&value| value <= closed)`
count_closed : ℕ → ℕ → ℕ → Result ℕ
count_closed observed more closed = elim (checked_add observed more) [
  | none ↦ err (corrupt "activity closed count mismatch")
  | some total ↦
      if leb total closed then ok total else err (corrupt "activity closed count mismatch")
]

-- A row's head: the number of its stretches, with the slot opened and the closed stretches counted.
row_head : ℕ → ℕ → Part → ℕ → Slot → Columns → Result ((ℕ × ℕ) × (Slot × Columns))
unfolding open_slot count_closed
row_head t_min closed (tail_part b) observed slot cols = ok ((1, observed), (slot, cols))
row_head t_min closed (block_part b) observed slot cols = do
  (head, c1) ← Cursor.var cols.c1
  if head == 0 then err (corrupt "empty activity row") else do
    (slot', cols') ←
        (if head % 2 == 0
          then ok (slot, record cols { c1 = c1 })
          else open_slot t_min b slot (record cols { c1 = c1 }))
    observed' ← count_closed observed (head / 2) closed
    ok ((head / 2, observed'), (slot', cols'))

abbrev pub set_at {ℓ} : {A : Type ℓ} → List A → ℕ → A → List A
set_at [] i a = []
set_at (x ∷ xs) zero a = a ∷ xs
set_at (x ∷ xs) (suc i) a = x ∷ set_at xs i a

-- What the rows of one section have made of the tables.
pub record Rows : Type 0 where
  pub slots : List Slot
  pub signal : ℕ
  pub observed : ℕ
  pub columns : Columns

-- The body of `for row in 0..rows`; `first` is `row == 0`. The slot is there where `value < count`.
one_row : ℕ → ℕ → Part → Bool → Rows → Result Rows
unfolding row_head row_stretches
one_row t_min closed part first r = do
  (delta, c0) ← Cursor.var r.columns.c0
  signal ← ok_or "unknown activity signal" (checked_add r.signal delta)
  slot ← ok_or "unknown activity signal" (get_elem? r.slots signal)
  if not first && delta == 0 then err (corrupt "duplicate activity row") else do
    ((count, observed), (slot', cols)) ←
        row_head t_min closed part r.observed slot (record r.columns { c0 = c0 })
    (slot'', cols') ← row_stretches count part slot' cols
    ok (record {
      slots = set_at r.slots signal slot'';
      signal = signal;
      observed = observed;
      columns = cols';
    })

all_rows : ℕ → ℕ → ℕ → Part → Bool → Rows → Result Rows
unfolding one_row
all_rows zero t_min closed part first r = ok r
all_rows (suc n) t_min closed part first r = do
  r' ← one_row t_min closed part first r
  all_rows n t_min closed part false r'

columns_done : Columns → Result (Unit {0})
columns_done c = do
  Cursor.done c.c0
  Cursor.done c.c1
  Cursor.done c.c2
  Cursor.done c.c3
  Cursor.done c.c4
  Cursor.done c.c5

-- The rows of a section to its end.
unfoldable pub section_rows : ℕ → ℕ → ℕ → Part → List Slot → Columns → Result (List Slot)
unfolding all_rows columns_done
section_rows rows t_min closed part slots cols = do
  r ←
      all_rows rows t_min closed part true
        (record { slots = slots; signal = 0; observed = 0; columns = cols })
  if not (r.observed == closed)
      then err (corrupt "activity closed count mismatch")
      else do columns_done r.columns; ok r.slots

-- `partition_point`: the length of the front whose elements pass the test, which in the source's lists is
-- all of those that do.
abbrev pub partition_point {ℓ} : {A : Type ℓ} → (A → Bool) → List A → ℕ
partition_point test [] = 0
partition_point test (x ∷ xs) = if test x then suc (partition_point test xs) else 0

-- `is_some_and(|stretch| stretch.start <= last)`
starts_by : ℕ → Option Stretch → Bool
starts_by last none = false
starts_by last (some s) = leb s.start last

-- `list.get(next)`, of the first stretch that does not end before the window.
touches : ℕ → ℕ → List Stretch → Bool
unfolding starts_by
touches first last list =
    starts_by last (get_elem? list (partition_point (λ (s : Stretch). ltb s.end first) list))

-- `for signal in start..`, over the lists that are there.
classify_lists : ℕ → ℕ → ℕ → List (List Stretch) → List ℕ
unfolding touches
classify_lists first last signal [] = []
classify_lists first last signal (list ∷ lists) =
    let rest = classify_lists first last (suc signal) lists in
    if touches first last list then signal ∷ rest else rest

abbrev pub signal_count : Index → ℕ
signal_count index = index.header.signals

-- The signals are appended to `output`. The index has a list for each of its signals.
unfoldable pub classify_range : Index → ℕ → ℕ → ℕ → ℕ → List ℕ → List ℕ
unfolding classify_lists
classify_range index start end first last output =
    if ltb last first
    then output
    else output
      ++ classify_lists first last start
          (take (min end (signal_count index) - start) (drop start index.signals))

unfoldable pub classify : Index → ℕ → ℕ → List ℕ
unfolding classify_range
classify index first last = classify_range index 0 (signal_count index) first last []

begins_by : ℕ → Option (ℕ × ℕ) → Bool
begins_by last none = false
begins_by last (some i) = leb i.0 last

generator_touches : ℕ → ℕ → List (ℕ × ℕ) → Bool
unfolding begins_by
generator_touches first last list =
    begins_by last (get_elem? list (partition_point (λ (i : ℕ × ℕ). ltb i.1 first) list))

filter_generators : ℕ → ℕ → List (ℕ × List (ℕ × ℕ)) → List ℕ
unfolding generator_touches
filter_generators first last [] = []
filter_generators first last ((id, list) ∷ rest) =
    let others = filter_generators first last rest in
    if generator_touches first last list then id ∷ others else others

unfoldable pub classify_generators : Index → ℕ → ℕ → List ℕ
unfolding filter_generators
classify_generators index first last =
    if ltb last first then [] else filter_generators first last index.generators

unfoldable pub stretches : Index → ℕ → List Stretch
stretches index signal = elim (get_elem? index.signals signal) [ none ↦ [] | some list ↦ list ]

total_length : List (List Stretch) → ℕ
total_length [] = 0
total_length (list ∷ lists) = length list + total_length lists

unfoldable pub stretch_count : Index → ℕ
unfolding total_length
stretch_count index = total_length index.signals
