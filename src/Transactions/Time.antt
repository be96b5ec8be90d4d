-- ===== src/Transactions/Time.antt =====
-- vtr-rs/src/transactions/time.rs: the time range of a page of transactions, with what is embedded in them.
-- The seven columns that hold times are the fields of a record.
pub mod Range
pub mod Ends
use vtr.Prelude.{
  ℕ, zero, suc, ◌+◌, ◌-◌, ◌*◌, ◌%◌, ◌^◌, ◌<◌, ◌≤◌, ◌≡◌, refl, Bool, true, false, not, ◌&&◌, ◌||◌,
  Option, none, some, List, [], ◌∷◌, min, max, length, get_elem?, ltb, ◌==◌, if◌then◌else◌, arith,
}
use vtr.Prelude.Bytes.{IsU64, checked_add}
use vtr.Error.{Result, ok, err, corrupt, ◌>>=◌, ◌>>◌, >>=-eq-ok}
use vtr.Wire.Cursor
use vtr.Wire.Cursor.{Cursor}
use vtr.Wire.Columns.{unpack_columns}
use vtr.Wire.Zigzag.{unzigzag}
use vtr.Transactions.Bounds.{TransactionBounds}

abbrev pub full_domain_end : List ℕ
full_domain_end = 128 ∷ 128 ∷ 128 ∷ 128 ∷ 128 ∷ 128 ∷ 128 ∷ 128 ∷ 128 ∷ 2 ∷ []

-- `stage_end` behind the special form.
unfoldable pub plain_end : Cursor → ℕ → Result (Option ℕ × Cursor)
plain_end d begin = do
  (encoded, d') ← Cursor.var d
  if encoded == 0
      then ok (none, d')
      else if ltb (begin + (encoded - 1)) (2 ^ 64)
      then ok (some (begin + (encoded - 1)), d')
      else err (corrupt "embedded stage end overflows")

unfoldable pub stage_end : Cursor → ℕ → Result (Option ℕ × Cursor)
unfolding plain_end
stage_end d begin =
    if Cursor.starts_with full_domain_end d
    then (do
      (skipped, d') ← Cursor.take 10 d
      if not (begin == 0)
          then err (corrupt "full-domain stage end overflows")
          else ok (some (2 ^ 64 - 1), d'))
    else plain_end d begin

-- The columns 2, 3, 13, 14, 16, 19 and 20.
pub record TimeColumns : Type 0 where
  pub begins : Cursor
  pub durations : Cursor
  pub event_counts : Cursor
  pub events : Cursor
  pub stage_counts : Cursor
  pub stage_begins : Cursor
  pub stage_ends : Cursor
  pub previous_begin : ℕ

-- `columns[i]`, which is there among 33 columns.
abbrev pub column : List (List ℕ) → ℕ → List ℕ
column columns i = elim (get_elem? columns i) [ none ↦ [] | some c ↦ c ]

abbrev pub time_columns : List (List ℕ) → TimeColumns
time_columns cs = record {
  begins = column cs 2;
  durations = column cs 3;
  event_counts = column cs 13;
  events = column cs 14;
  stage_counts = column cs 16;
  stage_begins = column cs 19;
  stage_ends = column cs 20;
  previous_begin = 0;
}

-- `checked_add`, or the error.
abbrev end_of : ℕ → ℕ → Result ℕ
end_of begin duration = elim (checked_add begin duration) [
  | none ↦ err (corrupt "transaction end overflow")
  | some e ↦ ok e
]

unfoldable pub owner : TimeColumns → Result ((ℕ × ℕ) × TimeColumns)
owner t = do
  (delta, begins) ← Cursor.var t.begins
  let begin = (t.previous_begin + unzigzag delta) % 2 ^ 64
  (duration, durations) ← Cursor.var t.durations
  end ← end_of begin duration
  ok ((begin, end), record t { begins = begins; durations = durations; previous_begin = begin })

unfoldable pub event_count : TimeColumns → Result (ℕ × TimeColumns)
event_count t = do
  (count, event_counts) ← Cursor.var t.event_counts
  if ltb (Cursor.remaining t.events) count
      then err (corrupt "invalid embedded event count")
      else ok (count, record t { event_counts = event_counts })

unfoldable pub event : ℕ → TimeColumns → Result (ℕ × TimeColumns)
event owner_begin t = do
  (delta, events) ← Cursor.var t.events
  ok ((owner_begin + unzigzag delta) % 2 ^ 64, record t { events = events })

unfoldable pub stage_count : TimeColumns → Result (ℕ × TimeColumns)
stage_count t = do
  (count, stage_counts) ← Cursor.var t.stage_counts
  if ltb (min (Cursor.remaining t.stage_begins) (Cursor.remaining t.stage_ends)) count
      then err (corrupt "invalid embedded stage count")
      else ok (count, record t { stage_counts = stage_counts })

unfoldable pub stage : ℕ → TimeColumns → Result ((ℕ × Option ℕ) × TimeColumns)
stage owner_begin t = do
  (delta, stage_begins) ← Cursor.var t.stage_begins
  let begin = (owner_begin + unzigzag delta) % 2 ^ 64
  (end, stage_ends) ← stage_end t.stage_ends begin
  ok ((begin, end), record t { stage_begins = stage_begins; stage_ends = stage_ends })

unfoldable pub columns_done : TimeColumns → Result (Unit {0})
columns_done t = do
  Cursor.done t.begins
  Cursor.done t.durations
  Cursor.done t.event_counts
  Cursor.done t.events
  Cursor.done t.stage_counts
  Cursor.done t.stage_begins
  Cursor.done t.stage_ends

-- `for _ in 0..count` over the events of one owner; a range is its least and its greatest time.
unfoldable pub event_range : ℕ → ℕ → (ℕ × ℕ) → TimeColumns → Result ((ℕ × ℕ) × TimeColumns)
event_range zero begin range t = ok (range, t)
event_range (suc count) begin range t = do
  (time, t') ← event begin t
  event_range count begin (min range.0 time, max range.1 time) t'

-- `finish.unwrap_or(end).max(start)`
abbrev pub stage_last : Option ℕ → ℕ → ℕ → ℕ
stage_last finish end start = elim finish [ none ↦ max end start | some f ↦ max f start ]

unfoldable pub stage_range : ℕ → ℕ → ℕ → (ℕ × ℕ) → TimeColumns → Result ((ℕ × ℕ) × TimeColumns)
stage_range zero begin end range t = ok (range, t)
stage_range (suc count) begin end range t = do
  ((start, finish), t') ← stage begin t
  stage_range count begin end (min range.0 start, max range.1 (stage_last finish end start)) t'

pub record Ranges : Type 0 where
  pub owners : ℕ × ℕ
  pub range : ℕ × ℕ
  pub embedded : Bool

-- The body of `for _ in 0..expected.transactions`.
unfoldable pub one_owner : Ranges → TimeColumns → Result (Ranges × TimeColumns)
one_owner s t = do
  ((begin, end), t1) ← owner t
  (events, t2) ← event_count t1
  (range1, t3) ← event_range events begin s.range t2
  (stages, t4) ← stage_count t3
  (range2, t5) ← stage_range stages begin end range1 t4
  ok (
    record {
      owners = (min s.owners.0 begin, max s.owners.1 end);
      range = range2;
      embedded = s.embedded || (not (events == 0) || not (stages == 0));
    },
    t5,
  )

unfoldable pub all_owners : ℕ → Ranges → TimeColumns → Result (Ranges × TimeColumns)
all_owners zero s t = ok (s, t)
all_owners (suc n) s t = do (s', t') ← one_owner s t; all_owners n s' t'

abbrev pub first_ranges : TransactionBounds → Ranges
first_ranges expected = record {
  owners = (2 ^ 64 - 1, 0);
  range = (expected.begin, expected.end);
  embedded = false;
}

unfoldable pub range : List ℕ → TransactionBounds → Result (ℕ × ℕ)
unfolding all_owners one_owner owner event_count event_range event stage_count stage_range stage
    columns_done
range raw expected = do
  columns ← unpack_columns 33 raw
  if ltb (length (column columns 2)) expected.transactions
      then err (corrupt "invalid transaction page count")
      else do
        (s, t) ← all_owners expected.transactions (first_ranges expected) (time_columns columns)
        columns_done t
        if not (s.owners.0 == expected.begin && s.owners.1 == expected.end) || not s.embedded
            then err (corrupt "transaction time bounds disagree")
            else ok s.range
