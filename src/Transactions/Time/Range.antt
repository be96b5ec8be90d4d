-- ===== src/Transactions/Time/Range.antt =====
-- The range that `range` returns is the least one that holds the owners and everything embedded in them.
use vtr.Prelude.{ℕ, zero, suc, ◌-◌, ◌^◌, ◌≤◌, ◌≡◌, Option, List, [], ◌∷◌, ◌++◌, map, All, min, max}
use vtr.Error.{Result, ok, err, ◌>>=◌}
use vtr.Wire.Columns.{unpack_columns}
use vtr.Transactions.Bounds.{TransactionBounds}
use vtr.Transactions.Time.{
  TimeColumns, Ranges, owner, event_count, event, stage_count, stage, stage_last, columns_done,
  range, time_columns,
}

-- What a page's columns say of one owner.
pub record OwnerTimes : Type 0 where
  pub begin : ℕ
  pub end : ℕ
  pub events : List ℕ
  pub stages : List (ℕ × Option ℕ)

events_of : ℕ → ℕ → TimeColumns → Result (List ℕ × TimeColumns)
events_of zero begin t = ok ([], t)
events_of (suc count) begin t = do
  (time, t1) ← event begin t
  (times, t2) ← events_of count begin t1
  ok (time ∷ times, t2)

stages_of : ℕ → ℕ → TimeColumns → Result (List (ℕ × Option ℕ) × TimeColumns)
stages_of zero begin t = ok ([], t)
stages_of (suc count) begin t = do
  (one, t1) ← stage begin t
  (stages, t2) ← stages_of count begin t1
  ok (one ∷ stages, t2)

owner_of : TimeColumns → Result (OwnerTimes × TimeColumns)
unfolding events_of stages_of
owner_of t = do
  ((begin, end), t1) ← owner t
  (events, t2) ← event_count t1
  (times, t3) ← events_of events begin t2
  (stages, t4) ← stage_count t3
  (pairs, t5) ← stages_of stages begin t4
  ok (record { begin = begin; end = end; events = times; stages = pairs }, t5)

-- The lists of times that the columns hold, owner by owner.
unfoldable pub owners_of : ℕ → TimeColumns → Result (List OwnerTimes × TimeColumns)
unfolding owner_of
owners_of zero t = ok ([], t)
owners_of (suc n) t = do
  (one, t1) ← owner_of t
  (owners, t2) ← owners_of n t1
  ok (one ∷ owners, t2)

-- The least interval that holds one interval and all others of a list.
unfoldable pub spanned : ℕ × ℕ → List (ℕ × ℕ) → ℕ × ℕ
spanned r [] = r
spanned r (x ∷ xs) = spanned (min r.0 x.0, max r.1 x.1) xs

-- An event is at its time; a stage without an end lasts as long as its owner, and none ends before it begins.
abbrev moments : List ℕ → List (ℕ × ℕ)
moments times = map (λ t. (t, t)) times

abbrev lasting : ℕ → List (ℕ × Option ℕ) → List (ℕ × ℕ)
lasting end stages = map (λ s. (s.0, stage_last s.1 end s.0)) stages

abbrev pub embedded_in : List OwnerTimes → List (ℕ × ℕ)
embedded_in [] = []
embedded_in (o ∷ owners) = (moments o.events ++ lasting o.end o.stages) ++ embedded_in owners

abbrev pub own_intervals : List OwnerTimes → List (ℕ × ℕ)
own_intervals owners = map (λ o. (o.begin, o.end)) owners

abbrev pub Within : ℕ × ℕ → ℕ × ℕ → Type 0
Within inner outer = (outer.0 ≤ inner.0) × (inner.1 ≤ outer.1)

-- The owner that one round of the loop reads, and what the round makes of the two ranges.
record OneOwner (s s' : Ranges) (t t' : TimeColumns) : Type 0 where
  times : OwnerTimes
  read : owner_of t ≡ ok (times, t')
  owners : s'.owners ≡ (min s.owners.0 times.begin, max s.owners.1 times.end)
  ranges : s'.range ≡ spanned s.range (moments times.events ++ lasting times.end times.stages)

abbrev owners_part : ℕ × ℕ → Result (Ranges × TimeColumns) → ℕ × ℕ
owners_part r (ok p) = p.0.owners
owners_part r (err e) = r

abbrev range_part : ℕ × ℕ → Result (Ranges × TimeColumns) → ℕ × ℕ
range_part r (ok p) = p.0.range
range_part r (err e) = r

abbrev columns_part : TimeColumns → Result (Ranges × TimeColumns) → TimeColumns
columns_part t (ok p) = p.1
columns_part t (err e) = t

-- `found` is the range of the page's times: the columns are read to their ends as the owners' times, `expected`
-- has the owners' own least and greatest time, and `found` is the least interval that holds these and everything
-- embedded.
pub record IsRange (raw : List ℕ) (expected : TransactionBounds) (found : ℕ × ℕ) : Type 0 where
  pub columns : List (List ℕ)
  pub owners : List OwnerTimes
  pub rest : TimeColumns
  pub unpacked : unpack_columns 33 raw ≡ ok columns
  pub read : owners_of expected.transactions (time_columns columns) ≡ ok (owners, rest)
  pub whole : columns_done rest ≡ ok tt
  pub own : spanned (2 ^ 64 - 1, 0) (own_intervals owners) ≡ (expected.begin, expected.end)
  pub least : found ≡ spanned (expected.begin, expected.end) (embedded_in owners)
  pub held : All (λ x. Within x found) (embedded_in owners)
