-- ===== src/Tests/Transactions.antt =====
-- The page bounds of vtr-rs/src/transactions/mod.rs and the times of vtr-rs/src/transactions/time.rs.
use vtr.Prelude.{
  ℕ, ◌-◌, ◌^◌, ◌≡◌, refl, true, false, some, List, [], ◌∷◌, ◌++◌, replicate, elem, ltb,
  if◌then◌else◌, arith,
}
use vtr.Error.{Result, ok, err, corrupt}
use vtr.Wire.Cursor
use vtr.Transactions.Bounds.{
  Transaction, TransactionBounds, write, read, is_invalid, merge, add_transaction, add_all_embedded,
  add_embedded, add_parent, add_owner,
}
use vtr.Transactions.Bounds.RoundTrip.{HasU64, read-write}
use vtr.Transactions.Bounds.Cover.{IsMerged, merge-IsMerged}
use vtr.Transactions.Query.{
  TransactionQuery, default_query, matches, TransactionDirectory, directory_matches, Generator,
  transaction_kind, validate_transaction,
}
use vtr.Transactions.Query.Pages.{no_bounds, PageRows, block_bounds}
use vtr.Transactions.Query.Skip.{directory_matches-matches}
use vtr.Transactions.Time.{stage_end}
use vtr.Transactions.Time.Ends.{put_stage_end, stage_end-put_stage_end}

-- One transaction from 100 to 110, and one relation.
abbrev one_of_each : TransactionBounds
one_of_each = record {
  transactions = 1;
  relations = 1;
  min_id = 5;
  max_id = 5;
  begin = 100;
  end = 110;
  min_parent = 0;
  max_parent = 0;
  min_embedded = 0;
  max_embedded = 3;
  min_from = 5;
  max_from = 5;
  min_to = 6;
  max_to = 6;
}

abbrev one_later : TransactionBounds
one_later = record one_of_each { min_embedded = 2; begin = 105; end = 130; min_to = 2; max_to = 9 }

one_later-HasU64 : HasU64 one_later
one_later-HasU64 = record {
  transactions = omega arith;
  relations = omega arith;
  min_id = omega arith;
  max_id = omega arith;
  begin = omega arith;
  end = omega arith;
  min_parent = omega arith;
  max_parent = omega arith;
  min_embedded = omega arith;
  max_embedded = omega arith;
  min_from = omega arith;
  max_from = omega arith;
  min_to = omega arith;
  max_to = omega arith;
}

one_later_valid : is_invalid one_later ≡ false
unfolding is_invalid
one_later_valid = refl

read-write_example : read (write one_later [] ++ 7 ∷ []) ≡ ok (one_later, 7 ∷ [])
read-write_example = read-write one_later (7 ∷ []) one_later-HasU64 one_later_valid

abbrev merged_of : Result TransactionBounds → TransactionBounds
merged_of (ok b) = b
merged_of (err e) = one_of_each

merge_run : merge one_later one_of_each ≡ ok (merged_of (merge one_later one_of_each))
unfolding merge
merge_run = refl

merge-IsMerged_example : IsMerged one_later one_of_each (merged_of (merge one_later one_of_each))
merge-IsMerged_example =
    merge-IsMerged one_later one_of_each (merged_of (merge one_later one_of_each)) (omega arith)
      (omega arith) (λ z. (omega arith, omega arith)) merge_run

-- The stage that lasts for the whole domain, before other bytes.
stage_end-put_stage_end_example :
    stage_end (put_stage_end [] 0 (some (2 ^ 64 - 1)) ++ 4 ∷ []) 0 ≡ ok (some (2 ^ 64 - 1), 4 ∷ [])
stage_end-put_stage_end_example =
    stage_end-put_stage_end 0 (some (2 ^ 64 - 1)) (4 ∷ []) (omega arith, omega arith)

-- Thirty-three columns: a transaction from 100 to 110 with an event at 50 and a stage from 50 to 160, where
-- an `i64` of -50 is 99 and one of 100 is 200.
abbrev page : List (List ℕ)
page =
    [] ∷ [] ∷ (200 ∷ 1 ∷ []) ∷ (10 ∷ []) ∷ replicate 9 []
    ++ ((1 ∷ [])
        ∷ (160 ∷ 1 ∷ [])
        ∷ []
        ∷ (1 ∷ [])
        ∷ []
        ∷ []
        ∷ (99 ∷ [])
        ∷ (111 ∷ [])
        ∷ replicate 12 [])

abbrev packed_of : Result (List ℕ) → List ℕ
packed_of (ok b) = b
packed_of (err e) = []

-- A transaction from 5 to 9 with an event and a stage, after one of another generator, and queries for the event.
abbrev with_records : Transaction ℕ
with_records = record {
  id = 7;
  parent = 3;
  generator = 2;
  begin = 5;
  end = 9;
  status = 0;
  span_kind = 0;
  payload = [];
  attributes = 0;
  events = record { id = 8; time = 6; name = 1; attributes = 0 } ∷ [];
  stages = record { id = 9; name = 0; lane = 1; begin = 5; end = some 6; attributes = 0 } ∷ [];
  child_blocks = [];
}

abbrev of_other : Transaction ℕ
of_other = record with_records { id = 4; parent = 0; generator = 1; events = []; stages = [] }

abbrev page_of : Transaction ℕ → PageRows ℕ
page_of tx = record { transactions = tx ∷ []; relations = [] }

abbrev two_generators : TransactionDirectory ℕ
two_generators = record {
  number = 1;
  bounds = merged_of (block_bounds (page_of of_other ∷ page_of with_records ∷ []) no_bounds);
  strings = 2;
  ids = 1 ∷ 2 ∷ [];
  pages = [];
  blob_offset = 0;
}

abbrev of_event : TransactionQuery
of_event = record default_query { generator = some 2; embedded_id = some 8 }

abbrev span_generator : Generator
span_generator = record { id = 2; kind = transaction_kind; payload_type = 0 }

-- Attributes that are below the number of strings.
abbrev small_attributes : ℕ → ℕ → Result (Unit {0})
small_attributes a strings = if ltb a strings then ok tt else err (corrupt "attributes")

valid_run : validate_transaction small_attributes with_records span_generator 2 ≡ ok tt
unfolding validate_transaction
valid_run = refl

event_match : matches of_event with_records ≡ true
unfolding matches
event_match = refl

directory_run : directory_matches two_generators (record of_event { embedded_id = some 10 }) ≡ false
unfolding directory_matches block_bounds add_transaction add_all_embedded add_parent add_owner
    add_embedded
directory_run = refl

listed_run : elem 2 two_generators.ids ≡ true
unfolding elem
listed_run = refl

bounds_run :
    block_bounds (page_of of_other ∷ page_of with_records ∷ []) no_bounds ≡ ok two_generators.bounds
unfolding block_bounds add_transaction add_all_embedded add_parent add_owner add_embedded
bounds_run = refl

directory_matches-matches_example : directory_matches two_generators of_event ≡ true
directory_matches-matches_example =
    directory_matches-matches small_attributes two_generators of_event (page_of of_other ∷ []) [] []
      [] [] with_records span_generator 2 valid_run listed_run bounds_run event_match
