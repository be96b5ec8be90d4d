-- ===== src/Transactions/Query.antt =====
-- vtr-rs/src/transactions/mod.rs: the queries, the test that lets a query skip a block by its directory, and the
-- validation of a transaction. The test of attributes is the parameter `validate_attributes`.
pub mod Pages
pub mod Holds
pub mod Merged
pub mod Skip
use vtr.Prelude.{
  ℕ, ◌^◌, ◌-◌, Bool, true, false, not, ◌&&◌, ◌||◌, Option, none, some, List, [], ◌∷◌, elem, ltb,
  leb, ◌==◌, if◌then◌else◌,
}
use vtr.Error.{Result, ok, err, corrupt, ◌>>=◌, ◌>>◌}
use vtr.Transactions.Bounds.{Transaction, EmbeddedEvent, EmbeddedStage, TransactionBounds}

pub record TransactionQuery : Type 0 where
  pub generator : Option ℕ
  pub parent : Option ℕ
  pub id : Option ℕ
  pub embedded_id : Option ℕ
  pub begin : ℕ
  pub end : ℕ

abbrev pub default_query : TransactionQuery
default_query = record {
  generator = none;
  parent = none;
  id = none;
  embedded_id = none;
  begin = 0;
  end = 2 ^ 64 - 1;
}

-- `is_none_or`
abbrev pub none_or : (ℕ → Bool) → Option ℕ → Bool
none_or test none = true
none_or test (some id) = test id

unfoldable pub any_event : {A : Type 0} → ℕ → List (EmbeddedEvent A) → Bool
any_event id [] = false
any_event id (e ∷ es) = e.id == id || any_event id es

unfoldable pub any_stage : {A : Type 0} → ℕ → List (EmbeddedStage A) → Bool
any_stage id [] = false
any_stage id (s ∷ ss) = s.id == id || any_stage id ss

unfoldable pub matches_owner : {A : Type 0} → TransactionQuery → Transaction A → Bool
matches_owner q tx =
    leb tx.begin q.end
    && (leb q.begin tx.end
        && (none_or (λ id. id == tx.generator) q.generator
            && (none_or (λ id. id == tx.parent) q.parent && none_or (λ id. id == tx.id) q.id)))

unfoldable pub matches : {A : Type 0} → TransactionQuery → Transaction A → Bool
unfolding matches_owner any_event any_stage
matches q tx =
    matches_owner q tx
    && none_or (λ id. any_event id tx.events || any_stage id tx.stages) q.embedded_id

-- `Page` is `TransactionPage`, the index of one page.
pub record TransactionDirectory (Page : Type 0) : Type 0 where
  pub number : ℕ
  pub bounds : TransactionBounds
  pub strings : ℕ
  pub ids : List ℕ
  pub pages : List Page
  pub blob_offset : ℕ

-- `binary_search` of ascending identifiers finds one exactly where it is among them.
unfoldable pub directory_matches :
    {Page : Type 0} → TransactionDirectory Page → TransactionQuery → Bool
unfolding elem
directory_matches d q =
    not (d.bounds.transactions == 0)
    && (none_or (λ id. elem id d.ids) q.generator
        && (none_or (λ id. leb d.bounds.min_id id && leb id d.bounds.max_id) q.id
            && none_or (λ id. leb d.bounds.min_embedded id && leb id d.bounds.max_embedded)
                q.embedded_id))

-- vtr-rs/src/records.rs: `RecordKind` and `Generator`.
pub data RecordKind : Type 0 where
  transaction_kind clock_kind event_kind stage_kind log_kind embedded_event_kind
        embedded_stage_kind :
      RecordKind

pub record Generator : Type 0 where
  pub id : ℕ
  pub kind : RecordKind
  pub payload_type : ℕ

abbrev is_clock : RecordKind → Bool
is_clock clock_kind = true
is_clock _ = false

-- `matches!(kind, RecordKind::Transaction | RecordKind::Clock)`
abbrev has_transactions : RecordKind → Bool
has_transactions transaction_kind = true
has_transactions clock_kind = true
has_transactions _ = false

unfoldable pub invalid_events : {A : Type 0} → ℕ → ℕ → List (EmbeddedEvent A) → Bool
invalid_events id strings [] = false
invalid_events id strings (e ∷ es) =
    (leb e.id id || leb strings e.name) || invalid_events id strings es

-- `end.is_some_and(|end| end < begin)`
abbrev pub ends_early : ℕ → Option ℕ → Bool
ends_early begin none = false
ends_early begin (some end) = ltb end begin

unfoldable pub invalid_stages : {A : Type 0} → ℕ → ℕ → List (EmbeddedStage A) → Bool
invalid_stages id strings [] = false
invalid_stages id strings (s ∷ ss) =
    (leb s.id id || (leb strings s.name || (leb strings s.lane || ends_early s.begin s.end)))
    || invalid_stages id strings ss

-- `child_blocks.first() == Some(&0)`, and `windows(2).any(|w| w[0] >= w[1])`.
abbrev first_zero : List ℕ → Bool
first_zero [] = false
first_zero (b ∷ bs) = b == 0

unordered : List ℕ → Bool
unordered [] = false
unordered (b ∷ []) = false
unordered (b ∷ (c ∷ cs)) = leb c b || unordered (c ∷ cs)

abbrev is_empty {ℓ} : {A : Type ℓ} → List A → Bool
is_empty [] = true
is_empty (x ∷ xs) = false

-- What a transaction of a clock may not have.
invalid_clock : {A : Type 0} → Transaction A → Generator → Bool
invalid_clock tx g =
    not (g.payload_type == 0)
    || (not (tx.parent == 0)
        || (not (tx.span_kind == 0)
            || (not (tx.status == 0 || tx.status == 4)
                || (not (is_empty tx.events)
                    || (not (is_empty tx.stages) || not (is_empty tx.child_blocks))))))

-- The transaction's own fields, its embedded records, and its child blocks with what a clock may not have.
unfoldable pub invalid_own : {A : Type 0} → Transaction A → Generator → Bool
invalid_own tx g =
    tx.id == 0
    || (leb tx.id tx.parent
        || (ltb tx.end tx.begin
            || (ltb 4 tx.status || (ltb 5 tx.span_kind || not (has_transactions g.kind)))))

unfoldable pub invalid_embedded : {A : Type 0} → Transaction A → ℕ → Bool
unfolding invalid_events invalid_stages
invalid_embedded tx strings =
    invalid_events tx.id strings tx.events || invalid_stages tx.id strings tx.stages

unfoldable pub invalid_blocks : {A : Type 0} → Transaction A → Generator → Bool
unfolding unordered invalid_clock
invalid_blocks tx g =
    first_zero tx.child_blocks
    || (unordered tx.child_blocks || (is_clock g.kind && invalid_clock tx g))

unfoldable pub invalid_shape : {A : Type 0} → Transaction A → Generator → ℕ → Bool
unfolding invalid_own invalid_embedded invalid_blocks
invalid_shape tx g strings =
    invalid_own tx g || (invalid_embedded tx strings || invalid_blocks tx g)

module _ {A : Type 0} (validate_attributes : A → ℕ → Result (Unit {0})) where
  validate_events : List (EmbeddedEvent A) → ℕ → Result (Unit {0})
  validate_events [] strings = ok tt
  validate_events (e ∷ es) strings = do
    validate_attributes e.attributes strings
    validate_events es strings

  validate_stages : List (EmbeddedStage A) → ℕ → Result (Unit {0})
  validate_stages [] strings = ok tt
  validate_stages (s ∷ ss) strings = do
    validate_attributes s.attributes strings
    validate_stages ss strings

  unfoldable pub validate_transaction : Transaction A → Generator → ℕ → Result (Unit {0})
  unfolding invalid_shape validate_events validate_stages
  validate_transaction tx generator strings =
      if invalid_shape tx generator strings
      then err (corrupt "invalid transaction identity, shape, or lifetime")
      else do
        validate_attributes tx.attributes strings
        validate_events tx.events strings
        validate_stages tx.stages strings
