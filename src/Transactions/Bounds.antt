-- ===== src/Transactions/Bounds.antt =====
-- vtr-rs/src/transactions/mod.rs: `TransactionBounds`, what a page's index says of its transactions and
-- relations. Attributes and payloads have no part in it, so the attribute type is a parameter.
pub mod RoundTrip
pub mod Cover
use vtr.Prelude.{
  ℕ, ◌+◌, ◌*◌, ◌^◌, ◌<◌, ◌≤◌, ◌≡◌, refl, Bool, true, false, not, ◌&&◌, ◌||◌, Option, none, some,
  List, [], ◌∷◌, ◌++◌, map, append_assoc, min, max, ltb, ◌==◌, if◌then◌else◌, arith,
}
use vtr.Prelude.Bytes.{IsU64, to_le, checked_add}
use vtr.Error.{Result, ok, err, corrupt, ◌>>=◌}
use vtr.Wire.Cursor
use vtr.Wire.Cursor.{Cursor}
use vtr.Wire.Cursor.Laws.{u64-to_le}

pub record EmbeddedEvent (Attributes : Type 0) : Type 0 where
  pub id : ℕ
  pub time : ℕ
  pub name : ℕ
  pub attributes : Attributes

pub record EmbeddedStage (Attributes : Type 0) : Type 0 where
  pub id : ℕ
  pub name : ℕ
  pub lane : ℕ
  pub begin : ℕ
  pub end : Option ℕ
  pub attributes : Attributes

pub record Transaction (Attributes : Type 0) : Type 0 where
  pub id : ℕ
  pub parent : ℕ
  pub generator : ℕ
  pub begin : ℕ
  pub end : ℕ
  pub status : ℕ
  pub span_kind : ℕ
  pub payload : List ℕ
  pub attributes : Attributes
  pub events : List (EmbeddedEvent Attributes)
  pub stages : List (EmbeddedStage Attributes)
  pub child_blocks : List ℕ

pub record Relation (Attributes : Type 0) : Type 0 where
  pub kind : ℕ
  pub source : ℕ
  pub destination : ℕ
  pub attributes : Attributes

pub record TransactionBounds : Type 0 where
  pub transactions : ℕ
  pub relations : ℕ
  pub min_id : ℕ
  pub max_id : ℕ
  pub begin : ℕ
  pub end : ℕ
  pub min_parent : ℕ
  pub max_parent : ℕ
  pub min_embedded : ℕ
  pub max_embedded : ℕ
  pub min_from : ℕ
  pub max_from : ℕ
  pub min_to : ℕ
  pub max_to : ℕ

-- `extend`, for a minimum and for a maximum.
abbrev pub extend_min : ℕ → ℕ → Bool → ℕ
extend_min minimum value first = if first then value else min minimum value

abbrev pub extend_max : ℕ → ℕ → ℕ
extend_max maximum value = max maximum value

unfoldable pub add_embedded : ℕ → TransactionBounds → TransactionBounds
add_embedded id b = record b {
  min_embedded = extend_min b.min_embedded id (b.max_embedded == 0);
  max_embedded = extend_max b.max_embedded id;
}

unfoldable pub add_all_embedded : List ℕ → TransactionBounds → TransactionBounds
add_all_embedded [] b = b
add_all_embedded (id ∷ ids) b = add_all_embedded ids (add_embedded id b)

-- The transaction's own fields, and then its parent.
unfoldable pub add_owner : {A : Type 0} → Transaction A → TransactionBounds → TransactionBounds
add_owner tx b = record b {
  transactions = b.transactions + 1;
  min_id = extend_min b.min_id tx.id (b.transactions == 0);
  max_id = extend_max b.max_id tx.id;
  begin = if b.transactions == 0 then tx.begin else min b.begin tx.begin;
  end = if b.transactions == 0 then tx.end else max b.end tx.end;
}

unfoldable pub add_parent : ℕ → TransactionBounds → TransactionBounds
add_parent parent b = if parent == 0 then b else record b {
  min_parent = extend_min b.min_parent parent (b.max_parent == 0);
  max_parent = extend_max b.max_parent parent;
}

abbrev pub embedded_ids : {A : Type 0} → Transaction A → List ℕ
embedded_ids tx = map (λ e. e.id) tx.events ++ map (λ s. s.id) tx.stages

unfoldable pub add_transaction :
    {A : Type 0} → Transaction A → TransactionBounds → TransactionBounds
add_transaction tx b = add_all_embedded (embedded_ids tx) (add_parent tx.parent (add_owner tx b))

unfoldable pub add_relation : {A : Type 0} → Relation A → TransactionBounds → TransactionBounds
add_relation r b = record b {
  relations = b.relations + 1;
  min_from = extend_min b.min_from r.source (b.relations == 0);
  max_from = extend_max b.max_from r.source;
  min_to = extend_min b.min_to r.destination (b.relations == 0);
  max_to = extend_max b.max_to r.destination;
}

-- `write`
pub write : TransactionBounds → List ℕ → List ℕ
write b out =
    out
    ++ (to_le 8 b.transactions
        ++ (to_le 8 b.relations
            ++ (to_le 8 b.min_id
                ++ (to_le 8 b.max_id
                    ++ (to_le 8 b.begin
                        ++ (to_le 8 b.end
                            ++ (to_le 8 b.min_parent
                                ++ (to_le 8 b.max_parent
                                    ++ (to_le 8 b.min_embedded
                                        ++ (to_le 8 b.max_embedded
                                            ++ (to_le 8 b.min_from
                                                ++ (to_le 8 b.max_from
                                                    ++ (to_le 8 b.min_to
                                                        ++ to_le 8 b.max_to)))))))))))))

abbrev any_nonzero : List ℕ → Bool
any_nonzero [] = false
any_nonzero (v ∷ vs) = not (v == 0) || any_nonzero vs

-- `(a == 0) != (b == 0)`
abbrev one_zero : ℕ → ℕ → Bool
one_zero a b = if a == 0 then not (b == 0) else b == 0

-- The guard of `read`.
unfoldable pub is_invalid : TransactionBounds → Bool
is_invalid b =
    (b.transactions == 0 && b.relations == 0)
    || (ltb b.max_id b.min_id
        || (ltb b.end b.begin
            || (ltb b.max_parent b.min_parent
                || (ltb b.max_embedded b.min_embedded
                    || (ltb b.max_from b.min_from
                        || (ltb b.max_to b.min_to
                            || ((not (b.transactions == 0) && b.min_id == 0)
                                || ((b.transactions == 0
                                      && any_nonzero (
                                          b.min_id ∷ b.max_id ∷ b.begin ∷ b.end ∷ b.min_parent
                                          ∷ b.max_parent ∷ b.min_embedded ∷ b.max_embedded ∷ []))
                                    || ((b.relations == 0
                                          && any_nonzero
                                              (b.min_from ∷ b.max_from ∷ b.min_to ∷ b.max_to ∷ []))
                                        || (one_zero b.min_parent b.max_parent
                                            || one_zero b.min_embedded b.max_embedded))))))))))

abbrev checked : TransactionBounds → Cursor → Result (TransactionBounds × Cursor)
checked b d = if is_invalid b then err (corrupt "invalid transaction bounds") else ok (b, d)

pub read : Cursor → Result (TransactionBounds × Cursor)
read d0 = do
  (transactions, d1) ← Cursor.u64 d0
  (relations, d2) ← Cursor.u64 d1
  (min_id, d3) ← Cursor.u64 d2
  (max_id, d4) ← Cursor.u64 d3
  (begin, d5) ← Cursor.u64 d4
  (end, d6) ← Cursor.u64 d5
  (min_parent, d7) ← Cursor.u64 d6
  (max_parent, d8) ← Cursor.u64 d7
  (min_embedded, d9) ← Cursor.u64 d8
  (max_embedded, d10) ← Cursor.u64 d9
  (min_from, d11) ← Cursor.u64 d10
  (max_from, d12) ← Cursor.u64 d11
  (min_to, d13) ← Cursor.u64 d12
  (max_to, d14) ← Cursor.u64 d13
  checked
      (record {
        transactions = transactions;
        relations = relations;
        min_id = min_id;
        max_id = max_id;
        begin = begin;
        end = end;
        min_parent = min_parent;
        max_parent = max_parent;
        min_embedded = min_embedded;
        max_embedded = max_embedded;
        min_from = min_from;
        max_from = max_from;
        min_to = min_to;
        max_to = max_to;
      })
      d14

-- The first half of `merge`: `other` has transactions.
unfoldable pub merge_parents : TransactionBounds → TransactionBounds → TransactionBounds
merge_parents other b = if other.max_parent == 0 then b else record b {
  min_parent = extend_min b.min_parent other.min_parent (b.max_parent == 0);
  max_parent = max (extend_max b.max_parent other.min_parent) other.max_parent;
}

unfoldable pub merge_embedded : TransactionBounds → TransactionBounds → TransactionBounds
merge_embedded other b = if other.max_embedded == 0 then b else record b {
  min_embedded = extend_min b.min_embedded other.min_embedded (b.max_embedded == 0);
  max_embedded = max (extend_max b.max_embedded other.min_embedded) other.max_embedded;
}

unfoldable pub merge_owners : TransactionBounds → TransactionBounds → TransactionBounds
merge_owners other b = record b {
  min_id = extend_min b.min_id other.min_id (b.transactions == 0);
  max_id = max (extend_max b.max_id other.min_id) other.max_id;
  begin = if b.transactions == 0 then other.begin else min b.begin other.begin;
  end = if b.transactions == 0 then other.end else max b.end other.end;
}

unfoldable pub merge_transactions : TransactionBounds → TransactionBounds → Result TransactionBounds
merge_transactions other b =
    if other.transactions == 0 then ok b else elim (checked_add b.transactions other.transactions) [
      | none ↦ err (corrupt "transaction count overflow")
      | some n ↦ ok (record (merge_embedded other (merge_parents other (merge_owners other b))) {
        transactions = n;
      })
    ]

-- The second half: `other` has relations.
unfoldable pub merge_relations : TransactionBounds → TransactionBounds → Result TransactionBounds
merge_relations other b =
    if other.relations == 0 then ok b else elim (checked_add b.relations other.relations) [
      | none ↦ err (corrupt "relation count overflow")
      | some n ↦ ok (record b {
        relations = n;
        min_from = extend_min b.min_from other.min_from (b.relations == 0);
        max_from = max (extend_max b.max_from other.min_from) other.max_from;
        min_to = extend_min b.min_to other.min_to (b.relations == 0);
        max_to = max (extend_max b.max_to other.min_to) other.max_to;
      })
    ]

unfoldable pub merge : TransactionBounds → TransactionBounds → Result TransactionBounds
unfolding merge_transactions merge_relations merge_embedded merge_parents merge_owners
merge other b = do b' ← merge_transactions other b; merge_relations other b'
