-- ===== src/Transactions/Query/Merged.antt =====
-- The identifiers that the bounds of a block cover: those of each of its pages.
use vtr.Prelude.{ℕ, ◌<◌, ◌≡◌, List, [], ◌∷◌, ◌++◌, arith}
use vtr.Error.{ok, ok_injective, >>=-eq-ok}
use vtr.Transactions.Bounds.{
  TransactionBounds, merge_parents, merge_embedded, merge_owners, merge_transactions,
  merge_relations, merge,
}
use vtr.Transactions.Query.Pages.{PageRows, page_bounds, block_bounds}
use vtr.Transactions.Query.Holds.{HoldsId, HoldsEmbedded}

abbrev SameIds : TransactionBounds → TransactionBounds → Type 0
SameIds a b = (a.min_id ≡ b.min_id) × (a.max_id ≡ b.max_id)

abbrev SameEmbedded : TransactionBounds → TransactionBounds → Type 0
SameEmbedded a b = (a.min_embedded ≡ b.min_embedded) × (a.max_embedded ≡ b.max_embedded)

merge_parents-ids :
    (o b : TransactionBounds) → SameIds (merge_parents o b) b × SameEmbedded (merge_parents o b) b
unfolding merge_parents
merge_parents-ids o b = ((ground arith, ground arith), (ground arith, ground arith))

merge_embedded-ids : (o b : TransactionBounds) → SameIds (merge_embedded o b) b
unfolding merge_embedded
merge_embedded-ids o b = (ground arith, ground arith)

merge_relations-ids :
    (o b c : TransactionBounds)
    → merge_relations o b ≡ ok c
    → SameIds c b × (SameEmbedded c b × (c.transactions ≡ b.transactions))
unfolding merge_relations
merge_relations-ids o b c h =
    ((ground arith, ground arith), ((ground arith, ground arith), ground arith))

merge_transactions-new :
    (o b c : TransactionBounds) (id : ℕ)
    → merge_transactions o b ≡ ok c
    → HoldsId id o
    → HoldsId id c
unfolding merge_transactions merge_owners
merge_transactions-new o b c id h x =
    let parents = (merge_parents-ids o (merge_owners o b)).0 in
    let embedded = merge_embedded-ids o (merge_parents o (merge_owners o b)) in
    record {
      some_transaction = ground (arith, x.some_transaction);
      low = ground (arith, parents, embedded, x.some_transaction, x.low);
      high = ground (arith, parents, embedded, x.some_transaction, x.high);
    }

merge_transactions-old :
    (o b c : TransactionBounds) (id : ℕ)
    → merge_transactions o b ≡ ok c
    → HoldsId id b
    → HoldsId id c
unfolding merge_transactions merge_owners
merge_transactions-old o b c id h x =
    let parents = (merge_parents-ids o (merge_owners o b)).0 in
    let embedded = merge_embedded-ids o (merge_parents o (merge_owners o b)) in
    record {
      some_transaction = ground (arith, x.some_transaction);
      low = ground (arith, parents, embedded, x.some_transaction, x.low);
      high = ground (arith, parents, embedded, x.high);
    }

merge_embedded-new :
    (o b : TransactionBounds) (id : ℕ) → HoldsEmbedded id o → HoldsEmbedded id (merge_embedded o b)
unfolding merge_embedded
merge_embedded-new o b id x = record {
  some_embedded = ground (arith, x.some_embedded);
  low = ground (arith, x.some_embedded, x.low);
  high = ground (arith, x.some_embedded, x.high);
}

merge_embedded-old :
    (o b : TransactionBounds) (id : ℕ) → HoldsEmbedded id b → HoldsEmbedded id (merge_embedded o b)
unfolding merge_embedded
merge_embedded-old o b id x = record {
  some_embedded = ground (arith, x.some_embedded);
  low = ground (arith, x.some_embedded, x.low);
  high = ground (arith, x.high);
}

merge_transactions_embedded-new :
    (o b c : TransactionBounds) (id : ℕ)
    → merge_transactions o b ≡ ok c
    → 0 < o.transactions
    → HoldsEmbedded id o
    → HoldsEmbedded id c
unfolding merge_transactions
merge_transactions_embedded-new o b c id h some_transaction x =
    let y = merge_embedded-new o (merge_parents o (merge_owners o b)) id x in
    record {
      some_embedded = ground (arith, some_transaction, y.some_embedded);
      low = ground (arith, some_transaction, y.low);
      high = ground (arith, some_transaction, y.high);
    }

merge_owners-old :
    (o b : TransactionBounds) (id : ℕ)
    → HoldsEmbedded id b
    → HoldsEmbedded id (merge_parents o (merge_owners o b))
unfolding merge_owners merge_parents
merge_owners-old o b id x = record {
  some_embedded = ground (arith, x.some_embedded);
  low = ground (arith, x.low);
  high = ground (arith, x.high);
}

merge_transactions_embedded-old :
    (o b c : TransactionBounds) (id : ℕ)
    → merge_transactions o b ≡ ok c
    → HoldsEmbedded id b
    → HoldsEmbedded id c
unfolding merge_transactions
merge_transactions_embedded-old o b c id h x =
    let y =
      merge_embedded-old o (merge_parents o (merge_owners o b)) id (merge_owners-old o b id x) in
    record {
      some_embedded = ground (arith, x.some_embedded, y.some_embedded);
      low = ground (arith, x.low, y.low);
      high = ground (arith, x.high, y.high);
    }

merge_relations-HoldsId :
    (o b c : TransactionBounds) (id : ℕ) → merge_relations o b ≡ ok c → HoldsId id b → HoldsId id c
merge_relations-HoldsId o b c id h x =
    let same = merge_relations-ids o b c h in
    record {
      some_transaction = ground (arith, same, x.some_transaction);
      low = ground (arith, same, x.low);
      high = ground (arith, same, x.high);
    }

merge_relations-HoldsEmbedded :
    (o b c : TransactionBounds) (id : ℕ)
    → merge_relations o b ≡ ok c
    → HoldsEmbedded id b
    → HoldsEmbedded id c
merge_relations-HoldsEmbedded o b c id h x =
    let same = merge_relations-ids o b c h in
    record {
      some_embedded = ground (arith, same, x.some_embedded);
      low = ground (arith, same, x.low);
      high = ground (arith, same, x.high);
    }

-- What the block has so far stays, and what the page has is added.
record Covers (o b c : TransactionBounds) : Type 0 where
  new_id : (id : ℕ) → HoldsId id o → HoldsId id c
  old_id : (id : ℕ) → HoldsId id b → HoldsId id c
  new_embedded : (id : ℕ) → 0 < o.transactions → HoldsEmbedded id o → HoldsEmbedded id c
  old_embedded : (id : ℕ) → HoldsEmbedded id b → HoldsEmbedded id c

merge-Covers : (o b c : TransactionBounds) → merge o b ≡ ok c → Covers o b c
unfolding merge
merge-Covers o b c h =
    let (m, first, second) = >>=-eq-ok (merge_transactions o b) _ h in
    record {
      new_id =
          λ id x. merge_relations-HoldsId o m c id second (merge_transactions-new o b m id first x);
      old_id =
          λ id x. merge_relations-HoldsId o m c id second (merge_transactions-old o b m id first x);
      new_embedded = λ id t x.
          merge_relations-HoldsEmbedded o m c id second
            (merge_transactions_embedded-new o b m id first t x);
      old_embedded = λ id x.
          merge_relations-HoldsEmbedded o m c id second
            (merge_transactions_embedded-old o b m id first x);
    }

module _ {A : Type 0} where
  block_bounds-Covers :
      (pages : List (PageRows A)) (b c : TransactionBounds)
      → block_bounds pages b ≡ ok c
      → ((id : ℕ) → HoldsId id b → HoldsId id c)
        × ((id : ℕ) → HoldsEmbedded id b → HoldsEmbedded id c)
  unfolding block_bounds
  block_bounds-Covers [] b c h = (λ id x. rw (← ok_injective h) x, λ id x. rw (← ok_injective h) x)
  block_bounds-Covers (rows ∷ pages) b c h =
      let (m, first, second) = >>=-eq-ok (merge (page_bounds rows) b) _ h in
      let now = merge-Covers (page_bounds rows) b m first in
      let later = block_bounds-Covers pages m c second in
      (λ id x. later.0 id (now.old_id id x), λ id x. later.1 id (now.old_embedded id x))

  -- The bounds of a page among those of the block.
  pub block_bounds-page :
      (before after : List (PageRows A)) (rows : PageRows A) (b c : TransactionBounds)
      → block_bounds (before ++ rows ∷ after) b ≡ ok c
      → ((id : ℕ) → HoldsId id (page_bounds rows) → HoldsId id c)
        × ((id : ℕ)
            → 0 < (page_bounds rows).transactions
            → HoldsEmbedded id (page_bounds rows)
            → HoldsEmbedded id c)
  unfolding block_bounds
  block_bounds-page [] after rows b c h =
      let (m, first, second) = >>=-eq-ok (merge (page_bounds rows) b) _ h in
      let now = merge-Covers (page_bounds rows) b m first in
      let later = block_bounds-Covers after m c second in
      (λ id x. later.0 id (now.new_id id x), λ id t x. later.1 id (now.new_embedded id t x))
  block_bounds-page (p ∷ ps) after rows b c h =
      let (m, first, second) = >>=-eq-ok (merge (page_bounds p) b) _ h in
      block_bounds-page ps after rows m c second
