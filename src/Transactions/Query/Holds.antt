-- ===== src/Transactions/Query/Holds.antt =====
-- The identifiers that the bounds of a page cover: those of its transactions, and of the records in these.
use vtr.Prelude.{
  ℕ, ◌≤◌, ◌<◌, ◌≡◌, true, List, [], ◌∷◌, ◌++◌, elem, ◌==◌, ==→eq, Bool-cases, inl, inr, arith,
}
use vtr.Transactions.Bounds.{
  Transaction, Relation, TransactionBounds, add_embedded, add_all_embedded, add_owner, add_parent,
  embedded_ids, add_transaction, add_relation,
}
use vtr.Transactions.Query.Pages.{no_bounds, add_transactions, add_relations, page_bounds}

pub record HoldsId (id : ℕ) (b : TransactionBounds) : Type 0 where
  pub some_transaction : 0 < b.transactions
  pub low : b.min_id ≤ id
  pub high : id ≤ b.max_id

pub record HoldsEmbedded (id : ℕ) (b : TransactionBounds) : Type 0 where
  pub some_embedded : 0 < b.max_embedded
  pub low : b.min_embedded ≤ id
  pub high : id ≤ b.max_embedded

-- What the parts of `add_transaction` keep of the fields.
add_embedded-HoldsId :
    (i id : ℕ) (b : TransactionBounds) → HoldsId id b → HoldsId id (add_embedded i b)
unfolding add_embedded
add_embedded-HoldsId i id b h = record {
  some_transaction = h.some_transaction;
  low = h.low;
  high = h.high;
}

add_all-HoldsId :
    (is : List ℕ) (id : ℕ) (b : TransactionBounds)
    → HoldsId id b
    → HoldsId id (add_all_embedded is b)
unfolding add_all_embedded
add_all-HoldsId [] id b h = h
add_all-HoldsId (i ∷ is) id b h =
    add_all-HoldsId is id (add_embedded i b) (add_embedded-HoldsId i id b h)

add_parent-HoldsId : (p id : ℕ) (b : TransactionBounds) → HoldsId id b → HoldsId id (add_parent p b)
unfolding add_parent
add_parent-HoldsId p id b h = record {
  some_transaction = ground (arith, h.some_transaction);
  low = ground (arith, h.low);
  high = ground (arith, h.high);
}

add_embedded-keeps :
    (i id : ℕ) (b : TransactionBounds) → HoldsEmbedded id b → HoldsEmbedded id (add_embedded i b)
unfolding add_embedded
add_embedded-keeps i id b h = record {
  some_embedded = ground (arith, h.some_embedded);
  low = ground (arith, h.some_embedded, h.low);
  high = ground (arith, h.high);
}

add_embedded-new : (i : ℕ) (b : TransactionBounds) → 0 < i → HoldsEmbedded i (add_embedded i b)
unfolding add_embedded
add_embedded-new i b h = record {
  some_embedded = ground arith;
  low = ground arith;
  high = ground arith;
}

add_all-keeps :
    (is : List ℕ) (id : ℕ) (b : TransactionBounds)
    → HoldsEmbedded id b
    → HoldsEmbedded id (add_all_embedded is b)
unfolding add_all_embedded
add_all-keeps [] id b h = h
add_all-keeps (i ∷ is) id b h = add_all-keeps is id (add_embedded i b) (add_embedded-keeps i id b h)

add_all-new :
    (is : List ℕ) (id : ℕ) (b : TransactionBounds)
    → 0 < id
    → elem id is ≡ true
    → HoldsEmbedded id (add_all_embedded is b)
unfolding add_all_embedded elem
add_all-new [] id b pos h = cc
add_all-new (i ∷ is) id b pos h = elim (Bool-cases (id == i)) [
  | inl e ↦
      rw (← ==→eq id i e) (add_all-keeps is id (add_embedded id b) (add_embedded-new id b pos))
  | inr e ↦ add_all-new is id (add_embedded i b) pos (rw e at h)
]

add_parent-keeps :
    (p id : ℕ) (b : TransactionBounds) → HoldsEmbedded id b → HoldsEmbedded id (add_parent p b)
unfolding add_parent
add_parent-keeps p id b h = record {
  some_embedded = ground (arith, h.some_embedded);
  low = ground (arith, h.low);
  high = ground (arith, h.high);
}

module _ {A : Type 0} where
  add_owner-new : (tx : Transaction A) (b : TransactionBounds) → HoldsId tx.id (add_owner tx b)
  unfolding add_owner
  add_owner-new tx b = record {
    some_transaction = omega arith;
    low = ground arith;
    high = omega arith;
  }

  add_owner-HoldsId :
      (tx : Transaction A) (id : ℕ) (b : TransactionBounds)
      → HoldsId id b
      → HoldsId id (add_owner tx b)
  unfolding add_owner
  add_owner-HoldsId tx id b h = record {
    some_transaction = omega arith;
    low = ground (arith, h.some_transaction, h.low);
    high = omega (arith, h.high);
  }

  add_owner-keeps :
      (tx : Transaction A) (id : ℕ) (b : TransactionBounds)
      → HoldsEmbedded id b
      → HoldsEmbedded id (add_owner tx b)
  unfolding add_owner
  add_owner-keeps tx id b h = record { some_embedded = h.some_embedded; low = h.low; high = h.high }

  add_transactions-HoldsId :
      (txs : List (Transaction A)) (id : ℕ) (b : TransactionBounds)
      → HoldsId id b
      → HoldsId id (add_transactions txs b)
  unfolding add_transaction add_transactions
  add_transactions-HoldsId [] id b h = h
  add_transactions-HoldsId (tx ∷ txs) id b h =
      add_transactions-HoldsId txs id (add_transaction tx b) (
        add_all-HoldsId (embedded_ids tx) id (add_parent tx.parent (add_owner tx b))
          (add_parent-HoldsId tx.parent id (add_owner tx b) (add_owner-HoldsId tx id b h)))

  add_transactions-keeps :
      (txs : List (Transaction A)) (id : ℕ) (b : TransactionBounds)
      → HoldsEmbedded id b
      → HoldsEmbedded id (add_transactions txs b)
  unfolding add_transaction add_transactions
  add_transactions-keeps [] id b h = h
  add_transactions-keeps (tx ∷ txs) id b h = add_transactions-keeps txs id (add_transaction tx b) (
      add_all-keeps (embedded_ids tx) id (add_parent tx.parent (add_owner tx b))
        (add_parent-keeps tx.parent id (add_owner tx b) (add_owner-keeps tx id b h)))

  -- A transaction of the block, and those around it.
  add_transactions-id :
      (before after : List (Transaction A)) (tx : Transaction A) (b : TransactionBounds)
      → HoldsId tx.id (add_transactions (before ++ tx ∷ after) b)
  unfolding add_transaction add_transactions
  add_transactions-id [] after tx b = add_transactions-HoldsId after tx.id (add_transaction tx b) (
      add_all-HoldsId (embedded_ids tx) tx.id (add_parent tx.parent (add_owner tx b))
        (add_parent-HoldsId tx.parent tx.id (add_owner tx b) (add_owner-new tx b)))
  add_transactions-id (t ∷ ts) after tx b = add_transactions-id ts after tx (add_transaction t b)

  add_transactions-embedded :
      (before after : List (Transaction A)) (tx : Transaction A) (id : ℕ) (b : TransactionBounds)
      → 0 < id
      → elem id (embedded_ids tx) ≡ true
      → HoldsEmbedded id (add_transactions (before ++ tx ∷ after) b)
  unfolding add_transaction add_transactions
  add_transactions-embedded [] after tx id b pos h =
      add_transactions-keeps after id (add_transaction tx b)
        (add_all-new (embedded_ids tx) id (add_parent tx.parent (add_owner tx b)) pos h)
  add_transactions-embedded (t ∷ ts) after tx id b pos h =
      add_transactions-embedded ts after tx id (add_transaction t b) pos h

  add_relations-HoldsId :
      (rs : List (Relation A)) (id : ℕ) (b : TransactionBounds)
      → HoldsId id b
      → HoldsId id (add_relations rs b)
  unfolding add_relations add_relation
  add_relations-HoldsId [] id b h = h
  add_relations-HoldsId (r ∷ rs) id b h =
      add_relations-HoldsId rs id (add_relation r b)
        (record { some_transaction = h.some_transaction; low = h.low; high = h.high })

  add_relations-keeps :
      (rs : List (Relation A)) (id : ℕ) (b : TransactionBounds)
      → HoldsEmbedded id b
      → HoldsEmbedded id (add_relations rs b)
  unfolding add_relations add_relation
  add_relations-keeps [] id b h = h
  add_relations-keeps (r ∷ rs) id b h =
      add_relations-keeps rs id (add_relation r b)
        (record { some_embedded = h.some_embedded; low = h.low; high = h.high })

  pub page_bounds-id :
      (before after : List (Transaction A)) (rs : List (Relation A)) (tx : Transaction A)
      → HoldsId tx.id (page_bounds (record { transactions = before ++ tx ∷ after; relations = rs }))
  unfolding page_bounds
  page_bounds-id before after rs tx =
      add_relations-HoldsId rs tx.id _ (add_transactions-id before after tx no_bounds)

  pub page_bounds-embedded :
      (before after : List (Transaction A)) (rs : List (Relation A)) (tx : Transaction A) (id : ℕ)
      → 0 < id
      → elem id (embedded_ids tx) ≡ true
      → HoldsEmbedded id
          (page_bounds (record { transactions = before ++ tx ∷ after; relations = rs }))
  unfolding page_bounds
  page_bounds-embedded before after rs tx id pos h =
      add_relations-keeps rs id _ (add_transactions-embedded before after tx id no_bounds pos h)
