-- ===== src/Transactions/Query/Pages.antt =====
-- vtr-rs/src/transactions/mod.rs: the bounds that `encode_transaction_block` writes, of each page and of the block.
use vtr.Prelude.{List, [], ◌∷◌}
use vtr.Error.{Result, ok, ◌>>=◌}
use vtr.Transactions.Bounds.{
  Transaction, Relation, TransactionBounds, add_transaction, add_relation, merge,
}

-- `TransactionBounds::default()`
abbrev pub no_bounds : TransactionBounds
no_bounds = record {
  transactions = 0;
  relations = 0;
  min_id = 0;
  max_id = 0;
  begin = 0;
  end = 0;
  min_parent = 0;
  max_parent = 0;
  min_embedded = 0;
  max_embedded = 0;
  min_from = 0;
  max_from = 0;
  min_to = 0;
  max_to = 0;
}

-- What one page holds: rows of the sorted transactions, and relations after the last of these.
pub record PageRows (A : Type 0) : Type 0 where
  pub transactions : List (Transaction A)
  pub relations : List (Relation A)

module _ {A : Type 0} where
  unfoldable pub add_transactions : List (Transaction A) → TransactionBounds → TransactionBounds
  add_transactions [] b = b
  add_transactions (tx ∷ txs) b = add_transactions txs (add_transaction tx b)

  unfoldable pub add_relations : List (Relation A) → TransactionBounds → TransactionBounds
  add_relations [] b = b
  add_relations (r ∷ rs) b = add_relations rs (add_relation r b)

  unfoldable pub page_bounds : PageRows A → TransactionBounds
  unfolding add_transactions add_relations
  page_bounds rows = add_relations rows.relations (add_transactions rows.transactions no_bounds)

  -- `save` merges each page's bounds into the block's.
  unfoldable pub block_bounds : List (PageRows A) → TransactionBounds → Result TransactionBounds
  unfolding page_bounds merge
  block_bounds [] b = ok b
  block_bounds (rows ∷ pages) b = do b' ← merge (page_bounds rows) b; block_bounds pages b'
