-- ===== src/Transactions/Bounds/RoundTrip.antt =====
-- The bytes of `TransactionBounds` are read back.
use vtr.Prelude.{ℕ, ◌≡◌, false, List, [], ◌++◌, append_assoc}
use vtr.Prelude.Bytes.{IsU64, to_le}
use vtr.Error.{ok}
use vtr.Wire.Cursor.Laws.{u64-to_le}
use vtr.Transactions.Bounds.{TransactionBounds, write, is_invalid, read}

-- Every field is a `u64`.
pub record HasU64 (b : TransactionBounds) : Type 0 where
  pub transactions : IsU64 b.transactions
  pub relations : IsU64 b.relations
  pub min_id : IsU64 b.min_id
  pub max_id : IsU64 b.max_id
  pub begin : IsU64 b.begin
  pub end : IsU64 b.end
  pub min_parent : IsU64 b.min_parent
  pub max_parent : IsU64 b.max_parent
  pub min_embedded : IsU64 b.min_embedded
  pub max_embedded : IsU64 b.max_embedded
  pub min_from : IsU64 b.min_from
  pub max_from : IsU64 b.max_from
  pub min_to : IsU64 b.min_to
  pub max_to : IsU64 b.max_to

-- The fields' bytes with what follows, in the order in which `read` takes them.
write_regroup :
    (b : TransactionBounds) (rest : List ℕ)
    → write b [] ++ rest
      ≡ to_le 8 b.transactions
        ++ (to_le 8 b.relations
            ++ (to_le 8 b.min_id
                ++ (to_le 8 b.max_id
                    ++ (to_le 8 b.begin
                        ++ (to_le 8 b.end
                            ++ (to_le 8 b.min_parent
                                ++ (to_le 8 b.max_parent
                                    ++ (to_le 8 b.min_embedded
                                        ++ (to_le 8 b.max_embedded
                                            ++ (to_le 8 b.min_from
                                                ++ (to_le 8 b.max_from
                                                    ++ (to_le 8 b.min_to
                                                        ++ (to_le 8 b.max_to ++ rest)))))))))))))
unfolding write
write_regroup b rest = simp append_assoc

-- Bounds that `write` wrote are read back, and the cursor stands behind them: all fields are `u64` and the
-- guard of `read` accepts them.
pub read-write :
    (b : TransactionBounds) (rest : List ℕ)
    → HasU64 b
    → is_invalid b ≡ false
    → read (write b [] ++ rest) ≡ ok (b, rest)
unfolding read
read-write b rest h valid = rw (
  write_regroup b rest,
  u64-to_le b.transactions _ h.transactions,
  u64-to_le b.relations _ h.relations,
  u64-to_le b.min_id _ h.min_id,
  u64-to_le b.max_id _ h.max_id,
  u64-to_le b.begin _ h.begin,
  u64-to_le b.end _ h.end,
  u64-to_le b.min_parent _ h.min_parent,
  u64-to_le b.max_parent _ h.max_parent,
  u64-to_le b.min_embedded _ h.min_embedded,
  u64-to_le b.max_embedded _ h.max_embedded,
  u64-to_le b.min_from _ h.min_from,
  u64-to_le b.max_from _ h.max_from,
  u64-to_le b.min_to _ h.min_to,
  u64-to_le b.max_to rest h.max_to,
  valid,
)
