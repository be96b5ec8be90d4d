-- ===== src/Transactions/Bounds/Cover.antt =====
-- What `TransactionBounds` say of the transactions and relations that were added or merged.
use vtr.Prelude.{
  ℕ, ◌+◌, ◌≤◌, ◌≡◌, sym, ap, ◌∙◌, Option, some, none, min, max, ◌==◌, if◌then◌else◌, arith,
}
use vtr.Error.{ok, >>=-eq-ok}
use vtr.Transactions.Bounds.{
  TransactionBounds, merge_parents, merge_embedded, merge_owners, merge_transactions,
  merge_relations, merge,
}

-- The times that bounds cover.
record Spans (begin end : ℕ) (b : TransactionBounds) : Type 0 where
  pub starts : b.begin ≤ begin
  pub ends : end ≤ b.end

merge_parents-same :
    (o b : TransactionBounds)
    → ((merge_parents o b).begin ≡ b.begin) × ((merge_parents o b).end ≡ b.end)
unfolding merge_parents
merge_parents-same o b = (ground arith, ground arith)

merge_embedded-same :
    (o b : TransactionBounds)
    → ((merge_embedded o b).begin ≡ b.begin) × ((merge_embedded o b).end ≡ b.end)
unfolding merge_embedded
merge_embedded-same o b = (ground arith, ground arith)

merge_relations-same :
    (o b c : TransactionBounds)
    → merge_relations o b ≡ ok c
    → (c.begin ≡ b.begin) × ((c.end ≡ b.end) × (c.transactions ≡ b.transactions))
unfolding merge_relations
merge_relations-same o b c h = (ground arith, (ground arith, ground arith))

-- The interval of the transactions, where there are any; and so for a relation's two ends.
abbrev pub interval : TransactionBounds → Option (ℕ × ℕ)
interval b = if b.transactions == 0 then none else some (b.begin, b.end)

abbrev pub sources : TransactionBounds → Option (ℕ × ℕ)
sources b = if b.relations == 0 then none else some (b.min_from, b.max_from)

abbrev pub targets : TransactionBounds → Option (ℕ × ℕ)
targets b = if b.relations == 0 then none else some (b.min_to, b.max_to)

-- The least interval that holds both.
abbrev pub hull : Option (ℕ × ℕ) → Option (ℕ × ℕ) → Option (ℕ × ℕ)
hull none q = q
hull (some p) none = some p
hull (some (lo, hi)) (some (lo', hi')) = some (min lo lo', max hi hi')

merge_transactions-interval :
    (o b c : TransactionBounds)
    → merge_transactions o b ≡ ok c
    → (interval c ≡ hull (interval b) (interval o))
      × (c.transactions ≡ b.transactions + o.transactions)
unfolding merge_transactions merge_owners
merge_transactions-interval o b c h =
    let parents = merge_parents-same o (merge_owners o b) in
    let embedded = merge_embedded-same o (merge_parents o (merge_owners o b)) in
    (ground (arith, parents, embedded), ground (arith, parents, embedded))

merge_relations_ends :
    (o b c : TransactionBounds)
    → o.min_from ≤ o.max_from
    → o.min_to ≤ o.max_to
    → (b.relations ≡ 0 → (b.max_from ≡ 0) × (b.max_to ≡ 0))
    → merge_relations o b ≡ ok c
    → (sources c ≡ hull (sources b) (sources o))
      × ((targets c ≡ hull (targets b) (targets o)) × (c.relations ≡ b.relations + o.relations))
unfolding merge_relations
merge_relations_ends o b c from to empty h = (ground arith, (ground arith, ground arith))

-- The fields that describe relations.
abbrev relation_fields : TransactionBounds → ℕ × (ℕ × (ℕ × (ℕ × ℕ)))
relation_fields b = (b.relations, (b.min_from, (b.max_from, (b.min_to, b.max_to))))

abbrev sources_of : ℕ × (ℕ × (ℕ × (ℕ × ℕ))) → Option (ℕ × ℕ)
sources_of r = if r.0 == 0 then none else some (r.1.0, r.1.1.0)

abbrev targets_of : ℕ × (ℕ × (ℕ × (ℕ × ℕ))) → Option (ℕ × ℕ)
targets_of r = if r.0 == 0 then none else some (r.1.1.1.0, r.1.1.1.1)

interval_same :
    (b c : TransactionBounds)
    → c.begin ≡ b.begin
    → c.end ≡ b.end
    → c.transactions ≡ b.transactions
    → interval c ≡ interval b
interval_same b c p q r = cc

parents_relations :
    (o b : TransactionBounds) → relation_fields (merge_parents o b) ≡ relation_fields b
unfolding merge_parents
parents_relations o b = ground arith

embedded_relations :
    (o b : TransactionBounds) → relation_fields (merge_embedded o b) ≡ relation_fields b
unfolding merge_embedded
embedded_relations o b = ground arith

merge_transactions_relations :
    (o b c : TransactionBounds)
    → merge_transactions o b ≡ ok c
    → relation_fields c ≡ relation_fields b
unfolding merge_transactions merge_owners
merge_transactions_relations o b c h = ground (
  arith,
  embedded_relations o (merge_parents o (merge_owners o b)),
  parents_relations o (merge_owners o b),
)

-- What the merged bounds `c` say, from what `b` and `o` said.
pub record IsMerged (o b c : TransactionBounds) : Type 0 where
  pub times : interval c ≡ hull (interval b) (interval o)
  pub from : sources c ≡ hull (sources b) (sources o)
  pub to : targets c ≡ hull (targets b) (targets o)
  pub transactions : c.transactions ≡ b.transactions + o.transactions
  pub relations : c.relations ≡ b.relations + o.relations

-- `merge` of bounds whose minima are no greater than their maxima, into bounds that are 0 where they have no
-- relation: the counts add up, and the interval of the transactions and the ranges of the two ends of the
-- relations become the least that hold both.
pub merge-IsMerged :
    (o b c : TransactionBounds)
    → o.min_from ≤ o.max_from
    → o.min_to ≤ o.max_to
    → (b.relations ≡ 0 → (b.max_from ≡ 0) × (b.max_to ≡ 0))
    → merge o b ≡ ok c
    → IsMerged o b c
unfolding merge
merge-IsMerged o b c from to empty h =
    let (b', first, second) = >>=-eq-ok (merge_transactions o b) _ h in
    let (times, count) = merge_transactions-interval o b b' first in
    let kept = merge_transactions_relations o b b' first in
    let (starts, (stops, same_count)) = merge_relations-same o b' c second in
    let (s, (t, relations)) =
      merge_relations_ends o b' c from to
        (λ z.
          let (f, t) = empty (sym (ap (λ r. r.0) kept) ∙ z) in
          (ap (λ r. r.1.1.0) kept ∙ f, ap (λ r. r.1.1.1.1) kept ∙ t))
        second in
    record {
      times = interval_same b' c starts stops same_count ∙ times;
      from = s ∙ ap (λ r. hull (sources_of r) (sources o)) kept;
      to = t ∙ ap (λ r. hull (targets_of r) (targets o)) kept;
      transactions = same_count ∙ count;
      relations = relations ∙ ap (λ r. r.0 + o.relations) kept;
    }
