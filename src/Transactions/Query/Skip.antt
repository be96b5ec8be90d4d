-- ===== src/Transactions/Query/Skip.antt =====
-- A block whose directory does not match a query has no transaction that does.
use vtr.Prelude.{
  ℕ, ◌≤◌, ◌<◌, ◌≡◌, refl, sym, Bool, true, false, not, ◌&&◌, ◌||◌, Option, none, some, List, [],
  ◌∷◌, ◌++◌, map, elem, leb, ◌==◌, le→leb, eq→==, ==→eq, Bool-cases, inl, inr, arith,
}
use vtr.Error.{Result, ok, guard_ok}
use vtr.Transactions.Bounds.{Transaction, EmbeddedEvent, EmbeddedStage, Relation, TransactionBounds}
use vtr.Transactions.Query.{
  TransactionQuery, none_or, any_event, any_stage, matches_owner, matches, TransactionDirectory,
  directory_matches, Generator, validate_transaction, invalid_shape, invalid_events, invalid_stages,
  ends_early, invalid_own, invalid_embedded, invalid_blocks,
}
use vtr.Transactions.Query.Pages.{no_bounds, PageRows, block_bounds}
use vtr.Transactions.Query.Holds.{HoldsId, HoldsEmbedded, page_bounds-id, page_bounds-embedded}
use vtr.Transactions.Query.Merged.{block_bounds-page}

and_true : (a b : Bool) → (a && b) ≡ true → (a ≡ true) × (b ≡ true)
and_true true b h = (refl, h)
and_true false b h = cc

or_false : (a b : Bool) → (a || b) ≡ false → (a ≡ false) × (b ≡ false)
or_false true b h = cc
or_false false b h = (refl, h)

==-sym : (a b : ℕ) → (a == b) ≡ true → (b == a) ≡ true
==-sym a b h = eq→== b a (sym (==→eq a b h))

leb→lt : (a b : ℕ) → leb a b ≡ false → b < a
leb→lt a b h = ground arith

none_or-weaken :
    (test other : ℕ → Bool)
    → ((id : ℕ) → test id ≡ true → other id ≡ true)
    → (i : Option ℕ) → none_or test i ≡ true
    → none_or other i ≡ true
none_or-weaken test other f none h = refl
none_or-weaken test other f (some id) h = f id h

within : (low id high : ℕ) → low ≤ id → id ≤ high → (leb low id && leb id high) ≡ true
within low id high l h = rw (le→leb low id l, le→leb id high h) refl

HoldsId-within :
    {id : ℕ} {b : TransactionBounds} → HoldsId id b → (leb b.min_id id && leb id b.max_id) ≡ true
HoldsId-within {id = id} {b = b} h = within b.min_id id b.max_id h.low h.high

HoldsEmbedded-within :
    {id : ℕ} {b : TransactionBounds}
    → HoldsEmbedded id b
    → (leb b.min_embedded id && leb id b.max_embedded) ≡ true
HoldsEmbedded-within {id = id} {b = b} h = within b.min_embedded id b.max_embedded h.low h.high

HoldsId-some : {id : ℕ} {b : TransactionBounds} → HoldsId id b → not (b.transactions == 0) ≡ true
HoldsId-some {id = id} {b = b} h = ground (arith, h.some_transaction)

module _ {A : Type 0} where
  -- The identifiers that `matches` looks for are among the embedded ones.
  any_stage-elem :
      (ss : List (EmbeddedStage A)) (id : ℕ)
      → any_stage id ss ≡ true
      → elem id (map (λ s. s.id) ss) ≡ true
  unfolding any_stage elem
  any_stage-elem [] id h = h
  any_stage-elem (s ∷ ss) id h = elim (Bool-cases (s.id == id)) [
    | inl e ↦ rw (==-sym s.id id e) refl
    | inr e ↦ elim (Bool-cases (id == s.id)) [
      | inl f ↦ rw f refl
      | inr f ↦ rw f (any_stage-elem ss id (rw e at h))
    ]
  ]

  any-elem :
      (es : List (EmbeddedEvent A)) (ss : List (EmbeddedStage A)) (id : ℕ)
      → (any_event id es || any_stage id ss) ≡ true
      → elem id (map (λ e. e.id) es ++ map (λ s. s.id) ss) ≡ true
  unfolding any_event elem
  any-elem [] ss id h = any_stage-elem ss id h
  any-elem (e ∷ es) ss id h = elim (Bool-cases (id == e.id)) [
    | inl f ↦ rw f refl
    | inr f ↦ elim (Bool-cases (e.id == id)) [
      | inl g ↦ rw (==-sym e.id id g) refl
      | inr g ↦ rw f (any-elem es ss id (rw g at h))
    ]
  ]

  -- The embedded identifiers of a valid transaction are above its own.
  any_event_above :
      (es : List (EmbeddedEvent A)) (own strings id : ℕ)
      → invalid_events own strings es ≡ false
      → any_event id es ≡ true
      → own < id
  unfolding invalid_events any_event
  any_event_above [] own strings id valid h = cc
  any_event_above (e ∷ es) own strings id valid h =
      let parts =
        or_false (leb e.id own || leb strings e.name) (invalid_events own strings es) valid in
      elim (Bool-cases (e.id == id)) [
        | inl f ↦
            rw (==→eq e.id id f) at
              (leb→lt e.id own (or_false (leb e.id own) (leb strings e.name) parts.0).0)
        | inr f ↦ any_event_above es own strings id parts.1 (rw f at h)
      ]

  any_stage_above :
      (ss : List (EmbeddedStage A)) (own strings id : ℕ)
      → invalid_stages own strings ss ≡ false
      → any_stage id ss ≡ true
      → own < id
  unfolding invalid_stages any_stage
  any_stage_above [] own strings id valid h = cc
  any_stage_above (s ∷ ss) own strings id valid h =
      let parts =
        or_false
          (leb s.id own || (leb strings s.name || (leb strings s.lane || ends_early s.begin s.end)))
          (invalid_stages own strings ss) valid in
      elim (Bool-cases (s.id == id)) [
        | inl f ↦ rw (==→eq s.id id f) at (
            leb→lt s.id own
              (or_false (leb s.id own)
                (leb strings s.name || (leb strings s.lane || ends_early s.begin s.end)) parts.0).0)
        | inr f ↦ any_stage_above ss own strings id parts.1 (rw f at h)
      ]

  any_above :
      (tx : Transaction A) (strings id : ℕ)
      → invalid_events tx.id strings tx.events ≡ false
      → invalid_stages tx.id strings tx.stages ≡ false
      → (any_event id tx.events || any_stage id tx.stages) ≡ true
      → tx.id < id
  any_above tx strings id es ss h = elim (Bool-cases (any_event id tx.events)) [
    | inl e ↦ any_event_above tx.events tx.id strings id es e
    | inr e ↦ any_stage_above tx.stages tx.id strings id ss (rw e at h)
  ]

  -- What validation says of the embedded records.
  shape_above :
      (tx : Transaction A) (g : Generator) (strings id : ℕ)
      → invalid_shape tx g strings ≡ false
      → (any_event id tx.events || any_stage id tx.stages) ≡ true
      → tx.id < id
  unfolding invalid_shape invalid_embedded
  shape_above tx g strings id h found =
      let rest =
        or_false (invalid_own tx g) (invalid_embedded tx strings || invalid_blocks tx g) h in
      let embedded = or_false (invalid_embedded tx strings) (invalid_blocks tx g) rest.1 in
      let both =
        or_false (invalid_events tx.id strings tx.events) (invalid_stages tx.id strings tx.stages)
          embedded.0 in
      any_above tx strings id both.0 both.1 found

  matches_parts :
      (q : TransactionQuery) (tx : Transaction A)
      → matches q tx ≡ true
      → (none_or (λ id. id == tx.generator) q.generator ≡ true)
        × ((none_or (λ id. id == tx.id) q.id ≡ true)
            × (none_or (λ id. any_event id tx.events || any_stage id tx.stages) q.embedded_id
                ≡ true))
  unfolding matches matches_owner
  matches_parts q tx h =
      let both =
        and_true (matches_owner q tx)
          (none_or (λ id. any_event id tx.events || any_stage id tx.stages) q.embedded_id) h in
      let ends = and_true (leb tx.begin q.end) _ both.0 in
      let begins = and_true (leb q.begin tx.end) _ ends.1 in
      let generators = and_true (none_or (λ id. id == tx.generator) q.generator) _ begins.1 in
      let parents = and_true (none_or (λ id. id == tx.parent) q.parent) _ generators.1 in
      (generators.0, (parents.1, both.1))

  module _ {Page : Type 0} (validate_attributes : A → ℕ → Result (Unit {0})) where
    -- A transaction that validation accepted is in a page of a block: the directory's generators have its own, and
    -- the directory's bounds are those that the encoder computed for the block's pages. When a query matches the
    -- transaction, the directory matches the query, so the block is not skipped.
    pub directory_matches-matches :
        (d : TransactionDirectory Page) (q : TransactionQuery) (before after : List (PageRows A))
        (front back : List (Transaction A)) (rs : List (Relation A)) (tx : Transaction A)
        (g : Generator) (strings : ℕ)
        → validate_transaction validate_attributes tx g strings ≡ ok tt
        → elem tx.generator d.ids ≡ true
        → block_bounds
            (before ++ record { transactions = front ++ tx ∷ back; relations = rs } ∷ after)
            no_bounds
          ≡ ok d.bounds
        → matches q tx ≡ true
        → directory_matches d q ≡ true
    unfolding validate_transaction directory_matches
    directory_matches-matches d q before after front back rs tx g strings valid listed bounds h =
        let shape = guard_ok (invalid_shape tx g strings) _ _ valid in
        let parts = matches_parts q tx h in
        let page =
          block_bounds-page before after
            (record { transactions = front ++ tx ∷ back; relations = rs }) no_bounds d.bounds
            bounds in
        let of_page = page_bounds-id front back rs tx in
        let own = page.0 tx.id of_page in
        let generators =
          none_or-weaken _ (λ id. elem id d.ids) (λ id e. rw (==→eq id tx.generator e) listed)
            q.generator parts.0 in
        let ids =
          none_or-weaken _ (λ id. leb d.bounds.min_id id && leb id d.bounds.max_id)
            (λ id e. rw (==→eq id tx.id e) (HoldsId-within own)) q.id parts.1.0 in
        let embedded =
          none_or-weaken _ (λ id. leb d.bounds.min_embedded id && leb id d.bounds.max_embedded)
            (λ id e.
              let above = shape_above tx g strings id shape.0 e in
              HoldsEmbedded-within (
                page.1 id of_page.some_transaction (
                  page_bounds-embedded front back rs tx id (omega (arith, above))
                    (any-elem tx.events tx.stages id e))))
            q.embedded_id parts.1.1 in
        rw (HoldsId-some own, generators, ids, embedded) refl
