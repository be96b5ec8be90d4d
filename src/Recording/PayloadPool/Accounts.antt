-- ===== src/Recording/PayloadPool/Accounts.antt =====
-- The counter of the pool's bytes is exact, whatever the threads that return buffers do in between.
use vtr.Prelude.{
  ℕ, ◌+◌, ◌-◌, ◌^◌, ◌≤◌, ◌<◌, ◌≡◌, refl, sym, ap, ◌∙◌, ◌||◌, Option, none, some, List, [], ◌∷◌,
  ◌++◌, Bool-cases, inl, inr, ltb, leb, ◌==◌, le→ltb, arith,
}
use mathlib.Core.Path.{subst}
use vtr.Recording.PayloadPool.{
  Shared, Pool, total, retain, usable, admit_loop, admit, exchange, recycle_locked, new_shared,
  new_pool, fetch_sub, is_empty, refill, pop, pop_from, release, checked_out, take_buffer,
  retained_bytes, drop,
}

-- The shared part, the pool until it is dropped, and what is admitted but not yet put back.
pub record World : Type 0 where
  pub shared : Shared
  pub pool : Option Pool
  pub in_flight : List (List ℕ)

abbrev pub new_world : ℕ → World
new_world limit = record { shared = new_shared limit; pool = some (new_pool limit); in_flight = [] }

abbrev pub refilled : World → Pool → World
refilled w p = record w { pool = some (refill p w.shared).0; shared = (refill p w.shared).1 }

abbrev pub taken : World → Pool → World
taken w p = record w {
  pool = some (take_buffer p w.shared).1.0;
  shared = (take_buffer p w.shared).1.1;
}

-- One exchange, or one locked section, of some thread.
pub data Step : World → World → Type 0 where
  admit_step :
      (w : World) (buffers failures : List ℕ) (current : ℕ)
      → w.shared.reserved ≡ (admit w.shared.limit buffers current failures).current
      → Step w (record w {
        shared = exchange (admit w.shared.limit buffers current failures) w.shared;
        in_flight = (admit w.shared.limit buffers current failures).buffers ∷ w.in_flight;
      })
  put_back_step :
      (w : World) (front rest : List (List ℕ)) (buffers : List ℕ)
      → w.in_flight ≡ front ++ buffers ∷ rest
      → Step w (record w { shared = recycle_locked buffers w.shared; in_flight = front ++ rest })
  refill_step : (w : World) (p : Pool) → w.pool ≡ some p → Step w (refilled w p)
  take_step : (w : World) (p : Pool) → w.pool ≡ some p → Step w (taken w p)
  drop_step :
      (w : World) (p : Pool)
      → w.pool ≡ some p
      → Step w (record w { shared = drop p w.shared; pool = none })

pub data Run : World → World → Type 0 where
  stay : {w : World} → Run w w
  onward : {u v w : World} → Step u v → Run v w → Run u w

abbrev pub total_all : List (List ℕ) → ℕ
total_all [] = 0
total_all (b ∷ bs) = total b + total_all bs

-- What the counter holds for the pool: the buffers it has, and the credits it has not yet given back.
abbrev charged : Option Pool → ℕ
charged none = 0
charged (some p) = p.bytes + p.pending_release

abbrev IsCounted : Option Pool → Type 0
IsCounted none = Unit
IsCounted (some p) = p.bytes ≡ total p.available

record IsWorld (limit : ℕ) (w : World) : Type 0 where
  limit_kept : w.shared.limit ≡ limit
  within : w.shared.reserved ≤ limit
  wide : limit < 2 ^ 64
  sum : w.shared.reserved ≡ charged w.pool + (total w.shared.returned + total_all w.in_flight)
  counted : IsCounted w.pool

total-append : (xs ys : List ℕ) → total (xs ++ ys) ≡ total xs + total ys
unfolding total
total-append [] ys = omega arith
total-append (x ∷ xs) ys = omega (arith, total-append xs ys)

total_all-middle :
    (front rest : List (List ℕ)) (b : List ℕ)
    → total_all (front ++ b ∷ rest) ≡ total b + total_all (front ++ rest)
total_all-middle [] rest b = refl
total_all-middle (f ∷ fs) rest b = omega (arith, total_all-middle fs rest b)

retain_lem :
    (room : ℕ) (cs : List ℕ)
    → (total (retain room cs).0 ≡ (retain room cs).1) × ((retain room cs).1 ≤ room)
unfolding retain total
retain_lem room [] = (refl, omega arith)
retain_lem room (c ∷ cs) =
    let kept = retain_lem (room - c) cs in
    let others = retain_lem room cs in
    (
      elim (Bool-cases (ltb room c)) [
        | inl e ↦ rw e others.0
        | inr e ↦ rw e (omega (arith, kept.0))
      ],
      elim (Bool-cases (ltb room c)) [
        | inl e ↦ rw e others.1
        | inr e ↦ rw e (ground (arith, kept.1))
      ],
    )

admit_loop_lem :
    (limit current : ℕ) (failures buffers : List ℕ)
    → (let a = admit_loop limit buffers current failures in
        (total a.buffers ≡ a.bytes) × (a.bytes ≤ limit - a.current))
unfolding admit_loop
admit_loop_lem limit current [] buffers = retain_lem (limit - current) buffers
admit_loop_lem limit current (next ∷ failures) buffers =
    let kept = retain_lem (limit - current) buffers in
    let again = admit_loop_lem limit next failures (retain (limit - current) buffers).0 in
    (
      elim (Bool-cases ((retain (limit - current) buffers).1 == 0)) [
        | inl e ↦ rw e (ground (arith, kept.0))
        | inr e ↦ rw e again.0
      ],
      elim (Bool-cases ((retain (limit - current) buffers).1 == 0)) [
        | inl e ↦ rw e (omega arith)
        | inr e ↦ rw e again.1
      ],
    )

admit_lem :
    (limit current : ℕ) (failures buffers : List ℕ)
    → (let a = admit limit buffers current failures in
        (total a.buffers ≡ a.bytes) × (a.bytes ≤ limit - a.current))
unfolding admit
admit_lem limit current failures buffers =
    admit_loop_lem limit current failures (usable limit buffers)

fetch_sub_lem : (a n : ℕ) → a < 2 ^ 64 → n ≤ a → fetch_sub a n ≡ a - n
unfolding fetch_sub
fetch_sub_lem a n wide le = omega (arith, wide, le)

pop_from_lem : (c : ℕ) (cs : List ℕ) → total (c ∷ cs) ≡ (pop_from c cs).1 + total (pop_from c cs).0
unfolding pop_from total
pop_from_lem c [] = refl
pop_from_lem c (d ∷ ds) = omega (arith, pop_from_lem d ds)

release-accounts :
    (rest : List ℕ) (p : Pool) (s : Shared)
    → s.reserved < 2 ^ 64
    → p.bytes + p.pending_release ≤ s.reserved
    → (let r = release rest p s in
        (r.1.reserved + (p.bytes + p.pending_release)
          ≡ s.reserved + (r.0.bytes + r.0.pending_release))
        × (r.1.limit ≡ s.limit)
        × (r.1.returned ≡ s.returned)
        × (r.0.bytes ≡ p.bytes)
        × (r.0.available ≡ p.available)
        × (r.1.reserved ≤ s.reserved))
unfolding release
release-accounts rest p s wide le =
    elim (Bool-cases (is_empty rest || leb p.release_threshold p.pending_release)) [
      | inl e ↦
          let sub = fetch_sub_lem s.reserved p.pending_release wide (omega arith) in
          rw e (omega (arith, sub), refl, refl, refl, refl, omega (arith, sub))
      | inr e ↦ rw e (refl, refl, refl, refl, refl, omega arith)
    ]

-- `take_buffer` moves bytes from the pool's buffers to its credits, or gives the credits back.
record IsTaken (p : Pool) (s : Shared) (p' : Pool) (s' : Shared) : Type 0 where
  moved : s'.reserved + (p.bytes + p.pending_release) ≡ s.reserved + (p'.bytes + p'.pending_release)
  limit_kept : s'.limit ≡ s.limit
  returned_kept : s'.returned ≡ s.returned
  counted : p'.bytes ≡ total p'.available
  less : s'.reserved ≤ s.reserved

take_buffer-IsTaken :
    (p : Pool) (s : Shared)
    → s.reserved < 2 ^ 64
    → p.bytes ≡ total p.available
    → p.bytes + p.pending_release ≤ s.reserved
    → IsTaken p s (take_buffer p s).1.0 (take_buffer p s).1.1
unfolding take_buffer checked_out pop
take_buffer-IsTaken p s wide counted le = by_buffers p.available refl
  where
    by_buffers :
        (cs : List ℕ)
        → p.available ≡ cs
        → IsTaken p s
            (checked_out (pop p.available) p s).1.0
            (checked_out (pop p.available) p s).1.1
    by_buffers [] e = rw e (record {
      moved = refl;
      limit_kept = refl;
      returned_kept = refl;
      counted = counted ∙ ap total e;
      less = omega arith;
    })
    by_buffers (c ∷ cs) e =
        let sum = pop_from_lem c cs in
        let whole : p.bytes ≡ total (c ∷ cs) = counted ∙ ap total e in
        let q : Pool = record p {
          available = (pop_from c cs).0;
          bytes = p.bytes - (pop_from c cs).1;
          pending_release = p.pending_release + (pop_from c cs).1;
        } in
        let (moved, limit, returned, bytes, available, less) =
          release-accounts (pop_from c cs).0 q s wide (omega (arith, sum, whole)) in
        rw e (record {
          moved = omega (arith, moved, sum, whole);
          limit_kept = limit;
          returned_kept = returned;
          counted = bytes ∙ (omega (arith, sum, whole)) ∙ ap total (sym available);
          less = less;
        })

-- A pool's shared part after `refill`.
refill-IsRefilled :
    (p : Pool) (s : Shared)
    → p.bytes ≡ total p.available
    → (let r = refill p s in
        (r.0.bytes + total r.1.returned ≡ p.bytes + total s.returned)
        × (r.0.pending_release ≡ p.pending_release)
        × (r.1.reserved ≡ s.reserved)
        × (r.1.limit ≡ s.limit)
        × (r.0.bytes ≡ total r.0.available))
unfolding refill total
refill-IsRefilled p s counted = by_buffers p.available refl
  where
    by_buffers :
        (cs : List ℕ)
        → p.available ≡ cs
        → (let r = refill p s in
            (r.0.bytes + total r.1.returned ≡ p.bytes + total s.returned)
            × (r.0.pending_release ≡ p.pending_release)
            × (r.1.reserved ≡ s.reserved)
            × (r.1.limit ≡ s.limit)
            × (r.0.bytes ≡ total r.0.available))
    by_buffers [] e = elim (Bool-cases s.pending) [
      | inl k ↦ rw (e, k) (omega (arith, counted, ap total e), refl, refl, refl, refl)
      | inr k ↦ rw (e, k) (refl, refl, refl, refl, rw e at counted)
    ]
    by_buffers (c ∷ cs) e = rw e (refl, refl, refl, refl, rw e at counted)

Step-IsWorld : (limit : ℕ) (u v : World) → Step u v → IsWorld limit u → IsWorld limit v
unfolding exchange recycle_locked drop
Step-IsWorld limit u _ (admit_step _ buffers failures current at) is =
    let (sum, room) = admit_lem u.shared.limit current failures buffers in
    record {
      limit_kept = is.limit_kept;
      within = omega (arith, room, at, is.within, is.limit_kept);
      wide = is.wide;
      sum = omega (arith, is.sum, at, sum);
      counted = is.counted;
    }
Step-IsWorld limit u _ (put_back_step _ front rest buffers at) is = record {
  limit_kept = is.limit_kept;
  within = is.within;
  wide = is.wide;
  sum = omega (
    arith,
    is.sum,
    total-append u.shared.returned buffers,
    ap total_all at,
    total_all-middle front rest buffers,
  );
  counted = is.counted;
}
Step-IsWorld limit u _ (refill_step _ p at) is =
    let (moved, pending, reserved, kept, counted) =
      refill-IsRefilled p u.shared (subst IsCounted at is.counted) in
    record {
      limit_kept = kept ∙ is.limit_kept;
      within = omega (arith, reserved, is.within);
      wide = is.wide;
      sum = omega (arith, reserved, pending, moved, is.sum, ap charged at);
      counted = counted;
    }
Step-IsWorld limit u _ (take_step _ p at) is =
    let t =
      take_buffer-IsTaken p u.shared (omega (arith, is.within, is.wide))
        (subst IsCounted at is.counted) (omega (arith, is.sum, ap charged at)) in
    record {
      limit_kept = t.limit_kept ∙ is.limit_kept;
      within = omega (arith, t.less, is.within);
      wide = is.wide;
      sum = omega (arith, t.moved, is.sum, ap charged at, ap total t.returned_kept);
      counted = t.counted;
    }
Step-IsWorld limit u _ (drop_step _ p at) is =
    let sub =
      fetch_sub_lem u.shared.reserved (p.bytes + p.pending_release)
        (omega (arith, is.within, is.wide)) (omega (arith, is.sum, ap charged at)) in
    record {
      limit_kept = is.limit_kept;
      within = omega (arith, sub, is.within);
      wide = is.wide;
      sum = omega (arith, sub, is.sum, ap charged at);
      counted = tt;
    }

Run-IsWorld : (limit : ℕ) {u v : World} → Run u v → IsWorld limit u → IsWorld limit v
Run-IsWorld limit stay is = is
Run-IsWorld limit (onward {u = u} {v = v} step rest) is =
    Run-IsWorld limit rest (Step-IsWorld limit u v step is)

new-IsWorld : (limit : ℕ) → limit < 2 ^ 64 → IsWorld limit (new_world limit)
unfolding new_shared new_pool total
new-IsWorld limit wide = record {
  limit_kept = refl;
  within = omega arith;
  wide = wide;
  sum = refl;
  counted = refl;
}

-- In every interleaving of the pool's owner with the threads that return buffers, while the pool lives:
-- `retained_bytes` does not overflow, it is the bytes of the buffers that the pool has, that are put back and that
-- are on their way, and it is at most the limit.
pub retained_bytes_exact :
    (limit : ℕ) (w : World) (p : Pool)
    → limit < 2 ^ 64
    → Run (new_world limit) w
    → w.pool ≡ some p
    → (retained_bytes p w.shared
        ≡ some (total p.available + (total w.shared.returned + total_all w.in_flight)))
      × (total p.available + (total w.shared.returned + total_all w.in_flight) ≤ limit)
unfolding retained_bytes
retained_bytes_exact limit w p wide run at =
    let is = Run-IsWorld limit run (new-IsWorld limit wide) in
    let counted = subst IsCounted at is.counted in
    let charge = ap charged at in
    (
      rw (le→ltb w.shared.reserved p.pending_release (omega (arith, is.sum, charge)))
          (ap (λ (t : ℕ). some t) (omega (arith, is.sum, charge, counted))),
      omega (arith, is.sum, is.within, charge, counted),
    )

-- Once the pool is dropped the counter is the bytes that other threads hold or have put back.
pub drop_exact :
    (limit : ℕ) (w : World)
    → limit < 2 ^ 64
    → Run (new_world limit) w
    → w.pool ≡ none
    → w.shared.reserved ≡ total w.shared.returned + total_all w.in_flight
drop_exact limit w wide run at =
    let is = Run-IsWorld limit run (new-IsWorld limit wide) in omega (arith, is.sum, ap charged at)
