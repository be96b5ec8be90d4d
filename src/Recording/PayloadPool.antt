-- ===== src/Recording/PayloadPool.antt =====
-- vtr-rs/src/recording/payload_pool.rs: the reuse of payload buffers. A buffer is its capacity. One access of the
-- shared counters, or what is done under the lock of `returned`, is one function; `admit` takes the values that its
-- loads and failed exchanges of `reserved` observe.
pub mod Accounts
use vtr.Prelude.{
  ℕ, ◌+◌, ◌-◌, ◌*◌, ◌/◌, ◌%◌, ◌^◌, min, max, Bool, true, false, not, ◌&&◌, ◌||◌, Option, none, some,
  List, [], ◌∷◌, ◌++◌, ltb, leb, ◌==◌, if◌then◌else◌,
}

pub record Shared : Type 0 where
  pub limit : ℕ
  pub reserved : ℕ
  pub pending : Bool
  pub returned : List ℕ

pub record Pool : Type 0 where
  pub available : List ℕ
  pub bytes : ℕ
  pub pending_release : ℕ
  pub release_threshold : ℕ

-- `map(Vec::capacity).sum()`
unfoldable pub total : List ℕ → ℕ
total [] = 0
total (c ∷ cs) = c + total cs

-- `filter(|buffer| buffer.capacity() != 0 && buffer.capacity() <= limit)`
usable : ℕ → List ℕ → List ℕ
usable limit [] = []
usable limit (c ∷ cs) =
    let rest = usable limit cs in if not (c == 0) && leb c limit then c ∷ rest else rest

-- `retain_mut`: the buffers that the room is enough for, one after the other, with their bytes.
retain : ℕ → List ℕ → List ℕ × ℕ
retain room [] = ([], 0)
retain room (c ∷ cs) =
    let kept = retain (room - c) cs in
    let others = retain room cs in if ltb room c then others else (c ∷ kept.0, c + kept.1)

-- What `admit` returns, with the value of `reserved` that its exchange, if it made one, replaced.
pub record Admission : Type 0 where
  pub buffers : List ℕ
  pub bytes : ℕ
  pub current : ℕ

-- The loop: `current` was observed, and each of `failures` by an exchange that failed.
admit_loop : ℕ → List ℕ → ℕ → List ℕ → Admission
unfolding retain
admit_loop limit buffers current [] =
    let kept = retain (limit - current) buffers in
    record { buffers = kept.0; bytes = kept.1; current = current }
admit_loop limit buffers current (next ∷ failures) =
    let kept = retain (limit - current) buffers in
    let again = admit_loop limit kept.0 next failures in
    if kept.1 == 0 then record { buffers = kept.0; bytes = 0; current = current } else again

unfoldable pub admit : ℕ → List ℕ → ℕ → List ℕ → Admission
unfolding usable admit_loop
admit limit buffers current failures = admit_loop limit (usable limit buffers) current failures

-- The exchange that succeeds.
unfoldable pub exchange : Admission → Shared → Shared
exchange a s = record s { reserved = a.current + a.bytes }

-- `recycle` behind its admission, under the lock.
unfoldable pub recycle_locked : List ℕ → Shared → Shared
recycle_locked buffers s = record s { returned = s.returned ++ buffers; pending = true }

unfoldable pub new_shared : ℕ → Shared
new_shared limit = record { limit = limit; reserved = 0; pending = false; returned = [] }

-- `(limit / 16).clamp(1, 64 << 10)`
unfoldable pub new_pool : ℕ → Pool
new_pool limit = record {
  available = [];
  bytes = 0;
  pending_release = 0;
  release_threshold = min (max (limit / 16) 1) (64 * 2 ^ 10);
}

-- `AtomicUsize::fetch_sub` wraps around.
unfoldable pub fetch_sub : ℕ → ℕ → ℕ
fetch_sub a n = (a + 2 ^ 64 - n) % 2 ^ 64

abbrev is_empty : List ℕ → Bool
is_empty [] = true
is_empty (c ∷ cs) = false

-- The start of `take`, where `available` is empty and `pending` was set.
unfoldable pub refill : Pool → Shared → Pool × Shared
refill p s =
    if is_empty p.available && s.pending
    then (
      record p { available = s.returned; bytes = total s.returned },
      record s { returned = []; pending = false },
    )
    else (p, s)

-- The last of the elements, and those before it.
pop_from : ℕ → List ℕ → List ℕ × ℕ
pop_from c [] = ([], c)
pop_from c (d ∷ ds) = let r = pop_from d ds in (c ∷ r.0, r.1)

-- `Vec::pop`
unfoldable pub pop : List ℕ → Option (List ℕ × ℕ)
unfolding pop_from
pop [] = none
pop (c ∷ cs) = some (pop_from c cs)

-- The credits of the buffers taken are given back at once where none is left or they reach the threshold.
release : List ℕ → Pool → Shared → Pool × Shared
unfolding fetch_sub
release rest p s =
    if is_empty rest || leb p.release_threshold p.pending_release
    then (
      record p { pending_release = 0 },
      record s { reserved = fetch_sub s.reserved p.pending_release },
    )
    else (p, s)

checked_out : Option (List ℕ × ℕ) → Pool → Shared → Option ℕ × (Pool × Shared)
unfolding release
checked_out none p s = (none, (p, s))
checked_out (some (rest, c)) p s = (
  some c,
  release rest
      (record p { available = rest; bytes = p.bytes - c; pending_release = p.pending_release + c })
      s,
)

-- The rest of `take`: the buffer that is taken, which the caller's `reserve` may make larger; none is a new one.
unfoldable pub take_buffer : Pool → Shared → Option ℕ × (Pool × Shared)
unfolding checked_out
take_buffer p s = checked_out (pop p.available) p s

unfoldable pub take : Pool → Shared → Option ℕ × (Pool × Shared)
take p s = let r = refill p s in take_buffer r.0 r.1

-- The subtraction is none where it would overflow.
unfoldable pub retained_bytes : Pool → Shared → Option ℕ
retained_bytes p s =
    if ltb s.reserved p.pending_release then none else some (s.reserved - p.pending_release)

-- `Drop for Pool`
unfoldable pub drop : Pool → Shared → Shared
unfolding fetch_sub
drop p s = record s { reserved = fetch_sub s.reserved (p.bytes + p.pending_release) }
