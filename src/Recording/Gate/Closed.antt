-- ===== src/Recording/Gate/Closed.antt =====
-- What holds in every interleaving of `enter`, the drop of its publication and `close`.
use vtr.Prelude.{
  ℕ, suc, ◌+◌, ◌≤◌, ◌≡◌, ◌≢◌, ◌⊎◌, inl, inr, ◌∙◌, refl, sym, ap, Bool, true, false, if◌then◌else◌,
  arith,
}
use vtr.Recording.Gate.{
  Gate, Sender, outside, stored, refused, publishing, unmarked, Closer, before, polling, returned,
  open_gate, enable_independent_stop, enter_exclusive, enter_store, enter_load, leave,
  leave_unmarked, close_store, close_load,
}

-- The steps by which the sender ends the call that it is in.
pub data Finish : Gate → Gate → Type 0 where
  load_closed : (g : Gate) → g.sender ≡ stored → Finish g (enter_load g)
  retract : (g : Gate) → g.sender ≡ refused → Finish g (leave g)
  drop_publication : (g : Gate) → g.sender ≡ publishing → Finish g (leave g)
  drop_unmarked : (g : Gate) → g.sender ≡ unmarked → Finish g (leave_unmarked g)

-- One access of a flag by the thread that is at it. The independent stop is enabled while the sender is idle.
pub data Step : Gate → Gate → Type 0 where
  enable : (g : Gate) → g.sender ≡ outside → Step g (enable_independent_stop g)
  load_alone :
      (g : Gate) → g.sender ≡ outside → g.independent_stop ≡ false → Step g (enter_exclusive g)
  store_active :
      (g : Gate) → g.sender ≡ outside → g.independent_stop ≡ true → Step g (enter_store g)
  finish : (g h : Gate) → Finish g h → Step g h
  store_closed : (g : Gate) → g.closer ≡ before → Step g (close_store g)
  load_active : (g : Gate) → g.closer ≡ polling → Step g (close_load g)

pub data Run : Gate → Gate → Type 0 where
  stay : {g : Gate} → Run g g
  onward : {g h k : Gate} → Step g h → Run h k → Run g k

-- Whether the sender's thread has the flag up.
abbrev is_up : Sender → Bool
is_up outside = false
is_up unmarked = false
is_up _ = true

abbrev is_begun : Closer → Bool
is_begun before = false
is_begun _ = true

abbrev may_publish : Closer → Sender → Bool
may_publish returned publishing = false
may_publish _ _ = true

-- No publication is unmarked where the stop is independent.
abbrev may_skip : Bool → Sender → Bool
may_skip true unmarked = false
may_skip _ _ = true

record IsGate (g : Gate) : Type 0 where
  active : g.active ≡ is_up g.sender
  closed : g.closed ≡ is_begun g.closer
  done : may_publish g.closer g.sender ≡ true
  marked : may_skip g.independent_stop g.sender ≡ true

load_closed-done : (c : Closer) → may_publish c (if is_begun c then refused else publishing) ≡ true
load_closed-done before = refl
load_closed-done polling = refl
load_closed-done returned = refl

up_after_load : (b : Bool) → is_up (if b then refused else publishing) ≡ true
up_after_load true = refl
up_after_load false = refl

down_alone : (b : Bool) → is_up (if b then outside else unmarked) ≡ false
down_alone true = refl
down_alone false = refl

-- A sender without a marked publication may be anywhere.
free : (c : Closer) (s : Sender) → s ≢ publishing → may_publish c s ≡ true
free before s h = refl
free polling s h = refl
free returned outside h = refl
free returned stored h = refl
free returned refused h = refl
free returned publishing h = absurd (h refl)
free returned unmarked h = refl

alone-ne-publishing : (b : Bool) → (if b then outside else unmarked) ≢ publishing
alone-ne-publishing true h = cc
alone-ne-publishing false h = cc

marked_if : (b : Bool) (s : Sender) → s ≢ unmarked → may_skip b s ≡ true
marked_if false s h = refl
marked_if true outside h = refl
marked_if true stored h = refl
marked_if true refused h = refl
marked_if true publishing h = refl
marked_if true unmarked h = absurd (h refl)

load-ne-unmarked : (b : Bool) → (if b then refused else publishing) ≢ unmarked
load-ne-unmarked true h = cc
load-ne-unmarked false h = cc

returned_free : (s : Sender) → may_publish (if is_up s then polling else returned) s ≡ true
returned_free outside = refl
returned_free stored = refl
returned_free refused = refl
returned_free publishing = refl
returned_free unmarked = refl

begun_after_load : (b : Bool) → is_begun (if b then polling else returned) ≡ true
begun_after_load true = refl
begun_after_load false = refl

Finish-IsGate : (g h : Gate) → Finish g h → IsGate g → IsGate h
unfolding enter_load leave leave_unmarked
Finish-IsGate g _ (load_closed _ at) is = record {
  active = is.active ∙ ap is_up at ∙ sym (up_after_load g.closed);
  closed = is.closed;
  done = rw is.closed (load_closed-done g.closer);
  marked =
      marked_if g.independent_stop (if g.closed then refused else publishing)
        (load-ne-unmarked g.closed);
}
Finish-IsGate g _ (retract _ at) is = record {
  active = refl;
  closed = is.closed;
  done = free g.closer outside (λ e. cc);
  marked = marked_if g.independent_stop outside (λ e. cc);
}
Finish-IsGate g _ (drop_publication _ at) is = record {
  active = refl;
  closed = is.closed;
  done = free g.closer outside (λ e. cc);
  marked = marked_if g.independent_stop outside (λ e. cc);
}
Finish-IsGate g _ (drop_unmarked _ at) is = record {
  active = is.active ∙ ap is_up at;
  closed = is.closed;
  done = free g.closer outside (λ e. cc);
  marked = marked_if g.independent_stop outside (λ e. cc);
}

Step-IsGate : (g h : Gate) → Step g h → IsGate g → IsGate h
unfolding enable_independent_stop enter_exclusive enter_store close_store close_load
Step-IsGate g _ (enable _ at) is = record {
  active = is.active;
  closed = is.closed;
  done = is.done;
  marked = ap (may_skip true) at;
}
Step-IsGate g _ (load_alone _ at alone) is = record {
  active = is.active ∙ ap is_up at ∙ sym (down_alone g.closed);
  closed = is.closed;
  done = free g.closer (if g.closed then outside else unmarked) (alone-ne-publishing g.closed);
  marked = ap (λ b. may_skip b (if g.closed then outside else unmarked)) alone;
}
Step-IsGate g _ (store_active _ at independent) is = record {
  active = refl;
  closed = is.closed;
  done = free g.closer stored (λ e. cc);
  marked = marked_if g.independent_stop stored (λ e. cc);
}
Step-IsGate g h (finish _ _ ends) is = Finish-IsGate g h ends is
Step-IsGate g _ (store_closed _ at) is = record {
  active = is.active;
  closed = refl;
  done = refl;
  marked = is.marked;
}
Step-IsGate g _ (load_active _ at) is = record {
  active = is.active;
  closed = is.closed ∙ ap is_begun at ∙ sym (begun_after_load g.active);
  done = rw is.active (returned_free g.sender);
  marked = is.marked;
}

Run-IsGate : {g h : Gate} → Run g h → IsGate g → IsGate h
Run-IsGate stay is = is
Run-IsGate (onward {g = g} {h = h} step rest) is = Run-IsGate rest (Step-IsGate g h step is)

open-IsGate : (independent_stop : Bool) → IsGate (open_gate independent_stop)
open-IsGate b = record {
  active = refl;
  closed = refl;
  done = refl;
  marked = marked_if b outside (λ e. cc);
}

not_publishing : (c : Closer) (s : Sender) → may_publish c s ≡ true → c ≡ returned → s ≢ publishing
not_publishing c s h e k = cc

not_unmarked : (b : Bool) (s : Sender) → may_skip b s ≡ true → b ≡ true → s ≢ unmarked
not_unmarked b s h e k = cc

-- On a channel whose independent stop is on, from the start or since it was enabled, no capture is between `enter`
-- and the drop of its publication once `close` has returned, in whatever order the threads' accesses of the flags
-- came.
pub close_excludes :
    (independent_stop : Bool) (g : Gate)
    → Run (open_gate independent_stop) g
    → g.closer ≡ returned
    → g.independent_stop ≡ true
    → (g.sender ≢ publishing) × (g.sender ≢ unmarked)
close_excludes b g run done on =
    let is = Run-IsGate run (open-IsGate b) in
    (
      not_publishing g.closer g.sender is.done done,
      not_unmarked g.independent_stop g.sender is.marked on,
    )

-- So many steps in which the sender ends its call.
pub data Finishing : ℕ → Gate → Gate → Type 0 where
  ended : (g : Gate) → Finishing 0 g g
  step : (n : ℕ) (g h k : Gate) → Finish g h → Finishing n h k → Finishing (suc n) g k

-- How many of them are left.
abbrev left : Sender → ℕ
left outside = 0
left stored = 2
left _ = 1

left_bound : (s : Sender) → left s ≤ 2
left_bound outside = omega arith
left_bound stored = omega arith
left_bound refused = omega arith
left_bound publishing = omega arith
left_bound unmarked = omega arith

left_after_load : (b : Bool) → left (if b then refused else publishing) ≡ 1
left_after_load true = refl
left_after_load false = refl

Finish-left :
    (g h : Gate) → Finish g h → (g.closer ≡ h.closer) × (left g.sender ≡ suc (left h.sender))
unfolding enter_load leave leave_unmarked
Finish-left g _ (load_closed _ at) = (refl, ap left at ∙ ap suc (sym (left_after_load g.closed)))
Finish-left g _ (retract _ at) = (refl, ap left at)
Finish-left g _ (drop_publication _ at) = (refl, ap left at)
Finish-left g _ (drop_unmarked _ at) = (refl, ap left at)

Finishing-left :
    (n : ℕ) (g h : Gate)
    → Finishing n g h
    → IsGate g
    → IsGate h × ((g.closer ≡ h.closer) × (left g.sender ≡ n + left h.sender))
Finishing-left _ g _ (ended _) is = (is, (refl, omega arith))
Finishing-left _ g k (step n _ h _ first rest) is =
    let one = Finish-left g h first in
    let more = Finishing-left n h k rest (Finish-IsGate g h first is) in
    (more.0, (one.0 ∙ more.1.0, omega (arith, one.1, more.1.1)))

goes_on :
    (h : Gate) (s : Sender)
    → IsGate h
    → h.sender ≡ s
    → ((k : Gate) × Finish h k) ⊎ ((close_load h).closer ≡ returned)
unfolding close_load
goes_on h outside is at = inr (rw (is.active ∙ ap is_up at) refl)
goes_on h stored is at = inl (enter_load h, load_closed h at)
goes_on h refused is at = inl (leave h, retract h at)
goes_on h publishing is at = inl (leave h, drop_publication h at)
goes_on h unmarked is at = inl (leave_unmarked h, drop_unmarked h at)

-- While `close` is in its loop, a sender that only ends the call it is in, and enters no other, does so in at
-- most two steps; behind any of these there is either another, or the next load of the loop ends it. Its state
-- is any that the threads can reach.
pub close_ends :
    (independent_stop : Bool) (n : ℕ) (g h : Gate)
    → Run (open_gate independent_stop) g
    → g.closer ≡ polling
    → Finishing n g h
    → (n ≤ 2)
      × ((h.closer ≡ polling) × (((k : Gate) × Finish h k) ⊎ ((close_load h).closer ≡ returned)))
close_ends b n g h run at ends =
    let after = Finishing-left n g h ends (Run-IsGate run (open-IsGate b)) in
    (
      omega (arith, after.1.1, left_bound g.sender),
      (sym after.1.0 ∙ at, goes_on h h.sender after.0 refl),
    )
