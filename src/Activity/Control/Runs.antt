-- ===== src/Activity/Control/Runs.antt =====
-- What any interleaving of the threads that share a `BuildControl` can do.
use vtr.Prelude.{ℕ, ◌≡◌, refl, true, false, ◌&&◌, arith}
use vtr.Error.{Result, ok}
use vtr.Activity.Control.{
  State, initial, build_cancelled, cancel, complete, set_progress, advance, publish, check,
  is_cancelled,
}

-- One holding of the mutex.
pub data Step : State → State → Type 1 where
  cancel_step : (s : State) → Step s (cancel s).1
  complete_step : (s : State) → Step s (complete s).1
  begin_step : (total : ℕ) (s : State) → Step s (set_progress total s)
  advance_step : (completed : ℕ) (s : State) → Step s (advance completed s)
  publish_step : {A : Type 0} (write : Result A) (s : State) → Step s (publish write s).1

pub data Reach : State → State → Type 1 where
  stay : {s : State} → Reach s s
  onward : {s t u : State} → Step s t → Reach t u → Reach s u

-- The two outcomes exclude each other.
abbrev pub IsSettled : State → Type 0
IsSettled s = (s.cancelled && s.published) ≡ false

publish-IsSettled :
    {A : Type 0} (write : Result A) (s : State) → IsSettled s → IsSettled (publish write s).1
unfolding publish
publish-IsSettled (ok a) s h = ground arith
publish-IsSettled (Result.err e) s h = ground arith

Step-IsSettled : (s t : State) → Step s t → IsSettled s → IsSettled t
unfolding cancel complete set_progress advance
Step-IsSettled s _ (cancel_step _) h = ground arith
Step-IsSettled s _ (complete_step _) h = ground arith
Step-IsSettled s _ (begin_step total _) h = h
Step-IsSettled s _ (advance_step completed _) h = h
Step-IsSettled s _ (publish_step write _) h = publish-IsSettled write s h

Reach-IsSettled_from : {s t : State} → Reach s t → IsSettled s → IsSettled t
Reach-IsSettled_from stay h = h
Reach-IsSettled_from (onward {s = s} {t = t} step rest) h =
    Reach-IsSettled_from rest (Step-IsSettled s t step h)

publish_cancelled :
    {A : Type 0} (write : Result A) (s : State)
    → s.cancelled ≡ true
    → publish write s ≡ (build_cancelled, s)
unfolding publish
publish_cancelled write s h = rw h

Step-cancelled : (s t : State) → Step s t → s.cancelled ≡ true → t.cancelled ≡ true
unfolding cancel complete set_progress advance
Step-cancelled s _ (cancel_step _) h = ground arith
Step-cancelled s _ (complete_step _) h = ground arith
Step-cancelled s _ (begin_step total _) h = h
Step-cancelled s _ (advance_step completed _) h = h
Step-cancelled s _ (publish_step write _) h = rw (publish_cancelled write s h) h

Reach-cancelled : {s t : State} → Reach s t → s.cancelled ≡ true → t.cancelled ≡ true
Reach-cancelled stay h = h
Reach-cancelled (onward {s = s} {t = t} step rest) h =
    Reach-cancelled rest (Step-cancelled s t step h)

publish_keeps :
    {A : Type 0} (write : Result A) (s : State)
    → s.published ≡ true
    → (publish write s).1.published ≡ true
unfolding publish
publish_keeps (ok a) s h = ground arith
publish_keeps (Result.err e) s h = ground arith

Step-published : (s t : State) → Step s t → s.published ≡ true → t.published ≡ true
unfolding cancel complete set_progress advance
Step-published s _ (cancel_step _) h = ground arith
Step-published s _ (complete_step _) h = ground arith
Step-published s _ (begin_step total _) h = h
Step-published s _ (advance_step completed _) h = h
Step-published s _ (publish_step write _) h = publish_keeps write s h

Reach-published : {s t : State} → Reach s t → s.published ≡ true → t.published ≡ true
Reach-published stay h = h
Reach-published (onward {s = s} {t = t} step rest) h =
    Reach-published rest (Step-published s t step h)

-- No run from the default state ends both cancelled and published.
pub Reach-IsSettled : (t : State) → Reach initial t → IsSettled t
Reach-IsSettled t run = Reach-IsSettled_from run refl

-- Once a `cancel` has answered true, whatever the threads do next, `check`, `complete` and `publish` fail with
-- the cancellation and leave the state as it is.
pub cancel_wins :
    {A : Type 0} (s t : State) (write : Result A)
    → (cancel s).0 ≡ true
    → Reach (cancel s).1 t
    → (check t ≡ build_cancelled)
      × (complete t ≡ (build_cancelled, t))
      × (publish write t ≡ (build_cancelled, t))
unfolding cancel complete check is_cancelled
cancel_wins s t write answer run =
    let c = Reach-cancelled run (ground arith) in (rw c, rw c, publish_cancelled write t c)

-- Once a `publish` has returned a result, whatever the threads do next, `cancel` answers false and leaves the
-- state as it is.
pub publish_wins :
    {A : Type 0} (s t : State) (write : Result A) (a : A)
    → (publish write s).0 ≡ ok a
    → Reach (publish write s).1 t
    → cancel t ≡ (false, t)
unfolding cancel publish
publish_wins s t (ok b) a done run = let p = Reach-published run (ground arith) in rw p
publish_wins s t (Result.err e) a done run = absurd (ground arith)
