-- ===== src/Activity/Control.antt =====
-- vtr-rs/src/activity/control.rs: progress and cancellation of one build. Each operation that holds the
-- mutex is one function on the state behind it; a panic of another holder is not modelled.
pub mod Runs
use vtr.Prelude.{ℕ, Bool, true, false, if◌then◌else◌}
use vtr.Error.{Result, ok, err, state, ◌>>=◌}

pub record BuildProgress : Type 0 where
  pub completed : ℕ
  pub total : ℕ

pub record State : Type 0 where
  pub progress : BuildProgress
  pub cancelled : Bool
  pub published : Bool

-- `BuildControl::default()`
abbrev pub initial : State
initial = record {
  progress = record { completed = 0; total = 0 };
  cancelled = false;
  published = false;
}

abbrev pub build_cancelled {ℓ} : {A : Type ℓ} → Result A
build_cancelled = err (state "activity index build cancelled")

unfoldable pub cancel : State → Bool × State
cancel s = if s.published then (false, s) else (true, record s { cancelled = true })

unfoldable pub complete : State → Result (Unit {0}) × State
complete s = if s.cancelled then (build_cancelled, s) else (ok tt, record s { published = true })

unfoldable pub is_cancelled : State → Bool
is_cancelled s = s.cancelled

unfoldable pub check : State → Result (Unit {0})
unfolding is_cancelled
check s = if is_cancelled s then build_cancelled else ok tt

-- The second half of `begin`, which takes the mutex again.
unfoldable pub set_progress : ℕ → State → State
set_progress total s = record s { progress = record { completed = 0; total = total } }

-- `begin` where no other thread takes the mutex in between.
unfoldable pub begin : ℕ → State → Result State
begin total s = do _ ← check s; ok (set_progress total s)

unfoldable pub advance : ℕ → State → State
advance completed s = record s { progress = record s.progress { completed = completed } }

-- The state behind `write()?`.
written {ℓ} : {A : Type ℓ} → Result A → State → Result A × State
written (ok result) s = (ok result, record s { published = true })
written (err e) s = (err e, s)

-- `write` runs under the mutex; its result is an argument, which is not looked at where it is not run.
unfoldable pub publish {ℓ} : {A : Type ℓ} → Result A → State → Result A × State
unfolding written
publish write s = if s.cancelled then (build_cancelled, s) else written write s
