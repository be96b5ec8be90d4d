-- ===== src/Tests/Recording.antt =====
-- The threads of vtr-rs/src/recording: a channel that is closed behind a capture, a pool of buffers, and the record
-- of a crash.
use vtr.Prelude.{
  ℕ, ◌+◌, ◌≤◌, ◌≡◌, ◌≢◌, ◌⊎◌, refl, Bool, true, false, some, List, [], ◌∷◌, ◌++◌, arith,
}
use vtr.Error.{ok, ◌>>=◌}
use vtr.Recording.Gate.{
  Gate, polling, returned, publishing, unmarked, open_gate, enable_independent_stop, enter_store,
  enter_load, leave, close_store, close_load,
}
use vtr.Recording.Gate.Closed.{Finish, Finishing, Run, Step, close_excludes, close_ends}
use vtr.Recording.PayloadPool.{
  Pool, total, admit, Admission, exchange, recycle_locked, new_pool, refill, take_buffer,
  retained_bytes, new_shared,
}
use vtr.Recording.PayloadPool.Accounts.{
  World, new_world, refilled, taken, total_all, retained_bytes_exact,
}
use vtr.Recording.PayloadPool.Accounts
use vtr.Recording.Ending.{Ending, crashed, RunEnding, from, ending, run_ending, display}
use vtr.Recording.Ending.RoundTrip.{IsEnding, found, ending_canonical, ending-decode-capture}
use vtr.Schema.Payload.{capture, decode}

-- A channel that is made without the independent stop, which is then enabled.
abbrev enabled : Gate
enabled = enable_independent_stop (open_gate false)

abbrev inside : Gate
inside = enter_load (enter_store enabled)

abbrev closing : Gate
closing = close_store inside

abbrev closed_gate : Gate
closed_gate = close_load (close_store (leave inside))

closed-Run : Run (open_gate false) closed_gate
unfolding enable_independent_stop enter_store enter_load leave close_store close_load
closed-Run = Run.onward (Step.enable (open_gate false) refl) (
    Run.onward (Step.store_active enabled refl refl) (
      Run.onward
        (Step.finish (enter_store enabled) inside (Finish.load_closed (enter_store enabled) refl))
        (Run.onward (Step.finish inside (leave inside) (Finish.drop_publication inside refl)) (
          Run.onward (Step.store_closed (leave inside) refl)
            (Run.onward (Step.load_active (close_store (leave inside)) refl) Run.stay)))))

closed_gate_run : (closed_gate.closer ≡ returned) × (closed_gate.independent_stop ≡ true)
unfolding enable_independent_stop enter_store enter_load leave close_store close_load
closed_gate_run = (refl, refl)

close_excludes_example : (closed_gate.sender ≢ publishing) × (closed_gate.sender ≢ unmarked)
close_excludes_example =
    close_excludes false closed_gate closed-Run closed_gate_run.0 closed_gate_run.1

-- The close comes while a capture is published.
closing-Run : Run (open_gate false) closing
unfolding enable_independent_stop enter_store enter_load close_store
closing-Run = Run.onward (Step.enable (open_gate false) refl) (
    Run.onward (Step.store_active enabled refl refl) (
      Run.onward
        (Step.finish (enter_store enabled) inside (Finish.load_closed (enter_store enabled) refl))
        (Run.onward (Step.store_closed inside refl) Run.stay)))

closing_polls : closing.closer ≡ polling
unfolding enable_independent_stop enter_store enter_load close_store
closing_polls = refl

closing-Finishing : Finishing 1 closing (leave closing)
unfolding enable_independent_stop enter_store enter_load close_store
closing-Finishing =
    Finishing.step 0 closing (leave closing) (leave closing) (Finish.drop_publication closing refl)
      (Finishing.ended (leave closing))

close_ends_example :
    (1 ≤ 2)
    × (((leave closing).closer ≡ polling)
        × (((k : Gate) × Finish (leave closing) k)
            ⊎ ((close_load (leave closing)).closer ≡ returned)))
close_ends_example =
    close_ends false 1 closing (leave closing) closing-Run closing_polls closing-Finishing

-- Of four buffers, two are admitted below a limit of 1000 bytes.
abbrev admission : Admission
admission = admit 1000 (300 ∷ 2000 ∷ 0 ∷ 500 ∷ []) 0 (0 ∷ [])

abbrev admitted : World
admitted = record (new_world 1000) {
  shared = exchange admission (new_world 1000).shared;
  in_flight = admission.buffers ∷ [];
}

abbrev put_back : World
put_back = record admitted {
  shared = recycle_locked admission.buffers admitted.shared;
  in_flight = [] ++ [];
}

abbrev with_buffers : World
with_buffers = refilled put_back (new_pool 1000)

abbrev with_one : World
with_one = taken with_buffers (refill (new_pool 1000) put_back.shared).0

abbrev last_pool : Pool
last_pool = (take_buffer (refill (new_pool 1000) put_back.shared).0 with_buffers.shared).1.0

pool-Run : Accounts.Run (new_world 1000) with_one
unfolding admit exchange new_shared
pool-Run =
    Accounts.Run.onward
      (Accounts.Step.admit_step (new_world 1000) (300 ∷ 2000 ∷ 0 ∷ 500 ∷ []) (0 ∷ []) 0 refl)
      (Accounts.Run.onward (Accounts.Step.put_back_step admitted [] [] admission.buffers refl) (
        Accounts.Run.onward (Accounts.Step.refill_step put_back (new_pool 1000) refl) (
          Accounts.Run.onward
            (Accounts.Step.take_step with_buffers (refill (new_pool 1000) put_back.shared).0 refl)
            Accounts.Run.stay)))

retained_bytes_exact_example :
    (retained_bytes last_pool with_one.shared
      ≡ some (
          total last_pool.available
          + (total with_one.shared.returned + total_all with_one.in_flight)))
    × (total last_pool.available + (total with_one.shared.returned + total_all with_one.in_flight)
        ≤ 1000)
retained_bytes_exact_example =
    retained_bytes_exact 1000 with_one last_pool (omega arith) pool-Run refl

-- A segmentation fault.
abbrev fault : Ending
fault = crashed 11 1 4096 7 true

fault-IsEnding : IsEnding fault
fault-IsEnding = (omega arith, omega arith, omega arith, omega arith)

-- Every text is valid here.
abbrev any_text : List ℕ → Bool
any_text text = true

ending-decode-capture_example :
    (bytes : List ℕ) × (capture (run_ending any_text) (from fault) ≡ ok bytes)
    × ((decode (run_ending any_text) bytes 200 >>= ending) ≡ found fault)
ending-decode-capture_example =
    ending-decode-capture any_text (λ text h. refl) fault 200 fault-IsEnding (omega arith)

-- The fields as they are read.
abbrev fault_record : RunEnding
fault_record = record {
  message = display fault;
  reason = 3;
  signal = 11;
  code = 1;
  address = 4096;
  thread = 7;
  sealed = true;
  status = 0;
  dropped = 0;
}

fault_run : ending fault_record ≡ ok fault
unfolding ending from display vtr.Prelude.bytes_eq
fault_run = refl

ending_canonical_example : fault_record ≡ from fault
ending_canonical_example = ending_canonical fault_record fault fault_run
