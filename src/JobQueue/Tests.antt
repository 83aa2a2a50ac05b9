-- ===== src/JobQueue/Tests.antt =====
-- A queue with a worker and three jobs at concrete inputs.
use dockb.Prelude.{
  ℕ, zero, suc, ◌≡◌, refl, true, false, none, some, List, [], ◌∷◌, if◌then◌else◌, eqb, arith,
}
use dockb.Dict.{get}
use dockb.Prelude.Int.{pos}
use dockb.JobQueue.{
  queued, cancelled, Job, stopped, waiting, JobQueue, returned, Action, counting, putting, getting,
  noting, dispatching, ending, forgetting, heading, starting, signalling, letting_go, resetting,
  step, run, enqueue_locked, put_nowait, get_next, note_idle, dispatch_next, end_run, clean_up,
  loop_head, start, signal_shutdown, let_go, reset,
}
use dockb.JobQueue.Cancelling.{CalledOff, run-CalledOff}

-- reconstructions of one model
abbrev jobs : ℕ → Job
jobs zero = record { id = "j0"; status = queued; model_id = some "p1" }
jobs (suc zero) = record { id = "j1"; status = queued; model_id = some "p1" }
jobs (suc (suc n)) = record { id = "j2"; status = cancelled; model_id = none }

-- "j0" waits
abbrev one_job : JobQueue
one_job = record {
  heap = jobs;
  queue = "j0" ∷ [];
  due = [];
  jobs = ("j0", 0) ∷ [];
  reconstruct_jobs = ("p1", 0) ∷ [];
  pending = pos 1;
  worker_thread = some 0;
  workers = λ k. if eqb k 0 then waiting else stopped;
  shutting_down = false;
  completed = false;
}

-- What a run ends in, for a run that goes through.
abbrev end_of : List Action → JobQueue → JobQueue
end_of as' q = elim (run as' q) [ none ↦ q | some q' ↦ q' ]

-- what the examples compute with
program : Unit {0}
unfolding run step enqueue_locked put_nowait get_next note_idle dispatch_next end_run clean_up
    loop_head start signal_shutdown let_go reset get dockb.Dict.set dockb.Dict.pop
program = tt

abbrev a_day : List Action
a_day =
    counting 2
    ∷ getting 0
    ∷ dispatching 0
    ∷ putting 0
    ∷ ending returned 0
    ∷ forgetting 0
    ∷ heading 0
    ∷ getting 0
    ∷ dispatching 0
    ∷ []

run-CalledOff_example : CalledOff 2 (end_of a_day one_job)
unfolding program
run-CalledOff_example =
    run-CalledOff 2 a_day one_job (end_of a_day one_job)
      (record { status = refl; idle = λ k. ground arith }) refl

-- A shutdown resets the count and leaves the id in the queue: the next worker counts it below zero,
-- so that a job that is counted after it and still to be put is not seen, and the event is set.
abbrev restarted : List Action
restarted =
    signalling
    ∷ letting_go
    ∷ resetting
    ∷ starting 1
    ∷ heading 1
    ∷ getting 1
    ∷ dispatching 1
    ∷ heading 1
    ∷ getting 1
    ∷ counting 1
    ∷ noting 1
    ∷ []

early_event : (end_of restarted one_job).completed ≡ true
unfolding program dockb.Prelude.Int.inc dockb.Prelude.Int.dec
early_event = refl

early_event_due : (end_of restarted one_job).due ≡ "j1" ∷ []
unfolding program dockb.Prelude.Int.inc dockb.Prelude.Int.dec
early_event_due = refl
