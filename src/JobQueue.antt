-- ===== src/JobQueue.antt =====
-- src/dockb/services/semantics/job_queue.py and job.py: the queue, its worker threads and the callers.
-- A step is what a thread does while it holds the lock, or one call that it makes without it, so
-- `enqueue`, a turn of `_worker` and `shutdown` are several steps each, which others may come between.
-- A job is a shared object, given by a reference into `heap`; a thread is given by a number. An action
-- that is not enabled answers `none`. The join of `shutdown` may end by its timeout, so its last step
-- waits for no worker, and a second one may be started beside the first. The events that only `join`
-- and the callers of a job wait for, and a job's error, are left out.
pub mod Cancelling
mod Tests
use dockb.Prelude.{
  ℕ, zero, suc, String, Bool, true, false, Option, none, some, List, [], ◌∷◌, ◌++◌, map, arith,
  eq_iff, eqb, if◌then◌else◌, eqb_iff, tests, keep_if,
}
use dockb.Prelude.Int.{ℤ, pos, is_zero, inc, dec}
use dockb.Dict.{Dict, get, set, pop, member}

-- `JobStatus`
pub data JobStatus : Type 0 where
  queued running done cancelled failed : JobStatus

-- `Job`; `model_id` is given for a ReconstructJob
pub record Job : Type 0 where
  pub id : String
  pub status : JobStatus
  pub model_id : Option String

-- a worker thread: not started or at its end; at the head of its loop; waiting for an id; behind a
-- timeout of that; with an id; executing the job of an id; behind its run
pub data Worker : Type 0 where
  stopped : Worker
  looping : Worker
  waiting : Worker
  timed_out : Worker
  holding : String → Worker
  executing : String → ℕ → Worker
  cleaning : String → ℕ → Worker

-- `due` are the ids that callers have counted and have not put into the queue yet.
pub record JobQueue : Type 0 where
  pub heap : ℕ → Job
  pub queue : List String
  pub due : List String
  pub jobs : Dict ℕ
  pub reconstruct_jobs : Dict ℕ
  pub pending : ℤ
  pub worker_thread : Option ℕ
  pub workers : ℕ → Worker
  pub shutting_down : Bool
  pub completed : Bool

-- how `job.run()` ends: it returns, raises TokenizationCancelled, or raises another exception
pub data RunEnd : Type 0 where
  returned tokenization_cancelled raised : RunEnd

abbrev pub write : (ℕ → Job) → ℕ → Job → ℕ → Job
write heap r job r' = if eqb r r' then job else heap r'

abbrev pub with_status : JobStatus → Job → Job
with_status status job = record job { status = status }

-- `Job.cancel`
abbrev pub cancelled_job : Job → Job
cancelled_job job = elim job.status [
  | queued ↦ with_status cancelled job
  | running ↦ with_status cancelled job
  | done ↦ job
  | cancelled ↦ job
  | failed ↦ job
]

unfoldable pub cancel : ℕ → (ℕ → Job) → ℕ → Job
cancel r heap = write heap r (cancelled_job (heap r))

-- the two dictionaries and the heap after the `isinstance(job, ReconstructJob)` branch of `enqueue`
abbrev pub supersede : Option String → ℕ → JobQueue → JobQueue
supersede none r q = q
supersede (some model_id) r q = elim (get model_id q.reconstruct_jobs) [
  | none ↦ record q { reconstruct_jobs = set model_id r q.reconstruct_jobs }
  | some old ↦ record q {
    heap = cancel old q.heap;
    reconstruct_jobs = set model_id r q.reconstruct_jobs;
  }
]

-- what `enqueue` does with the lock
unfoldable pub enqueue_locked : ℕ → JobQueue → JobQueue
unfolding cancel
enqueue_locked r q =
    let job = q.heap r in
    supersede job.model_id r (record q {
      completed = false;
      jobs = set job.id r q.jobs;
      pending = inc q.pending;
      due = q.due ++ job.id ∷ [];
    })

-- `put_nowait` at the end of `enqueue`, by any of the callers that are there
abbrev pub draw : ℕ → List String → Option (String × List String)
draw n [] = none
draw zero (id ∷ ids) = some (id, ids)
draw (suc n) (id ∷ ids) = elim (draw n ids) [ none ↦ none | some (x, rest) ↦ some (x, id ∷ rest) ]

unfoldable pub put_nowait : ℕ → JobQueue → Option JobQueue
put_nowait n q = elim (draw n q.due) [
  | none ↦ none
  | some (id, rest) ↦ some (record q { due = rest; queue = q.queue ++ id ∷ [] })
]

-- `cancel_job`
unfoldable pub cancel_job : ℕ → JobQueue → JobQueue × Bool
unfolding cancel
cancel_job r q =
    if member (q.heap r).id q.jobs then (record q { heap = cancel r q.heap }, true) else (q, false)

abbrev pub at_work : ℕ → Worker → JobQueue → JobQueue
at_work k w q = record q { workers = λ j. if eqb k j then w else q.workers j }

-- the head of the loop of `_worker`
unfoldable pub loop_head : ℕ → JobQueue → Option JobQueue
loop_head k q = elim (q.workers k) [
  | looping ↦ some (at_work k (if q.shutting_down then stopped else waiting) q)
  | _ ↦ none
]

-- `self._queue.get`, which gives an id, or times out on an empty queue
unfoldable pub get_next : ℕ → JobQueue → Option JobQueue
get_next k q = elim (q.workers k) [
  | waiting ↦ elim q.queue [
    | [] ↦ some (at_work k timed_out q)
    | id ∷ rest ↦ some (at_work k (holding id) (record q { queue = rest }))
  ]
  | _ ↦ none
]

-- the branch of `queue.Empty`
unfoldable pub note_idle : ℕ → JobQueue → Option JobQueue
note_idle k q = elim (q.workers k) [
  | timed_out ↦
      some (at_work k looping (if is_zero q.pending then record q { completed = true } else q))
  | _ ↦ none
]

-- An unknown or cancelled job is done with, another starts running.
abbrev pub dispatch : ℕ → String → Option ℕ → JobQueue → JobQueue
dispatch k id none q = at_work k looping (record q { pending = dec q.pending })
dispatch k id (some r) q = elim (q.heap r).status [
  | cancelled ↦ at_work k looping (record q { pending = dec q.pending })
  | _ ↦
      at_work k (executing id r)
        (record q { heap = write q.heap r (with_status running (q.heap r)) })
]

unfoldable pub dispatch_next : ℕ → JobQueue → Option JobQueue
dispatch_next k q = elim (q.workers k) [
  | holding id ↦ some (dispatch k id (get id q.jobs) q)
  | _ ↦ none
]

-- the status after `job.run()`
abbrev pub ended : RunEnd → JobStatus → JobStatus
ended returned cancelled = cancelled
ended returned _ = done
ended tokenization_cancelled s = cancelled
ended raised s = failed

-- `del self._reconstruct_jobs[job.model_id]` if it still is this job
abbrev pub forget_reconstruct : Option String → ℕ → Dict ℕ → Dict ℕ
forget_reconstruct none r d = d
forget_reconstruct (some model_id) r d = elim (get model_id d) [
  | none ↦ d
  | some r' ↦ if eqb r' r then pop model_id d else d
]

-- the clean-up of `_worker` after a run
abbrev pub forget : String → ℕ → JobQueue → JobQueue
forget id r q = elim (get id q.jobs) [
  | none ↦ q
  | some r' ↦
      if eqb r' r
      then record q {
        jobs = pop id q.jobs;
        reconstruct_jobs = forget_reconstruct (q.heap r).model_id r q.reconstruct_jobs;
      }
      else q
]

-- the end of `job.run()`
unfoldable pub end_run : RunEnd → ℕ → JobQueue → Option JobQueue
end_run e k q = elim (q.workers k) [
  | executing id r ↦ some (
      at_work k (cleaning id r)
        (record q { heap = write q.heap r (with_status (ended e (q.heap r).status) (q.heap r)) }))
  | _ ↦ none
]

-- what `_worker` does with the lock behind a run
unfoldable pub clean_up : ℕ → JobQueue → Option JobQueue
clean_up k q = elim (q.workers k) [
  | cleaning id r ↦ some (forget id r (at_work k looping (record q { pending = dec q.pending })))
  | _ ↦ none
]

-- the timer of a running job
unfoldable pub time_out : ℕ → JobQueue → Option JobQueue
unfolding cancel
time_out k q = elim (q.workers k) [
  | executing id r ↦ some (record q { heap = cancel r q.heap })
  | _ ↦ none
]

-- `start`, with the number of the thread that it creates if there is none
unfoldable pub start : ℕ → JobQueue → Option JobQueue
start k q = elim q.worker_thread [
  | some j ↦ some (record q { shutting_down = false })
  | none ↦ elim (q.workers k) [
    | stopped ↦ some (
        at_work k looping
          (record q { shutting_down = false; completed = false; worker_thread = some k }))
    | _ ↦ none
  ]
]

-- `shutdown`: the event, the thread that is let go, and, behind the join, the reset, which leaves the
-- ids in the queue
unfoldable pub signal_shutdown : JobQueue → JobQueue
signal_shutdown q = record q { shutting_down = true }

unfoldable pub let_go : JobQueue → JobQueue
let_go q = record q { worker_thread = none }

unfoldable pub reset : JobQueue → JobQueue
reset q = record q {
  shutting_down = false;
  reconstruct_jobs = [];
  jobs = [];
  completed = false;
  pending = pos 0;
}

-- `list_jobs`
abbrev pub is_queued : JobStatus → Bool
is_queued queued = true
is_queued _ = false

unfoldable pub list_jobs : JobQueue → List String
list_jobs q = map (λ e. e.0) (keep_if (λ e. is_queued (q.heap e.1).status) q.jobs)

pub data Action : Type 0 where
  counting : ℕ → Action
  putting : ℕ → Action
  cancelling : ℕ → Action
  heading : ℕ → Action
  getting : ℕ → Action
  noting : ℕ → Action
  dispatching : ℕ → Action
  ending : RunEnd → ℕ → Action
  forgetting : ℕ → Action
  timing_out : ℕ → Action
  starting : ℕ → Action
  signalling : Action
  letting_go : Action
  resetting : Action

unfoldable pub step : Action → JobQueue → Option JobQueue
step (counting r) q = some (enqueue_locked r q)
step (putting n) q = put_nowait n q
step (cancelling r) q = some (cancel_job r q).0
step (heading k) q = loop_head k q
step (getting k) q = get_next k q
step (noting k) q = note_idle k q
step (dispatching k) q = dispatch_next k q
step (ending e k) q = end_run e k q
step (forgetting k) q = clean_up k q
step (timing_out k) q = time_out k q
step (starting k) q = start k q
step signalling q = some (signal_shutdown q)
step letting_go q = some (let_go q)
step resetting q = some (reset q)

-- a sequence of steps of the workers and their callers, interleaved in any way
unfoldable pub run : List Action → JobQueue → Option JobQueue
run [] q = some q
run (a ∷ as') q = elim (step a q) [ none ↦ none | some q' ↦ run as' q' ]
