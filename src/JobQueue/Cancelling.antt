-- ===== src/JobQueue/Cancelling.antt =====
-- Cancelled jobs do not run, and a newer reconstruction replaces an older one.
use dockb.Prelude.Int.{dec, inc}
use dockb.Prelude.{
  ℕ, String, ◌≡◌, refl, inl, inr, Bool, true, false, Option, none, some, List, [], ◌∷◌, ◌++◌, arith,
  eqb, eqb_iff, Bool-cases, Option-cases,
}
use dockb.Dict.{get, set, get-set_self}
use dockb.JobQueue.{
  JobStatus, queued, running, cancelled, Job, Worker, looping, executing, JobQueue, write,
  with_status, cancel, supersede, enqueue_locked, put_nowait, cancel_job, at_work, loop_head,
  get_next, note_idle, dispatch, dispatch_next, forget, end_run, clean_up, time_out, start,
  signal_shutdown, let_go, reset, Action, counting, putting, cancelling, heading, getting, noting,
  dispatching, ending, forgetting, timing_out, starting, signalling, letting_go, resetting, step,
  run,
}

abbrev is_cancelled : JobStatus → Bool
is_cancelled cancelled = true
is_cancelled _ = false

-- A job that was called off before the worker had it.
abbrev pub runs : ℕ → Worker → Bool
runs r (executing id r') = eqb r' r
runs r _ = false

pub record CalledOff (r : ℕ) (q : JobQueue) : Type 0 where
  pub status : (q.heap r).status ≡ cancelled
  pub idle : (k : ℕ) → runs r (q.workers k) ≡ false

cancel-keeps :
    (r old : ℕ) (heap : ℕ → Job)
    → (heap r).status ≡ cancelled
    → (cancel old heap r).status ≡ cancelled
unfolding cancel
cancel-keeps r old heap h = elim (Bool-cases (eqb old r)) [
  | inr other ↦ ground arith
  | inl same ↦
      let here : old ≡ r = ground (arith, eqb_iff old r) in rw here (ground (arith, eqb_iff r r))
]

supersede-keeps :
    (o : Option String) (r s : ℕ) (q : JobQueue) → CalledOff r q → CalledOff r (supersede o s q)
supersede-keeps none r s q c = c
supersede-keeps (some m) r s q c = elim (Option-cases (get m q.reconstruct_jobs)) [
  | inl new ↦ rw (supersede, new) (record { status = c.status; idle = c.idle })
  | inr (old, found) ↦
      rw (supersede, found) (record { status = cancel-keeps r old q.heap c.status; idle = c.idle })
]

-- A worker that does not run the job.
at_work-keeps :
    (r k : ℕ) (w : Worker) (q : JobQueue)
    → runs r w ≡ false
    → CalledOff r q
    → CalledOff r (at_work k w q)
at_work-keeps r k w q h c = record {
  status = c.status;
  idle =
      λ j. elim (Bool-cases (eqb k j)) [ inl here ↦ rw here h | inr other ↦ rw other (c.idle j) ];
}

-- A write to another job.
write-keeps :
    (r s : ℕ) (job : Job) (heap : ℕ → Job)
    → eqb s r ≡ false
    → (heap r).status ≡ cancelled
    → (write heap s job r).status ≡ cancelled
write-keeps r s job heap other h = ground (arith, other, h)

dispatch-keeps :
    (k : ℕ) (id : String) (o : Option ℕ) (r : ℕ) (q : JobQueue)
    → CalledOff r q
    → CalledOff r (dispatch k id o q)
dispatch-keeps k id none r q c =
    at_work-keeps r k looping (record q { pending = dec q.pending }) refl
      (record { status = c.status; idle = c.idle })
dispatch-keeps k id (some s) r q c = elim (Bool-cases (is_cancelled (q.heap s).status)) [
  | inl off ↦
      let same : dispatch k id (some s) q
          ≡ at_work k looping (record q { pending = dec q.pending }) =
        ground arith in
      rw same (
        at_work-keeps r k looping (record q { pending = dec q.pending }) refl
          (record { status = c.status; idle = c.idle }))
  | inr on ↦
      let q1 : JobQueue = record q { heap = write q.heap s (with_status running (q.heap s)) } in
      let same : dispatch k id (some s) q ≡ at_work k (executing id s) q1 = ground arith in
      let other : eqb s r ≡ false = elim (Bool-cases (eqb s r)) [
        | inr other ↦ other
        | inl here ↦
            let e : s ≡ r = (eqb_iff s r).0 here in absurd (ground (arith, c.status, rw e at on))
      ] in
      rw same (
        at_work-keeps r k (executing id s) q1 other (record {
          status = write-keeps r s (with_status running (q.heap s)) q.heap other c.status;
          idle = c.idle;
        }))
]

forget-keeps : (id : String) (r s : ℕ) (q : JobQueue) → CalledOff r q → CalledOff r (forget id s q)
forget-keeps id r s q c = record {
  status = ground (arith, c.status);
  idle = λ j. ground (arith, c.idle j);
}

step-CalledOff :
    (r : ℕ) (a : Action) (q q' : JobQueue) → CalledOff r q → step a q ≡ some q' → CalledOff r q'
unfolding step enqueue_locked put_nowait cancel_job loop_head get_next note_idle dispatch_next
    end_run clean_up time_out start signal_shutdown let_go reset
step-CalledOff r (counting s) q q' c e =
    let q1 : JobQueue = record q {
      completed = false;
      jobs = set (q.heap s).id s q.jobs;
      pending = inc q.pending;
      due = q.due ++ (q.heap s).id ∷ [];
    } in
    let same : enqueue_locked s q ≡ q' = ground arith in
    rw (← same)
      (supersede-keeps (q.heap s).model_id r s q1 (record { status = c.status; idle = c.idle }))
step-CalledOff r (putting n) q q' c e = record {
  status = ground (arith, c.status);
  idle = λ j. ground (arith, c.idle j);
}
step-CalledOff r (cancelling s) q q' c e = record {
  status = ground (arith, cancel-keeps r s q.heap c.status);
  idle = λ j. ground (arith, c.idle j);
}
step-CalledOff r (heading k) q q' c e = record {
  status = ground (arith, c.status);
  idle = λ j. ground (arith, c.idle j);
}
step-CalledOff r (getting k) q q' c e = record {
  status = ground (arith, c.status);
  idle = λ j. ground (arith, c.idle j);
}
step-CalledOff r (noting k) q q' c e = record {
  status = ground (arith, c.status);
  idle = λ j. ground (arith, c.idle j);
}
step-CalledOff r (dispatching k) q q' c e = record {
  status = ground (arith, c.status);
  idle = λ j. ground (arith, c.idle j);
}
step-CalledOff r (ending x k) q q' c e = record {
  status = ground (arith, c.status, c.idle k);
  idle = λ j. ground (arith, c.idle j);
}
step-CalledOff r (forgetting k) q q' c e = record {
  status = ground (arith, c.status);
  idle = λ j. ground (arith, c.idle j);
}
step-CalledOff r (timing_out k) q q' c e = record {
  status = ground (arith, c.status);
  idle = λ j. ground (arith, c.idle j);
}
step-CalledOff r (starting k) q q' c e = record {
  status = ground (arith, c.status);
  idle = λ j. ground (arith, c.idle j);
}
step-CalledOff r signalling q q' c e = record {
  status = ground (arith, c.status);
  idle = λ j. ground (arith, c.idle j);
}
step-CalledOff r letting_go q q' c e = record {
  status = ground (arith, c.status);
  idle = λ j. ground (arith, c.idle j);
}
step-CalledOff r resetting q q' c e = record {
  status = ground (arith, c.status);
  idle = λ j. ground (arith, c.idle j);
}

-- A job that is cancelled before a worker executes it stays cancelled and is never executed, in
-- every interleaving of the workers with their callers, however often it is enqueued.
pub run-CalledOff :
    (r : ℕ) (as' : List Action) (q q' : JobQueue)
    → CalledOff r q
    → run as' q ≡ some q'
    → CalledOff r q'
unfolding run
run-CalledOff r [] q q' c e = let same : q ≡ q' = ground arith in rw (← same) c
run-CalledOff r (a ∷ as') q q' c e = elim (Option-cases (step a q)) [
  | inl stuck ↦ absurd (ground arith)
  | inr (q1, moved) ↦
      run-CalledOff r as' q1 q' (step-CalledOff r a q q1 c moved) (ground (arith, moved))
]

abbrev pub is_pending : JobStatus → Bool
is_pending queued = true
is_pending running = true
is_pending _ = false

-- Enqueuing a reconstruction cancels the pending one of the same model, and from then on the new
-- one is the one found for that model.
pub enqueue_supersedes :
    (r old : ℕ) (m : String) (q : JobQueue)
    → (q.heap r).model_id ≡ some m
    → get m q.reconstruct_jobs ≡ some old
    → is_pending (q.heap old).status ≡ true
    → (((enqueue_locked r q).heap old).status ≡ cancelled)
      × (get m (enqueue_locked r q).reconstruct_jobs ≡ some r)
unfolding enqueue_locked cancel
enqueue_supersedes r old m q hm found p = (
  ground (arith, hm, found, p, eqb_iff old old),
  ground (arith, hm, found, get-set_self m r q.reconstruct_jobs),
)
