-- ===== src/SaveLocks.antt =====
-- src/dockb/services/crud_services.py: the registry of the per-chapter save locks. Each thread goes
-- through `_save_scope` in four steps, of which the first and the last are atomic by the guard of the
-- registry; an interleaving is a list of such steps. A lock is the number of its making.
pub mod Counts
pub mod Steps
pub mod Exclusion
mod Tests
use dockb.Prelude.{
  ℕ, zero, suc, ◌+◌, ◌-◌, String, Bool, true, false, none, some, List, [], ◌∷◌, arith, eq_iff, leb,
  eqb, if◌then◌else◌, eqb_iff, tests, get_elem?,
}
use dockb.Dict
use dockb.Dict.{Dict}

-- where a thread is, with its chapter and the lock that it was given
pub data Phase : Type 0 where
  idle : Phase
  waiting : String → ℕ → Phase
  holding : String → ℕ → Phase
  leaving : String → ℕ → Phase

-- `_save_locks` and `_save_users`, the locks that are held, and the threads
pub record Registry : Type 0 where
  pub save_locks : Dict ℕ
  pub save_users : Dict ℕ
  pub next_lock : ℕ
  pub held : ℕ → Bool
  pub threads : List Phase

abbrev pub users : String → Registry → ℕ
users chapter_id r = elim (Dict.get chapter_id r.save_users) [ none ↦ 0 | some n ↦ n ]

unfoldable pub set_at : ℕ → Phase → List Phase → List Phase
set_at i p [] = []
set_at zero p (q ∷ qs) = p ∷ qs
set_at (suc i) p (q ∷ qs) = q ∷ set_at i p qs

abbrev pub counted : String → Registry → Registry
counted chapter_id r = record r {
  save_users = Dict.set chapter_id (users chapter_id r + 1) r.save_users;
}

-- `_save_lock`, for a thread
unfoldable pub save_lock : ℕ → String → Registry → Registry
unfolding set_at Dict.get Dict.set
save_lock i chapter_id r = elim (Dict.get chapter_id r.save_locks) [
  | none ↦ counted chapter_id (record r {
    save_locks = Dict.set chapter_id r.next_lock r.save_locks;
    next_lock = suc r.next_lock;
    threads = set_at i (waiting chapter_id r.next_lock) r.threads;
  })
  | some lock ↦
      counted chapter_id (record r { threads = set_at i (waiting chapter_id lock) r.threads })
]

-- `_save_release`, for a thread
unfoldable pub save_release : ℕ → String → Registry → Registry
unfolding set_at Dict.get Dict.set Dict.pop
save_release i chapter_id r =
    let left = users chapter_id r - 1 in
    if leb left 0
    then record r {
      save_users = Dict.pop chapter_id r.save_users;
      save_locks = Dict.pop chapter_id r.save_locks;
      threads = set_at i idle r.threads;
    }
    else record r {
      save_users = Dict.set chapter_id left r.save_users;
      threads = set_at i idle r.threads;
    }

abbrev pub hold : ℕ → Bool → (ℕ → Bool) → ℕ → Bool
hold lock b held l = if eqb lock l then b else held l

-- The next step of a thread that is in this phase; an idle one begins a save of the chapter. A
-- thread that waits for a lock that is held makes no step.
abbrev pub step_from : ℕ → String → Phase → Registry → Registry
step_from i chapter_id idle r = save_lock i chapter_id r
step_from i chapter_id (waiting c lock) r =
    if r.held lock
    then r
    else record r { held = hold lock true r.held; threads = set_at i (holding c lock) r.threads }
step_from i chapter_id (holding c lock) r = record r {
  held = hold lock false r.held;
  threads = set_at i (leaving c lock) r.threads;
}
step_from i chapter_id (leaving c lock) r = save_release i c r

-- A step of `_save_scope`: the thread, and the chapter that it saves if it is idle.
pub record Turn : Type 0 where
  pub thread : ℕ
  pub chapter_id : String

unfoldable pub step : Turn → Registry → Registry
unfolding save_lock save_release
step t r = elim (get_elem? r.threads t.thread) [
  | none ↦ r
  | some p ↦ step_from t.thread t.chapter_id p r
]

abbrev pub run : List Turn → Registry → Registry
run [] r = r
run (t ∷ ts) r = run ts (step t r)

abbrev pub idle_threads : ℕ → List Phase
idle_threads zero = []
idle_threads (suc n) = idle ∷ idle_threads n

-- a service with so many threads, before its first save
abbrev pub started : ℕ → Registry
started n = record {
  save_locks = [];
  save_users = [];
  next_lock = 0;
  held = λ lock. false;
  threads = idle_threads n;
}
