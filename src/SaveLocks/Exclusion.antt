-- ===== src/SaveLocks/Exclusion.antt =====
-- Saves of one chapter exclude each other, however often its lock is evicted and made again.
use dockb.Prelude.{
  ℕ, zero, suc, true, false, eqb, get_elem?, ◌≤◌, ◌<◌, String, ◌≡◌, refl, sym, ap, ◌∙◌, ◌⊎◌, inl,
  inr, none, some, List, [], ◌∷◌, arith, ◌==◌, eq_iff, ltb, Bool-cases, Option-cases, All,
}
use dockb.Dict
use dockb.Dict.{Dict}
use dockb.SaveLocks.{
  Phase, idle, waiting, holding, leaving, users, set_at, Turn, step, run, started,
}
use dockb.SaveLocks.Counts.{count, saves, saves_now, holds, Listed, All-get}
use dockb.SaveLocks.Steps.{run-Sound, started-Sound}

-- The threads that save a chapter hold its lock.
one_lock :
    (locks : Dict ℕ) (c : String) (lock : ℕ) (ps : List Phase)
    → Dict.get c locks ≡ some lock
    → All (Listed locks) ps
    → count (saves_now c) ps ≤ count (holds lock) ps
unfolding count
one_lock locks c lock [] h a = omega arith
one_lock locks c lock (idle ∷ ps) h a = ground (arith, one_lock locks c lock ps h a.1)
one_lock locks c lock (waiting d l ∷ ps) h a = ground (arith, one_lock locks c lock ps h a.1)
one_lock locks c lock (leaving d l ∷ ps) h a = ground (arith, one_lock locks c lock ps h a.1)
one_lock locks c lock (holding d l ∷ ps) h a = elim (Bool-cases (d == c)) [
  | inr other ↦ ground (arith, other, one_lock locks c lock ps h a.1)
  | inl same ↦
      let e : Dict.get c locks ≡ some l = rw ((eq_iff d c).0 same) at a.0 in
      let l_same : l ≡ lock = ap (λ o. elim o [ none ↦ l | some x ↦ x ]) (sym e ∙ h) in
      ground (arith, same, l_same, one_lock locks c lock ps h a.1)
]

get-set_at :
    (i : ℕ) (p q : Phase) (ps : List Phase)
    → get_elem? ps i ≡ some q
    → get_elem? (set_at i p ps) i ≡ some p
unfolding set_at
get-set_at i p q [] h = cc
get-set_at zero p q (x ∷ ps) h = refl
get-set_at (suc i) p q (x ∷ ps) h = get-set_at i p q ps h

-- The holder of a chapter's lock saves the chapter.
lock_for_one :
    (locks : Dict ℕ) (c : String) (lock : ℕ) (ps : List Phase)
    → ((c d : String) (l : ℕ) → Dict.get c locks ≡ some l → Dict.get d locks ≡ some l → c ≡ d)
    → Dict.get c locks ≡ some lock
    → All (Listed locks) ps
    → count (holds lock) ps ≤ count (saves_now c) ps
unfolding count
lock_for_one locks c lock [] f h a = omega arith
lock_for_one locks c lock (idle ∷ ps) f h a = ground (arith, lock_for_one locks c lock ps f h a.1)
lock_for_one locks c lock (waiting d l ∷ ps) f h a =
    ground (arith, lock_for_one locks c lock ps f h a.1)
lock_for_one locks c lock (leaving d l ∷ ps) f h a =
    ground (arith, lock_for_one locks c lock ps f h a.1)
lock_for_one locks c lock (holding d l ∷ ps) f h a = elim (Bool-cases (eqb l lock)) [
  | inr other ↦ ground (arith, other, lock_for_one locks c lock ps f h a.1)
  | inl same ↦
      let e : l ≡ lock = ground (arith, same) in
      let at : Dict.get d locks ≡ some lock = a.0 ∙ ap some e in
      let chapter : (d == c) ≡ true = (eq_iff d c).1 (f d c lock at h) in
      ground (arith, same, chapter, lock_for_one locks c lock ps f h a.1)
]

-- In every interleaving, a thread that waits for its chapter holds the lock after its next step,
-- unless a thread saves that chapter: saves of other chapters never block it.
pub run_proceeds :
    (n i lock : ℕ) (ts : List Turn) (c other : String)
    → get_elem? (run ts (started n)).threads i ≡ some (waiting c lock)
    → count (saves_now c) (run ts (started n)).threads ≡ 0
    → get_elem? (step (record { thread = i; chapter_id = other }) (run ts (started n))).threads i
      ≡ some (holding c lock)
unfolding step set_at
run_proceeds n i lock ts c other h quiet =
    let r = run ts (started n) in
    let s = run-Sound ts (started n) (started-Sound n) in
    let there = All-get r.save_locks i (waiting c lock) r.threads s.listed h in
    let none_hold = lock_for_one r.save_locks c lock r.threads s.apart there s.listed in
    let free : r.held lock ≡ false = elim (Bool-cases (r.held lock)) [
      | inl taken ↦ absurd (ground (arith, none_hold, quiet, s.owned lock, taken))
      | inr free ↦ free
    ] in
    rw (step, h, free) (get-set_at i (holding c lock) (waiting c lock) r.threads h)

no_lock :
    (locks : Dict ℕ) (c : String) (ps : List Phase)
    → Dict.get c locks ≡ none
    → All (Listed locks) ps
    → count (saves_now c) ps ≡ 0
unfolding count
no_lock locks c [] h a = refl
no_lock locks c (idle ∷ ps) h a = ground (arith, no_lock locks c ps h a.1)
no_lock locks c (waiting d l ∷ ps) h a = ground (arith, no_lock locks c ps h a.1)
no_lock locks c (leaving d l ∷ ps) h a = ground (arith, no_lock locks c ps h a.1)
no_lock locks c (holding d l ∷ ps) h a = elim (Bool-cases (d == c)) [
  | inr other ↦ ground (arith, other, no_lock locks c ps h a.1)
  | inl same ↦
      let e : Dict.get c locks ≡ some l = rw ((eq_iff d c).0 same) at a.0 in
      absurd (ground (arith, h, e))
]

-- In every interleaving of any threads, at most one saves a chapter at a time; the users of a chapter
-- are the threads inside, and a chapter without any has no lock in the registry.
pub run-excludes :
    (n : ℕ) (ts : List Turn) (c : String)
    → (count (saves_now c) (run ts (started n)).threads ≤ 1)
      × (users c (run ts (started n)) ≡ count (saves c) (run ts (started n)).threads)
      × ((0 < count (saves c) (run ts (started n)).threads)
          ⊎ (Dict.get c (run ts (started n)).save_locks ≡ none))
run-excludes n ts c =
    let r = run ts (started n) in
    let s = run-Sound ts (started n) (started-Sound n) in
    (
      elim (Option-cases (Dict.get c r.save_locks)) [
        | inl gone ↦ ground (arith, no_lock r.save_locks c r.threads gone s.listed)
        | inr (lock, there) ↦ elim (Bool-cases (r.held lock)) [
          | inl taken ↦
              ground
                (arith, one_lock r.save_locks c lock r.threads there s.listed, s.owned lock, taken)
          | inr free ↦
              ground
                (arith, one_lock r.save_locks c lock r.threads there s.listed, s.owned lock, free)
        ]
      ],
      s.counts c,
      elim (Bool-cases (ltb 0 (count (saves c) r.threads))) [
        | inl inside ↦ inl (ground (arith, inside))
        | inr outside ↦ inr (s.evicted c (ground (arith, outside)))
      ],
    )
