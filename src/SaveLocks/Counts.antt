-- ===== src/SaveLocks/Counts.antt =====
-- The threads that are inside a save, counted, and the locks that they were given.
use dockb.Prelude.{
  ◌<◌, ℕ, zero, suc, ◌+◌, String, ◌≡◌, ap, inl, inr, Bool, true, false, none, some, List, [], ◌∷◌,
  arith, ◌==◌, eq_iff, eqb, if◌then◌else◌, Bool-cases, get_elem?, All,
}
use dockb.Dict
use dockb.Dict.{Dict, get-set, get-pop}
use dockb.SaveLocks.{Phase, idle, waiting, holding, leaving, Registry, users, set_at}

unfoldable pub count : (Phase → Bool) → List Phase → ℕ
count f [] = 0
count f (p ∷ ps) = let rest = count f ps in if f p then suc rest else rest

abbrev pub bit : Bool → ℕ
bit true = 1
bit false = 0

pub count-set_at :
    (f : Phase → Bool) (i : ℕ) (p q : Phase) (ps : List Phase)
    → get_elem? ps i ≡ some q
    → count f (set_at i p ps) + bit (f q) ≡ count f ps + bit (f p)
unfolding count set_at
count-set_at f i p q [] h = cc
count-set_at f zero p q (x ∷ ps) h =
    let same : x ≡ q = ap (λ o. elim o [ none ↦ x | some y ↦ y ]) h in rw (← same) (ground arith)
count-set_at f (suc i) p q (x ∷ ps) h = ground (arith, count-set_at f i p q ps h)

-- the thread is inside `_save_scope` of the chapter
abbrev pub saves : String → Phase → Bool
saves c idle = false
saves c (waiting d lock) = d == c
saves c (holding d lock) = d == c
saves c (leaving d lock) = d == c

abbrev pub saves_now : String → Phase → Bool
saves_now c idle = false
saves_now c (waiting d lock) = false
saves_now c (holding d lock) = d == c
saves_now c (leaving d lock) = false

abbrev pub holds : ℕ → Phase → Bool
holds l idle = false
holds l (waiting d lock) = false
holds l (holding d lock) = eqb lock l
holds l (leaving d lock) = false

-- A thread inside has the lock that the registry has for its chapter.
abbrev pub Listed : Dict ℕ → Phase → Type 0
Listed locks idle = Unit
Listed locks (waiting c lock) = Dict.get c locks ≡ some lock
Listed locks (holding c lock) = Dict.get c locks ≡ some lock
Listed locks (leaving c lock) = Dict.get c locks ≡ some lock

pub All-set_at :
    (locks : Dict ℕ) (i : ℕ) (p : Phase) (ps : List Phase)
    → Listed locks p
    → All (Listed locks) ps
    → All (Listed locks) (set_at i p ps)
unfolding set_at
All-set_at locks i p [] h a = tt
All-set_at locks zero p (q ∷ ps) h a = (h, a.1)
All-set_at locks (suc i) p (q ∷ ps) h a = (a.0, All-set_at locks i p ps h a.1)

-- What holds between the steps of an interleaving.
pub record Sound (r : Registry) : Type 0 where
  pub counts : (c : String) → users c r ≡ count (saves c) r.threads
  pub listed : All (Listed r.save_locks) r.threads
  pub owned : (l : ℕ) → count (holds l) r.threads ≡ bit (r.held l)
  pub evicted : (c : String) → count (saves c) r.threads ≡ 0 → Dict.get c r.save_locks ≡ none
  pub apart :
      (c d : String) (l : ℕ)
      → Dict.get c r.save_locks ≡ some l
      → Dict.get d r.save_locks ≡ some l
      → c ≡ d
  pub made : (c : String) (l : ℕ) → Dict.get c r.save_locks ≡ some l → l < r.next_lock

pub All-get :
    (locks : Dict ℕ) (i : ℕ) (p : Phase) (ps : List Phase)
    → All (Listed locks) ps
    → get_elem? ps i ≡ some p
    → Listed locks p
All-get locks i p [] a h = cc
All-get locks zero p (q ∷ ps) a h =
    let same : q ≡ p = ap (λ o. elim o [ none ↦ q | some y ↦ y ]) h in rw same at a.0
All-get locks (suc i) p (q ∷ ps) a h = All-get locks i p ps a.1 h

entry-set :
    (locks : Dict ℕ) (c d : String) (l k : ℕ)
    → Dict.get c locks ≡ none
    → Dict.get d locks ≡ some k
    → Dict.get d (Dict.set c l locks) ≡ some k
entry-set locks c d l k h e = elim (Bool-cases (c == d)) [
  | inr other ↦ ground (arith, get-set c d l locks, other, e)
  | inl same ↦
      let gone : Dict.get d locks ≡ none = rw ((eq_iff c d).0 same) at h in
      absurd (ground (arith, gone, e))
]

Listed-set_one :
    (locks : Dict ℕ) (c : String) (l : ℕ) (p : Phase)
    → Dict.get c locks ≡ none
    → Listed locks p
    → Listed (Dict.set c l locks) p
Listed-set_one locks c l idle h a = tt
Listed-set_one locks c l (waiting d k) h a = entry-set locks c d l k h a
Listed-set_one locks c l (holding d k) h a = entry-set locks c d l k h a
Listed-set_one locks c l (leaving d k) h a = entry-set locks c d l k h a

Listed-pop_one :
    (locks : Dict ℕ) (c : String) (p : Phase)
    → saves c p ≡ false
    → Listed locks p
    → Listed (Dict.pop c locks) p
Listed-pop_one locks c idle h a = tt
Listed-pop_one locks c (waiting d k) h a = ground (arith, get-pop c d locks, eq_iff c d, eq_iff d c)
Listed-pop_one locks c (holding d k) h a = ground (arith, get-pop c d locks, eq_iff c d, eq_iff d c)
Listed-pop_one locks c (leaving d k) h a = ground (arith, get-pop c d locks, eq_iff c d, eq_iff d c)

-- A new lock is for a chapter that has none, so no thread is inside.
pub Listed-set :
    (locks : Dict ℕ) (c : String) (l : ℕ) (ps : List Phase)
    → Dict.get c locks ≡ none
    → All (Listed locks) ps
    → All (Listed (Dict.set c l locks)) ps
Listed-set locks c l [] h a = tt
Listed-set locks c l (p ∷ ps) h a =
    (Listed-set_one locks c l p h a.0, Listed-set locks c l ps h a.1)

pub Listed-pop :
    (locks : Dict ℕ) (c : String) (ps : List Phase)
    → count (saves c) ps ≡ 0
    → All (Listed locks) ps
    → All (Listed (Dict.pop c locks)) ps
unfolding count
Listed-pop locks c [] h a = tt
Listed-pop locks c (p ∷ ps) h a =
    (Listed-pop_one locks c p (ground arith) a.0, Listed-pop locks c ps (ground arith) a.1)
