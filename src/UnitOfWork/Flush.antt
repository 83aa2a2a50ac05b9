-- ===== src/UnitOfWork/Flush.antt =====
-- `flush_pending`: what its loop over the deleted entries does.
use dockb.Prelude.{
  ℕ, zero, suc, ◌+◌, ◌≤◌, String, ◌≡◌, refl, sym, ap, ◌∙◌, ◌≢◌, inl, inr, Bool, true, not, Option,
  none, some, List, [], ◌∷◌, ◌++◌, arith, eqb, Option-cases, length, get_elem?, keep_if,
  length-append, length-keep_if-le, All,
}
use mathlib.Core.List.{append-nil, append_assoc}
use dockb.Dict.{Dict}
use dockb.Models.{changed, deleted, Kind, Write, update, save_query}
use dockb.UnitOfWork.{
  Heap, Entry, UnitOfWork, is_deleted, save, cleared, auto_promote, flush_deleted, reconstructed,
  flush_pending,
}
use dockb.UnitOfWork.Commit.{wanted, query_of, Saveable, commit_total, save_total, query_of-append}

past_end {ℓ} : {A : Type ℓ} (xs : List A) (i : ℕ) → length xs ≤ i → get_elem? xs i ≡ none
past_end [] i h = refl
past_end (x ∷ xs) zero h = absurd (omega arith)
past_end (x ∷ xs) (suc i) h = past_end xs i (omega arith)

next_elem {ℓ} :
    {A : Type ℓ} (xs : List A) (y : A) (ys : List A) → get_elem? (xs ++ y ∷ ys) (length xs) ≡ some y
next_elem [] y ys = refl
next_elem (x ∷ xs) y ys = next_elem xs y ys

module _ (accepts : Write → Bool) (kinds : List Kind) (h : Heap) where
  length-auto_promote :
      (e : Entry) (u : UnitOfWork) → length (auto_promote accepts h e u).removed ≤ length u.removed
  unfolding auto_promote
  length-auto_promote e u =
      ground (arith, length-keep_if-le (λ (x : Entry). not (eqb x.0 e.0)) u.removed)

  -- Past the end of the list no more rounds are made, so the fuel that is given is enough.
  pub flush_deleted_fuel :
      (rounds i : ℕ) (u : UnitOfWork) (log : List Write)
      → length u.removed ≤ rounds + i
      → flush_deleted accepts kinds h (suc rounds) i u log
        ≡ flush_deleted accepts kinds h rounds i u log
  unfolding flush_deleted
  flush_deleted_fuel zero i u log enough = ground (arith, past_end u.removed i (omega arith))
  flush_deleted_fuel (suc rounds) i u log enough = elim (Option-cases (get_elem? u.removed i)) [
    | inl end ↦ ground arith
    | inr (e, here) ↦ ground (
      arith,
      flush_deleted_fuel rounds (suc i) (auto_promote accepts h e u) log
          (omega (arith, length-auto_promote e u)),
      flush_deleted_fuel rounds (suc i) u (save accepts kinds h e.0 log).0 (omega arith),
    )
  ]

  -- If every deleted entry is still deleted, the loop writes each of them, in order.
  flush_deleted_all :
      (es pre : List Entry) (rounds : ℕ) (u : UnitOfWork) (log : List Write)
      → u.removed ≡ pre ++ es
      → length es ≤ rounds
      → All (Saveable accepts kinds h) es
      → All (λ e. is_deleted (h e.0).state ≡ true) es
      → flush_deleted accepts kinds h rounds (length pre) u log ≡ (u, log ++ wanted h es, none)
  unfolding flush_deleted
  flush_deleted_all [] pre zero u log eq le good dead = ground (arith, append-nil log)
  flush_deleted_all [] pre (suc rounds) u log eq le good dead =
      let all_seen : length u.removed ≤ length pre =
        omega (arith, ap length eq, length-append pre []) in
      ground (arith, past_end u.removed (length pre) all_seen, append-nil log)
  flush_deleted_all (e ∷ es) pre zero u log eq le good dead = absurd (omega arith)
  flush_deleted_all (e ∷ es) pre (suc rounds) u log eq le good dead =
      let here : get_elem? u.removed (length pre) ≡ some e = rw eq (next_elem pre e es) in
      let log' = log ++ query_of (save_query e.0 (h e.0)) [] in
      let rest =
        flush_deleted_all es (pre ++ e ∷ []) rounds u log' (eq ∙ sym (append_assoc pre (e ∷ []) es))
          (omega arith) good.1 dead.1 in
      let index : length (pre ++ e ∷ []) ≡ suc (length pre) =
        omega (arith, length-append pre (e ∷ [])) in
      ground (
        arith,
        here,
        dead.0,
        save_total accepts kinds h e log good.0,
        rw index at rest,
        query_of-append (save_query e.0 (h e.0)) log (wanted h es),
      )

-- If every deleted entry is still deleted when the flush runs and all entries can be saved, a flush
-- writes the deletions first, then the new and the changed entries, and empties the lists.
pub flush_total :
    (accepts : Write → Bool) (kinds : List Kind) (f : Option (ℕ → Heap → Heap)) (h : Heap)
    (u : UnitOfWork) (log : List Write)
    → u.repos ≡ some kinds
    → All (Saveable accepts kinds (reconstructed accepts f h u)) (u.fresh ++ u.altered ++ [])
    → All (Saveable accepts kinds (reconstructed accepts f h u)) u.removed
    → All (λ e. is_deleted (reconstructed accepts f h u e.0).state ≡ true) u.removed
    → flush_pending accepts f h u log ≡ (
      cleared accepts u,
      (log ++ wanted (reconstructed accepts f h u) u.removed)
          ++ wanted (reconstructed accepts f h u) (u.fresh ++ u.altered ++ []),
      none,
    )
unfolding flush_pending
flush_total accepts kinds f h u log repos good good' dead =
    let h' = reconstructed accepts f h u in
    ground (
      arith,
      flush_deleted_all accepts kinds h' u.removed [] (length u.removed) u log refl (omega arith)
          good' dead,
      commit_total accepts kinds h' (record u { removed = [] }) (log ++ wanted h' u.removed) repos
          good refl,
    )

-- A deletion is lost: of two deleted entries the first has been edited since, so the loop moves it
-- to the changed entries and steps over the second. The flush reports success, and the second
-- entry's row is never deleted.
pub flush_loses :
    (accepts : Write → Bool) (kinds : List Kind) (h : Heap) (r s n : ℕ) (ids jds : Dict String)
    (log : List Write)
    → r ≢ s
    → Saveable accepts kinds h (r, ids)
    → (h r).state ≡ changed
    → (h s).state ≡ deleted
    → flush_pending accepts none h
        (record {
          repos = some kinds;
          fresh = [];
          altered = [];
          removed = (r, ids) ∷ (s, jds) ∷ [];
          committed = n;
        })
        log
      ≡ (
        record { repos = some kinds; fresh = []; altered = []; removed = []; committed = n + 1 },
        log ++ update r ∷ [],
        none,
      )
unfolding flush_pending auto_promote save_query keep_if
flush_loses accepts kinds h r s n ids jds log ne good edited dead =
    let single =
      commit_total accepts kinds h
        (record {
          repos = some kinds;
          fresh = [];
          altered = (r, ids) ∷ [];
          removed = [];
          committed = n;
        })
        log refl (good, tt) refl in
    ground (arith, single)
