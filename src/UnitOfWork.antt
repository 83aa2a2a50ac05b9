-- ===== src/UnitOfWork.antt =====
-- src/dockb/infrastructure/neo4j/unit_of_work.py: the models to persist, and their two commits.
-- Models are shared objects: `Heap` gives the object of a reference, and a list entry holds a
-- reference with its parent ids. A repository that accepts a query adds it to the log; the database
-- may refuse one (`accepts`), and the reconstructor is the argument `reconstruct`.
pub mod Commit
pub mod Flush
mod Tests
use dockb.Prelude.{
  ℕ, zero, suc, ◌+◌, String, Bool, true, false, not, ◌&&◌, Option, none, some, List, [], ◌∷◌, ◌++◌,
  arith, eq_iff, eqb, if◌then◌else◌, eqb_iff, tests, length, get_elem?, keep_if, any_of,
}
use dockb.Dict.{Dict, member}
use dockb.Models.{
  DataState, sync, new, changed, deleted, nothing, Kind, document, chapter, paragraph, sentence,
  Model, Write, save_query,
}

abbrev pub Heap : Type 0
Heap = ℕ → Model

abbrev pub Entry : Type 0
Entry = ℕ × Dict String

-- the exceptions: ValueError, KeyError of a missing repository, an error of the driver
pub data Error : Type 0 where
  value_error key_error driver_error : Error

pub data Outcome {ℓ} (A : Type ℓ) : Type ℓ where
  ok : A → Outcome A
  raise : Error → Outcome A

-- the state of `UnitOfWork`; `committed` counts the calls of `on_commit`
pub record UnitOfWork : Type 0 where
  pub repos : Option (List Kind)
  pub fresh : List Entry
  pub altered : List Entry
  pub removed : List Entry
  pub committed : ℕ

abbrev pub same_kind : Kind → Kind → Bool
same_kind document document = true
same_kind chapter chapter = true
same_kind paragraph paragraph = true
same_kind sentence sentence = true
same_kind _ _ = false

-- `_PARENT_REQUIREMENTS`
abbrev pub required : Kind → Option String
required document = none
required chapter = some "document_id"
required paragraph = some "chapter_id"
required sentence = some "paragraph_id"

abbrev pub has_parent : Option String → Dict String → Bool
has_parent none ids = true
has_parent (some key) ids = member key ids

abbrev pub is_deleted : DataState → Bool
is_deleted deleted = true
is_deleted _ = false

-- `register`
unfoldable pub register : Heap → ℕ → Dict String → UnitOfWork → Outcome UnitOfWork
register h r ids u =
    if not (has_parent (required (h r).kind) ids) then raise value_error else elim (h r).state [
      | new ↦ ok (record u { fresh = u.fresh ++ (r, ids) ∷ [] })
      | changed ↦ ok (record u { altered = u.altered ++ (r, ids) ∷ [] })
      | deleted ↦ ok (record u { removed = u.removed ++ (r, ids) ∷ [] })
      | sync ↦ ok u
      | nothing ↦ ok u
    ]

module _ (accepts : Write → Bool) where
  -- `repos[type(model)].save(model, **parent_ids)` onto the log of accepted queries
  unfoldable pub save : List Kind → Heap → ℕ → List Write → List Write × Option Error
  save kinds h r log =
      if not (any_of (same_kind (h r).kind) kinds)
      then (log, some key_error)
      else elim (save_query r (h r)) [
        | none ↦ (log, some value_error)
        | some none ↦ (log, none)
        | some (some w) ↦ if accepts w then (log ++ w ∷ [], none) else (log, some driver_error)
      ]

  -- one of the three loops of `commit`, which the first exception ends
  unfoldable pub save_all : List Kind → Heap → List Entry → List Write → List Write × Option Error
  save_all kinds h [] log = (log, none)
  save_all kinds h ((r, ids) ∷ es) log =
      let (log', e) = save kinds h r log in
      elim e [ none ↦ save_all kinds h es log' | some x ↦ (log', some x) ]

  -- the validation of deleted entries
  abbrev pub may_delete : Model → Bool
  may_delete m = is_deleted m.state && not m.dirty

  abbrev pub cleared : UnitOfWork → UnitOfWork
  cleared u = record u { fresh = []; altered = []; removed = []; committed = u.committed + 1 }

  abbrev pub finish :
      UnitOfWork → List Write × Option Error → UnitOfWork × List Write × Option Error
  finish u (log, none) = (cleared u, log, none)
  finish u (log, some e) = (u, log, some e)

  -- `commit`: the unit of work, the log and the exception after it
  unfoldable pub commit : Heap → UnitOfWork → List Write → UnitOfWork × List Write × Option Error
  commit h u log = elim u.repos [
    | none ↦ (u, log, some value_error)
    | some kinds ↦
        if any_of (λ e. not (may_delete (h e.0))) u.removed
        then (u, log, some value_error)
        else finish u (save_all kinds h (u.fresh ++ u.altered ++ u.removed) log)
  ]

  -- `_auto_promote`: the entries of an object, which move to the list of its state
  abbrev pub without : ℕ → List Entry → List Entry
  without r = keep_if (λ e. not (eqb e.0 r))

  unfoldable pub auto_promote : Heap → Entry → UnitOfWork → UnitOfWork
  auto_promote h e u = elim (h e.0).state [
    | new ↦ record u {
      fresh = without e.0 u.fresh ++ e ∷ [];
      altered = without e.0 u.altered;
      removed = without e.0 u.removed;
    }
    | changed ↦ record u {
      fresh = without e.0 u.fresh;
      altered = without e.0 u.altered ++ e ∷ [];
      removed = without e.0 u.removed;
    }
    | deleted ↦ u
    | sync ↦ u
    | nothing ↦ u
  ]

  -- The loop over `_deleted` of `flush_pending`. Python iterates over a list by index, and
  -- `_auto_promote` shortens that list while the loop runs.
  unfoldable pub flush_deleted :
      List Kind → Heap → ℕ → ℕ → UnitOfWork → List Write → UnitOfWork × List Write × Option Error
  flush_deleted kinds h zero i u log = (u, log, none)
  flush_deleted kinds h (suc rounds) i u log = elim (get_elem? u.removed i) [
    | none ↦ (u, log, none)
    | some e ↦ elim (is_deleted (h e.0).state) [
      | false ↦ flush_deleted kinds h rounds (suc i) (auto_promote h e u) log
      | true ↦
          let (log', x) = save kinds h e.0 log in
          elim x [
            | none ↦ flush_deleted kinds h rounds (suc i) u log'
            | some err ↦ (u, log', some err)
          ]
    ]
  ]

  -- the reconstruction of the dirty models of a list, one after the other
  unfoldable pub reconstruct_all : (ℕ → Heap → Heap) → List Entry → Heap → Heap
  reconstruct_all reconstruct [] h = h
  reconstruct_all reconstruct ((r, ids) ∷ es) h =
      reconstruct_all reconstruct es (if (h r).dirty then reconstruct r h else h)

  -- the models after the reconstruction loops of `flush_pending`
  abbrev pub reconstructed : Option (ℕ → Heap → Heap) → Heap → UnitOfWork → Heap
  reconstructed none h u = h
  reconstructed (some f) h u = reconstruct_all f u.altered (reconstruct_all f u.fresh h)

  abbrev pub then_commit :
      Heap → UnitOfWork × List Write × Option Error → UnitOfWork × List Write × Option Error
  then_commit h (u, log, none) = commit h (record u { removed = [] }) log
  then_commit h (u, log, some e) = (u, log, some e)

  -- `flush_pending`, with the reconstructor if there is one
  unfoldable pub flush_pending :
      Option (ℕ → Heap → Heap)
      → Heap
      → UnitOfWork
      → List Write
      → UnitOfWork × List Write × Option Error
  unfolding flush_deleted commit
  flush_pending reconstructor h u log = elim u.repos [
    | none ↦ (u, log, some value_error)
    | some kinds ↦
        let h' = reconstructed reconstructor h u in
        then_commit h' (flush_deleted kinds h' (length u.removed) 0 u log)
  ]
