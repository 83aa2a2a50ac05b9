-- ===== src/Models.antt =====
-- src/dockb/models/base.py and src/dockb/infrastructure/neo4j/base.py: the state of a model against
-- the database, its two hooks, and the query that a repository runs for it.
pub mod Lifecycle
mod Tests
use dockb.Prelude.{
  ℕ, String, Bool, true, Option, none, some, [], arith, eq_iff, if◌then◌else◌, eqb_iff, tests,
}

-- `DataState`; `nothing` is the state spelled `_`
pub data DataState : Type 0 where
  sync new changed deleted nothing : DataState

-- the subclasses of `DockbModel` that have a repository
pub data Kind : Type 0 where
  document chapter paragraph sentence : Kind

pub record Model : Type 0 where
  pub kind : Kind
  pub id : String
  pub dirty : Bool
  pub state : DataState

-- `DockbModel.on_changed`
unfoldable pub on_changed : DataState → DataState
on_changed sync = changed
on_changed new = new
on_changed changed = changed
on_changed deleted = changed
on_changed nothing = new

-- `DockbModel.on_deleted`, without the listeners
unfoldable pub on_deleted : DataState → DataState
on_deleted new = nothing
on_deleted _ = deleted

-- `DockbModel.set_text`
unfoldable pub set_text : Model → Model
unfolding on_changed
set_text m = record m { dirty = true; state = on_changed m.state }

-- The query that a repository runs, with the object that it is about.
pub data Write : Type 0 where
  create update delete : ℕ → Write

-- `BaseRepository.save` of the object `r`: `none` where it raises for a dirty model, else the query
unfoldable pub save_query : ℕ → Model → Option (Option Write)
save_query r m = if m.dirty then none else elim m.state [
  | nothing ↦ some none
  | sync ↦ some none
  | new ↦ some (some (create r))
  | changed ↦ some (some (update r))
  | deleted ↦ some (some (delete r))
]
