-- ===== src/UnitOfWork/Tests.antt =====
-- Commits and flushes of four models at concrete inputs.
use dockb.Prelude.{
  ℕ, zero, suc, ◌≡◌, refl, ◌⊎◌, Bool, true, false, none, some, List, [], ◌∷◌, arith, All,
}
use dockb.Models.{
  DataState, new, changed, deleted, paragraph, Model, Write, create, update, delete, save_query,
}
use dockb.UnitOfWork.{Heap, Entry, Error, UnitOfWork, cleared, commit, flush_pending}
use dockb.UnitOfWork.Commit.{wanted, FirstPart, Saveable, entries, commit_all_or_kept, commit_total}
use dockb.UnitOfWork.Flush.{flush_total, flush_loses}

abbrev model : DataState → Model
model s = record { kind = paragraph; id = "p"; dirty = false; state = s }

-- an object per state
abbrev objects : Heap
objects zero = model new
objects (suc zero) = model changed
objects (suc (suc zero)) = model deleted
objects (suc (suc (suc n))) = model deleted

abbrev entry : ℕ → Entry
entry r = (r, ("chapter_id", "c1") ∷ [])

abbrev three : UnitOfWork
three = record {
  repos = some (paragraph ∷ []);
  fresh = entry 0 ∷ [];
  altered = entry 1 ∷ [];
  removed = entry 2 ∷ [];
  committed = 0;
}

-- a database that refuses deletions
abbrev no_delete : Write → Bool
no_delete (create r) = true
no_delete (update r) = true
no_delete (delete r) = false

abbrev anything : Write → Bool
anything w = true

commit_all_or_kept_example :
    (commit no_delete objects three []
      ≡ (cleared no_delete three, wanted objects (entries three), none))
    ⊎ ((ws : List Write) × (e : Error) × (commit no_delete objects three [] ≡ (three, ws, some e))
        × FirstPart ws (wanted objects (entries three)))
commit_all_or_kept_example = commit_all_or_kept no_delete objects three []

abbrev all_saveable :
    All (Saveable anything (paragraph ∷ []) objects) (entry 0 ∷ entry 1 ∷ entry 2 ∷ [])
all_saveable =
    ((refl, refl, λ w h. refl), ((refl, refl, λ w h. refl), ((refl, refl, λ w h. refl), tt)))

commit_total_example :
    commit anything objects three []
    ≡ (cleared anything three, wanted objects (entries three), none)
commit_total_example =
    commit_total anything (paragraph ∷ []) objects three [] refl all_saveable refl

flush_total_example :
    flush_pending anything none objects three []
    ≡ (cleared anything three, delete 2 ∷ create 0 ∷ update 1 ∷ [], none)
unfolding save_query
flush_total_example =
    flush_total anything (paragraph ∷ []) none objects three [] refl
      (all_saveable.0, (all_saveable.1.0, tt)) (all_saveable.1.1.0, tt) (refl, tt)

flush_loses_example :
    flush_pending anything none objects
      (record {
        repos = some (paragraph ∷ []);
        fresh = [];
        altered = [];
        removed = entry 1 ∷ entry 2 ∷ [];
        committed = 0;
      })
      []
    ≡ (
      record {
        repos = some (paragraph ∷ []);
        fresh = [];
        altered = [];
        removed = [];
        committed = 1;
      },
      update 1 ∷ [],
      none,
    )
flush_loses_example =
    flush_loses anything (paragraph ∷ []) objects 1 2 0 (entry 1).1 (entry 2).1 []
      (λ e. omega arith) all_saveable.1.0 refl refl
