-- ===== src/SaveLocks/Tests.antt =====
-- Three threads that save one chapter.
use dockb.Prelude.{get_elem?, some, ℕ, ◌≤◌, ◌<◌, ◌≡◌, refl, ◌⊎◌, none, List, [], ◌∷◌}
use dockb.Dict
use dockb.SaveLocks.{
  Phase, waiting, holding, Turn, users, set_at, save_lock, save_release, step, run, started,
}
use dockb.SaveLocks.Counts.{count, saves, saves_now}
use dockb.SaveLocks.Exclusion.{run-excludes, run_proceeds}

abbrev turn : ℕ → Turn
turn i = record { thread = i; chapter_id = "a" }

-- The first thread saves, the second waits and then saves, the third comes as the first leaves.
abbrev turns : List Turn
turns = turn 0 ∷ turn 0 ∷ turn 1 ∷ turn 1 ∷ turn 0 ∷ turn 2 ∷ turn 0 ∷ turn 1 ∷ turn 2 ∷ []

same_lock : (run turns (started 3)).threads ≡ Phase.idle ∷ holding "a" 0 ∷ waiting "a" 0 ∷ []
unfolding step save_lock save_release set_at Dict.get Dict.set Dict.pop
same_lock = refl

run-excludes_example :
    (count (saves_now "a") (run turns (started 3)).threads ≤ 1)
    × (users "a" (run turns (started 3)) ≡ count (saves "a") (run turns (started 3)).threads)
    × ((0 < count (saves "a") (run turns (started 3)).threads)
        ⊎ (Dict.get "a" (run turns (started 3)).save_locks ≡ none))
run-excludes_example = run-excludes 3 turns "a"

-- The first thread saves one chapter while the second comes for another.
abbrev apart : List Turn
apart = turn 0 ∷ turn 0 ∷ record { thread = 1; chapter_id = "b" } ∷ []

run_proceeds_example :
    get_elem? (step (record { thread = 1; chapter_id = "a" }) (run apart (started 3))).threads 1
    ≡ some (holding "b" 1)
unfolding step save_lock save_release set_at Dict.get Dict.set count
run_proceeds_example = run_proceeds 3 1 1 apart "b" "a" refl refl
