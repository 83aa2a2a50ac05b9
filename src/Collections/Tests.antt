-- ===== src/Collections/Tests.antt =====
-- Two documents with three chapters at concrete inputs.
use dockb.Prelude.{ℕ, zero, suc, ◌≡◌, refl, none, some, [], ◌∷◌}
use dockb.Dict
use dockb.Dict.{Dict}
use dockb.Models.{sync}
use dockb.Collections.{Heap, after, insert_after, insert, clear}
use dockb.Collections.Moves.{moved, insert_moves}
use dockb.Collections.Removal.{removed, clear_exact}

abbrev nodes : Heap
nodes zero = record {
  id = "d0";
  state = sync;
  parent = none;
  children = ("c2", 2) ∷ ("c3", 3) ∷ [];
}
nodes (suc zero) = record { id = "d1"; state = sync; parent = none; children = ("c4", 4) ∷ [] }
nodes (suc (suc zero)) = record { id = "c2"; state = sync; parent = some 0; children = [] }
nodes (suc (suc (suc zero))) = record { id = "c3"; state = sync; parent = some 0; children = [] }
nodes (suc (suc (suc (suc n)))) = record { id = "c4"; state = sync; parent = some 1; children = [] }

insert_moves_example :
    (h' : Heap) × (insert 2 1 3 (after (some "c4")) nodes ≡ some h')
    × ((i : ℕ) → h' i ≡ moved 1 0 3 (("c4", 4) ∷ ("c3", 3) ∷ []) nodes i)
unfolding Dict.get Dict.member insert_after
insert_moves_example =
    insert_moves 2 1 0 3 (after (some "c4")) nodes (record { found = refl; parent = refl }) refl
      refl refl refl refl

clear_exact_example : clear 0 nodes 3 ≡ removed (nodes 3)
clear_exact_example = clear_exact 0 nodes refl (refl, (refl, tt)) 3
