-- ===== src/ChapterMove/Tests.antt =====
-- Two chapters and a character.
use dockb.Prelude.{◌≤◌, ◌<◌, String, ◌≡◌, refl, ◌⊎◌, some, List, [], ◌∷◌, keep_if, find_first}
use dockb.ChapterMove.{
  Row, without, at_id, crosses_category, remove, insert_id, new_order, move, category_mismatch,
  reordered,
}
use dockb.ChapterMove.Blocks.{borders, placed, ids, move_outcomes}

abbrev one : Row
one = record { id = "1"; category = ""; act = "I" }

abbrev members : List Row
members =
    one
    ∷ record { id = "2"; category = "Chapter"; act = "II" }
    ∷ record { id = "3"; category = "Character"; act = "" }
    ∷ []

adopts : move members one (some "2") ≡ reordered ("2" ∷ "1" ∷ "3" ∷ []) "II"
unfolding move crosses_category at_id new_order remove insert_id find_first keep_if
adopts = refl

refused : move members one (some "3") ≡ category_mismatch
unfolding move crosses_category at_id new_order remove insert_id find_first keep_if
refused = refl

move_outcomes_example :
    ((borders (without "1" members) < borders (placed one (some "3") (without "1" members)))
      × (move members one (some "3") ≡ category_mismatch))
    ⊎ ((act : String) × (borders (placed one (some "3") (without "1" members))
          ≤ borders (without "1" members))
        × (move members one (some "3")
            ≡ reordered (ids (placed one (some "3") (without "1" members))) act))
move_outcomes_example = move_outcomes members one (some "3") (refl, (refl, (refl, tt))) refl refl
