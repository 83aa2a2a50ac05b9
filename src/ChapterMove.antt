-- ===== src/ChapterMove.antt =====
-- src/dockb/services/crud_services.py: `ChapterService.move`, over the chapter rows of a document in
-- display order, and its guard against a move out of a category.
pub mod Blocks
mod Tests
use dockb.Prelude.{
  String, Bool, true, false, not, ◌&&◌, Option, none, some, List, [], ◌∷◌, map, arith, ◌==◌, eq_iff,
  if◌then◌else◌, eqb_iff, tests, keep_if, find_first,
}
use dockb.Prelude.Text.{has, is_empty}

-- a row of `list_by_document`, or the chapter that moves
pub record Row : Type 0 where
  pub id : String
  pub category : String
  pub act : String

-- `_row_category`
abbrev pub row_category : Row → String
row_category r = if is_empty r.category then "Chapter" else r.category

abbrev pub without : String → List Row → List Row
without id members = keep_if (λ r. not (r.id == id)) members

-- the row with the id, and the one that follows it
unfoldable pub at_id : String → List Row → Option (Row × Option Row)
at_id id [] = none
at_id id (r ∷ []) = if r.id == id then some (r, none) else none
at_id id (r ∷ q ∷ rs) =
    let rest = at_id id (q ∷ rs) in if r.id == id then some (r, some q) else rest

abbrev pub is_other : String → Option Row → Bool
is_other category none = true
is_other category (some r) = not (row_category r == category)

abbrev pub first_other : String → List Row → Bool
first_other category [] = false
first_other category (r ∷ rs) = not (row_category r == category)

-- `_crosses_category`
unfoldable pub crosses_category : List Row → Row → Option String → Bool
unfolding keep_if at_id
crosses_category members mover none = first_other (row_category mover) (without mover.id members)
crosses_category members mover (some after) = elim (at_id after (without mover.id members)) [
  | none ↦ false
  | some (r, following) ↦
      if row_category r == row_category mover
      then false
      else is_other (row_category mover) following
]

unfoldable pub remove : String → List String → List String
remove id [] = []
remove id (j ∷ js) = let rest = remove id js in if j == id then js else j ∷ rest

-- `ordered_ids.insert(ordered_ids.index(after) + 1, id)`
unfoldable pub insert_id : String → String → List String → List String
insert_id after id [] = []
insert_id after id (j ∷ js) =
    let rest = insert_id after id js in if j == after then j ∷ id ∷ js else j ∷ rest

unfoldable pub new_order : List Row → String → Option String → List String
unfolding remove insert_id
new_order members id none = id ∷ remove id (map (λ r. r.id) members)
new_order members id (some after) = insert_id after id (remove id (map (λ r. r.id) members))

abbrev pub same_order : List String → List String → Bool
same_order [] [] = true
same_order [] (j ∷ js) = false
same_order (i ∷ is) [] = false
same_order (i ∷ is) (j ∷ js) = (i == j) && same_order is js

abbrev pub first_row : List Row → Option Row
first_row [] = none
first_row (r ∷ rs) = some r

abbrev pub neighbor : List Row → Option String → Option Row
neighbor members none = first_row members
neighbor members (some after) = find_first (λ r. r.id == after) members

-- the act of the chapter after a move to a new order
abbrev pub adopted_act : List Row → Row → Option String → String
adopted_act members mover after = elim (neighbor members after) [
  | none ↦ mover.act
  | some r ↦ if row_category r == row_category mover then r.act else mover.act
]

-- The answers of `move` for a chapter of a document: nothing changes, the two errors, or the new
-- order with the chapter's act.
pub data Moved : Type 0 where
  unchanged : Moved
  after_not_found : Moved
  category_mismatch : Moved
  reordered : List String → String → Moved

abbrev pub missing : Option String → List Row → Bool
missing none members = false
missing (some after) members = not (has after (map (λ r. r.id) members))

abbrev pub is_self : String → Option String → Bool
is_self id none = false
is_self id (some after) = id == after

-- `move`
unfoldable pub move : List Row → Row → Option String → Moved
unfolding crosses_category new_order find_first
move members mover after =
    let order = new_order members mover.id after in
    if is_self mover.id after
    then unchanged
    else if missing after members
    then after_not_found
    else if crosses_category members mover after
    then category_mismatch
    else if same_order order (map (λ r. r.id) members)
    then reordered order mover.act
    else reordered order (adopted_act members mover after)
