-- ===== src/ChapterNumbers/Plan.antt =====
-- src/dockb/services/chapter_renumber.py: the plan of a renumbering, and `renumber` of
-- src/dockb/services/crud_services.py, which carries it out. Titles are compared by `lower`, which is
-- `str.lower`.
use dockb.Prelude.{
  ℕ, suc, String, ◌⊎◌, inl, inr, Bool, true, false, not, Option, none, some, List, [], ◌∷◌, ◌++◌,
  map, ◌==◌, if◌then◌else◌, keep_if,
}
use Prim.Native.Char.{Char}
use dockb.Prelude.Text.{has, is_empty}
use dockb.Dict
use dockb.Dict.{Dict}
use dockb.Renumber.{ChapterRename, Tree, Mover, renumber_chapters}
use dockb.ChapterNumbers.{renumber_title}

-- A row of the list of chapters; a category that is missing is empty.
pub record Row : Type 0 where
  pub id : String
  pub title : String
  pub category : String
  pub act : String

-- `row_category`
abbrev pub row_category : Row → String
row_category r = if is_empty r.category then "Chapter" else r.category

abbrev pub is_character : Row → Bool
is_character r = row_category r == "Character"

pub data PlanError : Type 0 where
  duplicate_title : String → PlanError
  key_error : String → PlanError

pub record Retitled : Type 0 where
  pub id : String
  pub old_title : String
  pub new_title : String

pub record RenumberPlan : Type 0 where
  pub entries : Dict String
  pub renames : List Retitled
  pub moves : List ChapterRename

abbrev pub is_nil : Dict String → Bool
is_nil [] = true
is_nil (e ∷ es) = false

infixl 5 ◌>>=◌
abbrev pub ◌>>=◌ {ℓ κ} :
    {A : Type ℓ} {B : Type κ} → PlanError ⊎ A → (A → PlanError ⊎ B) → PlanError ⊎ B
inl e >>= f = inl e
inr a >>= f = f a

-- `new_titles[id]`
abbrev pub title_of : Dict String → String → PlanError ⊎ String
title_of new_titles id = elim (Dict.get id new_titles) [
  | none ↦ inl (key_error id)
  | some t ↦ inr t
]

-- the new titles of the rows, in their order
unfoldable pub titles_of : Dict String → List Row → PlanError ⊎ List String
titles_of new_titles [] = inr []
titles_of new_titles (r ∷ rs) =
    title_of new_titles r.id >>= λ t. titles_of new_titles rs >>= λ ts. inr (t ∷ ts)

abbrev pub with_row : Row → String → RenumberPlan → RenumberPlan
with_row r t p = record {
  entries = (r.id, t) ∷ p.entries;
  renames = record { id = r.id; old_title = r.title; new_title = t } ∷ p.renames;
  moves =
      record { act = r.act; category = row_category r; old_title = r.title; new_title = t }
      ∷ p.moves;
}

abbrev pub nothing_planned : RenumberPlan
nothing_planned = record { entries = []; renames = []; moves = [] }

-- the loop over the numbered rows
unfoldable pub plan_rows : Dict String → List Row → PlanError ⊎ RenumberPlan
plan_rows new_titles [] = inr nothing_planned
plan_rows new_titles (r ∷ rs) = title_of new_titles r.id >>= λ t.
    plan_rows new_titles rs >>= λ p. if t == r.title then inr p else inr (with_row r t p)

module _ (lower : String → String) where
  -- the loop over the final titles
  unfoldable pub check_titles : List String → List String → PlanError ⊎ (Unit {0})
  check_titles seen [] = inr tt
  check_titles seen (t ∷ ts) =
      let rest = check_titles (lower t ∷ seen) ts in
      if has (lower t) seen then inl (duplicate_title t) else rest

module _ (digit_value : Char → Option ℕ) where
  -- the dict of the new titles, by the position from `start` on
  unfoldable pub new_titles : ℕ → List Row → Dict String → Dict String
  new_titles n [] d = d
  new_titles n (r ∷ rs) d =
      new_titles (suc n) rs (Dict.set r.id (renumber_title digit_value r.title n) d)

module _ (lower : String → String) (digit_value : Char → Option ℕ) where
  unfoldable pub plan_renumber : List Row → ℕ → PlanError ⊎ RenumberPlan
  unfolding titles_of check_titles plan_rows new_titles
  plan_renumber rows start =
      let numbered = keep_if (λ r. not (is_character r)) rows in
      let characters = keep_if is_character rows in
      let titles = new_titles digit_value start numbered [] in
      titles_of titles numbered >>= λ ts.
      check_titles lower [] (ts ++ map (λ (r : Row). r.title) characters) >>= λ u.
      plan_rows titles numbered

-- What `retitle` writes in one transaction.
abbrev pub retitled : Option String → Row → Row
retitled none r = r
retitled (some t) r = record r { title = t }

unfoldable pub retitle : Dict String → List Row → List Row
retitle entries [] = []
retitle entries (r ∷ rs) = retitled (Dict.get r.id entries) r ∷ retitle entries rs

pub data RenumberAnswer : Type 0 where
  no_document : RenumberAnswer
  refused : PlanError → RenumberAnswer
  renamed : List Retitled → RenumberAnswer
  store_failed : RenumberAnswer

-- A document with its chapters, and the tree of its files if the account has a store.
pub record Book : Type 0 where
  pub rows : List Row
  pub tree : Option Tree

module _ (lower : String → String) (digit_value : Char → Option ℕ)
    (merge_title : String → String → Option String) (git_mv : Mover) (ensure_repo : Bool)
    (git_commit : Tree → Bool) where
  abbrev pub move_files : RenumberPlan → List Row → Option Tree → RenumberAnswer × Book
  move_files p rows none = (renamed p.renames, record { rows = rows; tree = none })
  move_files p rows (some tree) =
      let (after, ok) = renumber_chapters merge_title git_mv ensure_repo git_commit p.moves tree in
      (if ok then renamed p.renames else store_failed, record { rows = rows; tree = some after })

  abbrev pub carry_out : PlanError ⊎ RenumberPlan → Book → RenumberAnswer × Book
  carry_out (inl e) b = (refused e, b)
  carry_out (inr p) b =
      if is_nil p.entries then (renamed [], b) else move_files p (retitle p.entries b.rows) b.tree

  -- `ChapterService.renumber` of a document that the account has, or has not
  unfoldable pub renumber : ℕ → Option Book → RenumberAnswer × Option Book
  unfolding retitle
  renumber start none = (no_document, none)
  renumber start (some b) =
      let (answer, after) = carry_out (plan_renumber lower digit_value b.rows start) b in
      (answer, some after)
