-- ===== src/Renumber.antt =====
-- src/dockb/infrastructure/document_store/store.py: `renumber_chapters` and the names of the files
-- that it moves. The tree of the document is a function from paths to files, which git knows or not.
-- `merge_title` is `front_matter.merge` with a new title. The git commands are arguments: `git_mv`, the
-- answer of `_ensure_repo`, and whether `git_commit` of a tree goes through.
pub mod Passes
pub mod Files
mod Tests
use dockb.Prelude.{
  ℕ, zero, suc, String, Bool, true, false, not, ◌&&◌, ◌||◌, Option, none, some, List, [], ◌∷◌, map,
  arith, ◌==◌, eq_iff, if◌then◌else◌, eqb_iff, tests, keep_if, any_of,
}
use dockb.Prelude.Text.{append, strip, is_empty, has}
use dockb.Prelude.Decimal.{decimal}
use dockb.FrontMatter.{starts_with}
use dockb.Assignments.{is_unsafe_segment}

-- `ChapterRename`
pub record ChapterRename : Type 0 where
  pub act : String
  pub category : String
  pub old_title : String
  pub new_title : String

-- `_act_dir_name` and `_chapter_dir_name`
unfoldable pub act_dir_name : String → String
unfolding strip starts_with
act_dir_name act =
    let name = strip act in
    if is_empty name
    then "Act None"
    else if starts_with "Act " name
    then name
    else append "Act " name

unfoldable pub chapter_dir_name : String → String → String
unfolding act_dir_name
chapter_dir_name act category = if category == "Character" then "Characters" else act_dir_name act

-- `chapter_file`, inside the directory of the document
unfoldable pub chapter_file : String → String → String → String
unfolding chapter_dir_name
chapter_file act title category =
    append (chapter_dir_name act category) (append "/" (append title ".md"))

-- the private name of the first pass
unfoldable pub temp_file : ℕ → ChapterRename → String
unfolding chapter_dir_name decimal
temp_file index r =
    append (chapter_dir_name r.act r.category)
      (append "/.renumber-" (append (decimal index) (append "-" (append r.old_title ".md"))))

-- a file on disk; `tracked` if it stands in git's index
pub record File : Type 0 where
  pub content : String
  pub tracked : Bool

abbrev pub Tree : Type 0
Tree = String → Option File

abbrev pub is_file : Tree → String → Bool
is_file tree path = elim (tree path) [ none ↦ false | some content ↦ true ]

abbrev pub write : String → Option File → Tree → Tree
write path content tree p = if path == p then content else tree p

-- `git mv`, which may fail
abbrev pub Mover : Type 0
Mover = String → String → Tree → Option Tree

-- a move of a pass, with what is written into the moved file
pub record Step : Type 0 where
  pub source : String
  pub target : String
  pub rewrite : File → Option File

abbrev pub rewritten : Step → Tree → Option Tree
rewritten s tree = elim (tree s.target) [
  | none ↦ none
  | some content ↦ elim (s.rewrite content) [
    | none ↦ none
    | some content' ↦ some (write s.target (some content') tree)
  ]
]

-- One pass over the moves: the tree, how many files it has moved, and whether it went through.
unfoldable pub pass : Mover → List Step → Tree → Tree × ℕ × Bool
pass git_mv [] tree = (tree, 0, true)
pass git_mv (s ∷ ss) tree = elim (git_mv s.source s.target tree) [
  | none ↦ (tree, 0, false)
  | some moved ↦ elim (rewritten s moved) [
    | none ↦ (moved, 1, false)
    | some tree' ↦ let (end, n, ok) = pass git_mv ss tree' in (end, suc n, ok)
  ]
]

-- the recovery: each temp file that is there goes back where its old name is free, until a git
-- command fails
unfoldable pub restore : Mover → List Step → ℕ → Tree → Tree
restore git_mv ss zero tree = tree
restore git_mv [] (suc n) tree = tree
restore git_mv (s ∷ ss) (suc n) tree =
    let rest = restore git_mv ss n in
    if is_file tree s.target && not (is_file tree s.source)
    then (elim (git_mv s.target s.source tree) [ none ↦ tree | some back ↦ rest back ])
    else rest tree

abbrev pub with_content : File → Option String → Option File
with_content f none = none
with_content f (some content) = some (record f { content = content })

module _ (merge_title : String → String → Option String) where
  abbrev pub old_path : ChapterRename → String
  old_path r = chapter_file r.act r.old_title r.category

  abbrev pub new_path : ChapterRename → String
  new_path r = chapter_file r.act r.new_title r.category

  -- the moves that are left after the filter
  abbrev pub is_move : Tree → ChapterRename → Bool
  is_move tree r = not (old_path r == new_path r) && is_file tree (old_path r)

  unfoldable pub first_pass : ℕ → List ChapterRename → List Step
  first_pass i [] = []
  first_pass i (r ∷ rs) =
      record { source = old_path r; target = temp_file i r; rewrite = some } ∷ first_pass (suc i) rs

  unfoldable pub second_pass : ℕ → List ChapterRename → List Step
  second_pass i [] = []
  second_pass i (r ∷ rs) =
      record {
        source = temp_file i r;
        target = new_path r;
        rewrite = λ f. with_content f (merge_title f.content r.new_title);
      }
      ∷ second_pass (suc i) rs

  abbrev pub blocked : List ChapterRename → Tree → ChapterRename → Bool
  blocked moves tree r = not (has (new_path r) (map old_path moves)) && is_file tree (new_path r)

  abbrev pub second : Mover → List Step → List Step → Tree × ℕ × Bool → Tree × Bool
  second git_mv one two (tree, n, false) = (restore git_mv one n tree, false)
  second git_mv one two (tree, n, true) =
      let (end, m, ok) = pass git_mv two tree in
      if ok then (end, true) else (restore git_mv one n end, false)

  -- the commit behind the moves
  abbrev pub with_commit : (Tree → Bool) → Tree × Bool → Tree × Bool
  with_commit git_commit (tree, false) = (tree, false)
  with_commit git_commit (tree, true) = (tree, git_commit tree)

  abbrev pub run_moves : Mover → Bool → (Tree → Bool) → List ChapterRename → Tree → Tree × Bool
  run_moves git_mv ensure_repo git_commit [] tree = (tree, true)
  run_moves git_mv ensure_repo git_commit (r ∷ rs) tree =
      if any_of (blocked (r ∷ rs) tree) (r ∷ rs) || not ensure_repo
      then (tree, false)
      else with_commit git_commit (
          second git_mv (first_pass 0 (r ∷ rs)) (second_pass 0 (r ∷ rs))
            (pass git_mv (first_pass 0 (r ∷ rs)) tree))

  -- the ValueError of `chapter_file`
  abbrev pub unsafe : ChapterRename → Bool
  unsafe r =
      is_unsafe_segment r.old_title
      || is_unsafe_segment r.new_title
      || is_unsafe_segment (chapter_dir_name r.act r.category)

  -- `renumber_chapters`: the tree after it, and whether it returns; `false` is a SnapshotError, or
  -- the error of a title, of git or of the merge
  unfoldable pub renumber_chapters :
      Mover → Bool → (Tree → Bool) → List ChapterRename → Tree → Tree × Bool
  renumber_chapters git_mv ensure_repo git_commit renames tree =
      if any_of unsafe renames
      then (tree, false)
      else run_moves git_mv ensure_repo git_commit (keep_if (is_move tree) renames) tree
