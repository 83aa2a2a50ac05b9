-- ===== src/Assignments.antt =====
-- src/dockb/services/assignment_service.py, with src/dockb/titles.py and the operations it calls of
-- src/dockb/repositories/document_repository.py and src/dockb/infrastructure/document_store/store.py
-- and factory.py: giving a document to an account. The graph is the list of its documents. The disk
-- is a function from paths below the base directory: `<account>/<title>` is the tree of a document,
-- and `<title>` is one in the older layout, which is an account's directory if the title is its id.
-- `lower` is `str.lower`. Git and the operating system are arguments: whether the commit of a copy goes
-- through, and what a removal leaves and whether it goes through.
pub mod Outcomes
mod Tests
use dockb.Prelude.{
  if◌then◌else◌, String, ◌⊎◌, inl, inr, Bool, true, false, not, ◌&&◌, ◌||◌, Option, none, some,
  List, [], ◌∷◌, ◌++◌, map, ◌==◌, eqb, any_of, find_first,
}
use dockb.Prelude.Text.{has}
use dockb.Uploads.{any_char, is_control}

pub data AssignmentError : Type 0 where
  document_not_found document_format duplicate_title snapshot_error removal_error : AssignmentError

pub record Document : Type 0 where
  pub id : String
  pub title : String
  pub owner : Option String

abbrev pub DiskPath : Type 0
DiskPath = List String

pub record Disk : Type 0 where
  pub is_dir : DiskPath → Bool
  pub file : DiskPath → Option String

pub record Library : Type 0 where
  pub documents : List Document
  pub disk : Disk

-- the outside of a move
pub record Outside : Type 0 where
  pub git_commit : Disk → Bool
  pub removal : DiskPath → Disk → Disk × Bool

-- `Assignment`
pub record Assignment : Type 0 where
  pub document_id : String
  pub title : String
  pub account_id : String
  pub tree_moved : Bool
  pub already_owned : Bool

-- `is_unsafe_segment`; 47 and 92 are the codes of / and \
unfoldable pub is_unsafe_segment : String → Bool
is_unsafe_segment value =
    (value == "")
    || has value ("." ∷ ".." ∷ [])
    || any_char (λ c. eqb c 47 || eqb c 92) value
    || any_char is_control value

abbrev pub same_owner : Option String → Option String → Bool
same_owner none none = true
same_owner (some a) (some b) = a == b
same_owner _ _ = false

-- `find_summary`
unfoldable pub find_summary : String → Library → Option Document
find_summary document_id l = find_first (λ d. d.id == document_id) l.documents

-- `assign_owner`
abbrev pub give : String → String → Document → Document
give document_id account_id d =
    if d.id == document_id then record d { owner = some account_id } else d

abbrev pub assign_owner : String → String → Library → Library × Bool
assign_owner document_id account_id l = (
  record l { documents = map (give document_id account_id) l.documents },
  any_of (λ d. d.id == document_id) l.documents,
)

-- `_locate_tree`
unfoldable pub locate_tree : String → Option String → Library → Option DiskPath
locate_tree title none l = if l.disk.is_dir (title ∷ []) then some (title ∷ []) else none
locate_tree title (some owner) l =
    if l.disk.is_dir (owner ∷ title ∷ [])
    then some (owner ∷ title ∷ [])
    else if l.disk.is_dir (title ∷ [])
    then some (title ∷ [])
    else none

-- What is left of a path behind the one of a directory that it is in.
unfoldable pub below : DiskPath → DiskPath → Option DiskPath
below [] path = some path
below (n ∷ ns) [] = none
below (n ∷ ns) (m ∷ ms) = if n == m then below ns ms else none

abbrev pub at_copy {ℓ} : {A : Type ℓ} → (DiskPath → A) → DiskPath → DiskPath → Option DiskPath → A
at_copy f source path none = f path
at_copy f source path (some rest) = f (source ++ rest)

-- `shutil.copytree`
unfoldable pub copytree : DiskPath → DiskPath → Disk → Disk
unfolding below
copytree source target d = record {
  is_dir = λ path. at_copy d.is_dir source path (below target path);
  file = λ path. at_copy d.file source path (below target path);
}

-- `adopt_document` of the store of an account, for a directory that is there: the disk it leaves, and
-- whether it returns
unfoldable pub adopt_document : Outside → String → String → DiskPath → Disk → Disk × Bool
unfolding copytree
adopt_document outside account_id title source d =
    if d.is_dir (account_id ∷ title ∷ [])
    then (d, false)
    else (let copied = copytree source (account_id ∷ title ∷ []) d in
        (copied, outside.git_commit copied))

module _ (lower : String → String) where
  -- `_refuse_title_clash`
  abbrev pub clashes : String → String → String → Document → Bool
  clashes title document_id account_id d =
      same_owner d.owner (some account_id)
      && (lower d.title == lower title)
      && not (d.id == document_id)

  abbrev pub answer : Document → String → Bool → Bool → Assignment
  answer d account_id tree_moved already_owned = record {
    document_id = d.id;
    title = d.title;
    account_id = account_id;
    tree_moved = tree_moved;
    already_owned = already_owned;
  }

  -- the stamp in the graph, and `_remove_tree` by `remove_document` or `remove_legacy_document`
  abbrev pub after_removal :
      Document → String → Library → Disk × Bool → Library × (AssignmentError ⊎ Assignment)
  after_removal d account_id l (disk, false) = (record l { disk = disk }, inl removal_error)
  after_removal d account_id l (disk, true) =
      (record l { disk = disk }, inr (answer d account_id true false))

  abbrev pub stamp :
      Outside
      → Document
      → String
      → Option DiskPath
      → Library × Bool
      → Library × (AssignmentError ⊎ Assignment)
  stamp outside d account_id source (l, false) = (l, inl document_not_found)
  stamp outside d account_id none (l, true) = (l, inr (answer d account_id false false))
  stamp outside d account_id (some source) (l, true) =
      after_removal d account_id l (outside.removal source l.disk)

  abbrev pub after_copy :
      Outside
      → Document
      → String
      → DiskPath
      → Library
      → Disk × Bool
      → Library × (AssignmentError ⊎ Assignment)
  after_copy outside d account_id source l (disk, false) =
      (record l { disk = disk }, inl snapshot_error)
  after_copy outside d account_id source l (disk, true) =
      stamp outside d account_id (some source)
        (assign_owner d.id account_id (record l { disk = disk }))

  abbrev pub move :
      Outside
      → Document
      → String
      → Option DiskPath
      → Library
      → Library × (AssignmentError ⊎ Assignment)
  move outside d account_id none l =
      stamp outside d account_id none (assign_owner d.id account_id l)
  move outside d account_id (some source) l =
      after_copy outside d account_id source l
        (adopt_document outside account_id d.title source l.disk)

  -- `assign`, for a document that is found
  abbrev pub assign_found :
      Outside → Document → String → Library → Library × (AssignmentError ⊎ Assignment)
  assign_found outside d account_id l =
      if is_unsafe_segment d.title
      then (l, inl document_format)
      else if same_owner d.owner (some account_id)
      then (l, inr (answer d account_id false true))
      else if any_of (clashes d.title d.id account_id) l.documents
      then (l, inl duplicate_title)
      else move outside d account_id (locate_tree d.title d.owner l) l

  unfoldable pub assign :
      Outside → String → String → Library → Library × (AssignmentError ⊎ Assignment)
  assign outside document_id account_id l = elim (find_summary document_id l) [
    | none ↦ (l, inl document_not_found)
    | some d ↦ assign_found outside d account_id l
  ]
