-- ===== src/Assignments/Tests.antt =====
-- A book that moves from one account to another, and a title that is the id of an account.
use dockb.Prelude.{
  if◌then◌else◌, String, ◌≡◌, refl, Bool, true, false, ◌&&◌, Option, none, some, [], ◌∷◌, ◌==◌,
  find_first,
}
use dockb.Assignments.{
  Document, Disk, DiskPath, Library, Outside, is_unsafe_segment, find_summary, locate_tree, below,
  copytree, adopt_document, assign,
}

abbrev as_is : String → String
as_is s = s

-- a disk that takes every removal, and a git that takes every commit
abbrev kept_of : Disk → DiskPath → Option DiskPath → Option String
kept_of d path none = d.file path
kept_of d path (some rest) = none

abbrev stays_of : Disk → DiskPath → Option DiskPath → Bool
stays_of d path none = d.is_dir path
stays_of d path (some rest) = false

abbrev outside : Outside
outside = record {
  git_commit = λ d. true;
  removal = λ source d. (
    record {
      is_dir = λ path. stays_of d path (below source path);
      file = λ path. kept_of d path (below source path);
    },
    true,
  );
}

abbrev book : Document
book = record { id = "d1"; title = "Book"; owner = some "u1" }

abbrev is_text : DiskPath → Bool
is_text (a ∷ b ∷ c ∷ []) = (a == "u1") && (b == "Book") && (c == "A.md")
is_text _ = false

abbrev is_book : DiskPath → Bool
is_book (a ∷ []) = a == "u1"
is_book (a ∷ b ∷ []) = (a == "u1") && (b == "Book")
is_book _ = false

abbrev disk : Disk
disk = record { is_dir = is_book; file = λ path. if is_text path then some "text" else none }

abbrev library : Library
library = record { documents = book ∷ []; disk = disk }

-- A document without a tree whose title is the id of another account takes that account's files.
abbrev hostile : Library
hostile = record library {
  documents = record { id = "d2"; title = "u1"; owner = some "u3" } ∷ book ∷ [];
}

files_taken :
    (assign as_is outside "d2" "u2" hostile).0.disk.file ("u1" ∷ "Book" ∷ "A.md" ∷ []) ≡ none
unfolding assign find_summary find_first is_unsafe_segment locate_tree adopt_document copytree below
files_taken = refl
