-- ===== src/Renumber/Tests.antt =====
-- Two chapters of an act that take each other's title.
use native.Mathlib.Omega.{arith}
use dockb.Renumber
use dockb.Prelude.{
  String, Bool, true, not, ◌&&◌, ◌≡◌, refl, sym, eq_iff, inl, inr, Bool-cases, Option, none, some,
  List, [], ◌∷◌, ◌==◌, if◌then◌else◌, keep_if,
}
use dockb.Prelude.Text.{append}
use dockb.Assignments.{is_unsafe_segment}
use dockb.Renumber.{
  ChapterRename, File, Mover, is_file, write, act_dir_name, chapter_dir_name, chapter_file,
  temp_file, Tree, is_move, first_pass, second_pass, renumber_chapters,
}
use dockb.Renumber.Files.{renumber_chapters-Exact, Exact}

abbrev merge_title : String → String → Option String
merge_title content title = some (append title content)

abbrev tree : Tree
tree p =
    if p == "Act 1/A.md"
    then some (record { content = " one"; tracked = true })
    else if p == "Act 1/B.md"
    then some (record { content = " two"; tracked = true })
    else none

-- a git that moves the files it knows
abbrev git_mv : Mover
git_mv source target t = elim (t source) [
  | none ↦ none
  | some f ↦
      if f.tracked && not (is_file t target)
      then some (write target (some f) (write source none t))
      else none
]

moves :
    (source target : String) (f : File) (t : Tree)
    → t source ≡ some f
    → f.tracked ≡ true
    → t target ≡ none
    → git_mv source target t ≡ some (write target (some f) (write source none t))
moves source target f t here is_tracked free = ground (arith, here, is_tracked, free)

abbrev renames : List ChapterRename
renames =
    record { act = "1"; category = "Chapter"; old_title = "A"; new_title = "B" }
    ∷ record { act = "1"; category = "Chapter"; old_title = "B"; new_title = "A" }
    ∷ record { act = "1"; category = "Chapter"; old_title = "C"; new_title = "D" }
    ∷ []

abbrev after : Tree × Bool
after = renumber_chapters merge_title git_mv true (λ t. true) renames tree

swapped : after.0 "Act 1/B.md" ≡ some (record { content = "B one"; tracked = true })
unfolding renumber_chapters first_pass second_pass Renumber.pass chapter_file temp_file
    chapter_dir_name act_dir_name keep_if is_unsafe_segment
swapped = refl

renumber_chapters-Exact_example :
    Exact merge_title (keep_if (is_move merge_title tree) renames) tree after
unfolding first_pass second_pass chapter_file temp_file chapter_dir_name act_dir_name keep_if
    is_unsafe_segment
renumber_chapters-Exact_example =
    renumber_chapters-Exact merge_title git_mv moves (λ t. true) (λ t. refl) renames tree refl
      (
        record {
          content = record { content = " one"; tracked = true };
          content' = record { content = "B one"; tracked = true };
          is_tracked = refl;
          here = refl;
          fits = refl;
          temp_free = refl;
          old_once = refl;
          temp_once = refl;
          new_once = refl;
        },
        (
          record {
            content = record { content = " two"; tracked = true };
            content' = record { content = "A two"; tracked = true };
            is_tracked = refl;
            here = refl;
            fits = refl;
            temp_free = refl;
            old_once = refl;
            temp_once = refl;
            new_once = refl;
          },
          tt,
        ),
      )
      refl
      (λ p e. elim (Bool-cases ("Act 1/A.md" == p)) [
        | inl first ↦ rw (sym ((eq_iff "Act 1/A.md" p).0 first)) refl
        | inr other ↦ rw (sym ((eq_iff "Act 1/B.md" p).0 (ground (arith, other, e)))) refl
      ])
