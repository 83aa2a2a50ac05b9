-- ===== src/ImportOrder/Tests.antt =====
-- A manuscript of two acts.
use dockb.Prelude.{String, ◌≡◌, refl, none, some, [], ◌∷◌, ℕ, ◌-◌, Option, if◌then◌else◌}
use dockb.Prelude.Text.{is_space}
use dockb.ChapterNumbers.{span_of, take_digits, match_at, find_from, find_chapter_number}
use Prim.Native.Char.{Char, code}
use dockb.Prelude.Decimal.{is_decimal}
use dockb.Roman.{roman_to_int}
use dockb.ImportOrder.{
  File, Directory, same_act_number, chapter, character, sort, parse_act_directory, chapter_sort_key,
  discover_chapter_files,
}
use dockb.ImportOrder.Listing.{Listing, discover_chapter_files_ordered}

-- The ASCII digits alone.
abbrev ascii_digit : Char → Option ℕ
ascii_digit c = if is_decimal (code c) then some (code c - 48) else none

abbrev same : String → String
same s = s

abbrev file : String → File
file s = record { path = s; stem = s; name = s }

abbrev act_two : Directory
act_two = record { name = "Act II"; files = file "Setup 6" ∷ file "Opening 5 Jael" ∷ [] }

abbrev act_one : Directory
act_one = record { name = "Act 1"; files = file "Start 1" ∷ [] }

test_order :
    discover_chapter_files same same ascii_digit (act_two ∷ act_one ∷ []) (file "Jael" ∷ []) ≡ (
      ("Act 1", chapter, file "Start 1")
          ∷ ("Act II", chapter, file "Opening 5 Jael")
          ∷ ("Act II", chapter, file "Setup 6")
          ∷ ("", character, file "Jael")
          ∷ [],
      none,
    )
unfolding discover_chapter_files chapter_sort_key parse_act_directory sort find_chapter_number
    find_from match_at take_digits span_of is_space roman_to_int
test_order = refl

-- The first of two acts with one number has been yielded when the second is met.
test_same_number :
    discover_chapter_files same same ascii_digit
      (act_one ∷ record { name = "Act I"; files = [] } ∷ [])
      []
    ≡ (("Act 1", chapter, file "Start 1") ∷ [], some (same_act_number 1))
unfolding discover_chapter_files chapter_sort_key parse_act_directory sort find_chapter_number
    find_from match_at take_digits span_of is_space roman_to_int
test_same_number = refl

discover_chapter_files_ordered_example :
    Listing same same ascii_digit
      (act_two ∷ act_one ∷ [])
      (file "Jael" ∷ [])
      (discover_chapter_files same same ascii_digit (act_two ∷ act_one ∷ []) (file "Jael" ∷ [])).0
unfolding discover_chapter_files chapter_sort_key parse_act_directory sort find_chapter_number
    find_from match_at take_digits span_of is_space roman_to_int
discover_chapter_files_ordered_example =
    discover_chapter_files_ordered same same ascii_digit (act_two ∷ act_one ∷ []) (file "Jael" ∷ [])
      refl
