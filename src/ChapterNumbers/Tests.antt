-- ===== src/ChapterNumbers/Tests.antt =====
-- A book of two chapters and a character.
use dockb.Prelude.{
  ℕ, ◌-◌, String, ◌≡◌, refl, ◌⊎◌, true, Option, none, some, List, [], ◌∷◌, if◌then◌else◌, keep_if,
  arith,
}
use Prim.Native.Char.{Char, code}
use dockb.Prelude.Text.{is_space}
use dockb.Prelude.Decimal.{decimal, is_decimal}
use dockb.Dict
use dockb.ChapterNumbers.{
  take_letter, span_of, take_digits, match_at, find_from, find_chapter_number, renumber_title,
}
use dockb.ChapterNumbers.Rewrite.{Digits, placed, find-renumber_title}
use dockb.ChapterNumbers.Plan.{
  Row, refused, duplicate_title, renamed, Book, titles_of, plan_rows, check_titles, new_titles,
  plan_renumber, renumber, retitle,
}
use dockb.ChapterNumbers.Again.{Outcome, plan_renumber_outcomes, Settles, renumber-Settles}

-- The ASCII digits alone.
abbrev ascii_digit : Char → Option ℕ
ascii_digit c = if is_decimal (code c) then some (code c - 48) else none

ascii_digit_at : (c : Char) → is_decimal (code c) ≡ true → ascii_digit c ≡ some (code c - 48)
ascii_digit_at c h = rw h refl

ascii_digit_space : (c : Char) → is_space c ≡ true → ascii_digit c ≡ none
unfolding is_space
ascii_digit_space c h = ground arith

ascii_digits : Digits ascii_digit
ascii_digits = record { ascii = ascii_digit_at; no_space = ascii_digit_space }

test_embedded :
    renumber_title ascii_digit "Bad Guys Close In 48b Jael" 7 ≡ "Bad Guys Close In 7 Jael"
unfolding renumber_title find_chapter_number find_from match_at take_digits span_of take_letter
    decimal is_space
test_embedded = refl

test_end : renumber_title ascii_digit "Setup5b" 12 ≡ "Setup12"
unfolding renumber_title find_chapter_number find_from match_at take_digits span_of take_letter
    decimal is_space
test_end = refl

test_none : renumber_title ascii_digit "2nd Act" 3 ≡ "2nd Act 3"
unfolding renumber_title find_chapter_number find_from match_at take_digits span_of take_letter
    decimal is_space
test_none = refl

find-renumber_title_example :
    find_chapter_number ascii_digit (renumber_title ascii_digit "Setup 5b" 12)
    ≡ some (placed "Setup 5b" (find_chapter_number ascii_digit "Setup 5b") 12)
find-renumber_title_example = find-renumber_title ascii_digit ascii_digits "Setup 5b" 12

abbrev chapters : List Row
chapters =
    record { id = "1"; title = "Opening 5"; category = ""; act = "I" }
    ∷ record { id = "2"; title = "Jael"; category = "Character"; act = "" }
    ∷ record { id = "3"; title = "Opening 2b"; category = "Chapter"; act = "I" }
    ∷ []

abbrev lower : String → String
lower s = s

plan_renumber_outcomes_example :
    Outcome lower ascii_digit 1 chapters (plan_renumber lower ascii_digit chapters 1)
plan_renumber_outcomes_example =
    plan_renumber_outcomes lower ascii_digit chapters 1 (refl, (refl, (refl, tt)))

abbrev book : Book
book = record { rows = chapters; tree = none }

abbrev merge_title : String → String → Option String
merge_title content title = some title

test_renumber :
    (renumber lower ascii_digit merge_title
      (λ source target tree. none)
      true
      (λ tree. true)
      1
      (some book)).0
    ≡ renamed (
        record { id = "1"; old_title = "Opening 5"; new_title = "Opening 1" }
        ∷ record { id = "3"; old_title = "Opening 2b"; new_title = "Opening 2" }
        ∷ [])
unfolding renumber retitle plan_renumber titles_of check_titles plan_rows new_titles renumber_title
    find_chapter_number find_from match_at take_digits span_of take_letter decimal is_space keep_if
    Dict.get Dict.set
test_renumber = refl

renumber-Settles_example :
    ((title : String) × (renumber lower ascii_digit merge_title
          (λ source target tree. none)
          true
          (λ tree. true)
          1
          (some book)
        ≡ (refused (duplicate_title title), some book)))
    ⊎ Settles lower ascii_digit ascii_digits merge_title
        (λ source target tree. none)
        true
        (λ tree. true)
        1
        book
        (renumber lower ascii_digit merge_title
          (λ source target tree. none)
          true
          (λ tree. true)
          1
          (some book))
renumber-Settles_example =
    renumber-Settles lower ascii_digit ascii_digits merge_title (λ source target tree. none) true
      (λ tree. true) 1 book (refl, (refl, (refl, tt)))
