-- ===== src/ChapterNumbers.antt =====
-- src/dockb/chapter_numbers.py: the sequence number in the title of a chapter, which is found by the
-- expression `(?<=\s)(\d+)([A-Za-z]?)(?=\s)|(\d+)([A-Za-z]?)$`. A digit is neither a letter nor a
-- space, so a match starts where a run of digits starts and takes the run whole. `digit_value` is the
-- table of the decimal digits, by which `\d` and `int` go.
pub mod Rewrite
pub mod Plan
pub mod Planned
pub mod Renumbered
pub mod Again
mod Tests
use dockb.Prelude.{
  ℕ, ◌+◌, ◌*◌, String, Bool, true, false, ◌&&◌, ◌||◌, Option, none, some, eqb, if◌then◌else◌,
}
use Prim.Native.Char.{Char, code}
use Prim.Native.String.{[] as []ˢ, ◌∷◌ as ◌∷ˢ◌}
use dockb.Prelude.Text.{append, between, is_space}
use dockb.Prelude.Decimal.{decimal}

-- The texts before and after the span stand for its `start` and `end`.
pub record ChapterNumber : Type 0 where
  pub number : ℕ
  pub letter : String
  pub before : String
  pub after : String

-- `[A-Za-z]?`
abbrev pub is_letter : ℕ → Bool
is_letter c = between 65 90 c || between 97 122 c

unfoldable pub take_letter : String → String × String
take_letter []ˢ = ([]ˢ, []ˢ)
take_letter (c ∷ˢ s) = if is_letter (code c) then (c ∷ˢ []ˢ, s) else ([]ˢ, c ∷ˢ s)

-- `$`: the end, or a newline at the end
abbrev pub at_end : String → Bool
at_end []ˢ = true
at_end (c ∷ˢ []ˢ) = eqb (code c) 10
at_end (c ∷ˢ d ∷ˢ s) = false

-- `(?=\s)`
abbrev pub at_space : String → Bool
at_space []ˢ = false
at_space (c ∷ˢ s) = is_space c

-- `(?<=\s)`
abbrev pub behind_space : Option Char → Bool
behind_space none = false
behind_space (some c) = is_space c

-- The span from the digits on, if a letter and what follows them allow it.
unfoldable pub span_of : Option Char → ℕ × String → Option ChapterNumber
unfolding take_letter
span_of prev (n, rest) =
    let (l, after) = take_letter rest in
    if behind_space prev && at_space after || at_end after
    then some (record { number = n; letter = l; before = []ˢ; after = after })
    else none

module _ (digit_value : Char → Option ℕ) where
  abbrev pub is_digit : Char → Bool
  is_digit c = elim (digit_value c) [ none ↦ false | some d ↦ true ]

  abbrev pub behind_digit : Option Char → Bool
  behind_digit none = false
  behind_digit (some c) = is_digit c

  -- `\d+`, with the number that `int` reads
  unfoldable pub take_digits : ℕ → String → ℕ × String
  take_digits n []ˢ = (n, []ˢ)
  take_digits n (c ∷ˢ s) = elim (digit_value c) [
    | none ↦ (n, c ∷ˢ s)
    | some d ↦ take_digits (n * 10 + d) s
  ]

  -- The match that starts here, behind the character `prev`.
  unfoldable pub match_at : Option Char → Char → String → Option ChapterNumber
  match_at prev c s =
      if is_digit c && (if behind_digit prev then false else true)
      then span_of prev (take_digits 0 (c ∷ˢ s))
      else none

  -- The last match.
  unfoldable pub find_from : Option Char → String → Option ChapterNumber
  find_from prev []ˢ = none
  find_from prev (c ∷ˢ s) = elim (find_from (some c) s) [
    | none ↦ match_at prev c s
    | some f ↦ some (record f { before = c ∷ˢ f.before })
  ]

  unfoldable pub find_chapter_number : String → Option ChapterNumber
  find_chapter_number title = find_from none title

  unfoldable pub renumber_title : String → ℕ → String
  renumber_title title number = elim (find_chapter_number title) [
    | none ↦ append title (append " " (decimal number))
    | some found ↦ append found.before (append (decimal number) found.after)
  ]
