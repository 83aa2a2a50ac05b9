-- ===== src/ImportOrder.antt =====
-- src/dockb/services/markdown_import.py: the chapter files of a document directory in the order in
-- which they are imported. A listing of a directory has any order. `upper` and `lower` are `str.upper`
-- and `str.lower`, and `digit_value` is the table of the decimal digits.
pub mod Sorting
pub mod Listing
mod Tests
use dockb.Prelude.{
  ℕ, zero, suc, String, ◌⊎◌, inl, inr, Bool, true, false, not, ◌&&◌, ◌||◌, Option, none, some, List,
  [], ◌∷◌, ◌++◌, map, ltb, eqb, ◌==◌, if◌then◌else◌,
}
use Prim.Native.Char.{Char, code}
use Prim.Native.String.{[] as []ˢ, ◌∷◌ as ◌∷ˢ◌}
use dockb.Prelude.Text.{is_empty}
use dockb.Prelude.Decimal.{number, all_chars, is_decimal}
use dockb.Roman.{roman_to_int}
use dockb.ChapterNumbers.{find_chapter_number}

-- A markdown file with its stem and its name.
pub record File : Type 0 where
  pub path : String
  pub stem : String
  pub name : String

-- A subdirectory with the markdown files anywhere below it.
pub record Directory : Type 0 where
  pub name : String
  pub files : List File

-- the errors that a DocumentFormatError reports
pub data OrderError : Type 0 where
  act_not_numbered : String → OrderError
  chapter_not_numbered : String → OrderError
  same_act_number : ℕ → OrderError
  same_chapter_number : String → OrderError

-- a number and a text, compared as a tuple
abbrev pub Key : Type 0
Key = ℕ × String

abbrev pub le_text : String → String → Bool
le_text []ˢ t = true
le_text (c ∷ˢ s) []ˢ = false
le_text (c ∷ˢ s) (d ∷ˢ t) = ltb (code c) (code d) || eqb (code c) (code d) && le_text s t

abbrev pub le_key : Key → Key → Bool
le_key (m, s) (n, t) = ltb m n || eqb m n && le_text s t

abbrev pub same_key : Key → Key → Bool
same_key (m, s) (n, t) = eqb m n && (s == t)

-- `sorted`, which keeps the order of what is equal
module _ {A : Type 0} (le : A → A → Bool) where
  unfoldable pub insert_sorted : A → List A → List A
  insert_sorted x [] = x ∷ []
  insert_sorted x (y ∷ ys) =
      let rest = insert_sorted x ys in if le x y then x ∷ y ∷ ys else y ∷ rest

  unfoldable pub sort : List A → List A
  unfolding insert_sorted
  sort [] = []
  sort (x ∷ xs) = insert_sorted x (sort xs)

-- `name[len("Act ") :]`
abbrev pub drop : ℕ → String → String
drop zero s = s
drop (suc k) []ˢ = []ˢ
drop (suc k) (c ∷ˢ s) = drop k s

abbrev pub act_number : String → Option ℕ → OrderError ⊎ Key
act_number name none = inl (act_not_numbered name)
act_number name (some n) = inr (n, name)

-- `_parse_act_directory`
unfoldable pub parse_act_directory : (String → String) → String → OrderError ⊎ Key
parse_act_directory upper name =
    let label = drop 4 name in
    if label == "None"
    then inr (0, []ˢ)
    else act_number name (
        if not (is_empty label) && all_chars is_decimal label
        then some (number label)
        else roman_to_int upper label)

module _ (lower : String → String) (digit_value : Char → Option ℕ) where
  -- `_chapter_sort_key`
  unfoldable pub chapter_sort_key : File → OrderError ⊎ Key
  chapter_sort_key f = elim (find_chapter_number digit_value f.stem) [
    | none ↦ inl (chapter_not_numbered f.path)
    | some found ↦ inr (found.number, lower found.letter)
  ]

-- one result for each, or the first error
unfoldable pub all_results :
    {A B : Type 0} → (A → OrderError ⊎ B) → List A → OrderError ⊎ List (B × A)
all_results f [] = inr []
all_results f (x ∷ xs) = elim (f x) [
  | inl e ↦ inl e
  | inr y ↦ elim (all_results f xs) [ inl e ↦ inl e | inr ys ↦ inr ((y, x) ∷ ys) ]
]

pub data Category : Type 0 where
  chapter character : Category

abbrev pub Yield : Type 0
Yield = String × Category × File

-- What a generator yields, and the error that ends it.
abbrev pub Run : Type 0
Run = List Yield × Option OrderError

abbrev pub then_run : Run → Run → Run
then_run (ys, none) (zs, e) = (ys ++ zs, e)
then_run (ys, some e) next = (ys, some e)

abbrev pub is_last : Option Key → Key → Bool
is_last none k = false
is_last (some l) k = same_key k l

-- the loop over the chapters of an act
unfoldable pub chapters_run : String → Option Key → List (Key × File) → Run
chapters_run act last [] = ([], none)
chapters_run act last ((k, f) ∷ rest) =
    let next = chapters_run act (some k) rest in
    if is_last last k
    then ([], some (same_chapter_number f.stem))
    else then_run ((act, chapter, f) ∷ [], none) next

abbrev pub is_previous : Option ℕ → ℕ → Bool
is_previous none n = false
is_previous (some m) n = eqb m n

abbrev pub le_first : {A : Type 0} → Key × A → Key × A → Bool
le_first (k, x) (l, y) = le_key k l

abbrev pub le_file : File → File → Bool
le_file f g = (not (le_text g.name f.name)) || (f.name == g.name) && le_text f.path g.path

abbrev pub characters_run : List File → Run
characters_run files = (map (λ f. ([]ˢ, character, f)) (sort le_file files), none)

module _ (upper lower : String → String) (digit_value : Char → Option ℕ) where
  abbrev pub act_run : String → OrderError ⊎ List (Key × File) → Run
  act_run act (inl e) = ([], some e)
  act_run act (inr keyed) = chapters_run act none (sort le_first keyed)

  -- the loop over the acts
  unfoldable pub acts_run : Option ℕ → List (Key × Directory) → Run
  unfolding chapters_run all_results
  acts_run previous [] = ([], none)
  acts_run previous (((n, act), dir) ∷ rest) =
      let next = acts_run (some n) rest in
      if is_previous previous n
      then ([], some (same_act_number n))
      else then_run (act_run act (all_results (chapter_sort_key lower digit_value) dir.files)) next

  abbrev pub discovered : OrderError ⊎ List (Key × Directory) → List File → Run
  discovered (inl e) characters = ([], some e)
  discovered (inr acts) characters =
      then_run (acts_run none (sort le_first acts)) (characters_run characters)

  -- `_discover_chapter_files`, of the act directories and of the files of the characters
  unfoldable pub discover_chapter_files : List Directory → List File → Run
  unfolding all_results acts_run
  discover_chapter_files dirs characters =
      discovered (all_results (λ d. parse_act_directory upper d.name) dirs) characters
