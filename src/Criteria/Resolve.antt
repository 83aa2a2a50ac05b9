-- ===== src/Criteria/Resolve.antt =====
-- src/dockb/services/mcp_queries.py: `resolve` of `find_paragraphs_payload`, over the directory of the
-- characters of a document. `find_by_name` is the query for a character by the words of a name.
use dockb.Prelude.{
  String, ◌≡◌, inl, inr, false, not, ◌&&◌, Option, none, some, List, [], ◌∷◌, ◌++◌, ◌==◌,
  if◌then◌else◌, keep_if, find_first, Bool-cases, All,
}
use dockb.Prelude.Text.{append}
use dockb.Prelude.Words.{split_spaces}
use dockb.Criteria.{is_empty}

pub record Person : Type 0 where
  pub id : String
  pub title : String
  pub first_name : String
  pub surname : String
  pub nicknames : List String

abbrev pub all_names : Person → List String
all_names p =
    let both = not (is_empty p.first_name) && not (is_empty p.surname) in
    let full = if both then append p.first_name (append " " p.surname) ∷ [] else [] in
    p.first_name ∷ (full ++ p.nicknames)

-- the names that a mention of the character can read as
unfoldable pub known_as : Person → List String
known_as p = keep_if (λ n. not (is_empty n)) (all_names p)

abbrev pub found_as : Option Person → Option (String × List String)
found_as none = none
found_as (some p) = some (p.id, known_as p)

module _ (lower : String → String) (find_by_name : List String → Option String)
    (directory : List Person) where
  abbrev pub person_with : String → Option Person
  person_with id = find_first (λ p. p.id == id) directory

  abbrev pub by_match : Option String → Option Person
  by_match none = none
  by_match (some id) = person_with id

  abbrev pub or_by_name : String → Option Person → Option Person
  or_by_name reference none = by_match (find_by_name (split_spaces reference))
  or_by_name reference (some p) = some p

  abbrev pub or_by_title : String → Option Person → Option Person
  or_by_title reference none =
      or_by_name reference (find_first (λ p. lower p.title == lower reference) directory)
  or_by_title reference (some p) = some p

  unfoldable pub resolve_reference : String → Option (String × List String)
  resolve_reference reference = found_as (or_by_title reference (person_with reference))

filled_keep_if :
    (ns : List String) → All (λ n. is_empty n ≡ false) (keep_if (λ n. not (is_empty n)) ns)
unfolding keep_if
filled_keep_if [] = tt
filled_keep_if (n ∷ ns) = elim (Bool-cases (is_empty n)) [
  | inl empty ↦ rw empty (filled_keep_if ns)
  | inr filled ↦ rw filled (filled, filled_keep_if ns)
]

-- None of the names of a character is empty.
pub known_as-filled : (p : Person) → All (λ n. is_empty n ≡ false) (known_as p)
unfolding known_as
known_as-filled p = filled_keep_if (all_names p)
