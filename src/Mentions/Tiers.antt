-- ===== src/Mentions/Tiers.antt =====
-- src/dockb/services/mentions.py: tier 1 over the pending paragraphs of a chapter, and the entities
-- that settle a character, which are what `_ner_spans` gives. A stamp is a call of the repository's
-- `stamp`.
use dockb.Prelude.{
  ℕ, String, Bool, true, false, not, ◌&&◌, ◌||◌, Option, none, some, List, [], ◌∷◌, ◌++◌, map, ◌==◌,
  leb, eqb, if◌then◌else◌, length, keep_if, find_first,
}
use Prim.Native.Char.{code}
use Prim.Native.String.{[] as []ˢ, ◌∷◌ as ◌∷ˢ◌}
use dockb.Prelude.Text.{rstrip, has}
use dockb.Prelude.Words.{split_spaces, join_with}
use dockb.Dict
use dockb.Dict.{Dict}
use dockb.Mentions.{
  Paragraph, Chapter, Verdict, is_nil, owners_of, name_set, ambiguity, judge_paragraph,
}

-- `checked_at` is `none` for a stamp that leaves the paragraph un-evaluated.
pub record Stamp : Type 0 where
  pub paragraph_id : String
  pub verdicts : List Verdict
  pub checked_at : Option String

-- `_paragraph_text`
abbrev pub paragraph_text : Paragraph → String
paragraph_text p = join_with " " (map rstrip p.texts)

abbrev pub is_due : ℕ → Bool
is_due state = eqb state 1 || eqb state 4

abbrev states_of : List (String × ℕ) → Dict ℕ → Dict ℕ
states_of [] d = d
states_of ((id, state) ∷ rows) d = states_of rows (Dict.set id state d)

-- the pending ids of the rows of `paragraph_states`
unfoldable pub pending_ids : List (String × ℕ) → List String
unfolding Dict.set keep_if
pending_ids rows = map (λ x. x.0) (keep_if (λ x. is_due x.1) (states_of rows []))

-- What `_gather` answers, where it does not answer None.
pub record Gathered : Type 0 where
  pub pending : List String
  pub chapter : Chapter
  pub characters : List Chapter
  pub owners : Dict (List String)

-- `_gather`, of the chapters of the document that the chapter is in
unfoldable pub gather :
    (String → String) → String → Option (List Chapter) → List (String × ℕ) → Option Gathered
unfolding pending_ids ambiguity find_first keep_if
gather lower chapter_id none rows = none
gather lower chapter_id (some chapters) rows =
    elim (find_first (λ c. c.id == chapter_id) chapters) [
      | none ↦ none
      | some chapter ↦ elim (keep_if (λ c. c.category == "Character") chapters) [
        | [] ↦ none
        | c ∷ cs ↦ some (record {
          pending = pending_ids rows;
          chapter = chapter;
          characters = c ∷ cs;
          owners = ambiguity lower chapters [];
        })
      ]
    ]

-- The stamp that ends the turn of a paragraph, if any.
abbrev pub stamp_of : String → String → List Verdict → Bool → List Stamp
stamp_of now id verdicts unsettled =
    if unsettled
    then (if is_nil verdicts
        then []
        else record { paragraph_id = id; verdicts = verdicts; checked_at = none } ∷ [])
    else record { paragraph_id = id; verdicts = verdicts; checked_at = some now } ∷ []

-- The stamps, and whether the loop went through; `false` is a KeyError.
abbrev pub and_then : List Stamp → List Stamp × Bool → List Stamp × Bool
and_then stamps (later, ok) = (stamps ++ later, ok)

-- `evaluate_chapter_tier1`, after `_gather`
unfoldable pub tier1 : (String → String) → String → Gathered → List String → List Stamp × Bool
unfolding judge_paragraph find_first
tier1 lower now g [] = ([], true)
tier1 lower now g (id ∷ ids) =
    let rest = tier1 lower now g ids in
    elim (find_first (λ p. p.id == id) g.chapter.paragraphs) [
      | none ↦ rest
      | some p ↦ elim (judge_paragraph lower p.sentences g.characters g.owners) [
        | none ↦ ([], false)
        | some (verdicts, waiting) ↦ and_then (stamp_of now id verdicts (not (is_nil waiting))) rest
      ]
    ]

-- `_normalised`
abbrev flatten : String → String
flatten []ˢ = []ˢ
flatten (c ∷ˢ s) =
    if eqb (code c) 39
    then flatten s
    else if eqb (code c) 45
    then " " ∷ˢ flatten s
    else c ∷ˢ flatten s

unfoldable pub normalised : (String → String) → String → String
unfolding split_spaces join_with
normalised lower name = join_with " " (split_spaces (flatten (lower name)))

pub record Span : Type 0 where
  pub text : String
  pub label : String

abbrev pub is_claim : (String → String) → Chapter → Span → Bool
is_claim lower c s =
    (s.label == "PERSON")
    && has (normalised lower s.text) (map (normalised lower) (name_set lower c))

-- whether a span settles the character
abbrev pub is_claimed : (String → String) → Dict (List String) → List Span → Chapter → Bool
is_claimed lower owners spans c = elim (keep_if (is_claim lower c) spans) [
  | [] ↦ false
  | s ∷ ss ↦ leb (length (owners_of (normalised lower s.text) owners)) 1
]

abbrev pub by_name : Chapter → Verdict
by_name c = record { character_id = c.id; method = "name" }

-- `_settle_by_ner`
unfoldable pub settle_by_ner :
    (String → String)
    → Dict (List String)
    → List Span
    → List Verdict
    → List Chapter
    → List Verdict × List Chapter
unfolding name_set normalised keep_if
settle_by_ner lower owners spans settled [] = (settled, [])
settle_by_ner lower owners spans settled (c ∷ cs) =
    let claimed = is_claimed lower owners spans c in
    let (done, still) =
      settle_by_ner lower owners spans (if claimed then settled ++ (by_name c ∷ []) else settled)
        cs in
    (done, if claimed then still else c ∷ still)
