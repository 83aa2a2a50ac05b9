-- ===== src/Mentions/Answers.antt =====
-- src/dockb/services/mentions.py: what the model is asked, and tier 2. `complete` is the call of the
-- model, which may fail, and `json_object` reads a JSON object, or fails.
use dockb.Prelude.{
  ℕ, suc, String, Bool, true, false, not, ◌&&◌, Option, none, some, List, [], ◌∷◌, ◌++◌, ◌==◌,
  if◌then◌else◌, find_first,
}
use mathlib.Core.Option
use dockb.Prelude.Text.{append, rstrip}
use dockb.Prelude.Decimal.{decimal}
use dockb.Prelude.Words.{join_with}
use dockb.Dict
use dockb.Dict.{Dict}
use dockb.Mentions.{Paragraph, Chapter, Verdict, is_nil, name_set, judge_paragraph}
use dockb.Mentions.Tiers.{Stamp, Gathered, Span, paragraph_text, stamp_of, settle_by_ner}

-- A JSON value, as far as the answer of the model is read.
pub data Value : Type 0 where
  boolean : Bool → Value
  anything : Value

pub record Candidate : Type 0 where
  pub key : String
  pub sentence : String
  pub character_title : String
  pub names : List String

abbrev concat : List String → String
concat = join_with ""

unfoldable candidate_lines : ℕ → List Candidate → List String
unfolding join_with
candidate_lines number [] = []
candidate_lines number (c ∷ cs) =
    concat (
      decimal number
      ∷ ". "
      ∷ c.sentence
      ∷ " - possibly mentioning \""
      ∷ c.character_title
      ∷ "\" (names: "
      ∷ join_with ", " c.names
      ∷ ")"
      ∷ [])
    ∷ candidate_lines (suc number) cs

unfoldable pub prompt : List Candidate → String
unfolding candidate_lines join_with
prompt candidates = join_with "\n" (
    "For each numbered sentence, decide whether it mentions the named character"
    ∷ "(a person, not just words that happen to match). Answer with a JSON object"
    ∷ "mapping each number to true or false, and nothing else."
    ∷ ""
    ∷ candidate_lines 1 candidates)

abbrev pub answered : Option Value → Option Bool
answered none = none
answered (some (boolean b)) = some b
answered (some anything) = none

unfoldable pub read_answers :
    ℕ → Dict Value → List Candidate → Dict (Option Bool) → Dict (Option Bool)
unfolding Dict.set Dict.get decimal
read_answers number verdicts [] out = out
read_answers number verdicts (c ∷ cs) out =
    read_answers (suc number) verdicts cs
      (Dict.set c.key (answered (Dict.get (decimal number) verdicts)) out)

unfoldable pub unresolved : List Candidate → Dict (Option Bool) → Dict (Option Bool)
unfolding Dict.set
unresolved [] out = out
unresolved (c ∷ cs) out = unresolved cs (Dict.set c.key none out)

module _ (complete : String → Option String) (json_object : String → Option (Dict Value)) where
  -- `judge_ambiguous`
  unfoldable pub judge_ambiguous : List Candidate → Dict (Option Bool)
  unfolding prompt read_answers unresolved
  judge_ambiguous [] = []
  judge_ambiguous (c ∷ cs) = elim (complete (prompt (c ∷ cs))) [
    | none ↦ unresolved (c ∷ cs) []
    | some answer ↦ elim (json_object answer) [
      | none ↦ unresolved (c ∷ cs) []
      | some verdicts ↦ read_answers 1 verdicts (c ∷ cs) []
    ]
  ]

-- A paragraph between the two halves of tier 2.
pub record Open : Type 0 where
  pub paragraph_id : String
  pub settled : List Verdict
  pub waiting : List Chapter

abbrev pub candidate_key : String → Chapter → String
candidate_key id c = append id (append ":" c.id)

abbrev pub candidates_of : (String → String) → Paragraph → List Chapter → List Candidate
candidates_of lower p [] = []
candidates_of lower p (c ∷ cs) =
    record {
      key = candidate_key p.id c;
      sentence = paragraph_text p;
      character_title = c.title;
      names = name_set lower c;
    }
    ∷ candidates_of lower p cs

-- The first half: what is left open, and the candidates; `none` is a KeyError.
unfoldable pub collect :
    (String → String)
    → (String → List Span)
    → Gathered
    → List String
    → Option (List Open × List Candidate)
unfolding judge_paragraph find_first settle_by_ner name_set join_with rstrip
collect lower spans g [] = some ([], [])
collect lower spans g (id ∷ ids) =
    let rest = collect lower spans g ids in
    elim (find_first (λ p. p.id == id) g.chapter.paragraphs) [
      | none ↦ rest
      | some p ↦ elim (judge_paragraph lower p.sentences g.characters g.owners) [
        | none ↦ none
        | some (verdicts, waiting) ↦
            let (done, still) =
              settle_by_ner lower g.owners (spans (paragraph_text p)) verdicts waiting in
            Option.map
              (λ x. (
                record { paragraph_id = id; settled = done; waiting = still } ∷ x.0,
                candidates_of lower p still ++ x.1,
              ))
              rest
      ]
    ]

-- The verdicts of the model on the characters that waited, and whether one is missing.
unfoldable pub resolve :
    Dict (Option Bool) → String → List Verdict → List Chapter → List Verdict × Bool
unfolding Dict.get
resolve answers id settled [] = (settled, false)
resolve answers id settled (c ∷ cs) = elim (Dict.get (candidate_key id c) answers) [
  | none ↦ let (verdicts, missing) = resolve answers id settled cs in (verdicts, true)
  | some none ↦ let (verdicts, missing) = resolve answers id settled cs in (verdicts, true)
  | some (some true) ↦
      resolve answers id (settled ++ (record { character_id = c.id; method = "model" } ∷ [])) cs
  | some (some false) ↦ resolve answers id settled cs
]

unfoldable pub stamp_all : Dict (Option Bool) → String → List Open → List Stamp
unfolding resolve
stamp_all answers now [] = []
stamp_all answers now (o ∷ os) =
    let (verdicts, missing) = resolve answers o.paragraph_id o.settled o.waiting in
    stamp_of now o.paragraph_id verdicts missing ++ stamp_all answers now os

-- `evaluate_chapter_tier2`, after `_gather`: the stamps, or `none` for a KeyError
unfoldable pub tier2 :
    (String → String)
    → (String → List Span)
    → (String → Option String)
    → (String → Option (Dict Value))
    → Bool
    → Bool
    → String
    → Gathered
    → Option (List Stamp)
unfolding collect judge_ambiguous stamp_all
tier2 lower spans complete json_object has_key no_ai now g =
    if not has_key then some [] else (elim (collect lower spans g g.pending) [
      | none ↦ none
      | some (opened, candidates) ↦
          if no_ai && not (is_nil candidates)
          then some []
          else some (stamp_all (judge_ambiguous complete json_object candidates) now opened)
    ])
