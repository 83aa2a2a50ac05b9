-- ===== src/Criteria/Tests.antt =====
-- A search for a storm or for Jael.
use dockb.Prelude.{String, ◌≡◌, refl, Bool, true, false, Option, none, some, List, [], ◌∷◌, ◌==◌}
use dockb.Prelude.Text.{append, append_assoc}
use dockb.Prelude.Decimal.{decimal}
use dockb.Prelude.Words.{join_with}
use dockb.Prelude.{keep_if, find_first}
use dockb.Dict
use dockb.Dict.{Dict}
use dockb.Criteria.{
  Criterion, criteria, word, character, nil, cons, value, values, escape, whole_word_pattern,
  compile_criteria, compile, compile_word, compile_resolved, joined, next_param, evaluate,
  search_word,
}
use dockb.Criteria.Cypher.{Expr, print, Row, eval}
use dockb.Criteria.Compiled.{answers, compile_criteria-answers}
use dockb.Criteria.Memory.{compile_criteria-evaluate}
use dockb.Criteria.Shape.{compile_criteria-SameShape}
use dockb.Criteria.Marks.{Sentence, marked_sentence_ids, or_character-marks, has_search_leaf}
use dockb.Criteria.Resolve.{Person, resolve_reference, known_as, known_as-filled}

-- The texts here are in lower case.
abbrev lower : String → String
lower s = s

abbrev jael : Person
jael = record {
  id = "7";
  title = "Jael";
  first_name = "jael";
  surname = "adams";
  nicknames = "" ∷ [];
}

abbrev no_match : List String → Option String
no_match words = none

abbrev directory_of : String → Option (String × List String)
directory_of = resolve_reference lower no_match (jael ∷ [])

abbrev search_tree : Criterion
search_tree = criteria (some "or") (cons (word "storm.") (cons (character "7") nil))

abbrev other_tree : Criterion
other_tree = criteria none (cons (word "x\" OR true") (cons (character "7") nil))

-- The engine of a paragraph that says "storm." as a word, and no other.
abbrev matches : String → String → Bool
matches pattern body = pattern == "(?isuU).*\\bstorm\\.\\b.*"

abbrev search : String → String → Bool
search pattern body = matches (append "(?isuU).*" (append pattern ".*")) body

abbrev row : Row
row = record { body = "the storm."; checked = true; valid = []; has_stale = false }

test_escape : escape "a.b c" ≡ "a\\.b\\ c"
unfolding escape
test_escape = refl

test_resolve : directory_of "7" ≡ some ("7", "jael" ∷ "jael adams" ∷ [])
unfolding resolve_reference known_as keep_if find_first
test_resolve = refl

test_compile : compile_criteria lower directory_of search_tree ≡ (
  "((text =~ $p0) OR ((checked IS NOT NULL AND NOT hasStale AND $p1 IN valid) OR (any(n IN $p2 WHERE text =~ n))))",
  ("p0", value "(?isuU).*\\bstorm\\.\\b.*")
      ∷ ("p1", value "7")
      ∷ ("p2", values ("(?isuU).*\\bjael\\b.*" ∷ "(?isuU).*\\bjael\\ adams\\b.*" ∷ []))
      ∷ [],
)
unfolding compile_criteria compile compile_word compile_resolved joined join_with next_param decimal
    whole_word_pattern escape resolve_reference known_as keep_if find_first Dict.set
test_compile = refl

same_words :
    (w : String) → matches (whole_word_pattern w) row.body ≡ search_word lower search w row.body
unfolding whole_word_pattern search_word
same_words w = rw (append_assoc (escape w) "\\b" ".*") refl

compile_criteria-answers_example :
    (e : Expr) × ((compile_criteria lower directory_of search_tree).0 ≡ print e)
    × (eval matches lower (compile_criteria lower directory_of search_tree).1 row e
        ≡ answers lower directory_of matches lower row search_tree)
compile_criteria-answers_example =
    compile_criteria-answers lower directory_of matches lower row search_tree

compile_criteria-evaluate_example :
    (e : Expr) × ((compile_criteria lower directory_of search_tree).0 ≡ print e)
    × (eval matches lower (compile_criteria lower directory_of search_tree).1 row e
        ≡ evaluate lower search search_tree "the storm." (known_as jael))
unfolding resolve_reference find_first
compile_criteria-evaluate_example =
    compile_criteria-evaluate lower search directory_of matches lower row (known_as jael) same_words
      refl (known_as-filled jael) search_tree (tt, ((refl, refl), tt))

compile_criteria-SameShape_example :
    (compile_criteria lower directory_of search_tree).0
    ≡ (compile_criteria lower directory_of other_tree).0
unfolding resolve_reference find_first
compile_criteria-SameShape_example =
    compile_criteria-SameShape directory_of directory_of lower lower search_tree other_tree
      (refl, (tt, (tt, tt)))

abbrev sentences : List Sentence
sentences = record { id = "a"; body = "calm." } ∷ record { id = "b"; body = "storm." } ∷ []

or_character-marks_example : marked_sentence_ids lower search search_tree sentences ≡ "a" ∷ "b" ∷ []
unfolding has_search_leaf
or_character-marks_example =
    or_character-marks lower search (some "or") (cons (word "storm.") (cons (character "7") nil))
      sentences refl refl refl
