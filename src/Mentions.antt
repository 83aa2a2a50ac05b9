-- ===== src/Mentions.antt =====
-- src/dockb/services/mentions.py: the names of the characters and the verdicts of tier 1 on one
-- paragraph. `lower` is `str.lower`. A paragraph is a list of sentences, a sentence a list of
-- tokens.
pub mod Owners
pub mod Longest
pub mod Spots
pub mod Judge
pub mod Tiers
pub mod Answers
pub mod Stamps
mod Tests
use dockb.Prelude.{
  ℕ, zero, suc, max, String, Bool, true, false, not, ◌&&◌, ◌||◌, Option, none, some, List, [], ◌∷◌,
  ◌++◌, map, arith, ◌==◌, eq_iff, ltb, leb, eqb, if◌then◌else◌, eqb_iff, tests, length,
}
use dockb.Prelude.Text.{strip, is_empty, has}
use dockb.Prelude.Words.{split_spaces, split_on, join_with}
use dockb.Dict
use dockb.Dict.{Dict}

-- The tags that the code tells apart.
pub data Pos : Type 0 where
  propn : Pos
  punct : Pos
  part : Pos
  other : Pos

pub record Token : Type 0 where
  pub text : String
  pub pos : Pos

-- `texts` has `get_text()` of each sentence.
pub record Paragraph : Type 0 where
  pub id : String
  pub texts : List String
  pub sentences : List (List Token)

-- The fields of a `Chapter` that the pipeline reads.
pub record Chapter : Type 0 where
  pub id : String
  pub title : String
  pub category : String
  pub first_name : String
  pub surname : String
  pub middle_names : List String
  pub nicknames : List String
  pub paragraphs : List Paragraph

-- a name-set entry as words, with its character
pub record Entry : Type 0 where
  pub words : List String
  pub character : Chapter
  pub unique : Bool

pub record Verdict : Type 0 where
  pub character_id : String
  pub method : String

abbrev pub Word : Type 0
Word = String × Bool

abbrev pub is_skipped : Pos → Bool
is_skipped propn = false
is_skipped punct = true
is_skipped part = true
is_skipped other = false

abbrev pub is_proper : Pos → Bool
is_proper propn = true
is_proper punct = false
is_proper part = false
is_proper other = false

abbrev pub is_nil {ℓ} : {A : Type ℓ} → List A → Bool
is_nil [] = true
is_nil (x ∷ xs) = false

-- `ambiguity.get(key, [])`
abbrev pub owners_of : String → Dict (List String) → List String
owners_of key owners = elim (Dict.get key owners) [ none ↦ [] | some ids ↦ ids ]

module _ (lower : String → String) where
  unfoldable pub distinct : List String → List String → List String
  unfolding strip
  distinct [] seen = seen
  distinct (e ∷ es) seen =
      let entry = strip e in
      let next =
        if not (is_empty entry) && not (has (lower entry) (map lower seen))
        then seen ++ (entry ∷ [])
        else seen in
      distinct es next

  abbrev pub full_name : Chapter → String
  full_name c = strip (join_with " " (c.first_name ∷ c.middle_names ++ (c.surname ∷ [])))

  -- `name_set`
  unfoldable pub name_set : Chapter → List String
  unfolding distinct join_with strip
  name_set c = distinct (c.first_name ∷ c.surname ∷ full_name c ∷ c.nicknames) []

  unfoldable pub split_hyphens : List String → List String
  unfolding split_on
  split_hyphens [] = []
  split_hyphens (w ∷ ws) = split_on 45 w ++ split_hyphens ws

  -- `_entry_words`
  unfoldable pub entry_words : String → List String
  unfolding split_spaces split_hyphens
  entry_words entry = split_hyphens (split_spaces (lower entry))

  abbrev pub entry_key : String → String
  entry_key entry = join_with " " (entry_words entry)

  unfoldable pub own : String → List String → Dict (List String) → Dict (List String)
  own id [] owners = owners
  own id (e ∷ es) owners =
      own id es (Dict.set (entry_key e) (owners_of (entry_key e) owners ++ (id ∷ [])) owners)

  -- `_ambiguity`
  unfoldable pub ambiguity : List Chapter → Dict (List String) → Dict (List String)
  unfolding own name_set
  ambiguity [] owners = owners
  ambiguity (c ∷ cs) owners =
      ambiguity cs (if c.category == "Character" then own c.id (name_set c) owners else owners)

  unfoldable pub entries_of : Dict (List String) → Chapter → List String → List Entry
  unfolding entry_words
  entries_of owners c [] = []
  entries_of owners c (e ∷ es) =
      let rest = entries_of owners c es in
      let words = entry_words e in
      if is_nil words
      then rest
      else record {
        words = words;
        character = c;
        unique = leb (length (owners_of (entry_key e) owners)) 1;
      }
        ∷ rest

  -- `_name_entries`
  unfoldable pub name_entries : Dict (List String) → List Chapter → List Entry
  unfolding entries_of name_set
  name_entries owners [] = []
  name_entries owners (c ∷ cs) = entries_of owners c (name_set c) ++ name_entries owners cs

  unfoldable pub pieces : Bool → List String → List Word
  pieces proper [] = []
  pieces proper (w ∷ ws) =
      let rest = pieces proper ws in if is_empty w then rest else (w, proper) ∷ rest

  -- the words of a sentence, each with whether its token is a proper noun
  unfoldable pub sentence_words : List Token → List Word
  unfolding pieces split_on
  sentence_words [] = []
  sentence_words (t ∷ ts) =
      let rest = sentence_words ts in
      if is_skipped t.pos
      then rest
      else pieces (is_proper t.pos) (split_on 45 (lower t.text)) ++ rest

-- `run = words[position : position + length]`
abbrev pub take : ℕ → List Word → List Word
take zero ws = []
take (suc n) [] = []
take (suc n) (w ∷ ws) = w ∷ take n ws

abbrev pub drop : ℕ → List Word → List Word
drop zero ws = ws
drop (suc n) [] = []
drop (suc n) (w ∷ ws) = drop n ws

abbrev pub spells : List String → List Word → Bool
spells [] [] = true
spells [] (w ∷ ws) = false
spells (v ∷ vs) [] = false
spells (v ∷ vs) ((w, proper) ∷ ws) = (w == v) && spells vs ws

abbrev pub starts_proper : List Word → Bool
starts_proper [] = false
starts_proper ((w, proper) ∷ ws) = proper

-- the longest match so far, with the characters that have it
abbrev pub Best : Type 0
Best = ℕ × Dict Bool

abbrev pub flag : String → Dict Bool → Bool
flag id d = elim (Dict.get id d) [ none ↦ false | some b ↦ b ]

-- One entry against the words from the position on.
unfoldable pub consider : List Word → Entry → Best → Best
consider rest e (best, winners) =
    let n = length e.words in
    if ltb n best || ltb (length rest) n
    then (best, winners)
    else if not (spells e.words (take n rest))
    then (best, winners)
    else if not (starts_proper (take n rest))
    then (best, winners)
    else if eqb n best
    then (best, Dict.set e.character.id (flag e.character.id winners || e.unique) winners)
    else (n, (e.character.id, e.unique) ∷ [])

unfoldable pub find_best : List Word → List Entry → Best → Best
unfolding consider
find_best rest [] b = b
find_best rest (e ∷ es) b = find_best rest es (consider rest e b)

-- `matched`, with the winners of a position
unfoldable pub note : Dict Bool → Dict Bool → Dict Bool
note [] matched = matched
note ((id, unique) ∷ ws) matched = note ws (Dict.set id (flag id matched || not unique) matched)

-- The loop over the positions: each round drops a word at least.
unfoldable pub judge_words : List Entry → ℕ → List Word → Dict Bool → Dict Bool
unfolding find_best note
judge_words entries zero ws matched = matched
judge_words entries (suc fuel) [] matched = matched
judge_words entries (suc fuel) (w ∷ ws) matched =
    let (best, winners) = find_best (w ∷ ws) entries (0, []) in
    judge_words entries fuel (drop (max best 1) (w ∷ ws)) (note winners matched)

unfoldable pub judge_sentences :
    (String → String) → List Entry → List (List Token) → Dict Bool → Dict Bool
unfolding judge_words sentence_words
judge_sentences lower entries [] matched = matched
judge_sentences lower entries (s ∷ ss) matched =
    let ws = sentence_words lower s in
    judge_sentences lower entries ss (judge_words entries (length ws) ws matched)

abbrev pub by_id : List Chapter → Dict Chapter → Dict Chapter
by_id [] d = d
by_id (c ∷ cs) d = by_id cs (Dict.set c.id c d)

-- The verdicts and the characters that wait; `none` is a KeyError.
abbrev pub Judged : Type 0
Judged = Option (List Verdict × List Chapter)

abbrev pub add_judged : Dict Chapter → String → Bool → Judged → Judged
add_judged characters id pending none = none
add_judged characters id pending (some (verdicts, waiting)) =
    if pending
    then (elim (Dict.get id characters) [ none ↦ none | some c ↦ some (verdicts, c ∷ waiting) ])
    else some (record { character_id = id; method = "name" } ∷ verdicts, waiting)

unfoldable pub settle : Dict Chapter → Dict Bool → Judged
settle characters [] = some ([], [])
settle characters ((id, pending) ∷ d) = add_judged characters id pending (settle characters d)

-- `_judge_paragraph`
unfoldable pub judge_paragraph :
    (String → String) → List (List Token) → List Chapter → Dict (List String) → Judged
unfolding judge_sentences name_entries settle Dict.set Dict.get
judge_paragraph lower sentences characters owners =
    settle (by_id characters [])
      (judge_sentences lower (name_entries lower owners characters) sentences [])
