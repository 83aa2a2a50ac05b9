-- ===== src/Mentions/Tests.antt =====
-- Two characters that share the name Adams, as the surname of one and a nickname of the other.
use dockb.Prelude.{String, ◌≡◌, refl, true, false, none, some, List, [], ◌∷◌, All}
use dockb.Prelude.Text.{strip, lstrip, rstrip, is_space}
use dockb.Prelude.Words.{split_spaces, split_on, join_with}
use dockb.Dict
use dockb.Dict.{Dict}
use dockb.Mentions.{
  Token, Pos, Chapter, Entry, Word, name_set, distinct, split_hyphens, entry_words, own, ambiguity,
  entries_of, name_entries, pieces, sentence_words, consider, find_best, note, judge_words,
  judge_sentences, settle, judge_paragraph,
}
use dockb.Mentions.Spots.{seen, all_spots}
use dockb.Mentions.Judge.{Settled}
use dockb.Mentions.Owners.{names_among, judge_paragraph-Settles}
use dockb.Mentions.Tiers.{Gathered, tier1}
use dockb.Mentions.Answers.{tier2, Value, boolean, Candidate}
use dockb.Mentions.Stamps.{Right, tier1-Right, tier2-tier1}

-- The texts here are in lower case.
abbrev lower : String → String
lower s = s

abbrev word : String → Token
word s = record { text = s; pos = Pos.other }

abbrev name : String → Token
name s = record { text = s; pos = Pos.propn }

-- "jael adams met adams"
abbrev sentence : List Token
sentence = name "jael" ∷ name "adams" ∷ word "met" ∷ name "adams" ∷ []

abbrev jael : Chapter
jael = record {
  id = "1";
  title = "Jael";
  category = "Character";
  first_name = "jael";
  surname = "adams";
  middle_names = [];
  nicknames = [];
  paragraphs = [];
}

abbrev jeremiah : Chapter
jeremiah = record {
  id = "2";
  title = "Jeremiah";
  category = "Character";
  first_name = "jeremiah";
  surname = "edgar";
  middle_names = [];
  nicknames = "adams" ∷ [];
  paragraphs = [];
}

abbrev manuscript : Chapter
manuscript = record {
  id = "3";
  title = "One";
  category = "Chapter";
  first_name = "";
  surname = "";
  middle_names = [];
  nicknames = [];
  paragraphs =
      record { id = "p"; texts = "jael adams met adams" ∷ []; sentences = sentence ∷ [] } ∷ [];
}

abbrev cast : List Chapter
cast = jael ∷ jeremiah ∷ []

abbrev owners : Dict (List String)
owners = ambiguity lower (jael ∷ jeremiah ∷ manuscript ∷ []) []

abbrev gathered : Gathered
gathered = record { pending = "p" ∷ []; chapter = manuscript; characters = cast; owners = owners }

shared : Dict.get "adams" owners ≡ some ("1" ∷ "2" ∷ [])
unfolding ambiguity own name_set distinct strip lstrip rstrip is_space join_with entry_words
    split_spaces split_hyphens split_on Dict.get Dict.set
shared = refl

-- The full name is read first; the second "adams" leaves both waiting.
both_wait : judge_paragraph lower (sentence ∷ []) cast owners ≡ some ([], jael ∷ jeremiah ∷ [])
unfolding ambiguity own name_set distinct strip lstrip rstrip is_space join_with entry_words
    split_spaces split_hyphens split_on Dict.get Dict.set judge_paragraph judge_sentences
    judge_words find_best note consider settle name_entries entries_of sentence_words pieces
both_wait = refl

abbrev words : List Word
words = ("jael", true) ∷ ("adams", true) ∷ ("met", false) ∷ []

abbrev entries : List Entry
entries =
    record { words = "jael" ∷ []; character = jael; unique = true }
    ∷ record { words = "jael" ∷ "adams" ∷ []; character = jael; unique = true }
    ∷ record { words = "adams" ∷ []; character = jeremiah; unique = false }
    ∷ []

judge_paragraph-Settles_example :
    Settled
      (λ id.
        seen id
          (names_among lower cast cast)
          (all_spots lower (names_among lower cast cast) (sentence ∷ [])))
      (judge_paragraph lower (sentence ∷ []) cast (ambiguity lower cast []))
judge_paragraph-Settles_example = judge_paragraph-Settles lower (sentence ∷ []) cast cast

tier1-Right_example :
    ((tier1 lower "now" gathered ("p" ∷ [])).1 ≡ true)
    × All (Right lower "now" gathered) (tier1 lower "now" gathered ("p" ∷ [])).0
tier1-Right_example = tier1-Right lower "now" gathered ("p" ∷ [])

tier2-tier1_example :
    tier2 lower (λ text. []) (λ text. none) (λ text. none) true false "now" gathered
    ≡ some (tier1 lower "now" gathered ("p" ∷ [])).0
tier2-tier1_example =
    tier2-tier1 (λ text. none) (λ text. none) lower (λ text. []) "now" gathered (λ text. refl)
      (λ text. refl)

abbrev candidates : List Candidate
candidates =
    record { key = "p:1"; sentence = "s"; character_title = "Jael"; names = "jael" ∷ [] }
    ∷ record { key = "p:2"; sentence = "s"; character_title = "Jeremiah"; names = "adams" ∷ [] }
    ∷ []

abbrev replies : Dict Value
replies = ("1", boolean true) ∷ ("2", boolean false) ∷ []
