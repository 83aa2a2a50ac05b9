-- ===== src/ChapterDiff.antt =====
-- src/dockb/infrastructure/changes/detect_changes.py and src/dockb/services/markdown_import.py: the
-- changes that a chapter's file makes, and their application to the chapter. A block is what
-- `_parse_block` gives; a paragraph has its canonical text, which its sentences spell; `fresh` are
-- the ids of the new paragraphs. Ids are unique in a chapter.
pub mod Behind
pub mod Changes
pub mod Placing
pub mod Reading
mod Tests
use dockb.Prelude.{
  ℕ, suc, String, Bool, true, false, not, ◌&&◌, ◌||◌, Option, none, some, List, [], ◌∷◌, ◌++◌, map,
  arith, ◌==◌, eq_iff, if◌then◌else◌, eqb_iff, tests, keep_if, find_first,
}
use mathlib.Core.Option
use dockb.Prelude.Text.{strip, is_empty, has}

pub record Block : Type 0 where
  pub par_id : Option String
  pub quote_type : String
  pub text : String

pub record Paragraph : Type 0 where
  pub id : String
  pub quote_type : String
  pub text : String

pub record ChangedParagraph : Type 0 where
  pub par_id : String
  pub text : String
  pub quote_type : String

pub record NewParagraph : Type 0 where
  pub text : String
  pub after_id : Option String
  pub at_start : Bool
  pub quote_type : String

-- The lists of a `ChapterDiff`, with the ids that are seen in the file.
pub record Classified : Type 0 where
  pub changed : List ChangedParagraph
  pub new : List NewParagraph
  pub seen_ids : List String

abbrev pub ids : List Paragraph → List String
ids ps = map (λ p. p.id) ps

-- the old paragraph that a block names
abbrev pub known : List Paragraph → Block → Option Paragraph
known old b = elim b.par_id [ none ↦ none | some id ↦ find_first (λ p. p.id == id) old ]

abbrev pub is_blank : Block → Bool
is_blank b = is_empty (strip b.text)

abbrev pub is_none : Option String → Bool
is_none none = true
is_none (some s) = false

abbrev pub is_nil : List Paragraph → Bool
is_nil [] = true
is_nil (p ∷ ps) = false

abbrev pub next_anchor : List Paragraph → Option String → Block → Option String
next_anchor old anchor b =
    if is_blank b then anchor else (elim (known old b) [ none ↦ anchor | some p ↦ some p.id ])

abbrev pub see : Option String → Classified → Classified
see none r = r
see (some id) r = record r { seen_ids = id ∷ r.seen_ids }

abbrev pub new_of : List Paragraph → Option String → Block → NewParagraph
new_of old anchor b = record {
  text = b.text;
  after_id = anchor;
  at_start = is_none anchor && not (is_nil old);
  quote_type = b.quote_type;
}

abbrev pub is_changed : Paragraph → Block → Bool
is_changed p b = not (b.text == p.text) || not (b.quote_type == p.quote_type)

abbrev pub add_block : List Paragraph → Option String → Block → Classified → Classified
add_block old anchor b r = if is_blank b then r else (elim (known old b) [
  | none ↦ record r { new = new_of old anchor b ∷ r.new }
  | some p ↦
      if is_changed p b
      then record r {
        changed = record { par_id = p.id; text = b.text; quote_type = b.quote_type } ∷ r.changed;
      }
      else r
])

-- `_classify_blocks`
unfoldable pub classify_blocks : List Paragraph → Option String → List Block → Classified
unfolding strip find_first
classify_blocks old anchor [] = record { changed = []; new = []; seen_ids = [] }
classify_blocks old anchor (b ∷ bs) =
    see b.par_id (add_block old anchor b (classify_blocks old (next_anchor old anchor b) bs))

-- the paragraphs that a diff does not delete
unfoldable pub kept : List Paragraph → Classified → List Paragraph
unfolding keep_if
kept old r = keep_if (λ p. has p.id r.seen_ids) old

-- `_apply_changed`; `none` is a StopIteration
unfoldable pub apply_changed : ChangedParagraph → List Paragraph → Option (List Paragraph)
apply_changed c [] = none
apply_changed c (p ∷ ps) =
    let rest = apply_changed c ps in
    if p.id == c.par_id
    then some (record { id = p.id; quote_type = c.quote_type; text = c.text } ∷ ps)
    else Option.map (λ qs. p ∷ qs) rest

unfoldable pub apply_all : List ChangedParagraph → List Paragraph → Option (List Paragraph)
unfolding apply_changed
apply_all [] ps = some ps
apply_all (c ∷ cs) ps = elim (apply_changed c ps) [ none ↦ none | some qs ↦ apply_all cs qs ]

-- `insert_child` with AFTER; `none` is the error of a key that is not there
unfoldable pub insert_behind : String → Paragraph → List Paragraph → Option (List Paragraph)
insert_behind key x [] = none
insert_behind key x (p ∷ ps) =
    let rest = insert_behind key x ps in
    if p.id == key then some (p ∷ x ∷ ps) else Option.map (λ qs. p ∷ qs) rest

abbrev pub same_id : Option String → Option String → Bool
same_id none none = true
same_id none (some b) = false
same_id (some a) none = false
same_id (some a) (some b) = a == b

abbrev pub consecutive : NewParagraph → NewParagraph → Bool
consecutive n previous = same_id n.after_id previous.after_id || (n.at_start && previous.at_start)

abbrev pub put_alone : NewParagraph → Paragraph → List Paragraph → Option (List Paragraph)
put_alone n x ps = elim n.after_id [
  | some key ↦ insert_behind key x ps
  | none ↦ some (if n.at_start then x ∷ ps else ps ++ (x ∷ []))
]

-- one turn of the loop; the previous new paragraph comes with its id
abbrev pub put :
    NewParagraph
    → Option (NewParagraph × String)
    → Paragraph
    → List Paragraph
    → Option (List Paragraph)
put n none x ps = put_alone n x ps
put n (some (previous, id)) x ps =
    if consecutive n previous then insert_behind id x ps else put_alone n x ps

module _ (fresh : ℕ → String) where
  abbrev pub built : ℕ → NewParagraph → Paragraph
  built i n = record { id = fresh i; quote_type = n.quote_type; text = n.text }

  -- `_place_new_paragraphs`
  unfoldable pub place :
      ℕ
      → List NewParagraph
      → Option (NewParagraph × String)
      → List Paragraph
      → Option (List Paragraph)
  unfolding insert_behind
  place i [] previous ps = some ps
  place i (n ∷ ns) previous ps = elim (put n previous (built i n) ps) [
    | none ↦ none
    | some qs ↦ place (suc i) ns (some (n, fresh i)) qs
  ]

  -- the paragraphs after an import
  unfoldable pub import_blocks : List Paragraph → List Block → Option (List Paragraph)
  unfolding classify_blocks kept apply_all place
  import_blocks old bs =
      let r = classify_blocks old none bs in
      elim (apply_all r.changed (kept old r)) [ none ↦ none | some ps ↦ place 0 r.new none ps ]
