-- ===== src/ChapterText.antt =====
-- src/dockb/infrastructure/markdown/writer.py, the body of a chapter file, and the reading of a body
-- in src/dockb/infrastructure/changes/detect_changes.py. `unescape` is `html.unescape`, and `is_word`
-- are the characters of `\w`, by which `\b` goes. The expressions are read by functions that look for
-- their fixed parts: what stands between these is bounded by the first `>`, `"` or `</span>`.
pub mod Span
pub mod Attr
pub mod Trip
pub mod Body
mod Tests
use dockb.Prelude.{
  ℕ, zero, suc, String, Bool, true, false, not, ◌&&◌, ◌||◌, Option, none, some, List, [], ◌∷◌, map,
  eqb, if◌then◌else◌, keep_if, length, ◌++◌,
}
use Prim.Native.Char.{Char, code}
use Prim.Native.String.{[] as []ˢ, ◌∷◌ as ◌∷ˢ◌}
use dockb.Prelude.Text.{append, strip, rstrip, is_empty}
use dockb.Prelude.Words.{join_with, split_on}
use dockb.Criteria.{contains}
use dockb.Mentions.{is_nil}
use dockb.ChapterDiff.{Block}

-- A paragraph with the texts of its sentences and its own `get_text`.
pub record Written : Type 0 where
  pub id : String
  pub quote_type : String
  pub sentences : List String
  pub text : String

-- `html.escape(s, quote=True)`
unfoldable pub escape_char : Char → String
escape_char ch =
    let c = code ch in
    if eqb c b'&'
    then "&amp;"
    else if eqb c b'<'
    then "&lt;"
    else if eqb c b'>'
    then "&gt;"
    else if eqb c b'"'
    then "&quot;"
    else if eqb c 39
    then "&#x27;"
    else ch ∷ˢ []ˢ

unfoldable pub escape_html : String → String
unfolding escape_char
escape_html []ˢ = []ˢ
escape_html (c ∷ˢ s) = append (escape_char c) (escape_html s)

-- `_paragraph_span`
unfoldable pub quote_attr : String → String
quote_attr quote_type =
    if is_empty quote_type
    then []ˢ
    else append " data-quote-type=\"" (append (escape_html quote_type) "\"")

unfoldable pub paragraph_span : String → String → String → String
unfolding escape_html quote_attr
paragraph_span id text quote_type = append "<span data-par-id=\"" (
    append (escape_html id) (
      append "\""
        (append (quote_attr quote_type) (append ">\n" (append (escape_html text) "\n</span>")))))

-- `_serialize_plain_text`, with the id of the new paragraph
unfoldable pub serialize_plain_text : String → String → String → String
unfolding strip
serialize_plain_text fresh text quote_type =
    if is_empty (strip text) then []ˢ else paragraph_span fresh text quote_type

-- the lines that are written: no blank sentence, and no space at an end
unfoldable pub written_lines : List String → List String
unfolding keep_if strip rstrip
written_lines ss = map rstrip (keep_if (λ s. not (is_empty (strip s))) ss)

abbrev pub serialize_lines : Written → List String → String
serialize_lines p [] = []ˢ
serialize_lines p (l ∷ ls) = paragraph_span p.id (join_with "\n" (l ∷ ls)) p.quote_type

-- `_serialize_paragraph`
unfoldable pub serialize_paragraph : String → Written → String
unfolding serialize_plain_text written_lines
serialize_paragraph fresh p = elim p.sentences [
  | [] ↦ serialize_plain_text fresh p.text p.quote_type
  | s ∷ ss ↦ serialize_lines p (written_lines (s ∷ ss))
]

unfoldable pub serialize_all : (ℕ → String) → ℕ → List Written → List String
unfolding serialize_paragraph
serialize_all fresh i [] = []
serialize_all fresh i (p ∷ ps) = serialize_paragraph (fresh i) p ∷ serialize_all fresh (suc i) ps

-- what stands behind a prefix
unfoldable pub after : String → String → Option String
after []ˢ s = some s
after (c ∷ˢ p) []ˢ = none
after (c ∷ˢ p) (d ∷ˢ s) = if eqb (code c) (code d) then after p s else none

-- `([^m]*)m`: the text before the first `m`, and what stands behind it
unfoldable pub until_char : ℕ → String → Option (String × String)
until_char m []ˢ = none
until_char m (c ∷ˢ s) = elim (eqb (code c) m) [
  | true ↦ some ([]ˢ, s)
  | false ↦ elim (until_char m s) [ none ↦ none | some (t, r) ↦ some (c ∷ˢ t, r) ]
]

-- `(.*?)p`
unfoldable pub until_text : String → String → Option (String × String)
unfolding after
until_text p []ˢ = elim (after p []ˢ) [ none ↦ none | some r ↦ some ([]ˢ, r) ]
until_text p (c ∷ˢ s) = elim (after p (c ∷ˢ s)) [
  | some r ↦ some ([]ˢ, r)
  | none ↦ elim (until_text p s) [ none ↦ none | some (t, r) ↦ some (c ∷ˢ t, r) ]
]

-- `strip("\n")`
unfoldable pub lstrip_newlines : String → String
lstrip_newlines []ˢ = []ˢ
lstrip_newlines (c ∷ˢ s) = let rest = lstrip_newlines s in if eqb (code c) 10 then rest else c ∷ˢ s

unfoldable pub rstrip_newlines : String → String
rstrip_newlines []ˢ = []ˢ
rstrip_newlines (c ∷ˢ s) =
    let rest = rstrip_newlines s in if eqb (code c) 10 && is_empty rest then []ˢ else c ∷ˢ rest

-- A span in a block: the text before it, its tag and what it holds.
pub record Match : Type 0 where
  pub before : String
  pub tag : String
  pub inner : String

abbrev pub size : String → ℕ
size []ˢ = 0
size (c ∷ˢ s) = suc (size s)

module _ (is_word : Char → Bool) (unescape : String → String) where
  -- `\b` in front of a word character, or behind one
  abbrev pub at_word : String → Bool
  at_word []ˢ = false
  at_word (c ∷ˢ s) = is_word c

  abbrev pub behind_word : Option Char → Bool
  behind_word none = false
  behind_word (some c) = is_word c

  -- `_SPAN_RE` at one place, with what stands behind the match
  unfoldable pub span_at : String → Option (Match × String)
  unfolding after until_char until_text
  span_at s = elim (after "<span" s) [
    | none ↦ none
    | some r ↦ if at_word r then none else (elim (until_char b'>' r) [
      | none ↦ none
      | some (tag, body) ↦ elim (until_text "</span>" body) [
        | none ↦ none
        | some (inner, rest) ↦ some (record { before = []ˢ; tag = tag; inner = inner }, rest)
      ]
    ])
  ]

  unfoldable pub find_span : String → Option (Match × String)
  unfolding span_at
  find_span []ˢ = none
  find_span (c ∷ˢ s) = elim (span_at (c ∷ˢ s)) [
    | some m ↦ some m
    | none ↦ elim (find_span s) [
      | none ↦ none
      | some (m, rest) ↦ some (record m { before = c ∷ˢ m.before }, rest)
    ]
  ]

  -- `finditer`, with the text behind the last match; a match takes a character at least
  unfoldable pub find_spans : ℕ → String → List Match × String
  unfolding find_span
  find_spans zero s = ([], s)
  find_spans (suc fuel) s = elim (find_span s) [
    | none ↦ ([], s)
    | some (m, rest) ↦ let (ms, end) = find_spans fuel rest in (m ∷ ms, end)
  ]

  -- `_span_attr`: the first place of the name with its quotes; the name begins with a letter
  unfoldable pub attr_from : String → Option Char → String → Option String
  unfolding after until_char
  attr_from name prev []ˢ = none
  attr_from name prev (c ∷ˢ s) =
      elim (if behind_word prev then none else after (append name "=\"") (c ∷ˢ s)) [
        | none ↦ attr_from name (some c) s
        | some r ↦ elim (until_char b'"' r) [
          | none ↦ attr_from name (some c) s
          | some (value, rest) ↦ some (unescape value)
        ]
      ]

  unfoldable pub span_attr : String → String → Option String
  unfolding attr_from
  span_attr tag name = attr_from name none tag

  abbrev pub given : Option String → String
  given none = []ˢ
  given (some s) = s

  abbrev pub is_identity : Match → Bool
  is_identity m = not (is_empty (given (span_attr m.tag "data-par-id")))

  -- the loop over the matches, which the first identity span ends for the id and the quote
  unfoldable pub first_identity : List Match → Option (String × String)
  first_identity [] = none
  first_identity (m ∷ ms) =
      let rest = first_identity ms in
      if is_identity m
      then some (given (span_attr m.tag "data-par-id"), given (span_attr m.tag "data-quote-type"))
      else rest

  unfoldable pub texts_of : List Match → String
  unfolding lstrip_newlines rstrip_newlines
  texts_of [] = []ˢ
  texts_of (m ∷ ms) =
      append m.before (append (rstrip_newlines (lstrip_newlines (unescape m.inner))) (texts_of ms))

  abbrev pub no_identity : List Match → Bool
  no_identity [] = true
  no_identity (m ∷ []) = not (is_identity m)
  no_identity (m ∷ n ∷ ms) = false

  abbrev pub block_of : String → Option (String × String) → Block
  block_of text none = record { par_id = none; quote_type = []ˢ; text = text }
  block_of text (some (id, quote)) = record { par_id = some id; quote_type = quote; text = text }

  -- `_parse_block`
  unfoldable pub parse_block : String → Block
  unfolding find_spans first_identity texts_of span_attr
  parse_block block =
      let (ms, end) = find_spans (size block) block in
      if no_identity ms
      then record { par_id = none; quote_type = []ˢ; text = block }
      else block_of (append (texts_of ms) end) (first_identity ms)

-- `body.split("\n\n")`
abbrev pub onto_first : Char → List String → List String
onto_first c [] = (c ∷ˢ []ˢ) ∷ []
onto_first c (w ∷ ws) = (c ∷ˢ w) ∷ ws

unfoldable pub split_blank : String → List String
split_blank []ˢ = []ˢ ∷ []
split_blank (c ∷ˢ []ˢ) = (c ∷ˢ []ˢ) ∷ []
split_blank (c ∷ˢ d ∷ˢ s) = elim (eqb (code c) 10 && eqb (code d) 10) [
  | true ↦ []ˢ ∷ split_blank s
  | false ↦ onto_first c (split_blank (d ∷ˢ s))
]

-- the lines of a body, with those of a span that is open, which stay together
unfoldable pub line_blocks : List String → List String → List String
unfolding contains join_with strip
line_blocks [] span_lines = if is_nil span_lines then [] else strip (join_with "\n" span_lines) ∷ []
line_blocks (line ∷ lines) span_lines =
    let rest = line_blocks lines in
    let held = span_lines ++ (line ∷ []) in
    if not (is_nil span_lines) || (contains "<span" line && not (contains "</span>" line))
    then (if contains "</span>" line then strip (join_with "\n" held) ∷ rest [] else rest held)
    else strip line ∷ rest []

-- `_paragraph_blocks`, without the empty blocks, which are passed over
unfoldable pub paragraph_blocks : String → Bool → List String
unfolding split_blank keep_if strip line_blocks split_on
paragraph_blocks body single_newline =
    keep_if (λ b. not (is_empty b))
      (if single_newline then line_blocks (split_on 10 body) [] else map strip (split_blank body))

pub record WrittenChapter : Type 0 where
  pub dirty : Bool
  pub text : String
  pub paragraphs : List Written

unfoldable pub serialize_texts : (ℕ → String) → ℕ → List String → List String
unfolding serialize_plain_text
serialize_texts fresh i [] = []
serialize_texts fresh i (t ∷ ts) =
    serialize_plain_text (fresh i) t []ˢ ∷ serialize_texts fresh (suc i) ts

-- `serialize_body`, with the ids of the new paragraphs
unfoldable pub serialize_body : (ℕ → String) → WrittenChapter → String
unfolding serialize_all serialize_texts split_blank join_with keep_if
serialize_body fresh chapter = join_with "\n\n" (
    keep_if (λ b. not (is_empty b))
      (if chapter.dirty
        then serialize_texts fresh 0 (split_blank chapter.text)
        else serialize_all fresh 0 chapter.paragraphs))
