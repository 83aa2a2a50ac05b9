-- ===== src/ChapterText/Tests.antt =====
-- A reading of the five named characters, for chapters that are written and read on their own.
use dockb.Prelude.{
  ℕ, zero, suc, String, ◌≡◌, refl, sym, ap, ◌∙◌, inl, inr, Bool, true, false, ◌||◌, none, some, [],
  ◌∷◌, arith, eqb, if◌then◌else◌, Bool-cases,
}
use Prim.Native.Char.{Char, code}
use Prim.Native.String.{[] as []ˢ, ◌∷◌ as ◌∷ˢ◌}
use text.Mathlib.TextEquality.{Char-path}
use dockb.Prelude.Text.{append, between}
use dockb.Prelude.Words.{join_with}
use dockb.ChapterText.{
  Written, escape_char, escape_html, paragraph_span, written_lines, serialize_paragraph,
  serialize_body, parse_block, paragraph_blocks, lstrip_newlines, rstrip_newlines,
}
use dockb.ChapterText.Trip.{parse_block-serialize_paragraph}

abbrev next_code : String → ℕ
next_code []ˢ = 0
next_code (c ∷ˢ s) = code c

abbrev entity : ℕ → Char × ℕ
entity n =
    if eqb n b'a'
    then ("&", 4)
    else if eqb n b'l'
    then ("<", 3)
    else if eqb n b'g'
    then (">", 3)
    else if eqb n b'q'
    then ("\"", 5)
    else ("'", 5)

-- with the number of characters that are passed over
abbrev unescape_from : String → ℕ → String
unescape_from []ˢ k = []ˢ
unescape_from (c ∷ˢ s) (suc k) = unescape_from s k
unescape_from (c ∷ˢ s) zero =
    let rest = unescape_from s in
    if eqb (code c) b'&'
    then (entity (next_code s)).0 ∷ˢ rest ((entity (next_code s)).1)
    else c ∷ˢ rest 0

abbrev unescape : String → String
unescape s = unescape_from s 0

unescape-escape_char :
    (c : Char) (r : String) → unescape (append (escape_char c) r) ≡ c ∷ˢ unescape r
unfolding escape_char
unescape-escape_char c r =
    let onto : (d : Char) → code c ≡ code d → (d ∷ˢ unescape r) ≡ (c ∷ˢ unescape r) =
      (λ d e. ap (λ (x : Char). x ∷ˢ unescape r) (Char-path d c (sym e))) in
    elim (Bool-cases (eqb (code c) b'&')) [
      | inl e1 ↦ rw (escape_char, e1) (onto "&" (ground (arith, e1)))
      | inr e1 ↦ elim (Bool-cases (eqb (code c) b'<')) [
        | inl e2 ↦ rw (escape_char, e1, e2) (onto "<" (ground (arith, e2)))
        | inr e2 ↦ elim (Bool-cases (eqb (code c) b'>')) [
          | inl e3 ↦ rw (escape_char, e1, e2, e3) (onto ">" (ground (arith, e3)))
          | inr e3 ↦ elim (Bool-cases (eqb (code c) b'"')) [
            | inl e4 ↦ rw (escape_char, e1, e2, e3, e4) (onto "\"" (ground (arith, e4)))
            | inr e4 ↦ elim (Bool-cases (eqb (code c) 39)) [
              | inl e5 ↦ rw (escape_char, e1, e2, e3, e4, e5) (onto "'" (ground (arith, e5)))
              | inr e5 ↦ rw (escape_char, e1, e2, e3, e4, e5, e1) refl
            ]
          ]
        ]
      ]
    ]

unescape-escape_html : (s : String) → unescape (escape_html s) ≡ s
unfolding escape_html
unescape-escape_html []ˢ = refl
unescape-escape_html (c ∷ˢ s) =
    unescape-escape_char c (escape_html s) ∙ ap (λ (x : String). c ∷ˢ x) (unescape-escape_html s)

abbrev is_word : Char → Bool
is_word c =
    between b'0' b'9' (code c)
    || between b'A' b'Z' (code c)
    || between b'a' b'z' (code c)
    || eqb (code c) b'_'

abbrev spoken : Written
spoken = record {
  id = "p7";
  quote_type = "speech";
  sentences = "She said \"a < b\". " ∷ "  " ∷ "He & she left." ∷ [];
  text = []ˢ;
}

test_written :
    serialize_paragraph "new" spoken
    ≡ "<span data-par-id=\"p7\" data-quote-type=\"speech\">\nShe said &quot;a &lt; b&quot;.\nHe &amp; she left.\n</span>"
unfolding serialize_paragraph paragraph_span written_lines join_with escape_html
test_written = refl

parse_block-serialize_paragraph_example :
    parse_block is_word unescape (serialize_paragraph "new" spoken) ≡ record {
      par_id = some "p7";
      quote_type = "speech";
      text = "She said \"a < b\".\nHe & she left.";
    }
unfolding written_lines lstrip_newlines rstrip_newlines join_with
parse_block-serialize_paragraph_example =
    parse_block-serialize_paragraph is_word unescape unescape-escape_html refl "new" spoken
      "She said \"a < b\"." ("He & she left." ∷ []) refl refl refl

test_body :
    paragraph_blocks
      (serialize_body
        (λ n. "new")
        (record {
          dirty = false;
          text = []ˢ;
          paragraphs =
              spoken
              ∷ record { id = "p8"; quote_type = []ˢ; sentences = []; text = "Plain." }
              ∷ record { id = "p9"; quote_type = []ˢ; sentences = []; text = " " }
              ∷ [];
        }))
      false
    ≡ serialize_paragraph "new" spoken ∷ "<span data-par-id=\"new\">\nPlain.\n</span>" ∷ []
unfolding paragraph_blocks serialize_body paragraph_span written_lines serialize_paragraph join_with
test_body = refl

test_dirty :
    serialize_body
      (λ n. "new")
      (record { dirty = true; text = "One.\n\n \n\nTwo."; paragraphs = spoken ∷ [] })
    ≡ "<span data-par-id=\"new\">\nOne.\n</span>\n\n<span data-par-id=\"new\">\nTwo.\n</span>"
unfolding serialize_body paragraph_span
test_dirty = refl

-- The lines of a span stay together.
test_lines :
    paragraph_blocks "One.\n\n<span a=\"b\">\nTwo.\n</span>\n Three." true
    ≡ "One." ∷ "<span a=\"b\">\nTwo.\n</span>" ∷ "Three." ∷ []
unfolding paragraph_blocks
test_lines = refl

-- A comment between spans has no id, and an older block has none either.
test_unmarked :
    parse_block is_word unescape "<span>old</span>"
    ≡ record { par_id = none; quote_type = []ˢ; text = "<span>old</span>" }
unfolding parse_block
test_unmarked = refl
