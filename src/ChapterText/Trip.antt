-- ===== src/ChapterText/Trip.antt =====
-- A written paragraph, read back.
use dockb.Prelude.{
  keep_if, ℕ, zero, suc, String, ◌≡◌, refl, sym, ap, ◌∙◌, inl, inr, Bool, true, false, not, Option,
  none, some, List, [], ◌∷◌, arith, eqb, Bool-cases,
}
use Prim.Native.Char.{Char, code}
use Prim.Native.String.{[] as []ˢ, ◌∷◌ as ◌∷ˢ◌}
use dockb.Prelude.Text.{append, append_nil, append_assoc, is_empty}
use dockb.Prelude.Decimal.{all_chars}
use dockb.Prelude.Words.{join_with}
use dockb.ChapterText.{
  escape_char, escape_html, quote_attr, paragraph_span, after, lstrip_newlines, rstrip_newlines,
  Match, size, span_at, find_span, find_spans, attr_from, span_attr, first_identity, texts_of,
  parse_block, block_of, given, Written, written_lines, serialize_paragraph,
}
use dockb.ChapterText.Span.{
  Lacks, all_chars-append, escaped_gt, escaped_lt, escaped_quote, escaped_eq, until_char-append,
  until_text-append,
}
use dockb.ChapterText.Attr.{attr_from-skip, attr_from-hit, clear_of-value, last_of}

rstrip_newlines-append : (s : String) → rstrip_newlines (append s "\n") ≡ rstrip_newlines s
unfolding rstrip_newlines
rstrip_newlines-append []ˢ = refl
rstrip_newlines-append (c ∷ˢ s) = rw (rstrip_newlines, rstrip_newlines-append s) refl

stripped_newlines :
    (s : String)
    → rstrip_newlines (lstrip_newlines (append s "\n")) ≡ rstrip_newlines (lstrip_newlines s)
unfolding lstrip_newlines
stripped_newlines []ˢ = refl
stripped_newlines (c ∷ˢ s) = elim (Bool-cases (eqb (code c) 10)) [
  | inl e ↦ rw (lstrip_newlines, e) (stripped_newlines s)
  | inr e ↦ rw (lstrip_newlines, e) (rstrip_newlines-append (c ∷ˢ s))
]

escape_html-append :
    (s t : String) → escape_html (append s t) ≡ append (escape_html s) (escape_html t)
unfolding escape_html
escape_html-append []ˢ t = refl
escape_html-append (c ∷ˢ s) t =
    ap (append (escape_char c)) (escape_html-append s t)
    ∙ sym (append_assoc (escape_char c) (escape_html s) (escape_html t))

-- The tag and the inner text of a written paragraph.
abbrev tag_of : String → String → String
tag_of id quote_type =
    append " data-par-id=\"" (append (escape_html id) ("\"" ∷ˢ quote_attr quote_type))

abbrev inner_of : String → String
inner_of text = "\n" ∷ˢ append (escape_html text) "\n"

inner_of-escape : (text : String) → inner_of text ≡ escape_html ("\n" ∷ˢ append text "\n")
unfolding escape_html escape_char
inner_of-escape text = ap (λ (s : String). "\n" ∷ˢ s) (sym (escape_html-append text "\n"))

span_parts :
    (id text quote_type : String)
    → paragraph_span id text quote_type
      ≡ append "<span" (append (tag_of id quote_type) (">" ∷ˢ append (inner_of text) "</span>"))
unfolding paragraph_span
span_parts id text quote_type =
    rw
      (
        append_assoc (escape_html id) ("\"" ∷ˢ quote_attr quote_type)
            (">" ∷ˢ append (inner_of text) "</span>"),
        append_assoc (escape_html text) "\n" "</span>",
      )
      refl

quote_attr_closed : (quote_type : String) → Lacks b'>' (quote_attr quote_type)
unfolding quote_attr
quote_attr_closed []ˢ = refl
quote_attr_closed (c ∷ˢ q) =
    all_chars-append (λ d. not (eqb d b'>')) (escape_html (c ∷ˢ q)) "\"" (escaped_gt (c ∷ˢ q)) refl

tag_of_closed : (id quote_type : String) → Lacks b'>' (tag_of id quote_type)
tag_of_closed id quote_type =
    all_chars-append (λ d. not (eqb d b'>')) (escape_html id) ("\"" ∷ˢ quote_attr quote_type)
      (escaped_gt id) (quote_attr_closed quote_type)

inner_of_open : (text : String) → Lacks b'<' (inner_of text)
inner_of_open text =
    all_chars-append (λ d. not (eqb d b'<')) (escape_html text) "\n" (escaped_lt text) refl

module _ (is_word : Char → Bool) (unescape : String → String)
    (unescape-escape : (s : String) → unescape (escape_html s) ≡ s)
    (space_apart : is_word " " ≡ false) where
  span_attr_id :
      (id quote_type : String)
      → span_attr is_word unescape (tag_of id quote_type) "data-par-id" ≡ some id
  unfolding span_attr
  span_attr_id id quote_type =
      attr_from-skip is_word unescape "data-par-id" none " "
        (append "data-par-id=\"" (append (escape_html id) ("\"" ∷ˢ quote_attr quote_type))) refl
      ∙ attr_from-hit is_word unescape "d" "ata-par-id" (some " ") (escape_html id)
          (quote_attr quote_type) space_apart (escaped_quote id)
      ∙ ap some (unescape-escape id)

  -- Behind the id the search for the quote type goes on at the quote that closes it.
  abbrev behind_id : String → Option Char
  behind_id id = last_of is_word unescape (some "\"") (escape_html id)

  span_attr-behind_id :
      (id r : String)
      → Lacks b'=' id
      → span_attr is_word unescape
          (append " data-par-id=\"" (append (escape_html id) ("\"" ∷ˢ r)))
          "data-quote-type"
        ≡ attr_from is_word unescape "data-quote-type" (behind_id id) ("\"" ∷ˢ r)
  unfolding span_attr
  span_attr-behind_id id r he =
      attr_from-skip is_word unescape "data-quote-type" none " data-par-id=\""
        (append (escape_html id) ("\"" ∷ˢ r)) refl
      ∙ attr_from-skip is_word unescape "data-quote-type" (some "\"") (escape_html id) ("\"" ∷ˢ r) (
          clear_of-value "data-quote-type" (escape_html id) r refl (escaped_quote id)
            (escaped_eq id he))

  span_attr_quote :
      (id quote_type : String)
      → Lacks b'=' id
      → given is_word unescape (span_attr is_word unescape (tag_of id quote_type) "data-quote-type")
        ≡ quote_type
  unfolding quote_attr attr_from
  span_attr_quote id []ˢ he = ap (given is_word unescape) (
      span_attr-behind_id id []ˢ he
      ∙ attr_from-skip is_word unescape "data-quote-type" (behind_id id) "\"" []ˢ refl)
  span_attr_quote id (c ∷ˢ q) he = ap (given is_word unescape) (
      span_attr-behind_id id (quote_attr (c ∷ˢ q)) he
      ∙ attr_from-skip is_word unescape "data-quote-type" (behind_id id) "\" "
          (append "data-quote-type=\"" (append (escape_html (c ∷ˢ q)) "\"")) refl
      ∙ attr_from-hit is_word unescape "d" "ata-quote-type" (some " ") (escape_html (c ∷ˢ q)) []ˢ
          space_apart (escaped_quote (c ∷ˢ q))
      ∙ ap some (unescape-escape (c ∷ˢ q)))

  span_at_paragraph :
      (id text quote_type : String)
      → span_at is_word unescape (paragraph_span id text quote_type)
        ≡ some (record { before = []ˢ; tag = tag_of id quote_type; inner = inner_of text }, []ˢ)
  unfolding span_at after
  span_at_paragraph id text quote_type =
      ap (span_at is_word unescape) (span_parts id text quote_type)
      ∙ rw
          (
            span_at,
            space_apart,
            until_char-append b'>' (tag_of id quote_type) (append (inner_of text) "</span>") ">"
                (tag_of_closed id quote_type) refl,
            until_text-append (inner_of text) (inner_of_open text),
          )
          refl

  find_spans_nil : (fuel : ℕ) → find_spans is_word unescape fuel []ˢ ≡ ([], []ˢ)
  unfolding find_spans find_span
  find_spans_nil zero = refl
  find_spans_nil (suc fuel) = refl

  find_spans_one :
      (c : Char) (s : String) (m : Match)
      → span_at is_word unescape (c ∷ˢ s) ≡ some (m, []ˢ)
      → find_spans is_word unescape (suc (size s)) (c ∷ˢ s) ≡ (m ∷ [], []ˢ)
  unfolding find_spans find_span
  find_spans_one c s m h = rw (find_spans, find_span, h, find_spans_nil (size s)) refl

  find_spans_paragraph :
      (id text quote_type : String)
      → find_spans is_word unescape
          (size (paragraph_span id text quote_type))
          (paragraph_span id text quote_type)
        ≡ (record { before = []ˢ; tag = tag_of id quote_type; inner = inner_of text } ∷ [], []ˢ)
  unfolding paragraph_span
  find_spans_paragraph id text quote_type =
      find_spans_one "<"
        (append "span data-par-id=\"" (
          append (escape_html id) (
            append "\"" (
              append (quote_attr quote_type)
                (append ">\n" (append (escape_html text) "\n</span>"))))))
        (record { before = []ˢ; tag = tag_of id quote_type; inner = inner_of text })
        (span_at_paragraph id text quote_type)

  inner_text :
      (text : String)
      → rstrip_newlines (lstrip_newlines (unescape (inner_of text)))
        ≡ rstrip_newlines (lstrip_newlines text)
  unfolding lstrip_newlines
  inner_text text =
      ap (λ (s : String). rstrip_newlines (lstrip_newlines s))
        (ap unescape (inner_of-escape text) ∙ unescape-escape ("\n" ∷ˢ append text "\n"))
      ∙ stripped_newlines text

  pub parse_block-paragraph_span :
      (id text quote_type : String)
      → is_empty id ≡ false
      → all_chars (λ c. not (eqb c b'=')) id ≡ true
      → parse_block is_word unescape (paragraph_span id text quote_type) ≡ record {
        par_id = some id;
        quote_type = quote_type;
        text = rstrip_newlines (lstrip_newlines text);
      }
  unfolding parse_block first_identity texts_of
  parse_block-paragraph_span id text quote_type hid he =
      rw
        (
          find_spans_paragraph id text quote_type,
          span_attr_id id quote_type,
          hid,
          span_attr_quote id quote_type he,
          inner_text text,
        )
        (ap (λ (t : String). block_of is_word unescape t (some (id, quote_type)))
          (append_nil (append (rstrip_newlines (lstrip_newlines text)) []ˢ)
            ∙ append_nil (rstrip_newlines (lstrip_newlines text))))

  serialize_paragraph-lines :
      (fresh : String) (p : Written) (ss : List String)
      → p.sentences ≡ ss
      → (line : String) (lines : List String) → written_lines ss ≡ line ∷ lines
      → serialize_paragraph fresh p
        ≡ paragraph_span p.id (join_with "\n" (line ∷ lines)) p.quote_type
  unfolding serialize_paragraph written_lines keep_if
  serialize_paragraph-lines fresh p [] e line lines hl = absurd (ground (arith, hl))
  serialize_paragraph-lines fresh p (s ∷ ss) e line lines hl = rw (serialize_paragraph, e, hl) refl

  -- Where `unescape` undoes `escape_html` and a space is no word character, a paragraph that has
  -- an id without `=` and a line to write is read back from its span with its id, its quote type
  -- and its lines, less the newlines at the two ends.
  pub parse_block-serialize_paragraph :
      (fresh : String) (p : Written) (line : String) (lines : List String)
      → written_lines p.sentences ≡ line ∷ lines
      → is_empty p.id ≡ false
      → all_chars (λ c. not (eqb c b'=')) p.id ≡ true
      → parse_block is_word unescape (serialize_paragraph fresh p) ≡ record {
        par_id = some p.id;
        quote_type = p.quote_type;
        text = rstrip_newlines (lstrip_newlines (join_with "\n" (line ∷ lines)));
      }
  unfolding serialize_paragraph written_lines
  parse_block-serialize_paragraph fresh p line lines hl hid he =
      ap (parse_block is_word unescape)
        (serialize_paragraph-lines fresh p p.sentences refl line lines hl)
      ∙ parse_block-paragraph_span p.id (join_with "\n" (line ∷ lines)) p.quote_type hid he
