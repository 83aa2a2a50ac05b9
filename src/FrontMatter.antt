-- ===== src/FrontMatter.antt =====
-- src/dockb/infrastructure/markdown/front_matter.py: the block of attributes at the head of a chapter
-- file. The YAML package is the arguments `load` and `dump`, over values that it gives.
pub mod Lines
pub mod RoundTrip
mod Tests
use dockb.Prelude.{
  ℕ, String, ◌⊎◌, inl, inr, Bool, true, false, not, ◌&&◌, ◌||◌, Option, none, some, List, [], ◌∷◌,
  arith, eq_iff, eqb, if◌then◌else◌, eqb_iff, tests,
}
use Prim.Native.Char.{Char, code}
use Prim.Native.String.{[] as []ˢ, ◌∷◌ as ◌∷ˢ◌}
use dockb.Prelude.Text.{between, append}
use dockb.Dict.{Dict, set}

-- ChapterMismatchError and DocumentFormatError
pub data FormatError : Type 0 where
  chapter_mismatch document_format : FormatError

-- `content.startswith(prefix)`
unfoldable pub starts_with : String → String → Bool
starts_with []ˢ content = true
starts_with (c ∷ˢ prefix) []ˢ = false
starts_with (c ∷ˢ prefix) (d ∷ˢ content) = eqb (code c) (code d) && starts_with prefix content

-- a character that ends a line for `str.splitlines`; a carriage return before a newline does not
abbrev pub is_break : ℕ → Bool
is_break c = between 10 13 c || between 28 30 c || eqb c 133 || between 8232 8233 c

abbrev pub before_newline : ℕ → String → Bool
before_newline c []ˢ = false
before_newline c (d ∷ˢ s) = eqb c 13 && eqb (code d) 10

abbrev pub onto_first : Char → List String → List String
onto_first c [] = (c ∷ˢ []ˢ) ∷ []
onto_first c (l ∷ ls) = (c ∷ˢ l) ∷ ls

-- `content.splitlines(keepends=True)`
unfoldable pub split_lines : String → List String
split_lines []ˢ = []
split_lines (c ∷ˢ s) =
    let rest = split_lines s in
    if is_break (code c) && not (before_newline (code c) s)
    then (c ∷ˢ []ˢ) ∷ rest
    else onto_first c rest

-- `"".join(lines)`
unfoldable pub join : List String → String
join [] = []ˢ
join (l ∷ ls) = append l (join ls)

-- the lines before the closing one and those after it
abbrev pub onto_before :
    String → Option (List String × List String) → Option (List String × List String)
onto_before l none = none
onto_before l (some (before, after)) = some (l ∷ before, after)

unfoldable pub split_closing : List String → Option (List String × List String)
unfolding starts_with
split_closing [] = none
split_closing (l ∷ ls) =
    let rest = split_closing ls in if starts_with "---" l then some ([], ls) else onto_before l rest

-- what `yaml.safe_load` gives: a value that is false, a mapping, another value, or a YAMLError
pub data Loaded {ℓ} (V : Type ℓ) : Type ℓ where
  falsy : Loaded V
  mapping : Dict V → Loaded V
  other : Loaded V
  yaml_error : Loaded V

abbrev pub attrs_of {ℓ} : {V : Type ℓ} → Loaded V → FormatError ⊎ Dict V
attrs_of falsy = inr []
attrs_of (mapping attrs) = inr attrs
attrs_of other = inl chapter_mismatch
attrs_of yaml_error = inl document_format

-- `attrs.update(updates)`
unfoldable pub update {ℓ} : {V : Type ℓ} → Dict V → Dict V → Dict V
update attrs [] = attrs
update attrs ((k, v) ∷ updates) = update (set k v attrs) updates

module _ {ℓ} {V : Type ℓ} (load : String → Loaded V) (dump : Dict V → String) where
  abbrev pub parsed : FormatError ⊎ Dict V → List String → FormatError ⊎ (Dict V × String)
  parsed (inl e) after = inl e
  parsed (inr attrs) after = inr (attrs, join after)

  abbrev pub parse_block : Option (List String × List String) → FormatError ⊎ (Dict V × String)
  parse_block none = inl chapter_mismatch
  parse_block (some (before, after)) = parsed (attrs_of (load (join before))) after

  abbrev pub parse_lines : List String → FormatError ⊎ (Dict V × String)
  parse_lines [] = inl chapter_mismatch
  parse_lines (opening ∷ ls) = parse_block (split_closing ls)

  -- `parse`
  unfoldable pub parse : String → FormatError ⊎ (Dict V × String)
  parse content =
      if not (starts_with "---" content)
      then inr ([], content)
      else parse_lines (split_lines content)

  -- `render`
  unfoldable pub render : Dict V → String
  render attrs = append "---\n" (append (dump attrs) "---\n")

  abbrev pub merged : Dict V → FormatError ⊎ (Dict V × String) → FormatError ⊎ String
  merged updates (inl e) = inl e
  merged updates (inr (attrs, body)) = inr (append (render (update attrs updates)) body)

  -- `merge`
  unfoldable pub merge : String → Dict V → FormatError ⊎ String
  merge content updates =
      if not (starts_with "---" content)
      then inr (append (render updates) content)
      else merged updates (parse content)
