-- ===== src/ChapterDiff/Tests.antt =====
-- A file that drops, changes and adds paragraphs.
use dockb.Prelude.{
  ℕ, String, ◌≡◌, refl, sym, ap, ◌∙◌, inl, inr, false, none, some, List, [], ◌∷◌, arith, ◌==◌,
  eq_iff, Bool-cases, keep_if, find_first,
}
use dockb.Prelude.Text.{has, strip, lstrip, rstrip, is_space}
use dockb.Prelude.Decimal.{
  decimal, digits, digit, number, number-decimal, all_chars, is_decimal, decimal-decimal,
}
use dockb.ChapterDiff.{
  Block, Paragraph, ids, classify_blocks, kept, apply_changed, apply_all, insert_behind, place,
  import_blocks,
}
use dockb.ChapterDiff.Placing.{Distinct}
use dockb.ChapterDiff.Reading.{reads, import_blocks-reads}

abbrev old : List Paragraph
old =
    record { id = "a"; quote_type = ""; text = "one" }
    ∷ record { id = "b"; quote_type = ""; text = "two" }
    ∷ record { id = "c"; quote_type = ""; text = "three" }
    ∷ []

abbrev file : List Block
file =
    record { par_id = none; quote_type = ""; text = "first" }
    ∷ record { par_id = some "a"; quote_type = ""; text = "one" }
    ∷ record { par_id = some "c"; quote_type = "block"; text = "3" }
    ∷ record { par_id = none; quote_type = ""; text = "x" }
    ∷ record { par_id = some "lost"; quote_type = ""; text = "y" }
    ∷ []

distinct : Distinct decimal old
distinct i j l = elim (Bool-cases (decimal i == decimal j)) [
  | inr other ↦ other
  | inl same ↦
      let e : i ≡ j =
        sym (number-decimal i)
        ∙ ap number ((eq_iff (decimal i) (decimal j)).0 same)
        ∙ number-decimal j in
      absurd (omega (arith, l, e))
]

not_letter : (s : String) (j : ℕ) → all_chars is_decimal s ≡ false → (s == decimal j) ≡ false
not_letter s j h = elim (Bool-cases (s == decimal j)) [
  | inr other ↦ other
  | inl same ↦
      let bad : all_chars is_decimal (decimal j) ≡ false =
        rw ((eq_iff s (decimal j)).0 same) at h in
      absurd (ground (arith, bad, decimal-decimal j))
]

apart : (j : ℕ) → has (decimal j) (ids old) ≡ false
apart j = rw (not_letter "a" j refl, not_letter "b" j refl, not_letter "c" j refl) refl

order :
    import_blocks decimal old file
    ≡ some (
        record { id = "0"; quote_type = ""; text = "first" }
        ∷ record { id = "a"; quote_type = ""; text = "one" }
        ∷ record { id = "c"; quote_type = "block"; text = "3" }
        ∷ record { id = "1"; quote_type = ""; text = "x" }
        ∷ record { id = "2"; quote_type = ""; text = "y" }
        ∷ [])
unfolding import_blocks classify_blocks kept apply_all apply_changed place insert_behind find_first
    keep_if strip lstrip rstrip is_space decimal digits digit
order = refl

import_blocks-reads_example : import_blocks decimal old file ≡ some (reads decimal old 0 file)
unfolding classify_blocks kept find_first keep_if strip lstrip rstrip is_space
import_blocks-reads_example =
    import_blocks-reads decimal old file distinct (refl, (refl, (refl, tt))) apart
      (refl, (refl, (refl, (refl, (refl, (refl, (refl, tt)))))))
