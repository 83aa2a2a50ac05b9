-- ===== src/ChapterText/Body.antt =====
-- A written body, split at its blank lines.
use dockb.Prelude.{
  String, ◌≡◌, refl, ap, ◌∙◌, Bool, true, false, not, ◌&&◌, List, [], ◌∷◌, All, map, arith, eqb,
  keep_if,
}
use Prim.Native.Char.{code}
use Prim.Native.String.{[] as []ˢ, ◌∷◌ as ◌∷ˢ◌}
use dockb.Prelude.Text.{append, is_empty, strip}
use dockb.Prelude.Words.{join_with}
use dockb.ChapterText.{split_blank, paragraph_blocks}

-- No blank line stands in the text, and no newline at its end.
abbrev pub is_solid : String → Bool
is_solid []ˢ = true
is_solid (c ∷ˢ []ˢ) = not (eqb (code c) 10)
is_solid (c ∷ˢ d ∷ˢ s) = not (eqb (code c) 10 && eqb (code d) 10) && is_solid (d ∷ˢ s)

split_blank-append :
    (b r : String)
    → is_solid b ≡ true
    → split_blank (append b (append "\n\n" r)) ≡ b ∷ split_blank r
unfolding split_blank
split_blank-append []ˢ r h = refl
split_blank-append (c ∷ˢ []ˢ) r h =
    let apart : eqb (code c) 10 ≡ false = ground (arith, h) in rw (split_blank, apart) refl
split_blank-append (c ∷ˢ d ∷ˢ b) r h =
    let apart : eqb (code c) 10 && eqb (code d) 10 ≡ false = ground (arith, h) in
    rw (split_blank, apart, split_blank-append (d ∷ˢ b) r (ground (arith, h))) refl

split_blank_solid : (b : String) → is_solid b ≡ true → split_blank b ≡ b ∷ []
unfolding split_blank
split_blank_solid []ˢ h = refl
split_blank_solid (c ∷ˢ []ˢ) h = refl
split_blank_solid (c ∷ˢ d ∷ˢ b) h =
    let apart : eqb (code c) 10 && eqb (code d) 10 ≡ false = ground (arith, h) in
    rw (split_blank, apart, split_blank_solid (d ∷ˢ b) (ground (arith, h))) refl

split_blank-join :
    (b : String) (bs : List String)
    → All (λ x. is_solid x ≡ true) (b ∷ bs)
    → split_blank (join_with "\n\n" (b ∷ bs)) ≡ b ∷ bs
unfolding join_with
split_blank-join b [] (h, hs) = split_blank_solid b h
split_blank-join b (d ∷ bs) (h, hs) =
    split_blank-append b (join_with "\n\n" (d ∷ bs)) h
    ∙ ap (λ (t : List String). b ∷ t) (split_blank-join d bs hs)

-- Blocks that are solid, have no space at their ends and are not empty are read back from their body.
paragraph_blocks-join :
    (bs : List String)
    → All (λ b. is_solid b ≡ true) bs
    → map strip bs ≡ bs
    → keep_if (λ b. not (is_empty b)) bs ≡ bs
    → paragraph_blocks (join_with "\n\n" bs) false ≡ bs
unfolding paragraph_blocks join_with split_blank strip keep_if
paragraph_blocks-join [] hs hm hk = refl
paragraph_blocks-join (b ∷ bs) hs hm hk =
    ap (λ (xs : List String). keep_if (λ x. not (is_empty x)) (map strip xs))
      (split_blank-join b bs hs)
    ∙ ap (keep_if (λ x. not (is_empty x))) hm
    ∙ hk
