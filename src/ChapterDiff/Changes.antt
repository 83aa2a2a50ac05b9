-- ===== src/ChapterDiff/Changes.antt =====
-- The changes of a classification: the paragraphs they are on, and their application.
use dockb.Prelude.{
  String, ◌≡◌, refl, sym, ap, ◌∙◌, inl, inr, Bool, true, false, Option, none, some, List, [], ◌∷◌,
  arith, ◌==◌, eq_iff, eq_refl, if◌then◌else◌, Bool-cases, Option-cases, All,
}
use mathlib.Core.Option
use mathlib.Core.Path.{subst}
use dockb.Prelude.Text.{has}
use dockb.ChapterDiff.{
  Block, Paragraph, ChangedParagraph, Classified, ids, known, is_blank, next_anchor, add_block, see,
  is_changed, classify_blocks, apply_changed, apply_all,
}

-- No block is blank, and the paragraphs that the file names are these, in this order.
abbrev pub Follows : List Paragraph → List Block → List Paragraph → Type 0
Follows old [] [] = Unit
Follows old [] (p ∷ ps) = ⊥
Follows old (b ∷ bs) ps = (is_blank b ≡ false) × (elim (known old b) [
  | none ↦ Follows old bs ps
  | some p ↦ elim ps [ [] ↦ ⊥ | q ∷ qs ↦ (q ≡ p) × Follows old bs qs ]
])

changed-see : (a : Option String) (r : Classified) → (see a r).changed ≡ r.changed
changed-see none r = refl
changed-see (some id) r = refl

abbrev change_of : Paragraph → Block → ChangedParagraph
change_of p b = record { par_id = p.id; text = b.text; quote_type = b.quote_type }

changed_new :
    (old : List Paragraph) (anchor : Option String) (b : Block) (r : Classified)
    → is_blank b ≡ false
    → known old b ≡ none
    → (add_block old anchor b r).changed ≡ r.changed
changed_new old anchor b r h k = rw (h, k) refl

changed_known :
    (old : List Paragraph) (anchor : Option String) (b : Block) (r : Classified) (p : Paragraph)
    → is_blank b ≡ false
    → known old b ≡ some p
    → (add_block old anchor b r).changed
      ≡ (if is_changed p b then change_of p b ∷ r.changed else r.changed)
changed_known old anchor b r p h k =
    rw (h, k)
      (elim (Bool-cases (is_changed p b)) [
        | inl changed ↦ rw changed refl
        | inr same ↦ rw same refl
      ])

-- The changes are on paragraphs that stay.
abbrev pub On : List Paragraph → List ChangedParagraph → Type 0
On ps cs = All (λ c. has c.par_id (ids ps) ≡ true) cs

On-cons :
    (q : Paragraph) (qs : List Paragraph) (cs : List ChangedParagraph) → On qs cs → On (q ∷ qs) cs
On-cons q qs [] h = tt
On-cons q qs (c ∷ cs) h = (ground (arith, h.0), On-cons q qs cs h.1)

pub changed_at_new :
    (old : List Paragraph) (anchor : Option String) (b : Block) (bs : List Block)
    → is_blank b ≡ false
    → known old b ≡ none
    → (classify_blocks old anchor (b ∷ bs)).changed
      ≡ (classify_blocks old (next_anchor old anchor b) bs).changed
unfolding classify_blocks
changed_at_new old anchor b bs h k = changed-see b.par_id _ ∙ changed_new old anchor b _ h k

pub changed_at_known :
    (old : List Paragraph) (anchor : Option String) (b : Block) (bs : List Block) (p : Paragraph)
    → is_blank b ≡ false
    → known old b ≡ some p
    → (classify_blocks old anchor (b ∷ bs)).changed ≡ (
        if is_changed p b
        then change_of p b ∷ (classify_blocks old (next_anchor old anchor b) bs).changed
        else (classify_blocks old (next_anchor old anchor b) bs).changed)
unfolding classify_blocks
changed_at_known old anchor b bs p h k = changed-see b.par_id _ ∙ changed_known old anchor b _ p h k

On-if :
    (qs : List Paragraph) (t : Bool) (c : ChangedParagraph) (cs : List ChangedParagraph)
    → has c.par_id (ids qs) ≡ true
    → On qs cs
    → On qs (if t then c ∷ cs else cs)
On-if qs true c cs h on = (h, on)
On-if qs false c cs h on = on

pub changed-On :
    (old : List Paragraph) (anchor : Option String) (bs : List Block) (ps : List Paragraph)
    → Follows old bs ps
    → On ps (classify_blocks old anchor bs).changed
unfolding classify_blocks
changed-On old anchor [] ps f = tt
changed-On old anchor (b ∷ bs) [] f = elim (Option-cases (known old b)) [
  | inl unknown ↦
      subst (On []) (sym (changed_at_new old anchor b bs f.0 unknown))
        (changed-On old (next_anchor old anchor b) bs [] (rw unknown at f.1))
  | inr (p, there) ↦ absurd (rw there at f.1)
]
changed-On old anchor (b ∷ bs) (q ∷ qs) f = elim (Option-cases (known old b)) [
  | inl unknown ↦
      subst (On (q ∷ qs)) (sym (changed_at_new old anchor b bs f.0 unknown))
        (changed-On old (next_anchor old anchor b) bs (q ∷ qs) (rw unknown at f.1))
  | inr (p, there) ↦
      let (e, f') = rw there at f.1 in
      let same : has p.id (ids (q ∷ qs)) ≡ true = rw e (ground (arith, eq_refl p.id)) in
      let rest = (classify_blocks old (next_anchor old anchor b) bs).changed in
      subst (On (q ∷ qs)) (sym (changed_at_known old anchor b bs p f.0 there)) (
        On-if (q ∷ qs) (is_changed p b) (change_of p b) rest same
          (On-cons q qs rest (changed-On old (next_anchor old anchor b) bs qs f')))
]

ids-apply_changed :
    (c : ChangedParagraph) (ps qs : List Paragraph) → apply_changed c ps ≡ some qs → ids qs ≡ ids ps
unfolding apply_changed
ids-apply_changed c [] qs h = cc
ids-apply_changed c (p ∷ ps) qs h = elim (Bool-cases (p.id == c.par_id)) [
  | inl same ↦
      let e = rw (apply_changed, same) at h in
      ap (λ o. elim o [ none ↦ ids (p ∷ ps) | some xs ↦ ids xs ]) (sym e)
  | inr other ↦ elim (Option-cases (apply_changed c ps)) [
    | inl missing ↦ absurd (ground (arith, (rw (apply_changed, other, missing) at h)))
    | inr (xs, applied) ↦
        let e : some (p ∷ xs) ≡ some qs = rw (apply_changed, other, applied) at h in
        ap (λ o. elim o [ none ↦ ids (p ∷ ps) | some ys ↦ ids ys ]) (sym e)
        ∙ ap (λ (l : List String). p.id ∷ l) (ids-apply_changed c ps xs applied)
  ]
]

has-other : (j k : String) (l : List String) → has k l ≡ true → has j l ≡ false → (j == k) ≡ false
has-other j k l h e = elim (Bool-cases (j == k)) [
  | inr other ↦ other
  | inl same ↦
      let there : has j l ≡ true = rw ((eq_iff j k).0 same) h in absurd (ground (arith, there, e))
]

-- A change of another paragraph leaves the first one.
apply_all-cons :
    (q : Paragraph) (qs rs : List Paragraph) (cs : List ChangedParagraph)
    → has q.id (ids qs) ≡ false
    → On qs cs
    → apply_all cs qs ≡ some rs
    → apply_all cs (q ∷ qs) ≡ some (q ∷ rs)
unfolding apply_all apply_changed
apply_all-cons q qs rs [] h on e = ap (Option.map (λ (l : List Paragraph). q ∷ l)) e
apply_all-cons q qs rs (c ∷ cs) h on e = elim (Option-cases (apply_changed c qs)) [
  | inl missing ↦ absurd (ground (arith, (rw (apply_all, missing) at e)))
  | inr (xs, applied) ↦
      let other = has-other q.id c.par_id (ids qs) on.0 h in
      let same = ids-apply_changed c qs xs applied in
      let e' : apply_all cs xs ≡ some rs = rw (apply_all, applied) at e in
      rw (apply_all, other, applied)
        (apply_all-cons q xs rs cs (rw same h)
          (subst (λ l. All (λ x. has x.par_id l ≡ true) cs) (sym same) on.1) e')
]

apply_here :
    (q : Paragraph) (qs : List Paragraph) (c : ChangedParagraph) (cs : List ChangedParagraph)
    → (q.id == c.par_id) ≡ true
    → apply_all (c ∷ cs) (q ∷ qs)
      ≡ apply_all cs (record { id = q.id; quote_type = c.quote_type; text = c.text } ∷ qs)
unfolding apply_all apply_changed
apply_here q qs c cs h = rw (apply_all, apply_changed, h) refl

-- Changes on an unchanged first paragraph and on a changed one.
pub apply_if :
    (q : Paragraph) (qs rs : List Paragraph) (b : Block) (cs : List ChangedParagraph)
    → has q.id (ids qs) ≡ false
    → On qs cs
    → apply_all cs qs ≡ some rs
    → apply_all (if is_changed q b then change_of q b ∷ cs else cs) (q ∷ qs)
      ≡ some (record { id = q.id; quote_type = b.quote_type; text = b.text } ∷ rs)
unfolding apply_all apply_changed
apply_if q qs rs b cs h on e = elim (Bool-cases (is_changed q b)) [
  | inl changed ↦
      let q' : Paragraph = record { id = q.id; quote_type = b.quote_type; text = b.text } in
      rw changed
        (apply_here q qs (change_of q b) cs (eq_refl q.id) ∙ apply_all-cons q' qs rs cs h on e)
  | inr same ↦
      let text : b.text ≡ q.text = (eq_iff b.text q.text).0 (ground (arith, same)) in
      let quote : b.quote_type ≡ q.quote_type =
        (eq_iff b.quote_type q.quote_type).0 (ground (arith, same)) in
      rw (same, text, quote) (apply_all-cons q qs rs cs h on e)
]
