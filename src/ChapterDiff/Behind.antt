-- ===== src/ChapterDiff/Behind.antt =====
-- Putting one paragraph behind what is done.
use dockb.Prelude.{
  String, ◌≡◌, refl, sym, ap, ◌∙◌, ◌⊎◌, inl, inr, true, false, ◌||◌, Option, none, some, List, [],
  ◌∷◌, ◌++◌, arith, ◌==◌, eq_iff, eq_refl, Bool-cases,
}
use dockb.Prelude.Text.{has}
use dockb.ChapterDiff.{
  Block, Paragraph, NewParagraph, ids, is_nil, new_of, insert_behind, same_id, put,
}

has-append : (k : String) (xs ys : List String) → has k (xs ++ ys) ≡ has k xs || has k ys
has-append k [] ys = refl
has-append k (x ∷ xs) ys = ground (arith, has-append k xs ys)

ids-append : (xs ys : List Paragraph) → ids (xs ++ ys) ≡ ids xs ++ ids ys
ids-append [] ys = refl
ids-append (x ∷ xs) ys = ap (λ (l : List String). x.id ∷ l) (ids-append xs ys)

pub append-cons :
    (xs : List Paragraph) (x : Paragraph) (ys : List Paragraph)
    → (xs ++ (x ∷ [])) ++ ys ≡ xs ++ (x ∷ ys)
append-cons [] x ys = refl
append-cons (z ∷ xs) x ys = ap (λ (l : List Paragraph). z ∷ l) (append-cons xs x ys)

insert_behind-append :
    (l x : Paragraph) (pre ps : List Paragraph)
    → has l.id (ids pre) ≡ false
    → insert_behind l.id x (pre ++ (l ∷ ps)) ≡ some (pre ++ (l ∷ x ∷ ps))
unfolding insert_behind
insert_behind-append l x [] ps h = rw (eq_refl l.id) refl
insert_behind-append l x (p ∷ pre) ps h =
    let other : (p.id == l.id) ≡ false = ground arith in
    rw (other, insert_behind-append l x pre ps (ground arith)) refl

abbrev pub Previous : Type 0
Previous = Option (NewParagraph × String)

-- An anchor is the id of a paragraph that is done.
abbrev pub Anchored : List Paragraph → Option String → Type 0
Anchored done none = Unit
Anchored done (some k) = has k (ids done) ≡ true

abbrev pub Prior : List Paragraph → Previous → Type 0
Prior done none = Unit
Prior done (some (n, id)) = Anchored done n.after_id

-- The next new paragraph goes behind what is done.
pub record Ends (old done : List Paragraph) (anchor : Option String) (previous : Previous)
    : Type 0 where
  pub pre : List Paragraph
  pub last : Paragraph
  pub split : done ≡ pre ++ (last ∷ [])
  pub once : has last.id (ids pre) ≡ false
  pub behind :
      (b : Block) (x : Paragraph) (ps : List Paragraph)
      → put (new_of old anchor b) previous x ps ≡ insert_behind last.id x ps

pub record Begins (done : List Paragraph) (anchor : Option String) (previous : Previous)
    : Type 0 where
  pub empty : done ≡ []
  pub no_anchor : anchor ≡ none
  pub no_previous : previous ≡ none

abbrev pub Tail : List Paragraph → List Paragraph → Option String → Previous → Type 0
Tail old done anchor previous = Begins done anchor previous ⊎ Ends old done anchor previous

pub put-Tail :
    (old done : List Paragraph) (anchor : Option String) (previous : Previous) (b : Block)
    (x : Paragraph) (ps : List Paragraph)
    → Tail old done anchor previous
    → (is_nil old ≡ true → ps ≡ [])
    → put (new_of old anchor b) previous x (done ++ ps) ≡ some ((done ++ (x ∷ [])) ++ ps)
put-Tail old done anchor previous b x ps (inl t) h =
    rw (t.no_previous, t.no_anchor, t.empty)
      (elim (Bool-cases (is_nil old)) [
        | inl nil ↦ rw (nil, h nil) (ground arith)
        | inr other ↦ rw other (ground (arith, t.no_anchor))
      ])
put-Tail old done anchor previous b x ps (inr t) h =
    let l = t.last in
    let whole : (ys : List Paragraph) → done ++ ys ≡ t.pre ++ (l ∷ ys) =
      λ ys. ap (λ (d : List Paragraph). d ++ ys) t.split ∙ append-cons t.pre l ys in
    t.behind b x (done ++ ps)
    ∙ ap (insert_behind l.id x) (whole ps)
    ∙ insert_behind-append l x t.pre ps t.once
    ∙ ap some (sym (append-cons done x ps ∙ whole (x ∷ ps)))

same_id_refl : (a : Option String) → same_id a a ≡ true
same_id_refl none = refl
same_id_refl (some a) = eq_refl a

-- Behind a new paragraph.
pub Tail-new :
    (old done : List Paragraph) (anchor : Option String) (b : Block) (x : Paragraph)
    → has x.id (ids done) ≡ false
    → Tail old (done ++ (x ∷ [])) anchor (some (new_of old anchor b, x.id))
Tail-new old done anchor b x h = inr (record {
  pre = done;
  last = x;
  split = refl;
  once = h;
  behind = λ b' x' ps'. rw (same_id_refl anchor) refl;
})

not_prior :
    (done : List Paragraph) (k : String) (a : Option String)
    → Anchored done a
    → has k (ids done) ≡ false
    → same_id (some k) a ≡ false
not_prior done k none h e = refl
not_prior done k (some j) h e = elim (Bool-cases (k == j)) [
  | inr other ↦ other
  | inl same ↦
      let there : has k (ids done) ≡ true = rw ((eq_iff k j).0 same) h in
      absurd (ground (arith, there, e))
]

-- Behind a paragraph that stays.
pub Tail-known :
    (old done : List Paragraph) (previous : Previous) (q : Paragraph)
    → Prior done previous
    → has q.id (ids done) ≡ false
    → Tail old (done ++ (q ∷ [])) (some q.id) previous
Tail-known old done none q h e =
    inr (record { pre = done; last = q; split = refl; once = e; behind = λ b' x' ps'. refl })
Tail-known old done (some (n, id)) q h e = inr (record {
  pre = done;
  last = q;
  split = refl;
  once = e;
  behind = λ b' x' ps'. rw (not_prior done q.id n.after_id h e) refl;
})

pub has-grown :
    (k : String) (done : List Paragraph) (x : Paragraph)
    → has k (ids (done ++ (x ∷ []))) ≡ has k (ids done) || (x.id == k)
has-grown k done x =
    rw (ids-append done (x ∷ [])) (has-append k (ids done) (x.id ∷ []) ∙ ground arith)

pub Anchored-grown :
    (done : List Paragraph) (x : Paragraph) (a : Option String)
    → Anchored done a
    → Anchored (done ++ (x ∷ [])) a
Anchored-grown done x none h = tt
Anchored-grown done x (some k) h = has-grown k done x ∙ rw h refl

pub Prior-grown :
    (done : List Paragraph) (x : Paragraph) (a : Previous)
    → Prior done a
    → Prior (done ++ (x ∷ [])) a
Prior-grown done x none h = tt
Prior-grown done x (some (n, id)) h = Anchored-grown done x n.after_id h

abbrev pub Unique : List Paragraph → Type 0
Unique [] = Unit
Unique (p ∷ ps) = (has p.id (ids ps) ≡ false) × Unique ps

-- None of the paragraphs is done, and no two have one id.
abbrev pub Ahead : List Paragraph → List Paragraph → Type 0
Ahead done [] = Unit
Ahead done (p ∷ ps) = (has p.id (ids done) ≡ false) × (has p.id (ids ps) ≡ false) × Ahead done ps

pub Ahead-grown :
    (done : List Paragraph) (x : Paragraph) (ps : List Paragraph)
    → has x.id (ids ps) ≡ false
    → Ahead done ps
    → Ahead (done ++ (x ∷ [])) ps
Ahead-grown done x [] h a = tt
Ahead-grown done x (p ∷ ps) h a = (
  ground (arith, has-grown p.id done x, eq_iff x.id p.id, eq_iff p.id x.id, a.0),
  a.1,
  Ahead-grown done x ps (ground arith) a.2,
)
