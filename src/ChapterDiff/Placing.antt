-- ===== src/ChapterDiff/Placing.antt =====
-- Where the new paragraphs are put.
use dockb.Prelude.{
  ℕ, suc, ◌≤◌, ◌<◌, String, ◌≡◌, refl, sym, ap, ◌∙◌, inl, inr, true, false, Option, none, some,
  List, [], ◌∷◌, ◌++◌, arith, ◌==◌, eq_refl, Bool-cases, Option-cases,
}
use dockb.Prelude.Text.{has}
use dockb.ChapterDiff.{
  Block, Paragraph, NewParagraph, Classified, ids, known, is_blank, is_nil, next_anchor, add_block,
  new_of, see, is_changed, classify_blocks, put, built, place,
}
use dockb.ChapterDiff.Behind.{
  Previous, Anchored, Prior, Ahead, Tail, append-cons, put-Tail, Tail-new, Tail-known, has-grown,
  Anchored-grown, Prior-grown, Ahead-grown, Unique,
}

-- The paragraphs in the order of the file: those that stay, and each new one at its block.
abbrev pub woven : (ℕ → String) → List Paragraph → ℕ → List Block → List Paragraph → List Paragraph
woven fresh old i [] ps = []
woven fresh old i (b ∷ bs) ps = elim (known old b) [
  | none ↦
      record { id = fresh i; quote_type = b.quote_type; text = b.text }
      ∷ woven fresh old (suc i) bs ps
  | some p ↦ elim ps [ [] ↦ [] | q ∷ qs ↦ q ∷ woven fresh old i bs qs ]
]

-- No block is blank, and the ids that the file names are those of the paragraphs, in this order.
abbrev pub Matches : List Paragraph → List Block → List Paragraph → Type 0
Matches old [] [] = Unit
Matches old [] (p ∷ ps) = ⊥
Matches old (b ∷ bs) ps = (is_blank b ≡ false) × (elim (known old b) [
  | none ↦ Matches old bs ps
  | some p ↦ elim ps [ [] ↦ ⊥ | q ∷ qs ↦ (q.id ≡ p.id) × Matches old bs qs ]
])

new-see : (a : Option String) (r : Classified) → (see a r).new ≡ r.new
new-see none r = refl
new-see (some id) r = refl

add_new :
    (old : List Paragraph) (anchor : Option String) (b : Block) (r : Classified)
    → is_blank b ≡ false
    → known old b ≡ none
    → (add_block old anchor b r).new ≡ new_of old anchor b ∷ r.new
add_new old anchor b r h k = rw (h, k) refl

add_known :
    (old : List Paragraph) (anchor : Option String) (b : Block) (r : Classified) (p : Paragraph)
    → is_blank b ≡ false
    → known old b ≡ some p
    → (add_block old anchor b r).new ≡ r.new
add_known old anchor b r p h k =
    rw (h, k)
      (elim (Bool-cases (is_changed p b)) [
        | inl changed ↦ rw changed refl
        | inr same ↦ rw same refl
      ])

woven_new :
    (fresh : ℕ → String) (old : List Paragraph) (i : ℕ) (b : Block) (bs : List Block)
    (ps : List Paragraph)
    → known old b ≡ none
    → woven fresh old i (b ∷ bs) ps
      ≡ record { id = fresh i; quote_type = b.quote_type; text = b.text }
        ∷ woven fresh old (suc i) bs ps
woven_new fresh old i b bs ps k = rw (woven, k) refl

woven-known :
    (fresh : ℕ → String) (old : List Paragraph) (i : ℕ) (b : Block) (bs : List Block)
    (p q : Paragraph) (qs : List Paragraph)
    → known old b ≡ some p
    → woven fresh old i (b ∷ bs) (q ∷ qs) ≡ q ∷ woven fresh old i bs qs
woven-known fresh old i b bs p q qs k = rw (woven, k) refl

place_step :
    (fresh : ℕ → String) (i : ℕ) (n : NewParagraph) (ns : List NewParagraph) (previous : Previous)
    (ps qs : List Paragraph)
    → put n previous (built fresh i n) ps ≡ some qs
    → place fresh i (n ∷ ns) previous ps ≡ place fresh (suc i) ns (some (n, fresh i)) qs
unfolding place
place_step fresh i n ns previous ps qs h = rw (place, h) refl

new_at :
    (old : List Paragraph) (anchor : Option String) (b : Block) (bs : List Block)
    → is_blank b ≡ false
    → known old b ≡ none
    → (classify_blocks old anchor (b ∷ bs)).new
      ≡ new_of old anchor b ∷ (classify_blocks old anchor bs).new
unfolding classify_blocks
new_at old anchor b bs h k =
    let next : next_anchor old anchor b ≡ anchor = rw (h, k) refl in
    new-see b.par_id _
    ∙ add_new old anchor b (classify_blocks old (next_anchor old anchor b) bs) h k
    ∙ ap (λ x. new_of old anchor b ∷ (classify_blocks old x bs).new) next

known_at :
    (old : List Paragraph) (anchor : Option String) (b : Block) (bs : List Block) (p : Paragraph)
    → is_blank b ≡ false
    → known old b ≡ some p
    → (classify_blocks old anchor (b ∷ bs)).new ≡ (classify_blocks old (some p.id) bs).new
unfolding classify_blocks
known_at old anchor b bs p h k =
    let next : next_anchor old anchor b ≡ some p.id = rw (h, k) refl in
    new-see b.par_id _
    ∙ add_known old anchor b (classify_blocks old (next_anchor old anchor b) bs) p h k
    ∙ ap (λ x. (classify_blocks old x bs).new) next

Unique-Ahead : (ps : List Paragraph) → Unique ps → Ahead [] ps
Unique-Ahead [] u = tt
Unique-Ahead (p ∷ ps) u = (refl, u.0, Unique-Ahead ps u.1)

module _ (fresh : ℕ → String) (old : List Paragraph) where
  abbrev pub Distinct : Type 0
  Distinct = (i j : ℕ) → i < j → (fresh i == fresh j) ≡ false

  new_paragraph : ℕ → Block → Paragraph
  new_paragraph i b = record { id = fresh i; quote_type = b.quote_type; text = b.text }

  -- Between two blocks: what is done, and what stays further on.
  record Between (done ps : List Paragraph) (i : ℕ) (anchor : Option String) (previous : Previous)
      : Type 0 where
    ahead : Ahead done ps
    not_done : (j : ℕ) → i ≤ j → has (fresh j) (ids done) ≡ false
    not_ahead : (j : ℕ) → i ≤ j → has (fresh j) (ids ps) ≡ false
    none_old : is_nil old ≡ true → ps ≡ []
    anchored : Anchored done anchor
    prior : Prior done previous
    tail : Tail old done anchor previous

  Between-new :
      (done ps : List Paragraph) (i : ℕ) (anchor : Option String) (previous : Previous) (b : Block)
      → Distinct
      → Between done ps i anchor previous
      → Between
          (done ++ (new_paragraph i b ∷ []))
          ps
          (suc i)
          anchor
          (some (new_of old anchor b, fresh i))
  unfolding new_paragraph
  Between-new done ps i anchor previous b inj s =
      let x = new_paragraph i b in
      record {
        ahead = Ahead-grown done x ps (s.not_ahead i (omega arith)) s.ahead;
        not_done = λ j l.
            has-grown (fresh j) done x
            ∙ rw (s.not_done j (omega arith), inj i j (omega arith)) refl;
        not_ahead = λ j l. s.not_ahead j (omega arith);
        none_old = s.none_old;
        anchored = Anchored-grown done x anchor s.anchored;
        prior = Anchored-grown done x anchor s.anchored;
        tail = Tail-new old done anchor b x (s.not_done i (omega arith));
      }

  Between-known :
      (done qs : List Paragraph) (q : Paragraph) (i : ℕ) (anchor : Option String)
      (previous : Previous)
      → Between done (q ∷ qs) i anchor previous
      → Between (done ++ (q ∷ [])) qs i (some q.id) previous
  Between-known done qs q i anchor previous s = record {
    ahead = Ahead-grown done q qs s.ahead.1 s.ahead.2;
    not_done = λ j l. has-grown (fresh j) done q ∙ ground (arith, s.not_done j l, s.not_ahead j l);
    not_ahead = λ j l. ground (arith, s.not_ahead j l);
    none_old = λ h. ap (λ (l : List Paragraph). elim l [ [] ↦ [] | x ∷ xs ↦ xs ]) (s.none_old h);
    anchored = has-grown q.id done q ∙ ground (arith, eq_refl q.id);
    prior = Prior-grown done q previous s.prior;
    tail = Tail-known old done previous q s.prior s.ahead.0;
  }

  step_new :
      (i : ℕ) (b : Block) (bs : List Block) (anchor : Option String) (previous : Previous)
      (done ps : List Paragraph)
      → is_blank b ≡ false
      → known old b ≡ none
      → Between done ps i anchor previous
      → place fresh
          (suc i)
          (classify_blocks old anchor bs).new
          (some (new_of old anchor b, fresh i))
          ((done ++ (new_paragraph i b ∷ [])) ++ ps)
        ≡ some ((done ++ (new_paragraph i b ∷ [])) ++ woven fresh old (suc i) bs ps)
      → place fresh i (classify_blocks old anchor (b ∷ bs)).new previous (done ++ ps)
        ≡ some (done ++ woven fresh old i (b ∷ bs) ps)
  unfolding new_paragraph
  step_new i b bs anchor previous done ps f unknown s ih =
      let x = new_paragraph i b in
      let n = new_of old anchor b in
      ap (λ ns. place fresh i ns previous (done ++ ps)) (new_at old anchor b bs f unknown)
      ∙ place_step fresh i n (classify_blocks old anchor bs).new previous (done ++ ps) _
          (put-Tail old done anchor previous b x ps s.tail s.none_old)
      ∙ ih
      ∙ ap some (
          append-cons done x (woven fresh old (suc i) bs ps)
          ∙ ap (λ (l : List Paragraph). done ++ l) (sym (woven_new fresh old i b bs ps unknown)))

  step_known :
      (i : ℕ) (b : Block) (bs : List Block) (anchor : Option String) (previous : Previous)
      (done qs : List Paragraph) (p q : Paragraph)
      → is_blank b ≡ false
      → known old b ≡ some p
      → q.id ≡ p.id
      → place fresh i (classify_blocks old (some q.id) bs).new previous ((done ++ (q ∷ [])) ++ qs)
        ≡ some ((done ++ (q ∷ [])) ++ woven fresh old i bs qs)
      → place fresh i (classify_blocks old anchor (b ∷ bs)).new previous (done ++ (q ∷ qs))
        ≡ some (done ++ woven fresh old i (b ∷ bs) (q ∷ qs))
  step_known i b bs anchor previous done qs p q f there e ih =
      ap (λ ns. place fresh i ns previous (done ++ (q ∷ qs)))
        (known_at old anchor b bs p f there
          ∙ ap (λ k. (classify_blocks old (some k) bs).new) (sym e))
      ∙ ap (place fresh i (classify_blocks old (some q.id) bs).new previous)
          (sym (append-cons done q qs))
      ∙ ih
      ∙ ap some (
          append-cons done q (woven fresh old i bs qs)
          ∙ ap (λ (l : List Paragraph). done ++ l)
              (sym (woven-known fresh old i b bs p q qs there)))

  place-woven :
      (i : ℕ) (bs : List Block) (anchor : Option String) (previous : Previous)
      (done ps : List Paragraph)
      → Distinct
      → Matches old bs ps
      → Between done ps i anchor previous
      → place fresh i (classify_blocks old anchor bs).new previous (done ++ ps)
        ≡ some (done ++ woven fresh old i bs ps)
  unfolding classify_blocks place
  place-woven i [] anchor previous done [] inj f s = refl
  place-woven i [] anchor previous done (p ∷ ps) inj f s = absurd f
  place-woven i (b ∷ bs) anchor previous done [] inj f s = elim (Option-cases (known old b)) [
    | inl unknown ↦ step_new i b bs anchor previous done [] f.0 unknown s (
        place-woven (suc i) bs anchor _ _ [] inj (rw unknown at f.1)
          (Between-new done [] i anchor previous b inj s))
    | inr (p, there) ↦ absurd (rw there at f.1)
  ]
  place-woven i (b ∷ bs) anchor previous done (q ∷ qs) inj f s = elim (Option-cases (known old b)) [
    | inl unknown ↦ step_new i b bs anchor previous done (q ∷ qs) f.0 unknown s (
        place-woven (suc i) bs anchor _ _ (q ∷ qs) inj (rw unknown at f.1)
          (Between-new done (q ∷ qs) i anchor previous b inj s))
    | inr (p, there) ↦
        let (e, f') = rw there at f.1 in
        step_known i b bs anchor previous done qs p q f.0 there e (
          place-woven i bs (some q.id) previous _ qs inj f'
            (Between-known done qs q i anchor previous s))
  ]

  -- Into a chapter whose paragraphs the file names in their order, the new paragraphs are put where
  -- the file has them.
  pub place_all :
      (bs : List Block) (ps : List Paragraph)
      → Distinct
      → Matches old bs ps
      → Unique ps
      → ((j : ℕ) → has (fresh j) (ids ps) ≡ false)
      → (is_nil old ≡ true → ps ≡ [])
      → place fresh 0 (classify_blocks old none bs).new none ps ≡ some (woven fresh old 0 bs ps)
  place_all bs ps inj f u apart none_old = place-woven 0 bs none none [] ps inj f (record {
    ahead = Unique-Ahead ps u;
    not_done = λ j l. refl;
    not_ahead = λ j l. apart j;
    none_old = none_old;
    anchored = tt;
    prior = tt;
    tail = inl (record { empty = refl; no_anchor = refl; no_previous = refl });
  })
