-- ===== src/ChapterDiff/Reading.antt =====
-- A chapter after an import against the file.
use dockb.Prelude.{
  ℕ, suc, String, ◌≡◌, refl, sym, ap, ◌∙◌, inl, inr, Bool, true, false, Option, none, some, List,
  [], ◌∷◌, arith, Bool-cases, Option-cases, keep_if,
}
use dockb.Prelude.Text.{has}
use dockb.ChapterDiff.{
  Block, Paragraph, Classified, ids, known, is_blank, is_nil, next_anchor, classify_blocks, kept,
  apply_all, import_blocks,
}
use dockb.ChapterDiff.Placing.{woven, Matches, Distinct, place_all}
use dockb.ChapterDiff.Behind.{Unique}
use dockb.ChapterDiff.Changes.{On, Follows, changed_at_new, changed_at_known, changed-On, apply_if}

-- What the file says: each block's paragraph, with the id that it names or a fresh one.
abbrev pub reads : (ℕ → String) → List Paragraph → ℕ → List Block → List Paragraph
reads fresh old i [] = []
reads fresh old i (b ∷ bs) = elim (known old b) [
  | none ↦
      record { id = fresh i; quote_type = b.quote_type; text = b.text } ∷ reads fresh old (suc i) bs
  | some p ↦ record { id = p.id; quote_type = b.quote_type; text = b.text } ∷ reads fresh old i bs
]

nil_of_old :
    (old ps : List Paragraph) (r : Classified)
    → is_nil old ≡ true
    → ids ps ≡ ids (kept old r)
    → ps ≡ []
unfolding kept keep_if
nil_of_old [] [] r h e = refl
nil_of_old [] (p ∷ ps) r h e = cc
nil_of_old (o ∷ old) ps r h e = cc

has-keep_if :
    (k : String) (f : Paragraph → Bool) (ps : List Paragraph)
    → has k (ids ps) ≡ false
    → has k (ids (keep_if f ps)) ≡ false
unfolding keep_if
has-keep_if k f [] h = refl
has-keep_if k f (p ∷ ps) h = elim (Bool-cases (f p)) [
  | inl stays ↦ rw stays (ground (arith, h, has-keep_if k f ps (ground arith)))
  | inr goes ↦ rw goes (has-keep_if k f ps (ground arith))
]

Unique-keep_if : (f : Paragraph → Bool) (ps : List Paragraph) → Unique ps → Unique (keep_if f ps)
unfolding keep_if
Unique-keep_if f [] u = tt
Unique-keep_if f (p ∷ ps) u = elim (Bool-cases (f p)) [
  | inl stays ↦ rw stays (has-keep_if p.id f ps u.0, Unique-keep_if f ps u.1)
  | inr goes ↦ rw goes (Unique-keep_if f ps u.1)
]

module _ (fresh : ℕ → String) (old : List Paragraph) where
  -- The paragraphs after the changes, which still stand where they stood.
  record Applied (anchor : Option String) (bs : List Block) (ps : List Paragraph) : Type 0 where
    result : List Paragraph
    applies : apply_all (classify_blocks old anchor bs).changed ps ≡ some result
    same_ids : ids result ≡ ids ps
    matches : Matches old bs result
    woven_in : (i : ℕ) → woven fresh old i bs result ≡ reads fresh old i bs

  skipped :
      (anchor : Option String) (b : Block) (bs : List Block) (ps : List Paragraph)
      → is_blank b ≡ false
      → known old b ≡ none
      → Applied (next_anchor old anchor b) bs ps
      → Applied anchor (b ∷ bs) ps
  skipped anchor b bs ps f unknown a = record {
    result = a.result;
    applies = rw (changed_at_new old anchor b bs f unknown) a.applies;
    same_ids = a.same_ids;
    matches = (f, rw unknown a.matches);
    woven_in = λ i.
        rw (woven, reads, unknown)
          (ap
            (λ (l : List Paragraph).
              record { id = fresh i; quote_type = b.quote_type; text = b.text } ∷ l)
            (a.woven_in (suc i)));
  }

  changed_or_not :
      (anchor : Option String) (b : Block) (bs : List Block) (q : Paragraph) (qs : List Paragraph)
      → is_blank b ≡ false
      → known old b ≡ some q
      → has q.id (ids qs) ≡ false
      → On qs (classify_blocks old (next_anchor old anchor b) bs).changed
      → Applied (next_anchor old anchor b) bs qs
      → Applied anchor (b ∷ bs) (q ∷ qs)
  changed_or_not anchor b bs q qs f there once on a = record {
    result = record { id = q.id; quote_type = b.quote_type; text = b.text } ∷ a.result;
    applies =
        rw (changed_at_known old anchor b bs q f there)
          (apply_if q qs a.result b _ once on a.applies);
    same_ids = ap (λ (l : List String). q.id ∷ l) a.same_ids;
    matches = (f, rw there (refl, a.matches));
    woven_in = λ i.
        rw (woven, reads, there)
          (ap
            (λ (l : List Paragraph).
              record { id = q.id; quote_type = b.quote_type; text = b.text } ∷ l)
            (a.woven_in i));
  }

  applied :
      (anchor : Option String) (bs : List Block) (ps : List Paragraph)
      → Unique ps
      → Follows old bs ps
      → Applied anchor bs ps
  unfolding apply_all classify_blocks
  applied anchor [] [] u f = record {
    result = [];
    applies = refl;
    same_ids = refl;
    matches = tt;
    woven_in = λ i. refl;
  }
  applied anchor [] (p ∷ ps) u f = absurd f
  applied anchor (b ∷ bs) [] u f = elim (Option-cases (known old b)) [
    | inr (p, there) ↦ absurd (rw there at f.1)
    | inl unknown ↦
        skipped anchor b bs [] f.0 unknown
          (applied (next_anchor old anchor b) bs [] u (rw unknown at f.1))
  ]
  applied anchor (b ∷ bs) (q ∷ qs) u f = elim (Option-cases (known old b)) [
    | inl unknown ↦
        skipped anchor b bs (q ∷ qs) f.0 unknown
          (applied (next_anchor old anchor b) bs (q ∷ qs) u (rw unknown at f.1))
    | inr (p, there) ↦
        let (e, f') = rw there at f.1 in
        changed_or_not anchor b bs q qs f.0 (there ∙ ap some (sym e)) u.0
          (changed-On old (next_anchor old anchor b) bs qs f')
          (applied (next_anchor old anchor b) bs qs u.1 f')
  ]

  Unique-same_ids : (ps qs : List Paragraph) → ids ps ≡ ids qs → Unique qs → Unique ps
  Unique-same_ids [] qs e u = tt
  Unique-same_ids (p ∷ ps) [] e u = cc
  Unique-same_ids (p ∷ ps) (q ∷ qs) e u =
      let first : p.id ≡ q.id = ap (λ (l : List String). elim l [ [] ↦ p.id | x ∷ xs ↦ x ]) e in
      let rest : ids ps ≡ ids qs = ap (λ (l : List String). elim l [ [] ↦ [] | x ∷ xs ↦ xs ]) e in
      (rw (first, rest) u.0, Unique-same_ids ps qs rest u.1)

  -- Where ids are unique and the fresh ones are new, after the import of a file without blank
  -- blocks that names the paragraphs of the chapter that it keeps in their order, the chapter
  -- reads as the file: each block is a paragraph with the text and the quote type of the block, at
  -- its place.
  pub import_blocks-reads :
      (bs : List Block)
      → Distinct fresh old
      → Unique old
      → ((j : ℕ) → has (fresh j) (ids old) ≡ false)
      → Follows old bs (kept old (classify_blocks old none bs))
      → import_blocks fresh old bs ≡ some (reads fresh old 0 bs)
  unfolding import_blocks kept
  import_blocks-reads bs inj u apart f =
      let r = classify_blocks old none bs in
      let ps = kept old r in
      let stays = λ (p : Paragraph). has p.id r.seen_ids in
      let a = applied none bs ps (Unique-keep_if stays old u) f in
      let placed =
        place_all fresh old bs a.result inj a.matches
          (Unique-same_ids a.result ps a.same_ids (Unique-keep_if stays old u))
          (λ j. rw (a.same_ids) (has-keep_if (fresh j) stays old (apart j)))
          (λ h. nil_of_old old a.result r h a.same_ids) in
      rw (import_blocks, a.applies) (placed ∙ ap some (a.woven_in 0))
