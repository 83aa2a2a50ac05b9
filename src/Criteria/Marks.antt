-- ===== src/Criteria/Marks.antt =====
-- src/dockb/services/mcp_queries.py: the sentences that a search marks in a paragraph.
use dockb.Prelude.{
  ℕ, zero, suc, String, ◌≡◌, refl, ap, ap₂, inl, inr, Bool, true, false, ◌&&◌, ◌||◌, Option, none,
  some, List, [], ◌∷◌, ◌++◌, map, arith, if◌then◌else◌, length, keep_if, Bool-cases, length-append,
}
use mathlib.Core.List.{append_assoc}
use dockb.Criteria.{
  Criterion, Criteria, criteria, word, text, character, unknown, nil, cons, is_and, contains,
  mentions_whole_word,
}

pub record Sentence : Type 0 where
  pub id : String
  pub body : String

-- `_has_search_leaf`
unfoldable mutual
  pub has_search_leaf : Criterion → Bool
  has_search_leaf (criteria op cs) = any_search_leaf cs
  has_search_leaf (word w) = true
  has_search_leaf (text t) = true
  has_search_leaf (character c) = false
  has_search_leaf (unknown cs) = any_search_leaf cs

  pub any_search_leaf : Criteria → Bool
  any_search_leaf nil = false
  any_search_leaf (cons c cs) = has_search_leaf c || any_search_leaf cs

-- a character among the children themselves
abbrev pub any_character : Criteria → Bool
any_character nil = false
any_character (cons (character c) cs) = true
any_character (cons c cs) = any_character cs

-- the id of the sentence at a position
abbrev pub id_at : List Sentence → ℕ → Option String
id_at [] i = none
id_at (s ∷ ss) zero = some s.id
id_at (s ∷ ss) (suc i) = id_at ss i

id_at_end :
    (us ss : List Sentence) (s : Sentence) (n : ℕ)
    → n ≡ length us
    → id_at (us ++ s ∷ ss) n ≡ some s.id
id_at_end [] ss s n h = rw h refl
id_at_end (u ∷ us) ss s n h = rw h (id_at_end us ss s (length us) refl)

module _ (lower : String → String) (search : String → String → Bool) where
  -- `_selects_sentence`
  unfoldable mutual
    pub selects_sentence : Criterion → String → Bool
    selects_sentence (criteria op cs) body =
        if is_and op then all_select cs body else any_selects cs body
    selects_sentence (word w) body = mentions_whole_word lower search body w
    selects_sentence (text t) body = contains (lower t) (lower body)
    selects_sentence (character c) body = true
    selects_sentence (unknown cs) body = false

    pub all_select : Criteria → String → Bool
    all_select nil body = true
    all_select (cons c cs) body = selects_sentence c body && all_select cs body

    pub any_selects : Criteria → String → Bool
    any_selects nil body = false
    any_selects (cons c cs) body = selects_sentence c body || any_selects cs body

  -- `_marked_sentence_ids`
  unfoldable pub marked_sentence_ids : Criterion → List Sentence → List String
  unfolding has_search_leaf
  marked_sentence_ids c ss =
      if has_search_leaf c
      then map (λ s. s.id) (keep_if (λ s. selects_sentence c s.body) ss)
      else []

  -- the positions, counted on from `order`, of the sentences that are selected
  unfoldable pub positions : Criterion → ℕ → List Sentence → List ℕ
  positions c order [] = []
  positions c order (s ∷ ss) =
      let rest = positions c (suc order) ss in
      if selects_sentence c s.body then order ∷ rest else rest

  -- `_marked_sentence_indexes`
  unfoldable pub marked_sentence_indexes : Criterion → List Sentence → List ℕ
  unfolding has_search_leaf positions
  marked_sentence_indexes c ss = if has_search_leaf c then positions c 0 ss else []

  positions-ids :
      (c : Criterion) (us ss : List Sentence) (n : ℕ)
      → n ≡ length us
      → map (id_at (us ++ ss)) (positions c n ss)
        ≡ map some (map (λ s. s.id) (keep_if (λ s. selects_sentence c s.body) ss))
  unfolding positions keep_if
  positions-ids c us [] n h = refl
  positions-ids c us (s ∷ ss) n h =
      let rest = rw (append_assoc us (s ∷ []) ss) at (
        positions-ids c (us ++ s ∷ []) ss (suc n) (omega (arith, length-append {0} us (s ∷ [])))) in
      elim (Bool-cases (selects_sentence c s.body)) [
        | inr other ↦ rw other rest
        | inl selected ↦ rw selected (ap₂ ◌∷◌ (id_at_end us ss s n h) rest)
      ]

  -- The marked ids are those of the sentences at the marked positions, in the same order.
  pub marked_sentence_ids-indexes :
      (c : Criterion) (ss : List Sentence)
      → map (id_at ss) (marked_sentence_indexes c ss) ≡ map some (marked_sentence_ids c ss)
  unfolding marked_sentence_indexes marked_sentence_ids
  marked_sentence_ids-indexes c ss = elim (Bool-cases (has_search_leaf c)) [
    | inr without ↦ rw without refl
    | inl with_leaf ↦ rw with_leaf (positions-ids c [] ss 0 refl)
  ]

  any_selects-character :
      (cs : Criteria) (body : String) → any_character cs ≡ true → any_selects cs body ≡ true
  unfolding selects_sentence
  any_selects-character nil body h = cc
  any_selects-character (cons (character a) cs) body h = refl
  any_selects-character (cons c cs) body h = ground (arith, any_selects-character cs body)

  keep_if-all :
      (c : Criterion) (ss : List Sentence)
      → ((body : String) → selects_sentence c body ≡ true)
      → keep_if (λ s. selects_sentence c s.body) ss ≡ ss
  unfolding keep_if
  keep_if-all c [] h = refl
  keep_if-all c (s ∷ ss) h = rw (h s.body) (ap (◌∷◌ s) (keep_if-all c ss h))

  -- Where a node that is no and-node has a character among its children and a word or a text anywhere
  -- below it, every sentence of the paragraph is marked, whatever it says.
  pub or_character-marks :
      (op : Option String) (cs : Criteria) (ss : List Sentence)
      → is_and op ≡ false
      → any_search_leaf cs ≡ true
      → any_character cs ≡ true
      → marked_sentence_ids (criteria op cs) ss ≡ map (λ s. s.id) ss
  unfolding marked_sentence_ids selects_sentence
  or_character-marks op cs ss is_or leaf person =
      let all = λ (body : String). any_selects-character cs body person in
      rw leaf (
        ap (map (λ (s : Sentence). s.id))
          (keep_if-all (criteria op cs) ss (λ body. rw is_or (all body))))
