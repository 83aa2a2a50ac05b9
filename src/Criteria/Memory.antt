-- ===== src/Criteria/Memory.antt =====
-- The compilation against the evaluation in memory.
use dockb.Prelude.{
  String, ◌≡◌, refl, ap, ap₂, ◌∙◌, Bool, false, ◌&&◌, ◌||◌, Option, none, some, List, [], ◌∷◌,
  any_of, All, if◌then◌else◌,
}
use dockb.Criteria.{
  Criterion, Criteria, criteria, word, text, character, unknown, nil, cons, is_and,
  whole_word_pattern, Resolver, compile_criteria, contains, is_empty, search_word,
  mentions_whole_word, evaluate, all_hold, any_holds,
}
use dockb.Criteria.Cypher.{Expr, print, Row, cached, eval}
use dockb.Criteria.Compiled.{
  answers, answers_all, answers_any, answers_character, compile_criteria-answers,
}

-- Every character of the tree is known by these names, and no current verdict names it.
module _ (resolve : Resolver) (r : Row) (names : List String) where
  abbrev pub Fresh : Option (String × List String) → Type 0
  Fresh none = ⊥
  Fresh (some (id, known_as)) = (known_as ≡ names) × (cached r id ≡ false)

  abbrev mutual
    pub Unjudged : Criterion → Type 0
    Unjudged (criteria op cs) = UnjudgedAll cs
    Unjudged (character c) = Fresh (resolve c)
    Unjudged c = Unit

    pub UnjudgedAll : Criteria → Type 0
    UnjudgedAll nil = Unit
    UnjudgedAll (cons c cs) = Unjudged c × UnjudgedAll cs

module _ (lower : String → String) (search : String → String → Bool) (resolve : Resolver)
    (matches : String → String → Bool) (to_lower : String → String) (r : Row) (names : List String)
    (same_words : (w : String)
      → matches (whole_word_pattern w) r.body ≡ search_word lower search w r.body)
    (same_lower : to_lower r.body ≡ lower r.body)
    (filled : All (λ n. is_empty n ≡ false) names) where
  any_of-mentions :
      (ns : List String)
      → All (λ n. is_empty n ≡ false) ns
      → any_of (λ n. matches (whole_word_pattern n) r.body) ns
        ≡ any_of (mentions_whole_word lower search r.body) ns
  unfolding mentions_whole_word
  any_of-mentions [] h = refl
  any_of-mentions (n ∷ ns) h = rw h.0 (ap₂ ◌||◌ (same_words n) (any_of-mentions ns h.1))

  answers-character :
      (o : Option (String × List String))
      → Fresh resolve r names o
      → answers_character lower resolve matches to_lower r o
        ≡ any_of (mentions_whole_word lower search r.body) names
  answers-character none h = absurd h
  answers-character (some (id, known_as)) h = rw (h.1, h.0) (any_of-mentions names filled)

  mutual
    unfolding answers evaluate

    answers-evaluate :
        (c : Criterion)
        → Unjudged resolve r names c
        → answers lower resolve matches to_lower r c ≡ evaluate lower search c r.body names
    answers-evaluate (criteria op cs) h =
        ap₂ (λ (a b : Bool). if is_and op then a else b) (answers-all_hold cs h)
          (answers-any_holds cs h)
    answers-evaluate (word w) h = same_words w
    answers-evaluate (text t) h = ap (contains (lower t)) same_lower
    answers-evaluate (character c) h = answers-character (resolve c) h
    answers-evaluate (unknown cs) h = refl

    answers-all_hold :
        (cs : Criteria)
        → UnjudgedAll resolve r names cs
        → answers_all lower resolve matches to_lower r cs ≡ all_hold lower search cs r.body names
    answers-all_hold nil h = refl
    answers-all_hold (cons c cs) h = ap₂ ◌&&◌ (answers-evaluate c h.0) (answers-all_hold cs h.1)

    answers-any_holds :
        (cs : Criteria)
        → UnjudgedAll resolve r names cs
        → answers_any lower resolve matches to_lower r cs ≡ any_holds lower search cs r.body names
    answers-any_holds nil h = refl
    answers-any_holds (cons c cs) h = ap₂ ◌||◌ (answers-evaluate c h.0) (answers-any_holds cs h.1)

  -- Where both engines find whole words and lower case alike, every character of the tree resolves to
  -- the given names, none of them empty, and no current verdict names it, the compiled query selects
  -- a paragraph exactly if the evaluation in memory does.
  pub compile_criteria-evaluate :
      (c : Criterion)
      → Unjudged resolve r names c
      → let (code, params) = compile_criteria lower resolve c in
        (e : Expr) × (code ≡ print e)
        × (eval matches to_lower params r e ≡ evaluate lower search c r.body names)
  compile_criteria-evaluate c h =
      let (e, text_of, meaning) = compile_criteria-answers lower resolve matches to_lower r c in
      (e, text_of, meaning ∙ answers-evaluate c h)
