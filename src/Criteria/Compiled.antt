-- ===== src/Criteria/Compiled.antt =====
-- What the text of a compilation means.
use dockb.Prelude.{
  suc, ◌+◌, String, ◌≡◌, refl, ap, ap₂, ◌∙◌, Bool, true, false, ◌&&◌, ◌||◌, Option, none, some,
  List, [], ◌∷◌, ◌++◌, map, arith, if◌then◌else◌, length, any_of, length-append,
}
use mathlib.Core.List
use mathlib.Core.List.{append-nil}
use dockb.Prelude.Text.{append, append_assoc}
use dockb.Prelude.Words.{join_with}
use dockb.Dict
use dockb.Dict.{Dict}
use dockb.Criteria.{
  Criterion, Criteria, criteria, word, text, character, unknown, nil, cons, Param, value, values,
  is_and, whole_word_pattern, Resolver, joined, compile, compile_all, compile_criteria, contains,
  compile_resolved,
}
use dockb.Criteria.Cypher.{
  param_name, Expr, chained, conjunction, disjunction, mention, never, print, print_all, Row,
  cached, eval, every, some_of,
}
use dockb.Criteria.Params.{
  numbered, get_at, plan, plan_all, count, carried, carried_all, length-carried, compile_word_lem,
  compile_text_lem, compile_resolved_lem,
}

join_with-chained :
    (operator t : String) (ts : List String)
    → append (join_with operator (t ∷ ts)) ")" ≡ append t (chained operator ts)
unfolding join_with chained
join_with-chained operator t [] = refl
join_with-chained operator t (v ∷ ts) =
    append_assoc t (append operator (join_with operator (v ∷ ts))) ")"
    ∙ ap (append t) (
        append_assoc operator (join_with operator (v ∷ ts)) ")"
        ∙ ap (append operator) (join_with-chained operator v ts))

-- The text of an inner node is a conjunction or a disjunction.
joined-chain :
    (all : Bool) (ts : List String)
    → joined all ts ≡ (if all then conjunction ts else disjunction ts)
unfolding joined conjunction disjunction
joined-chain true [] = refl
joined-chain false [] = refl
joined-chain true (t ∷ ts) = ap (append "(") (join_with-chained " AND " t ts)
joined-chain false (t ∷ ts) = ap (append "(") (join_with-chained " OR " t ts)

module _ (lower : String → String) (resolve : Resolver) where
  compile_character :
      (o : Option (String × List String)) (us : List Param)
      → compile_resolved o (numbered 0 us) ≡ (
        print (elim o [ none ↦ never | some found ↦ mention (length us) (suc (length us)) ]),
        numbered 0 (
            us ++ (elim o [
              | none ↦ []
              | some (id, names) ↦ value id ∷ values (map whole_word_pattern names) ∷ []
            ])),
      )
  unfolding compile_resolved print
  compile_character none us = rw (append-nil us) refl
  compile_character (some (id, names)) us = compile_resolved_lem lower resolve id names us

  length-with :
      (us : List Param) (c : Criterion)
      → length (us ++ carried lower resolve c) ≡ length us + count resolve c
  length-with us c =
      omega (arith, length-append {0} us (carried lower resolve c), length-carried lower resolve c)

  mutual
    unfolding compile print plan carried

    pub compile_lem :
        (c : Criterion) (us : List Param)
        → compile lower resolve c (numbered 0 us)
          ≡ (print (plan resolve (length us) c), numbered 0 (us ++ carried lower resolve c))
    compile_lem (criteria op cs) us =
        ap (λ (r : List String × Dict Param). (joined (is_and op) r.0, r.1)) (compile_all_lem cs us)
        ∙ ap (λ (t : String). (t, numbered 0 (us ++ carried_all lower resolve cs)))
            (joined-chain (is_and op) (print_all (plan_all resolve (length us) cs)))
    compile_lem (word w) us = compile_word_lem lower resolve w us
    compile_lem (text t) us = compile_text_lem lower resolve t us
    compile_lem (character c) us = compile_character (resolve c) us
    compile_lem (unknown cs) us = rw (append-nil us) refl

    compile_all_lem :
        (cs : Criteria) (us : List Param)
        → compile_all lower resolve cs (numbered 0 us) ≡ (
          print_all (plan_all resolve (length us) cs),
          numbered 0 (us ++ carried_all lower resolve cs),
        )
    compile_all_lem nil us = rw (append-nil us) refl
    compile_all_lem (cons c cs) us =
        let us' = us ++ carried lower resolve c in
        rw
          (
            compile_lem c us,
            compile_all_lem cs us',
            length-with us c,
            List.append_assoc us (carried lower resolve c) (carried_all lower resolve cs),
          )
          refl

module _ (lower : String → String) (resolve : Resolver) (matches : String → String → Bool)
    (to_lower : String → String) (r : Row) where
  -- What a character leaf asks: a current verdict on the character, or one of its names in the text.
  abbrev pub answers_character : Option (String × List String) → Bool
  answers_character none = false
  answers_character (some (id, names)) =
      cached r id || any_of (λ name. matches (whole_word_pattern name) r.body) names

  -- What a tree asks of a paragraph.
  unfoldable mutual
    pub answers : Criterion → Bool
    answers (criteria op cs) = if is_and op then answers_all cs else answers_any cs
    answers (word w) = matches (whole_word_pattern w) r.body
    answers (text t) = contains (lower t) (to_lower r.body)
    answers (character c) = answers_character (resolve c)
    answers (unknown cs) = false

    pub answers_all : Criteria → Bool
    answers_all nil = true
    answers_all (cons c cs) = answers c && answers_all cs

    pub answers_any : Criteria → Bool
    answers_any nil = false
    answers_any (cons c cs) = answers c || answers_any cs

  any_of-map :
      (names : List String)
      → any_of (λ v. matches v r.body) (map whole_word_pattern names)
        ≡ any_of (λ name. matches (whole_word_pattern name) r.body) names
  any_of-map [] = refl
  any_of-map (n ∷ ns) =
      ap (λ (b : Bool). matches (whole_word_pattern n) r.body || b) (any_of-map ns)

  eval_character :
      (o : Option (String × List String)) (us ws : List Param)
      → eval matches to_lower
          (numbered 0 (
            us
            ++ ((elim o [
              | none ↦ []
              | some (id, names) ↦ value id ∷ values (map whole_word_pattern names) ∷ []
            ])
                ++ ws)))
          r
          (elim o [ none ↦ never | some found ↦ mention (length us) (suc (length us)) ])
        ≡ answers_character o
  unfolding eval
  eval_character none us ws = refl
  eval_character (some (id, names)) us ws =
      let v = values (map whole_word_pattern names) in
      let second : Dict.get (param_name (suc (length us))) (numbered 0 (us ++ value id ∷ v ∷ ws))
          ≡ some v =
        rw (List.append_assoc us (value id ∷ []) (v ∷ ws)) at (
          get_at (suc (length us)) (us ++ value id ∷ []) ws v
            (omega (arith, length-append {0} us (value id ∷ [])))) in
      rw (get_at (length us) us (v ∷ ws) (value id) refl, second, any_of-map names) refl

  mutual
    unfolding plan carried eval answers

    eval-plan :
        (c : Criterion) (us ws : List Param)
        → eval matches to_lower
            (numbered 0 (us ++ (carried lower resolve c ++ ws)))
            r
            (plan resolve (length us) c)
          ≡ answers c
    eval-plan (criteria op cs) us ws =
        ap₂ (λ (a b : Bool). if is_and op then a else b) (every-plan cs us ws)
          (some_of-plan cs us ws)
    eval-plan (word w) us ws =
        rw (get_at (length us) us ws (value (whole_word_pattern w)) refl) refl
    eval-plan (text t) us ws = rw (get_at (length us) us ws (value (lower t)) refl) refl
    eval-plan (character c) us ws = eval_character (resolve c) us ws
    eval-plan (unknown cs) us ws = refl

    every-plan :
        (cs : Criteria) (us ws : List Param)
        → every matches to_lower
            (numbered 0 (us ++ (carried_all lower resolve cs ++ ws)))
            r
            (plan_all resolve (length us) cs)
          ≡ answers_all cs
    every-plan nil us ws = refl
    every-plan (cons c cs) us ws =
        rw (List.append_assoc (carried lower resolve c) (carried_all lower resolve cs) ws) (
          ap₂ ◌&&◌ (eval-plan c us (carried_all lower resolve cs ++ ws)) (
            rw
              (
                List.append_assoc us (carried lower resolve c) (carried_all lower resolve cs ++ ws),
                length-with lower resolve us c,
              )
              at (every-plan cs (us ++ carried lower resolve c) ws)))

    some_of-plan :
        (cs : Criteria) (us ws : List Param)
        → some_of matches to_lower
            (numbered 0 (us ++ (carried_all lower resolve cs ++ ws)))
            r
            (plan_all resolve (length us) cs)
          ≡ answers_any cs
    some_of-plan nil us ws = refl
    some_of-plan (cons c cs) us ws =
        rw (List.append_assoc (carried lower resolve c) (carried_all lower resolve cs) ws) (
          ap₂ ◌||◌ (eval-plan c us (carried_all lower resolve cs ++ ws)) (
            rw
              (
                List.append_assoc us (carried lower resolve c) (carried_all lower resolve cs ++ ws),
                length-with lower resolve us c,
              )
              at (some_of-plan cs (us ++ carried lower resolve c) ws)))

  -- The text of a compilation is a Cypher expression which, with the parameters that it names, selects
  -- a paragraph exactly if the tree does: every word and every text by its own value, and a character
  -- that is known by a current verdict on it, or by one of its names in the text.
  pub compile_criteria-answers :
      (c : Criterion)
      → let (code, params) = compile_criteria lower resolve c in
        (e : Expr) × (code ≡ print e) × (eval matches to_lower params r e ≡ answers c)
  unfolding compile_criteria numbered
  compile_criteria-answers c =
      let compiled = compile_lem lower resolve c [] in
      (
        plan resolve 0 c,
        ap (λ (p : String × Dict Param). p.0) compiled,
        rw (ap (λ (p : String × Dict Param). p.1) compiled) (rw append-nil at (eval-plan c [] [])),
      )
