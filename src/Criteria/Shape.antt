-- ===== src/Criteria/Shape.antt =====
-- The text of a compilation does not hold what the caller wrote.
use dockb.Prelude.{ℕ, suc, ◌+◌, String, ◌≡◌, refl, sym, ap, ap₂, ◌∙◌, Option, none, some, List, []}
use dockb.Dict.{Dict}
use dockb.Criteria.{
  Criterion, Criteria, criteria, word, text, character, unknown, nil, cons, Param, is_and, Resolver,
  compile_criteria,
}
use dockb.Criteria.Cypher.{Expr, mention, never, node, more, print}
use dockb.Criteria.Params.{numbered, plan, plan_all, count, count_all}
use dockb.Criteria.Compiled.{compile_lem}

module _ (resolve resolve' : Resolver) where
  abbrev pub BothKnown : Option (String × List String) → Option (String × List String) → Type 0
  BothKnown none none = Unit
  BothKnown (some a) (some b) = Unit
  BothKnown a b = ⊥

  -- The same nodes and leaves, with any words, texts and references in them.
  abbrev mutual
    pub SameShape : Criterion → Criterion → Type 0
    SameShape (criteria op cs) (criteria op' ds) = (is_and op ≡ is_and op') × SameShapeAll cs ds
    SameShape (word v) (word w) = Unit
    SameShape (text s) (text t) = Unit
    SameShape (character a) (character b) = BothKnown (resolve a) (resolve' b)
    SameShape (unknown cs) (unknown ds) = Unit
    SameShape c d = ⊥

    pub SameShapeAll : Criteria → Criteria → Type 0
    SameShapeAll nil nil = Unit
    SameShapeAll (cons c cs) (cons d ds) = SameShape c d × SameShapeAll cs ds
    SameShapeAll cs ds = ⊥

  plan_character :
      (a b : Option (String × List String)) (n : ℕ)
      → BothKnown a b
      → (◌≡◌ {A = Expr}
          (elim a [ none ↦ never | some found ↦ mention n (suc n) ])
          (elim b [ none ↦ never | some found ↦ mention n (suc n) ]))
        × (◌≡◌ {A = ℕ}
            (elim a [ none ↦ 0 | some found ↦ 2 ])
            (elim b [ none ↦ 0 | some found ↦ 2 ]))
  plan_character none none n h = (refl, refl)
  plan_character (some a) (some b) n h = (refl, refl)
  plan_character none (some b) n h = absurd h
  plan_character (some a) none n h = absurd h

  mutual
    unfolding plan

    plan-SameShape :
        (c d : Criterion) (n : ℕ)
        → SameShape c d
        → (plan resolve n c ≡ plan resolve' n d) × (count resolve c ≡ count resolve' d)
    plan-SameShape (criteria op cs) (criteria op' ds) n h =
        let (es, k) = plan_all-SameShapeAll cs ds n h.1 in (ap₂ node h.0 es, k)
    plan-SameShape (word v) (word w) n h = (refl, refl)
    plan-SameShape (text s) (text t) n h = (refl, refl)
    plan-SameShape (character a) (character b) n h = plan_character (resolve a) (resolve' b) n h
    plan-SameShape (unknown cs) (unknown ds) n h = (refl, refl)
    plan-SameShape c d n h = absurd h

    plan_all-SameShapeAll :
        (cs ds : Criteria) (n : ℕ)
        → SameShapeAll cs ds
        → (plan_all resolve n cs ≡ plan_all resolve' n ds)
          × (count_all resolve cs ≡ count_all resolve' ds)
    plan_all-SameShapeAll nil nil n h = (refl, refl)
    plan_all-SameShapeAll (cons c cs) (cons d ds) n h =
        let (e, k) = plan-SameShape c d n h.0 in
        let (es, l) = plan_all-SameShapeAll cs ds (n + count resolve c) h.1 in
        (ap₂ more e (es ∙ ap (λ (m : ℕ). plan_all resolve' (n + m) ds) k), ap₂ ◌+◌ k l)
    plan_all-SameShapeAll cs ds n h = absurd h

  -- Trees of the same shape compile to the same text, whatever their words, texts and references are
  -- and whatever the characters are called.
  pub compile_criteria-SameShape :
      (lower lower' : String → String) (c d : Criterion)
      → SameShape c d
      → (compile_criteria lower resolve c).0 ≡ (compile_criteria lower' resolve' d).0
  unfolding compile_criteria numbered
  compile_criteria-SameShape lower lower' c d h =
      ap (λ (p : String × Dict Param). p.0) (compile_lem lower resolve c [])
      ∙ ap print (plan-SameShape c d 0 h).0
      ∙ sym (ap (λ (p : String × Dict Param). p.0) (compile_lem lower' resolve' d []))
