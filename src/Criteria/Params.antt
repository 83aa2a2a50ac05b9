-- ===== src/Criteria/Params.antt =====
-- The parameters of a compilation by their numbers.
use dockb.Prelude.{
  ℕ, suc, ◌+◌, ◌<◌, String, ◌≡◌, refl, sym, ap, ◌∙◌, inl, inr, false, none, some, List, [], ◌∷◌,
  ◌++◌, map, arith, ◌==◌, eq_iff, eq_refl, Bool-cases, length, length-append,
}
use mathlib.Core.List.{append_assoc}
use Prim.Native.String.{[] as []ˢ, ◌∷◌ as ◌∷ˢ◌}
use dockb.Prelude.Decimal.{decimal, number, number-decimal}
use dockb.Dict
use dockb.Dict.{Dict}
use dockb.Criteria.{
  Criterion, Criteria, criteria, word, text, character, unknown, nil, cons, Param, value, values,
  is_and, whole_word_pattern, next_param, Resolver, compile_word, compile_text, compile_resolved,
}
use dockb.Criteria.Cypher.{
  param_name, Expr, Exprs, like, substring, mention, never, node, end, more, print,
}

tail : String → String
tail []ˢ = []ˢ
tail (c ∷ˢ s) = s

param_name_inj : (n k : ℕ) → param_name n ≡ param_name k → n ≡ k
unfolding tail
param_name_inj n k h =
    let same : decimal n ≡ decimal k = ap tail h in
    sym (number-decimal n) ∙ ap number same ∙ number-decimal k

param_name_apart : (n k : ℕ) → n < k → (param_name n == param_name k) ≡ false
param_name_apart n k h = elim (Bool-cases (param_name n == param_name k)) [
  | inr other ↦ other
  | inl same ↦
      let e = param_name_inj n k ((eq_iff (param_name n) (param_name k)).0 same) in
      absurd (omega arith)
]

-- The parameters in the order in which they were numbered.
unfoldable pub numbered : ℕ → List Param → Dict Param
numbered n [] = []
numbered n (v ∷ vs) = (param_name n, v) ∷ numbered (suc n) vs

length-numbered : (n : ℕ) (vs : List Param) → length (numbered n vs) ≡ length vs
unfolding numbered
length-numbered n [] = refl
length-numbered n (v ∷ vs) = ap suc (length-numbered (suc n) vs)

set-numbered :
    (n k : ℕ) (vs : List Param) (v : Param)
    → k ≡ n + length vs
    → Dict.set (param_name k) v (numbered n vs) ≡ numbered n (vs ++ v ∷ [])
unfolding numbered Dict.set
set-numbered n k [] v h = let here : k ≡ n = omega arith in rw here refl
set-numbered n k (w ∷ vs) v h =
    rw (param_name_apart n k (omega arith))
      (ap (λ (d : Dict Param). (param_name n, w) ∷ d) (set-numbered (suc n) k vs v (omega arith)))

get-numbered :
    (n k : ℕ) (us ws : List Param) (v : Param)
    → k ≡ n + length us
    → Dict.get (param_name k) (numbered n (us ++ v ∷ ws)) ≡ some v
unfolding numbered Dict.get
get-numbered n k [] ws v h =
    let here : k ≡ n = omega arith in rw (here, eq_refl (param_name n)) refl
get-numbered n k (u ∷ us) ws v h =
    rw (param_name_apart n k (omega arith)) (get-numbered (suc n) k us ws v (omega arith))

-- The parameter at the end of the first part.
pub get_at :
    (k : ℕ) (us ws : List Param) (v : Param)
    → k ≡ length us
    → Dict.get (param_name k) (numbered 0 (us ++ v ∷ ws)) ≡ some v
get_at k us ws v h = get-numbered 0 k us ws v (omega arith)

set_at :
    (us : List Param) (v : Param)
    → Dict.set (param_name (length us)) v (numbered 0 us) ≡ numbered 0 (us ++ v ∷ [])
set_at us v = set-numbered 0 (length us) us v (omega arith)

next_param-numbered : (us : List Param) → next_param (numbered 0 us) ≡ param_name (length us)
unfolding next_param
next_param-numbered us = ap param_name (length-numbered 0 us)

-- What a node writes, from the number of parameters before it.
unfoldable mutual
  pub plan : Resolver → ℕ → Criterion → Expr
  plan resolve n (criteria op cs) = node (is_and op) (plan_all resolve n cs)
  plan resolve n (word w) = like n
  plan resolve n (text t) = substring n
  plan resolve n (character c) = elim (resolve c) [ none ↦ never | some found ↦ mention n (suc n) ]
  plan resolve n (unknown cs) = never

  pub plan_all : Resolver → ℕ → Criteria → Exprs
  plan_all resolve n nil = end
  plan_all resolve n (cons c cs) =
      more (plan resolve n c) (plan_all resolve (n + count resolve c) cs)

  pub count : Resolver → Criterion → ℕ
  count resolve (criteria op cs) = count_all resolve cs
  count resolve (word w) = 1
  count resolve (text t) = 1
  count resolve (character c) = elim (resolve c) [ none ↦ 0 | some found ↦ 2 ]
  count resolve (unknown cs) = 0

  pub count_all : Resolver → Criteria → ℕ
  count_all resolve nil = 0
  count_all resolve (cons c cs) = count resolve c + count_all resolve cs

module _ (lower : String → String) (resolve : Resolver) where
  unfoldable mutual
    pub carried : Criterion → List Param
    carried (criteria op cs) = carried_all cs
    carried (word w) = value (whole_word_pattern w) ∷ []
    carried (text t) = value (lower t) ∷ []
    carried (character c) = elim (resolve c) [
      | none ↦ []
      | some (id, names) ↦ value id ∷ values (map whole_word_pattern names) ∷ []
    ]
    carried (unknown cs) = []

    pub carried_all : Criteria → List Param
    carried_all nil = []
    carried_all (cons c cs) = carried c ++ carried_all cs

  mutual
    unfolding carried plan

    pub length-carried : (c : Criterion) → length (carried c) ≡ count resolve c
    length-carried (criteria op cs) = length-carried_all cs
    length-carried (word w) = refl
    length-carried (text t) = refl
    length-carried (character c) =
        elim (resolve c)
          as (λ o.
            length (elim o [
              | none ↦ []
              | some (id, names) ↦ value id ∷ values (map whole_word_pattern names) ∷ []
            ])
            ≡ elim o [ none ↦ 0 | some found ↦ 2 ]) [ none ↦ refl | some (id, names) ↦ refl ]
    length-carried (unknown cs) = refl

    pub length-carried_all : (cs : Criteria) → length (carried_all cs) ≡ count_all resolve cs
    length-carried_all nil = refl
    length-carried_all (cons c cs) = omega (
      arith,
      length-append {0} (carried c) (carried_all cs),
      length-carried c,
      length-carried_all cs,
    )

  pub compile_word_lem :
      (w : String) (us : List Param)
      → compile_word w (numbered 0 us)
        ≡ (print (like (length us)), numbered 0 (us ++ value (whole_word_pattern w) ∷ []))
  unfolding compile_word print
  compile_word_lem w us = rw (next_param-numbered us, set_at us (value (whole_word_pattern w))) refl

  pub compile_text_lem :
      (t : String) (us : List Param)
      → compile_text lower resolve t (numbered 0 us)
        ≡ (print (substring (length us)), numbered 0 (us ++ value (lower t) ∷ []))
  unfolding compile_text print
  compile_text_lem t us = rw (next_param-numbered us, set_at us (value (lower t))) refl

  pub compile_resolved_lem :
      (id : String) (names : List String) (us : List Param)
      → compile_resolved (some (id, names)) (numbered 0 us) ≡ (
        print (mention (length us) (suc (length us))),
        numbered 0 (us ++ value id ∷ values (map whole_word_pattern names) ∷ []),
      )
  unfolding compile_resolved print
  compile_resolved_lem id names us =
      let us' = us ++ value id ∷ [] in
      let v = values (map whole_word_pattern names) in
      let longer : length us' ≡ suc (length us) =
        omega (arith, length-append {0} us (value id ∷ [])) in
      rw
        (
          next_param-numbered us,
          set_at us (value id),
          next_param-numbered us',
          set_at us' v,
          longer,
          append_assoc us (value id ∷ []) (v ∷ []),
        )
        refl
