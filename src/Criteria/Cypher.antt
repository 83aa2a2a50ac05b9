-- ===== src/Criteria/Cypher.antt =====
-- The Cypher expressions that a compilation prints, and what they mean for a paragraph. `matches` is
-- the operator `=~`, and `to_lower` is `toLower`.
use dockb.Prelude.Decimal.{decimal}
use dockb.Prelude.{
  ℕ, String, Bool, true, false, not, ◌&&◌, ◌||◌, Option, some, List, [], ◌∷◌, any_of, if◌then◌else◌,
}
use dockb.Prelude.Text.{has, append}
use dockb.Dict
use dockb.Dict.{Dict}
use dockb.Criteria.{Param, value, values, contains}

-- The terms of a chain, each behind the operator, up to the closing bracket.
unfoldable pub chained : String → List String → String
chained operator [] = ")"
chained operator (t ∷ ts) = append operator (append t (chained operator ts))

unfoldable pub conjunction : List String → String
unfolding chained
conjunction [] = "true"
conjunction (t ∷ ts) = append "(" (append t (chained " AND " ts))

unfoldable pub disjunction : List String → String
unfolding chained
disjunction [] = "false"
disjunction (t ∷ ts) = append "(" (append t (chained " OR " ts))

-- A parameter of a query, by its number.
abbrev pub param_name : ℕ → String
param_name n = append "p" (decimal n)

-- Leaves give the numbers of their parameters.
mutual
  pub data Expr : Type 0 where
    like : ℕ → Expr
    substring : ℕ → Expr
    mention : ℕ → ℕ → Expr
    never : Expr
    node : Bool → Exprs → Expr

  pub data Exprs : Type 0 where
    end : Exprs
    more : Expr → Exprs → Exprs

unfoldable mutual
  unfolding conjunction disjunction

  pub print : Expr → String
  print (like n) = append "(text =~ $" (append (param_name n) ")")
  print (substring n) = append "(toLower(text) CONTAINS $" (append (param_name n) ")")
  print (mention i n) = append "((" (
      append
        (append "checked IS NOT NULL AND NOT hasStale AND $" (append (param_name i) " IN valid"))
        (append ") OR ("
          (append (append "any(n IN $" (append (param_name n) " WHERE text =~ n)")) "))")))
  print never = "false"
  print (node all es) = if all then conjunction (print_all es) else disjunction (print_all es)

  pub print_all : Exprs → List String
  print_all end = []
  print_all (more e es) = print e ∷ print_all es

-- The variables that the search query binds for a paragraph.
pub record Row : Type 0 where
  pub body : String
  pub checked : Bool
  pub valid : List String
  pub has_stale : Bool

-- The paragraph was evaluated, and a current verdict names the character.
abbrev pub cached : Row → String → Bool
cached r id = r.checked && not r.has_stale && has id r.valid

module _ (matches : String → String → Bool) (to_lower : String → String) where
  abbrev pub holds_value : (String → Bool) → Option Param → Bool
  holds_value f (some (value v)) = f v
  holds_value f p = false

  abbrev pub holds_values : (List String → Bool) → Option Param → Bool
  holds_values f (some (values vs)) = f vs
  holds_values f p = false

  unfoldable mutual
    pub eval : Dict Param → Row → Expr → Bool
    eval ps r (like n) = holds_value (λ v. matches v r.body) (Dict.get (param_name n) ps)
    eval ps r (substring n) =
        holds_value (λ v. contains v (to_lower r.body)) (Dict.get (param_name n) ps)
    eval ps r (mention i n) =
        holds_value (cached r) (Dict.get (param_name i) ps)
        || holds_values (any_of (λ v. matches v r.body)) (Dict.get (param_name n) ps)
    eval ps r never = false
    eval ps r (node all es) = if all then every ps r es else some_of ps r es

    pub every : Dict Param → Row → Exprs → Bool
    every ps r end = true
    every ps r (more e es) = eval ps r e && every ps r es

    pub some_of : Dict Param → Row → Exprs → Bool
    some_of ps r end = false
    some_of ps r (more e es) = eval ps r e || some_of ps r es
