-- ===== src/Criteria.antt =====
-- src/dockb/services/criteria_cypher.py, which compiles a tree of criteria into the text of a Cypher
-- expression and its parameters, and the evaluators of src/dockb/services/mcp_queries.py that read
-- the same trees in memory. A reference is resolved by the argument `resolve`; `lower` is Python's
-- `str.lower`, and `search pattern text` is `re.search` with IGNORECASE.
pub mod Cypher
pub mod Params
pub mod Compiled
pub mod Memory
pub mod Marks
pub mod Resolve
pub mod Shape
mod Tests
use dockb.Prelude.{
  ℕ, ◌+◌, String, Bool, true, false, ◌&&◌, ◌||◌, Option, none, some, List, [], ◌∷◌, map, ◌==◌, eqb,
  if◌then◌else◌, length, any_of,
}
use Prim.Native.Char.{Char, code}
use Prim.Native.String.{[] as []ˢ, ◌∷◌ as ◌∷ˢ◌}
use dockb.Prelude.Text.{between, append}
use dockb.Prelude.Decimal.{decimal}
use dockb.Prelude.Words.{join_with}
use dockb.Dict
use dockb.Dict.{Dict}
use dockb.FrontMatter.{starts_with}

-- A node; `unknown` is one of any other type, with the nodes under its `criteria`, or a value that is no
-- dict, with none. A word, a text and a character have no `criteria` here.
mutual
  pub data Criterion : Type 0 where
    criteria : Option String → Criteria → Criterion
    word : String → Criterion
    text : String → Criterion
    character : String → Criterion
    unknown : Criteria → Criterion

  pub data Criteria : Type 0 where
    nil : Criteria
    cons : Criterion → Criteria → Criteria

pub data Param : Type 0 where
  value : String → Param
  values : List String → Param

-- `node.get("op") == "and"`
abbrev pub is_and : Option String → Bool
is_and none = false
is_and (some op) = op == "and"

-- the characters that `re.escape` marks
unfoldable pub is_special : ℕ → Bool
is_special c =
    between 9 13 c
    || between 32 32 c
    || eqb c b'#'
    || eqb c b'$'
    || eqb c b'&'
    || between 40 43 c
    || between 45 46 c
    || eqb c b'?'
    || between 91 94 c
    || between 123 126 c

-- `re.escape(value)`
unfoldable pub escape : String → String
unfolding is_special
escape []ˢ = []ˢ
escape (c ∷ˢ s) =
    let rest = escape s in if is_special (code c) then append "\\" (c ∷ˢ rest) else c ∷ˢ rest

-- `_whole_word_pattern`
unfoldable pub whole_word_pattern : String → String
unfolding escape
whole_word_pattern s = append "(?isuU).*\\b" (append (escape s) "\\b.*")

-- `_next_param`
unfoldable pub next_param : Dict Param → String
unfolding decimal
next_param params = append "p" (decimal (length params))

abbrev pub Resolver : Type 0
Resolver = String → Option (String × List String)

-- `_compile_leaf`, by the type of the leaf
unfoldable pub compile_word : String → Dict Param → String × Dict Param
compile_word w params =
    let name = next_param params in
    (append "(text =~ $" (append name ")"), Dict.set name (value (whole_word_pattern w)) params)

unfoldable pub compile_resolved : Option (String × List String) → Dict Param → String × Dict Param
compile_resolved none params = ("false", params)
compile_resolved (some (character_id, names)) params =
    let id_param = next_param params in
    let params' = Dict.set id_param (value character_id) params in
    let names_param = next_param params' in
    let params'' = Dict.set names_param (values (map whole_word_pattern names)) params' in
    let cache_branch =
      append "checked IS NOT NULL AND NOT hasStale AND $" (append id_param " IN valid") in
    let inline_branch = append "any(n IN $" (append names_param " WHERE text =~ n)") in
    (append "((" (append cache_branch (append ") OR (" (append inline_branch "))"))), params'')

-- The text of an inner node, of the texts of its children.
unfoldable pub joined : Bool → List String → String
unfolding join_with
joined all [] = if all then "true" else "false"
joined all (t ∷ ts) = append "(" (append (join_with (if all then " AND " else " OR ") (t ∷ ts)) ")")

module _ (lower : String → String) (resolve : Resolver) where
  unfoldable pub compile_text : String → Dict Param → String × Dict Param
  compile_text t params =
      let name = next_param params in
      (append "(toLower(text) CONTAINS $" (append name ")"), Dict.set name (value (lower t)) params)

  -- `_compile`: the children one after another, each on the parameters of those before it
  unfoldable mutual
    pub compile : Criterion → Dict Param → String × Dict Param
    compile (criteria op children) params =
        let (texts, params') = compile_all children params in (joined (is_and op) texts, params')
    compile (word w) params = compile_word w params
    compile (text t) params = compile_text t params
    compile (character c) params = compile_resolved (resolve c) params
    compile (unknown cs) params = ("false", params)

    pub compile_all : Criteria → Dict Param → List String × Dict Param
    compile_all nil params = ([], params)
    compile_all (cons c cs) params =
        let (t, params') = compile c params in
        let (ts, params'') = compile_all cs params' in (t ∷ ts, params'')

  unfoldable pub compile_criteria : Criterion → String × Dict Param
  unfolding compile
  compile_criteria c = compile c []

-- `part in whole`
unfoldable pub contains : String → String → Bool
unfolding starts_with
contains part []ˢ = starts_with part []ˢ
contains part (c ∷ˢ whole) = starts_with part (c ∷ˢ whole) || contains part whole

abbrev pub is_empty : String → Bool
is_empty []ˢ = true
is_empty (c ∷ˢ s) = false

module _ (lower : String → String) (search : String → String → Bool) where
  -- `re.search(rf"\b{re.escape(word)}\b", text, re.IGNORECASE) is not None`
  unfoldable pub search_word : String → String → Bool
  unfolding escape
  search_word w body = search (append "\\b" (append (escape w) "\\b")) body

  -- `_mentions_whole_word`
  unfoldable pub mentions_whole_word : String → String → Bool
  unfolding search_word
  mentions_whole_word body candidate =
      if is_empty candidate then false else search_word candidate body

  -- `evaluate_criteria`
  unfoldable mutual
    pub evaluate : Criterion → String → List String → Bool
    evaluate (criteria op children) body names =
        if is_and op then all_hold children body names else any_holds children body names
    evaluate (word w) body names = search_word w body
    evaluate (text t) body names = contains (lower t) (lower body)
    evaluate (character c) body names = any_of (mentions_whole_word body) names
    evaluate (unknown cs) body names = false

    pub all_hold : Criteria → String → List String → Bool
    all_hold nil body names = true
    all_hold (cons c cs) body names = evaluate c body names && all_hold cs body names

    pub any_holds : Criteria → String → List String → Bool
    any_holds nil body names = false
    any_holds (cons c cs) body names = evaluate c body names || any_holds cs body names
