-- ===== src/PromptTokens.antt =====
-- src/dockb/infrastructure/mcp/prompt_tokens.py: the bearer tokens of the MCP endpoint. Times and
-- `ttl` are in microseconds. `mac` is the hexadecimal HMAC; `is_digit` and `int_of` are
-- `str.isdigit` and `int`, which raises where it is `none`; the secret of a mint is an argument.
pub mod Fields
pub mod Verified
pub mod Minted
mod Tests
use dockb.Prelude.{
  ℕ, suc, ◌+◌, String, ◌⊎◌, inl, inr, Bool, true, false, not, ◌||◌, Option, none, some, [], arith,
  ◌==◌, eq_iff, ltb, leb, eqb, if◌then◌else◌, eqb_iff, tests, keep_if,
}
use Prim.Native.Char.{Char}
use Prim.Native.String.{[] as []ˢ, ◌∷◌ as ◌∷ˢ◌}
use dockb.Prelude.Text.{append, strip, is_empty}
use dockb.Prelude.Decimal.{decimal, number, all_chars}
use dockb.Dict
use dockb.Dict.{Dict}

-- a secret and the account it was minted for
pub record Live : Type 0 where
  pub secret : String
  pub account : String

-- `_entries`
abbrev pub Issuer : Type 0
Issuer = Dict (Dict Live)

-- The answer of `_check`, or what it raises.
pub data Check : Type 0 where
  valid : Check
  malformed : Check
  expired : Check
  no_live_entry : Check
  mac_mismatch : Check
  value_error : Check
  type_error : Check

abbrev pub characters : String → ℕ
characters []ˢ = 0
characters (c ∷ˢ s) = suc (characters s)

abbrev pub is_dot : Char → Bool
is_dot c = (c ∷ˢ []ˢ) == "."

-- `s.partition(".")` and `s.rpartition(".")`, where there is a dot
unfoldable pub partition : String → Option (String × String)
partition []ˢ = none
partition (c ∷ˢ s) = elim (is_dot c) [
  | true ↦ some ([]ˢ, s)
  | false ↦ elim (partition s) [ none ↦ none | some (a, b) ↦ some (c ∷ˢ a, b) ]
]

unfoldable pub rpartition : String → Option (String × String)
rpartition []ˢ = none
rpartition (c ∷ˢ s) = elim (rpartition s) [
  | some (a, b) ↦ some (c ∷ˢ a, b)
  | none ↦ if is_dot c then some ([]ˢ, s) else none
]

-- `_parse`: expiry, prompt id and MAC
unfoldable pub parse : String → Option (String × String × String)
unfolding partition rpartition
parse token = elim (partition token) [
  | none ↦ none
  | some (first, rest) ↦ elim (rpartition rest) [
    | none ↦ none
    | some (prompt_id, mac) ↦ if is_empty prompt_id then none else some (first, prompt_id, mac)
  ]
]

abbrev pub is_ascii : ℕ → Bool
is_ascii c = ltb c 128

-- `hmac.compare_digest` of two texts, the first of ASCII; `none` is a TypeError
abbrev pub compare_digest : String → String → Option Bool
compare_digest a b = if all_chars is_ascii b then some (a == b) else none

abbrev pub dotted : String → String → String
dotted a b = append a (append "." b)

-- `_prune`
unfoldable pub prune : ℕ → Issuer → Issuer
unfolding keep_if
prune now issuer = keep_if (λ x. not (leb (number x.0) now)) issuer

-- `self._entries.get(expiry, {})`
abbrev pub prompts_of : String → Issuer → Dict Live
prompts_of expiry issuer = elim (Dict.get expiry issuer) [ none ↦ [] | some prompts ↦ prompts ]

-- `self._entries.get(expiry, {}).get(prompt_id)`
unfoldable pub entry : String → String → Issuer → Option Live
unfolding Dict.get
entry expiry prompt_id issuer = Dict.get prompt_id (prompts_of expiry issuer)

-- `self._entries.setdefault(expiry, {})[prompt_id] = live`
abbrev pub add_live : String → String → Live → Issuer → Issuer
add_live expiry prompt_id live issuer =
    Dict.set expiry (Dict.set prompt_id live (prompts_of expiry issuer)) issuer

abbrev pub compared : Option Bool → Check
compared none = type_error
compared (some true) = valid
compared (some false) = mac_mismatch

-- what the two callers of `_check` answer
abbrev pub answer : Check → Option String → Check ⊎ Option String
answer valid accepted = inr accepted
answer malformed accepted = inr none
answer expired accepted = inr none
answer no_live_entry accepted = inr none
answer mac_mismatch accepted = inr none
answer value_error accepted = inl value_error
answer type_error accepted = inl type_error

-- `_prompt_id_of`
unfoldable pub prompt_id_of : String → String
unfolding parse
prompt_id_of token = elim (parse token) [ none ↦ "<malformed>" | some fields ↦ fields.1 ]

abbrev pub account_in : Option (String × String × String) → Issuer → Option String
account_in none issuer = none
account_in (some fields) issuer = elim (entry fields.0 fields.1 issuer) [
  | none ↦ none
  | some live ↦ some live.account
]

module _ (mac : String → String → String) where
  abbrev pub token_of : String → String → String → String
  token_of expiry prompt_id secret =
      dotted expiry (dotted prompt_id (mac secret (dotted expiry prompt_id)))

  -- `mint`; `none` is a ValueError
  unfoldable pub mint : ℕ → String → String → String → ℕ → Issuer → Option (String × Issuer)
  unfolding prune strip decimal Dict.set Dict.get
  mint ttl prompt_id account_id secret now issuer =
      let expiry = decimal (now + ttl) in
      let live : Live = record { secret = secret; account = strip account_id } in
      if is_empty account_id || is_empty (strip account_id)
      then none
      else some
          (token_of expiry prompt_id secret, add_live expiry prompt_id live (prune now issuer))

  abbrev pub check_entry : String → String → String → Option Live → Check
  check_entry expiry prompt_id presented none = no_live_entry
  check_entry expiry prompt_id presented (some live) =
      compared (compare_digest (mac live.secret (dotted expiry prompt_id)) presented)

module _ (mac : String → String → String) (is_digit : String → Bool)
    (int_of : String → Option ℕ) where
  abbrev pub check_fields : String × String × String → ℕ → Issuer → Check
  check_fields (expiry, prompt_id, presented) now issuer =
      if not (is_digit expiry) || not (eqb (characters presented) 64)
      then malformed
      else (elim (int_of expiry) [
        | none ↦ value_error
        | some e ↦
            if leb e now
            then expired
            else check_entry mac expiry prompt_id presented (entry expiry prompt_id issuer)
      ])

  -- `_check`
  unfoldable pub check : String → ℕ → Issuer → Check
  unfolding parse entry
  check token now issuer = elim (parse token) [
    | none ↦ malformed
    | some fields ↦ check_fields fields now issuer
  ]

  -- `verify`: `inl` is what it raises
  unfoldable pub verify : String → ℕ → Issuer → Check ⊎ Option String
  unfolding check
  verify token now issuer = answer (check token now issuer) (some (prompt_id_of token))

  -- `account_of`
  unfoldable pub account_of : String → ℕ → Issuer → Check ⊎ Option String
  unfolding check
  account_of token now issuer = answer (check token now issuer) (account_in (parse token) issuer)
