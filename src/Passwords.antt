-- ===== src/Passwords.antt =====
-- src/dockb/passwords.py: the password policy, and hashing and verifying under the pepper.
-- HMAC and Argon2 are not code of the repository: they are the record `Hasher`, with the laws
-- that the code relies on: a hash verifies what it was made from, and no hash is empty.
pub mod Policy
pub mod Tests
use Prim.Native.String.{count}
use dockb.Prelude.{
  ◌==◌, false, ℕ, String, ◌≡◌, ◌⊎◌, inl, inr, Bool, true, false, not, ◌&&◌, Option, none, some, [],
  arith, ◌==◌, eq_iff, ltb, eqb, if◌then◌else◌, eqb_iff, tests,
}

-- `keyed` is HMAC-SHA256 under the pepper, `hash` is `PasswordHasher.hash` with its salt, `verify`
-- is `PasswordHasher.verify` of a stored hash, `none` where it raises InvalidHashError or
-- VerificationError.
pub record Hasher : Type 0 where
  pub keyed : String → String → String
  pub hash : String → String → String
  pub verify : String → String → Option Bool
  pub verify-hash : (salt k : String) → verify (hash salt k) k ≡ some true
  pub hash-not-empty : (salt k : String) → (hash salt k == "") ≡ false

abbrev pub minimum_length : ℕ
minimum_length = 12

abbrev pub maximum_length : ℕ
maximum_length = 128

abbrev pub dummy_hash : String
dummy_hash =
    "$argon2id$v=19$m=47104,t=1,p=1$og7a9wFXIS2wJZlEdKpqgw$ACCclBidLZt1xjz139/ewCmH4R9WbjL4EcTWJkifh8k"

-- the reasons of PasswordPolicyError
pub data PolicyError : Type 0 where
  too_long empty too_short : PolicyError

-- `_check_policy`; `none` where it returns
unfoldable pub check_policy : String → Bool → Option PolicyError
check_policy password generated =
    if ltb maximum_length (count password)
    then some too_long
    else if eqb (count password) 0
    then some empty
    else if not generated && ltb (count password) minimum_length
    then some too_short
    else none

-- `stored or DUMMY_HASH`
abbrev pub or_dummy : Option String → String
or_dummy none = dummy_hash
or_dummy (some s) = if s == "" then dummy_hash else s

module _ (h : Hasher) where
  -- `hash_password`: the policy's refusal, or the hash
  unfoldable pub hash_password : String → String → String → Bool → PolicyError ⊎ String
  hash_password salt pepper password generated = elim (check_policy password generated) [
    | some e ↦ inl e
    | none ↦ inr (h.hash salt (h.keyed pepper password))
  ]

  -- `verify_password`
  unfoldable pub verify_password : String → String → Option String → Bool
  verify_password pepper password stored =
      elim (h.verify (or_dummy stored) (h.keyed pepper password)) [ none ↦ false | some b ↦ b ]
