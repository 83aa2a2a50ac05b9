-- ===== src/Passwords/Policy.antt =====
-- What the policy lets into the store, and that what it lets in verifies.
use Prim.Native.String.{count}
use dockb.Prelude.{
  ◌≤◌, ◌<◌, String, ◌≡◌, ◌↔◌, ◌⊎◌, inl, inr, Bool, true, false, none, some, arith, Option-cases,
}
use dockb.Passwords.{
  Hasher, PolicyError, check_policy, hash_password, verify_password, minimum_length, maximum_length,
}

-- The lengths that the policy accepts, as one condition.
abbrev pub Acceptable : String → Bool → Type 0
Acceptable password generated =
    (0 < count password)
    × (count password ≤ maximum_length)
    × (generated ≡ false → minimum_length ≤ count password)

pub check_policy-none_iff :
    (password : String) (generated : Bool)
    → (check_policy password generated ≡ none) ↔ Acceptable password generated
unfolding check_policy
check_policy-none_iff password generated =
    ((λ h. (ground arith, ground arith, λ g. ground arith)), λ h. ground (arith, h.2))

-- A password is hashed exactly when it is acceptable, and its hash then verifies it.
pub hash_password_exact :
    (h : Hasher) (salt pepper password : String) (generated : Bool)
    → ((e : PolicyError) × (hash_password h salt pepper password generated ≡ inl e)
        × (¬ Acceptable password generated))
      ⊎ ((stored : String) × (hash_password h salt pepper password generated ≡ inr stored)
          × Acceptable password generated
          × (verify_password h pepper password (some stored) ≡ true))
unfolding hash_password verify_password
hash_password_exact h salt pepper password generated =
    elim (Option-cases (check_policy password generated)) [
      | inr (e, bad) ↦ inl (
        e,
        ground arith,
        λ fits. absurd (ground (arith, (check_policy-none_iff password generated).1 fits)),
      )
      | inl fine ↦
          let k = h.keyed pepper password in
          inr (
            h.hash salt k,
            ground arith,
            (check_policy-none_iff password generated).0 fine,
            ground (arith, h.verify-hash salt k, h.hash-not-empty salt k),
          )
    ]
