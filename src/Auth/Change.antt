-- ===== src/Auth/Change.antt =====
-- Changing a password: the new one signs in, and the sessions of the old one end.
use dockb.Prelude.{
  ℕ, String, ◌≡◌, refl, ◌⊎◌, inl, inr, true, false, not, ◌&&◌, Option, none, some, arith, ◌==◌,
  Bool-cases,
}
use dockb.Throttle.{delay_for}
use dockb.Accounts.{
  Store, User, Result, normalize_username, get_credentials, set_password_hash, named, with_password,
}
use dockb.Accounts.Effects.{update_user_exact}
use dockb.Accounts.Rows.{find_first_holds}
use dockb.Passwords.{Hasher, verify_password, or_dummy}
use dockb.Auth.{
  AuthService, AuthError, login_failed, password_unchanged, policy, done, refused, may_sign_in,
  login_with_password, current_hash, change_password,
}
use dockb.Auth.Login.{password_admits, admitted, login-done_iff}
use dockb.Passwords.Policy.{Acceptable, hash_password_exact}

verify_or_dummy :
    (h : Hasher) (pepper password : String) (o : Option String)
    → verify_password h pepper password (some (or_dummy o)) ≡ verify_password h pepper password o
unfolding verify_password
verify_or_dummy h pepper password none = refl
verify_or_dummy h pepper password (some s) = ground arith

module _ (lower : String → String) (hasher : Hasher) (pepper : String) where
  -- An account that is found takes the new hash.
  stored :
      (now : ℕ) (key hash : String) (s : Store) (u : User)
      → get_credentials lower s key ≡ some u
      → (s' : Store) × (set_password_hash lower now key (some hash) false s ≡ Result.ok s')
        × (get_credentials lower s' key ≡ some (with_password now (some hash) false u))
  unfolding set_password_hash get_credentials
  stored now key hash s u found =
      let name = normalize_username lower key in
      elim (update_user_exact name (with_password now (some hash) false) s (λ w. refl)) [
        | inl (bad, miss) ↦ absurd (ground arith)
        | inr (s', fine, rows) ↦
            (s', fine, ground (arith, rows name, find_first_holds (named name) s.users u found))
      ]

  module _ (now : ℕ) (salt username old new : String) (a : AuthService) where
    -- The two outcomes of a change: refused, or made.
    abbrev pub ChangeOutcome : Type 0
    ChangeOutcome =
        ((e : AuthError) × (change_password lower hasher pepper now salt username old new a
            ≡ (a, refused e)))
        ⊎ ((s' : Store) × (u' : User) × (change_password lower hasher pepper now salt username old
                new a
              ≡ (record a { accounts = s' }, done tt))
            × (password_admits lower hasher pepper (normalize_username lower username) old a ≡ true)
            × Acceptable new false
            × (get_credentials lower s' (normalize_username lower username) ≡ some u')
            × (may_sign_in u' ≡ true)
            × (u'.must_change_password ≡ false)
            × (u'.credentials_changed_at ≡ some now)
            × (verify_password hasher pepper new u'.password_hash ≡ true))

    -- A change is refused and nothing is written, or the old password admits, the new one is
    -- acceptable and replaces it: it verifies, the account may sign in and need not change it, and
    -- its stamp is `now`.
    pub change_password_exact : ChangeOutcome
    unfolding change_password
    change_password_exact =
        let key = normalize_username lower username in
        let credentials = get_credentials lower a.accounts key in
        let repeated =
          not (new == "")
          && verify_password hasher pepper new (current_hash lower hasher pepper credentials) in
        elim (Bool-cases (password_admits lower hasher pepper key old a)) [
          | inr wrong ↦ inl (login_failed, ground arith)
          | inl right ↦ elim (Bool-cases repeated) [
            | inl again ↦ inl (password_unchanged, ground arith)
            | inr fresh ↦ elim (hash_password_exact hasher salt pepper new false) [
              | inl (e, bad, misfit) ↦ inl (policy e, ground arith)
              | inr (hash, fine, fits, verifies) ↦
                  let (u, found) = admitted lower hasher pepper key old a right in
                  let (s', written, row) = stored now key hash a.accounts u found in
                  inr (
                    s',
                    with_password now (some hash) false u,
                    ground arith,
                    right,
                    fits,
                    row,
                    ground arith,
                    refl,
                    refl,
                    verifies,
                  )
            ]
          ]
        ]

    -- After a change, the new password signs in as soon as no wait is owed.
    pub change-login :
        (later : ℕ) (client_ip : String) (a' : AuthService)
        → change_password lower hasher pepper now salt username old new a ≡ (a', done tt)
        → delay_for a'.throttle later (normalize_username lower username) client_ip ≡ some 0
        → (login_with_password lower hasher pepper later username new client_ip a').1
          ≡ done (normalize_username lower username)
    change-login later client_ip a' changed free = elim change_password_exact [
      | inl (e, bad) ↦ absurd (ground arith)
      | inr (s', u', fine, right, fits, row, live, must, stamp, verifies) ↦
          let key = normalize_username lower username in
          let same : record a { accounts = s' } ≡ a' = ground arith in
          let row' : get_credentials lower a'.accounts key ≡ some u' = rw (← same) row in
          (login-done_iff lower hasher pepper later username new client_ip a').1
            (free, ground (arith, row', verify_or_dummy hasher pepper new u'.password_hash))
    ]
