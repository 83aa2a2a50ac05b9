-- ===== src/Auth/Login.antt =====
-- Password sign-in: when it succeeds, and what each outcome leaves behind.
use dockb.Prelude.{
  ℕ, suc, String, ◌≡◌, refl, ◌↔◌, ◌⊎◌, inl, inr, Bool, true, false, none, some, arith, Option-cases,
}
use dockb.Throttle.{delay_for, record_failure, record_success}
use dockb.Accounts.{
  Store, User, Result, normalize_username, get_credentials, record_login, with_login,
}
use dockb.Accounts.Effects.{update_user_exact}
use dockb.Passwords.{Hasher, verify_password}
use dockb.Sessions
use dockb.Auth.{
  AuthService, login_failed, done, refused, stored_hash, admits, start_session, login_with_password,
  rate_limited, overflow_error,
}

module _ (lower : String → String) (hasher : Hasher) (pepper : String) where
  -- the password check of a sign-in
  abbrev pub password_admits : String → String → AuthService → Bool
  password_admits key password a =
      let credentials = get_credentials lower a.accounts key in
      admits (verify_password hasher pepper password (stored_hash credentials)) credentials

  -- Only an account is admitted.
  pub admitted :
      (key password : String) (a : AuthService)
      → password_admits key password a ≡ true
      → (u : User) × (get_credentials lower a.accounts key ≡ some u)
  admitted key password a h = elim (Option-cases (get_credentials lower a.accounts key)) [
    | inl miss ↦ absurd (ground arith)
    | inr hit ↦ hit
  ]

  module _ (now : ℕ) (username password client_ip : String) (a : AuthService) where
    -- An account that is found is stamped, so the last calls of a sign-in do not raise.
    start_session_done :
        (u : User)
        → get_credentials lower a.accounts (normalize_username lower username) ≡ some u
        → (s' : Store) × (record_login lower now (normalize_username lower username) a.accounts
            ≡ Result.ok s')
          × (start_session lower hasher pepper now (normalize_username lower username) client_ip a
              ≡ (
                record a {
                  accounts = s';
                  sessions = Sessions.create now (normalize_username lower username) a.sessions;
                  throttle =
                      record_success a.throttle (normalize_username lower username) client_ip;
                },
                done (normalize_username lower username),
              ))
    unfolding record_login get_credentials
    start_session_done u found =
        let key = normalize_username lower (normalize_username lower username) in
        elim (update_user_exact key (with_login now) a.accounts (λ w. refl)) [
          | inl (bad, miss) ↦ absurd (ground arith)
          | inr (s', fine, rows) ↦ (s', ground arith, ground arith)
        ]

    -- A sign-in succeeds exactly when no wait is owed and a live account has the password.
    pub login-done_iff :
        ((login_with_password lower hasher pepper now username password client_ip a).1
          ≡ done (normalize_username lower username))
        ↔ ((delay_for a.throttle now (normalize_username lower username) client_ip ≡ some 0)
            × (password_admits (normalize_username lower username) password a ≡ true))
    unfolding login_with_password
    login-done_iff = (
      λ h. (ground arith, ground arith),
      λ h.
          let (u, found) = admitted (normalize_username lower username) password a h.1 in
          let (s', stamped, started) = start_session_done u found in
          ground (arith, h.0, h.1, started),
    )

    -- The outcomes of a sign-in: refused unread, a wrong password, a session.
    abbrev pub LoginOutcome : Type 0
    LoginOutcome =
        ((delay_for a.throttle now (normalize_username lower username) client_ip ≡ none)
          × (login_with_password lower hasher pepper now username password client_ip a
              ≡ (a, refused overflow_error)))
        ⊎ ((r : ℕ) × (delay_for a.throttle now (normalize_username lower username) client_ip
              ≡ some (suc r))
            × (login_with_password lower hasher pepper now username password client_ip a
                ≡ (a, refused (rate_limited (suc r)))))
        ⊎ ((delay_for a.throttle now (normalize_username lower username) client_ip ≡ some 0)
            × (password_admits (normalize_username lower username) password a ≡ false)
            × ((login_with_password lower hasher pepper now username password client_ip a) ≡ (
              record a {
                throttle =
                    record_failure a.throttle now (normalize_username lower username) client_ip;
              },
              refused login_failed,
            )))
        ⊎ ((s' : Store) × (delay_for a.throttle now (normalize_username lower username) client_ip
              ≡ some 0)
            × (password_admits (normalize_username lower username) password a ≡ true)
            × (record_login lower now (normalize_username lower username) a.accounts ≡ Result.ok s')
            × ((login_with_password lower hasher pepper now username password client_ip a) ≡ (
              record a {
                accounts = s';
                sessions = Sessions.create now (normalize_username lower username) a.sessions;
                throttle = record_success a.throttle (normalize_username lower username) client_ip;
              },
              done (normalize_username lower username),
            )))
