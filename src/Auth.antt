-- ===== src/Auth.antt =====
-- src/dockb/services/auth_service.py: password sign-in, the OAuth callback, sessions that resolve.
-- One clock reading `now` serves a whole method: the throttle's, the store's stamps and the session
-- clock. Cookies are signed by a library and are not modelled. A method returns the state that it
-- leaves beside its answer, since a refused sign-in counts a failure.
pub mod Login
pub mod Resolve
pub mod Change
mod Tests
use dockb.Prelude.{
  ℕ, String, ◌⊎◌, inl, inr, Bool, true, false, not, ◌&&◌, Option, none, some, List, [], arith, ◌==◌,
  eq_iff, ltb, leb, if◌then◌else◌, eqb_iff, tests, any_of,
}
use dockb.Dict.{Dict}
use dockb.Throttle.{LoginThrottle, delay_for, record_failure, record_success}
use dockb.Accounts
use dockb.Accounts.{
  Store, User, Result, normalize_username, get_credentials, record_login, set_password_hash,
}
use dockb.Accounts.Links.{ProviderLogin, upsert_provider_user}
use dockb.Passwords.{Hasher, PolicyError, verify_password, hash_password, or_dummy, dummy_hash}
use dockb.Sessions
use dockb.Sessions.{SessionContext, PendingLoginStore, consume, issue}

-- the exceptions of a sign-in and what else can reach the route
pub data AuthError : Type 0 where
  rate_limited : ℕ → AuthError
  login_failed : AuthError
  password_unchanged : AuthError
  policy : PolicyError → AuthError
  unknown_provider : AuthError
  invalid_login_state : AuthError
  account : Accounts.Error → AuthError
  overflow_error : AuthError

pub data Answer {ℓ} (A : Type ℓ) : Type ℓ where
  done : A → Answer A
  refused : AuthError → Answer A

-- the state of `AuthService`; the configured providers by name
pub record AuthService : Type 0 where
  pub providers : List String
  pub pending : PendingLoginStore
  pub accounts : Store
  pub sessions : Dict SessionContext
  pub throttle : LoginThrottle

-- `_stored_hash(credentials)`
abbrev pub stored_hash : Option User → Option String
stored_hash none = some dummy_hash
stored_hash (some u) = some (or_dummy u.password_hash)

-- `_may_sign_in`
abbrev pub may_sign_in : User → Bool
may_sign_in u = elim u.blocked_at [
  | some t ↦ false
  | none ↦ elim u.deleted_at [ some t ↦ false | none ↦ true ]
]

-- `_credentials_changed_since`; equal counts as changed
abbrev pub credentials_changed_since : Option ℕ → ℕ → Bool
credentials_changed_since none started = false
credentials_changed_since (some stamp) started = leb started stamp

-- `verified and credentials is not None and _may_sign_in(credentials)`
abbrev pub admits : Bool → Option User → Bool
admits verified none = false
admits verified (some u) = verified && may_sign_in u

-- The profile that a provider answers for a code, with its tokens: the outside of the OAuth
-- exchange. `none` where either call raises OAuthProviderError.
pub record Provider : Type 0 where
  pub exchange : String → String → String → Option ProviderLogin

module _ (lower : String → String) (hasher : Hasher) (pepper : String) where
  -- the last three calls of `login_with_password`
  abbrev pub start_session : ℕ → String → String → AuthService → AuthService × Answer String
  start_session now key client_ip a = elim (record_login lower now key a.accounts) [
    | Result.raise e ↦ (a, refused (account e))
    | Result.ok s' ↦ (
      record a {
        accounts = s';
        sessions = Sessions.create now key a.sessions;
        throttle = record_success a.throttle key client_ip;
      },
      done key,
    )
  ]

  abbrev pub check_password :
      ℕ → String → String → String → AuthService → AuthService × Answer String
  check_password now key password client_ip a =
      let credentials = get_credentials lower a.accounts key in
      let verified = verify_password hasher pepper password (stored_hash credentials) in
      if admits verified credentials then start_session now key client_ip a else (
        record a { throttle = record_failure a.throttle now key client_ip },
        refused login_failed,
      )

  -- `login_with_password`
  unfoldable pub login_with_password :
      ℕ → String → String → String → AuthService → AuthService × Answer String
  login_with_password now username password client_ip a =
      let key = normalize_username lower username in
      elim (delay_for a.throttle now key client_ip) [
        | none ↦ (a, refused overflow_error)
        | some remaining ↦
            if ltb 0 remaining
            then (a, refused (rate_limited remaining))
            else check_password now key password client_ip a
      ]

  -- the write of `change_password`
  abbrev pub store_hash :
      ℕ → String → PolicyError ⊎ String → AuthService → AuthService × Answer (Unit {0})
  store_hash now key (inl e) a = (a, refused (policy e))
  store_hash now key (inr new_hash) a =
      elim (set_password_hash lower now key (some new_hash) false a.accounts) [
        | Result.raise e ↦ (a, refused (account e))
        | Result.ok s' ↦ (record a { accounts = s' }, done tt)
      ]

  abbrev pub current_hash : Option User → Option String
  current_hash none = none
  current_hash (some u) = u.password_hash

  -- `change_password`
  unfoldable pub change_password :
      ℕ → String → String → String → String → AuthService → AuthService × Answer (Unit {0})
  change_password now salt username current_password new_password a =
      let key = normalize_username lower username in
      let credentials = get_credentials lower a.accounts key in
      if not (
        admits (verify_password hasher pepper current_password (stored_hash credentials))
          credentials)
      then (a, refused login_failed)
      else if not (new_password == "")
          && verify_password hasher pepper new_password (current_hash credentials)
      then (a, refused password_unchanged)
      else store_hash now key (hash_password hasher salt pepper new_password false) a

module _ (lower : String → String) where
  -- what `resolve_session` finds for a live session
  abbrev pub session_agrees : Option User → SessionContext → Bool
  session_agrees none session = false
  session_agrees (some u) session =
      may_sign_in u && not (credentials_changed_since u.credentials_changed_at session.created_at)

  -- `resolve_session`: a refused session is dropped
  unfoldable pub resolve_session : String → AuthService → AuthService × Option String
  resolve_session user_id a = elim (Sessions.lookup user_id a.sessions) [
    | none ↦ (a, none)
    | some session ↦
        if session_agrees (get_credentials lower a.accounts user_id) session
        then (a, some user_id)
        else (record a { sessions = Sessions.remove user_id a.sessions }, none)
  ]

  -- `requires_password_change`
  unfoldable pub requires_password_change : String → AuthService → Bool
  requires_password_change user_id a = elim (get_credentials lower a.accounts user_id) [
    | none ↦ false
    | some u ↦ u.must_change_password
  ]

-- `begin_login`, up to the provider's consent URL for the state and the verifier
unfoldable pub begin_login :
    ℕ → String → String → String → AuthService → AuthService × Answer (String × String)
begin_login now state verifier provider a =
    if any_of (λ p. p == provider) a.providers
    then (
      record a { pending = issue now state verifier provider a.pending },
      done (state, verifier),
    )
    else (a, refused unknown_provider)

module _ (lower encrypt : String → String) (oauth : Provider) where
  -- a provider account whose profile is stored: the session, unless the account may not sign in
  abbrev pub admit_provider_user : ℕ → String → AuthService → AuthService × Answer String
  admit_provider_user now user_id a =
      if (elim (get_credentials lower a.accounts user_id) [ none ↦ true | some u ↦ may_sign_in u ])
      then (record a { sessions = Sessions.create now user_id a.sessions }, done user_id)
      else (a, refused login_failed)

  abbrev pub store_profile :
      Bool → ℕ → Option ProviderLogin → AuthService → AuthService × Answer String
  store_profile email_first now none a = (a, refused invalid_login_state)
  store_profile email_first now (some p) a =
      elim (upsert_provider_user lower encrypt email_first p a.accounts) [
        | Result.raise e ↦ (a, refused (account e))
        | Result.ok (s', user_id) ↦ admit_provider_user now user_id (record a { accounts = s' })
      ]

  -- `complete_login`
  unfoldable pub complete_login :
      Bool → ℕ → String → String → AuthService → AuthService × Answer String
  complete_login email_first now state code a =
      let a' = record a { pending = (consume now state a.pending).0 } in
      elim (consume now state a.pending).1 [
        | none ↦ (a', refused invalid_login_state)
        | some login ↦
            if any_of (λ p. p == login.provider) a.providers
            then store_profile email_first now
                (oauth.exchange login.provider code login.code_verifier) a'
            else (a', refused invalid_login_state)
      ]

-- `end_session`
unfoldable pub end_session : String → AuthService → AuthService
end_session user_id a = record a { sessions = Sessions.remove user_id a.sessions }
