-- ===== src/Auth/Tests.antt =====
-- Sign-in, sessions and a password change for one account.
use dockb.Prelude.{
  String, ◌≡◌, refl, ◌⊎◌, true, false, none, some, [], ◌∷◌, ◌==◌, if◌then◌else◌, find_first,
}
use dockb.Prelude.Text.{strip}
use dockb.Dict.{Dict, get, set, pop}
use dockb.Throttle.{
  default_throttle, delay_for, username_key, ip_key, record_failure, record_success,
}
use dockb.Accounts.{
  User, Store, update_where, get_credentials, normalize_username, record_login, set_password_hash,
  with_block,
}
use dockb.Accounts.Tests.{as_is, with_abby}
use dockb.Passwords.{verify_password, hash_password, check_policy}
use dockb.Passwords.Tests.{toy_hasher}
use dockb.Sessions
use dockb.Auth.{
  AuthService, done, login_with_password, change_password, resolve_session, may_sign_in,
  credentials_changed_since,
}
use dockb.Auth.Resolve.{resolve_exact}
use dockb.Auth.Change.{ChangeOutcome, change_password_exact}

-- what the examples compute with
program : Unit {0}
unfolding strip get set pop delay_for username_key ip_key record_failure record_success update_where
    get_credentials normalize_username record_login set_password_hash verify_password hash_password
    check_policy Sessions.create Sessions.lookup Sessions.remove login_with_password change_password
    resolve_session find_first
program = tt

abbrev service : AuthService
service = record {
  providers = [];
  pending = record { entries = []; ttl = 600000000 };
  accounts = with_abby;
  sessions = [];
  throttle = default_throttle;
}

abbrev signed_in : AuthService
signed_in = record service {
  sessions = ("abby", record { created_at = 100; notifications = [] }) ∷ [];
}

signs_in :
    (login_with_password as_is toy_hasher "p" 100 "abby " "secret" "10.0.0.1" service).1
    ≡ done "abby"
unfolding program
signs_in = refl

resolve_exact_example :
    ((resolve_session as_is "abby" signed_in ≡ (signed_in, some "abby"))
      × (u : User) × (get_credentials as_is with_abby "abby" ≡ some u)
      × (may_sign_in u ≡ true)
      × (credentials_changed_since u.credentials_changed_at 100 ≡ false))
    ⊎ (((get_credentials as_is with_abby "abby" ≡ none)
          ⊎ (u : User) × (get_credentials as_is with_abby "abby" ≡ some u)
            × ((may_sign_in u ≡ false)
                ⊎ (credentials_changed_since u.credentials_changed_at 100 ≡ true)))
        × (ctxs : Dict Sessions.SessionContext) × (resolve_session as_is "abby" signed_in
            ≡ (record signed_in { sessions = ctxs }, none))
        × ((j : String) → get j ctxs ≡ (if "abby" == j then none else get j signed_in.sessions)))
unfolding program
resolve_exact_example =
    resolve_exact as_is "abby" signed_in (record { created_at = 100; notifications = [] }) refl

abbrev blocked : Store
blocked = record with_abby {
  users = update_where (λ u. u.username == "abby") (with_block 100) with_abby.users;
}

change_password_exact_example :
    ChangeOutcome as_is toy_hasher "p" 200 "s" "abby" "secret" "correct horse" service
change_password_exact_example =
    change_password_exact as_is toy_hasher "p" 200 "s" "abby" "secret" "correct horse" service

abbrev changed : AuthService
changed = (change_password as_is toy_hasher "p" 200 "s" "abby" "secret" "correct horse" service).0
