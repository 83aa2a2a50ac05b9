-- ===== src/Accounts/Links.antt =====
-- src/dockb/infrastructure/accounts/store.py: the methods on provider links and app state.
-- Encryption at rest is the arguments `encrypt` and `decrypt` (`none`: InvalidToken).
use mathlib.Core.Option
use dockb.Prelude.{
  ℕ, String, Bool, false, not, ◌&&◌, ◌||◌, Option, none, some, List, [], ◌∷◌, ◌++◌, ◌==◌,
  if◌then◌else◌, any_of, find_first,
}
use dockb.Dict.{get, set, member}
use dockb.Accounts.{
  User, OauthAccount, AppState, Store, Error, Result, ok, raise, ◌>>=◌, username_taken, email_taken,
  account_error, integrity_error, value_error, invalid_token, or_none, named, identified, addressed,
  update_where, normalize_username, insert_error, get_user,
}

-- `WHERE provider = ? AND provider_account_id = ?`
abbrev pub linked : String → String → OauthAccount → Bool
linked provider account_id oa = oa.provider == provider && oa.provider_account_id == account_id

-- `get_user_by_provider_account`
unfoldable pub get_user_by_provider_account : Store → String → String → Option User
get_user_by_provider_account s provider account_id =
    elim (find_first (linked provider account_id) s.oauth_accounts) [
      | none ↦ none
      | some oa ↦ find_first (identified oa.user_id) s.users
    ]

-- `INSERT INTO oauth_accounts … ON CONFLICT (provider, provider_account_id) DO UPDATE`
unfoldable pub upsert_link : OauthAccount → List OauthAccount → List OauthAccount
upsert_link oa [] = oa ∷ []
upsert_link oa (o ∷ os) =
    if linked oa.provider oa.provider_account_id o then oa ∷ os else o ∷ upsert_link oa os

-- the SELECT of `_require_email_free`
abbrev pub email_free : List User → Option String → Option String → Bool
email_free us email none = not (any_of (addressed email) us)
email_free us email (some id) = not (any_of (λ u. addressed email u && not (identified id u)) us)

-- the columns that a provider login writes
abbrev pub with_profile : String → Option String → String → Option String → User → User
with_profile username email display_name avatar_url u = record u {
  username = username;
  email = email;
  display_name = display_name;
  avatar_url = avatar_url;
}

-- The constraints of the profile UPDATE: another row has the username, or app state still refers
-- to the username that the row gives up.
abbrev pub rename_error : Store → User → String → Option Error
rename_error s u username =
    if any_of (λ v. named username v && not (identified u.id v)) s.users
    then some username_taken
    else if not (u.username == username) && member u.username s.app_state
    then some account_error
    else none

-- the arguments of `upsert_provider_user`, with the new uuid and CURRENT_TIMESTAMP
pub record ProviderLogin : Type 0 where
  pub id : String
  pub now : ℕ
  pub provider : String
  pub provider_account_id : String
  pub username : String
  pub email : Option String
  pub display_name : String
  pub avatar_url : Option String
  pub token : Option String
  pub expires_at : Option String

-- the row that a first login inserts
abbrev pub provider_row : String → ProviderLogin → User
provider_row key p = record {
  id = p.id;
  username = key;
  email = or_none p.email;
  display_name = p.display_name;
  avatar_url = p.avatar_url;
  password_hash = none;
  must_change_password = false;
  blocked_at = none;
  last_login_at = none;
  credentials_changed_at = none;
  deleted_at = none;
  created_at = p.now;
}

-- `_write_provider_profile`: the rows of `users` after it, and the id
unfoldable pub write_provider_profile :
    Bool → String → ProviderLogin → Store → Option User → Result (List User × String)
write_provider_profile email_first key p s none =
    if not (email_free s.users (or_none p.email) none)
    then raise email_taken
    else elim (insert_error email_first (provider_row key p) s.users) [
      | none ↦ ok (s.users ++ provider_row key p ∷ [], p.id)
      | some e ↦ raise e
    ]
write_provider_profile email_first key p s (some u) =
    if not (email_free s.users (or_none p.email) (some u.id))
    then raise email_taken
    else elim (rename_error s u key) [
      | none ↦ ok (
        update_where (identified u.id)
            (with_profile key (or_none p.email) p.display_name p.avatar_url) s.users,
        u.id,
      )
      | some e ↦ raise e
    ]

-- the row of `oauth_accounts` that a login writes
abbrev pub link_row :
    (String → String) → String → String → String → Option String → Option String → OauthAccount
link_row encrypt user_id provider account_id token expires_at = record {
  provider = provider;
  provider_account_id = account_id;
  user_id = user_id;
  token = Option.map encrypt token;
  expires_at = expires_at;
}

module _ (lower : String → String) (encrypt : String → String) where
  -- `upsert_provider_user`
  unfoldable pub upsert_provider_user : Bool → ProviderLogin → Store → Result (Store × String)
  upsert_provider_user email_first p s =
      let key = normalize_username lower p.username in
      do
        (us, user_id) ←
            write_provider_profile email_first key p s
              (get_user_by_provider_account s p.provider p.provider_account_id)
        ok (
          record s {
            users = us;
            oauth_accounts =
                upsert_link
                  (link_row encrypt user_id p.provider p.provider_account_id p.token p.expires_at)
                  s.oauth_accounts;
          },
          key,
        )

  -- `link_provider_account`
  unfoldable pub link_provider_account :
      String → String → String → Option String → Option String → Store → Result Store
  unfolding get_user
  link_provider_account username provider account_id token expires_at s =
      elim (get_user lower s username) [
        | none ↦ raise value_error
        | some u ↦ ok (record s {
          oauth_accounts =
              upsert_link (link_row encrypt u.id provider account_id token expires_at)
                s.oauth_accounts;
        })
      ]

-- the token of `get_provider_account`
abbrev pub read_token : (String → Option String) → Option String → Result (Option String)
read_token decrypt none = ok none
read_token decrypt (some ciphertext) = elim (decrypt ciphertext) [
  | none ↦ raise invalid_token
  | some token ↦ ok (some token)
]

-- `get_provider_account`: the row with its token in clear
unfoldable pub get_provider_account :
    (String → Option String) → Store → String → String → Result (Option OauthAccount)
get_provider_account decrypt s provider account_id =
    elim (find_first (linked provider account_id) s.oauth_accounts) [
      | none ↦ ok none
      | some oa ↦ do token ← read_token decrypt oa.token; ok (some (record oa { token = token }))
    ]

-- `get_app_state`
unfoldable pub get_app_state : Store → String → Option AppState
get_app_state s username = get username s.app_state

-- `set_app_state`: the key is a reference to `users.username`
unfoldable pub set_app_state : String → AppState → Store → Result Store
set_app_state username state s =
    if member username s.app_state || any_of (named username) s.users
    then ok (record s { app_state = set username state s.app_state })
    else raise integrity_error
