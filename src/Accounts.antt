-- ===== src/Accounts.antt =====
-- src/dockb/infrastructure/accounts/store.py: users, provider links and app state in SQLite.
-- A table is the list of its rows in rowid order. A method that raises leaves the store as it was,
-- since its connection is closed without a commit; it returns the error alone. `str.lower` is the
-- argument `lower`, the uuid and the time stamp of a method are arguments, and so is the
-- constraint that SQLite names when one INSERT violates both.
pub mod Links
pub mod Rows
pub mod Validity
pub mod Calls
pub mod Effects
pub mod Tests
use dockb.Prelude.{
  ◌≡◌, refl, ◌⊎◌, inl, inr, ℕ, String, ◌≡◌, refl, ◌⊎◌, inl, inr, Bool, false, ◌&&◌, Option, none,
  some, List, [], ◌∷◌, ◌++◌, arith, ◌==◌, eq_iff, if◌then◌else◌, eqb_iff, tests, any_of, find_first,
}
use dockb.Prelude.Text.{strip, is_empty}
use dockb.Dict.{Dict}

-- the `users` columns; a stamp is an instant in microseconds
pub record User : Type 0 where
  pub id : String
  pub username : String
  pub email : Option String
  pub display_name : String
  pub avatar_url : Option String
  pub password_hash : Option String
  pub must_change_password : Bool
  pub blocked_at : Option ℕ
  pub last_login_at : Option ℕ
  pub credentials_changed_at : Option ℕ
  pub deleted_at : Option ℕ
  pub created_at : ℕ

-- the `oauth_accounts` columns; `token` is the ciphertext
pub record OauthAccount : Type 0 where
  pub provider : String
  pub provider_account_id : String
  pub user_id : String
  pub token : Option String
  pub expires_at : Option String

-- the `app_state` columns beside the key
pub record AppState : Type 0 where
  pub last_document_id : Option String
  pub panel_widths : Option String
  pub edit_mode : Option String
  pub updated_at : ℕ

pub record Store : Type 0 where
  pub users : List User
  pub oauth_accounts : List OauthAccount
  pub app_state : Dict AppState

-- The store's exceptions. `account_error` is a plain AccountError, `integrity_error` an
-- IntegrityError that no handler translates, `value_error` the ValueError of an unknown user,
-- `invalid_token` the InvalidToken of a ciphertext under another key.
pub data Error : Type 0 where
  unknown_user username_taken email_taken account_error integrity_error value_error invalid_token :
      Error

pub data Result {ℓ} (A : Type ℓ) : Type ℓ where
  ok : A → Result A
  raise : Error → Result A

infixl 5 ◌>>=◌
abbrev pub ◌>>=◌ {ℓ κ} : {A : Type ℓ} {B : Type κ} → Result A → (A → Result B) → Result B
ok a >>= f = f a
raise e >>= f = raise e

pub Result-cases {ℓ} :
    {A : Type ℓ} (r : Result A) → ((a : A) × (r ≡ ok a)) ⊎ ((e : Error) × (r ≡ raise e))
Result-cases (ok a) = inl (a, refl)
Result-cases (raise e) = inr (e, refl)

-- `email or None`, also for the other texts that the code tests for emptiness
abbrev pub or_none : Option String → Option String
or_none none = none
or_none (some s) = if is_empty s then none else some s

-- `WHERE username = ?`, `WHERE id = ?`, `WHERE email = ?`; NULL equals nothing
abbrev pub named : String → User → Bool
named name u = u.username == name

abbrev pub identified : String → User → Bool
identified id u = u.id == id

abbrev pub same_text : Option String → Option String → Bool
same_text none b = false
same_text (some a) none = false
same_text (some a) (some b) = a == b

abbrev pub addressed : Option String → User → Bool
addressed email u = same_text u.email email

-- `UPDATE users SET … WHERE …`
unfoldable pub update_where : (User → Bool) → (User → User) → List User → List User
update_where p f [] = []
update_where p f (u ∷ us) = (if p u then f u else u) ∷ update_where p f us

-- `normalize_username`
unfoldable pub normalize_username : (String → String) → String → String
normalize_username lower username = lower (strip username)

-- `_reject_unknown_user` after an UPDATE of the row with this username: the shape that the
-- credential methods share.
abbrev pub update_user : String → (User → User) → Store → Result Store
update_user key f s =
    if any_of (named key) s.users
    then ok (record s { users = update_where (named key) f s.users })
    else raise unknown_user

-- `UPDATE … SET` of the credential methods
abbrev pub with_password : ℕ → Option String → Bool → User → User
with_password now hash must u = record u {
  password_hash = hash;
  must_change_password = must;
  credentials_changed_at = some now;
}

abbrev pub with_login : ℕ → User → User
with_login now u = record u { last_login_at = some now }

abbrev pub with_block : ℕ → User → User
with_block now u = record u { blocked_at = some now; credentials_changed_at = some now }

abbrev pub without_block : User → User
without_block u = record u { blocked_at = none }

abbrev pub with_delete : ℕ → User → User
with_delete now u = record u { deleted_at = some now; credentials_changed_at = some now }

abbrev pub without_delete : ℕ → User → User
without_delete now u = record u { deleted_at = none; credentials_changed_at = some now }

-- `_constraint_error` of an INSERT into `users`: the constraint that SQLite names
abbrev pub insert_error : Bool → User → List User → Option Error
insert_error email_first u us =
    if any_of (named u.username) us && any_of (addressed u.email) us
    then some (if email_first then email_taken else username_taken)
    else if any_of (named u.username) us
    then some username_taken
    else if any_of (addressed u.email) us
    then some email_taken
    else if any_of (identified u.id) us
    then some account_error
    else none

-- the arguments of `create_user`, with the new uuid and CURRENT_TIMESTAMP
pub record NewUser : Type 0 where
  pub id : String
  pub now : ℕ
  pub username : String
  pub email : Option String
  pub display_name : String
  pub avatar_url : Option String
  pub password_hash : Option String
  pub must_change_password : Bool

-- the row that `create_user` inserts
abbrev pub new_row : String → NewUser → User
new_row key n = record {
  id = n.id;
  username = key;
  email = or_none n.email;
  display_name = n.display_name;
  avatar_url = n.avatar_url;
  password_hash = n.password_hash;
  must_change_password = n.must_change_password;
  blocked_at = none;
  last_login_at = none;
  credentials_changed_at = none;
  deleted_at = none;
  created_at = n.now;
}

module _ (lower : String → String) where
  -- `get_user_by_id`, `get_user` and `get_credentials`
  unfoldable pub get_user_by_id : Store → String → Option User
  get_user_by_id s id = find_first (identified id) s.users

  unfoldable pub get_user : Store → String → Option User
  get_user s username = find_first (named (normalize_username lower username)) s.users

  unfoldable pub get_credentials : Store → String → Option User
  get_credentials s username = find_first (named (normalize_username lower username)) s.users

  -- `create_user`
  unfoldable pub create_user : Bool → NewUser → Store → Result (Store × String)
  create_user email_first n s =
      let key = normalize_username lower n.username in
      elim (insert_error email_first (new_row key n) s.users) [
        | none ↦ ok (record s { users = s.users ++ new_row key n ∷ [] }, key)
        | some e ↦ raise e
      ]

  unfoldable pub set_password_hash : ℕ → String → Option String → Bool → Store → Result Store
  set_password_hash now username password_hash must =
      update_user (normalize_username lower username) (with_password now password_hash must)

  unfoldable pub record_login : ℕ → String → Store → Result Store
  record_login now username = update_user (normalize_username lower username) (with_login now)

  unfoldable pub block_user : ℕ → String → Store → Result Store
  block_user now username = update_user (normalize_username lower username) (with_block now)

  unfoldable pub unblock_user : String → Store → Result Store
  unblock_user username = update_user (normalize_username lower username) without_block

  unfoldable pub soft_delete_user : ℕ → String → Store → Result Store
  soft_delete_user now username = update_user (normalize_username lower username) (with_delete now)

  unfoldable pub restore_user : ℕ → String → Store → Result Store
  restore_user now username = update_user (normalize_username lower username) (without_delete now)
