-- ===== src/Accounts/Tests.antt =====
-- Calls on a small store.
use dockb.Prelude.{String, true, none, some, List, [], ◌∷◌}
use dockb.Dict.{member}
use dockb.Accounts.{Store, AppState, NewUser, new_row}
use dockb.Accounts.Validity.{IsValid}
use dockb.Accounts.Calls.{Call, create, block, login, set_state, serve, serve-IsValid}

abbrev pub no_accounts : Store
no_accounts = record { users = []; oauth_accounts = []; app_state = [] }

no_accounts-IsValid : IsValid no_accounts
unfolding member
no_accounts-IsValid = record { names = tt; emails = tt; ids = tt; states = λ k m. cc; links = tt }

-- `str.lower` at texts without capitals
abbrev pub as_is : String → String
as_is s = s

abbrev pub abby : NewUser
abby = record {
  id = "u1";
  now = 1;
  username = " abby ";
  email = some "abby@example.org";
  display_name = "Abby";
  avatar_url = none;
  password_hash = some "$psecret";
  must_change_password = true;
}

abbrev state : AppState
state = record {
  last_document_id = some "d1";
  panel_widths = none;
  edit_mode = none;
  updated_at = 3;
}

abbrev calls : List Call
calls =
    create true abby
    ∷ create true abby
    ∷ block 5 "abby"
    ∷ login 6 "nobody"
    ∷ set_state "abby" state
    ∷ []

serve-IsValid_example : IsValid (serve as_is as_is calls no_accounts)
serve-IsValid_example = serve-IsValid as_is as_is calls no_accounts no_accounts-IsValid

abbrev pub with_abby : Store
with_abby = record no_accounts { users = new_row "abby" abby ∷ [] }
