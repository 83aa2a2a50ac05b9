-- ===== src/Accounts/Validity.antt =====
-- The constraints of the schema as an invariant: every method keeps it.
use dockb.Prelude.{
  String, ◌≡◌, refl, ap, ◌∙◌, inl, inr, Bool, true, Option, none, some, List, [], ◌∷◌, ◌++◌, arith,
  eq_iff, eq_refl, Bool-cases, Option-cases, any_of, find_first, All, All-imp,
}
use dockb.Dict.{set, member, member-set}
use dockb.Accounts.{
  User, OauthAccount, AppState, Store, ok, or_none, named, identified, same_text, update_where,
  update_user, Result-cases, normalize_username, insert_error, get_user, NewUser, new_row,
  create_user,
}
use dockb.Accounts.Links.{
  linked, get_user_by_provider_account, upsert_link, email_free, with_profile, rename_error,
  write_provider_profile, ProviderLogin, provider_row, link_row, upsert_provider_user,
  link_provider_account, set_app_state,
}
use dockb.Accounts.Rows.{
  any_of-append, any_of-update_where, find_first_holds, Distinct, Distinct-append,
  Distinct-update_where, Distinct-update_id, any_of-update_row, any_of_found_id,
}

abbrev pub name_of : User → Option String
name_of u = some u.username

abbrev pub id_of : User → Option String
id_of u = some u.id

abbrev pub email_of : User → Option String
email_of u = u.email

-- Usernames, addresses and ids are unique, and the two foreign keys refer to rows.
pub record IsValid (s : Store) : Type 0 where
  pub names : Distinct name_of s.users
  pub emails : Distinct email_of s.users
  pub ids : Distinct id_of s.users
  pub states : (k : String) → member k s.app_state ≡ true → any_of (named k) s.users ≡ true
  pub links : All (λ oa. any_of (identified oa.user_id) s.users ≡ true) s.oauth_accounts

-- Rows may come and change as long as no username or id that is referred to goes away.
rows-IsValid :
    (s : Store) (us : List User)
    → IsValid s
    → Distinct name_of us
    → Distinct email_of us
    → Distinct id_of us
    → ((k : String)
        → member k s.app_state ≡ true
        → any_of (named k) s.users ≡ true
        → any_of (named k) us ≡ true)
    → ((k : String) → any_of (identified k) s.users ≡ true → any_of (identified k) us ≡ true)
    → IsValid (record s { users = us })
rows-IsValid s us v n e i ks is = record {
  names = n;
  emails = e;
  ids = i;
  states = λ k m. ks k m (v.states k m);
  links = All-imp _ _ s.oauth_accounts (λ oa. is oa.user_id) v.links;
}

-- An UPDATE of columns that no constraint is about.
pub update_user-IsValid :
    (key : String) (f : User → User) (s s' : Store)
    → ((u : User) → name_of (f u) ≡ name_of u)
    → ((u : User) → email_of (f u) ≡ email_of u)
    → ((u : User) → id_of (f u) ≡ id_of u)
    → IsValid s
    → update_user key f s ≡ ok s'
    → IsValid s'
update_user-IsValid key f s s' hn he hi v h = elim (Bool-cases (any_of (named key) s.users)) [
  | inr miss ↦ absurd (ground arith)
  | inl hit ↦
      let us = update_where (named key) f s.users in
      let same : record s { users = us } ≡ s' = ground arith in
      rw (← same) (
        rows-IsValid s us v (Distinct-update_where name_of (named key) f s.users hn v.names)
          (Distinct-update_where email_of (named key) f s.users he v.emails)
          (Distinct-update_where id_of (named key) f s.users hi v.ids)
          (λ k m a.
            any_of-update_where (named k) (named key) f s.users
              (λ u. ap (λ c. same_text c (some k)) (hn u))
            ∙ a)
          (λ k a.
            any_of-update_where (identified k) (named key) f s.users
              (λ u. ap (λ c. same_text c (some k)) (hi u))
            ∙ a))
]

any_of-append_true :
    (p : User → Bool) (us : List User) (u : User)
    → any_of p us ≡ true
    → any_of p (us ++ u ∷ []) ≡ true
any_of-append_true p us u h = ground (arith, any_of-append p us (u ∷ []))

insert-IsValid :
    (email_first : Bool) (u : User) (s : Store)
    → IsValid s
    → insert_error email_first u s.users ≡ none
    → IsValid (record s { users = s.users ++ u ∷ [] })
insert-IsValid email_first u s v h =
    rows-IsValid s (s.users ++ u ∷ []) v (Distinct-append name_of s.users u v.names (ground arith))
      (Distinct-append email_of s.users u v.emails (ground arith))
      (Distinct-append id_of s.users u v.ids (ground arith))
      (λ k m a. any_of-append_true (named k) s.users u a)
      (λ k a. any_of-append_true (identified k) s.users u a)

module _ (lower : String → String) where
  pub create_user-IsValid :
      (email_first : Bool) (n : NewUser) (s s' : Store) (key : String)
      → IsValid s
      → create_user lower email_first n s ≡ ok (s', key)
      → IsValid s'
  unfolding create_user
  create_user-IsValid email_first n s s' key v h =
      let u = new_row (normalize_username lower n.username) n in
      elim (Option-cases (insert_error email_first u s.users)) [
        | inr (e, bad) ↦ absurd (ground arith)
        | inl fine ↦
            let same : record s { users = s.users ++ u ∷ [] } ≡ s' = ground arith in
            rw (← same) (insert-IsValid email_first u s v fine)
      ]

links-upsert_link :
    (P : String → Type 0) (oa : OauthAccount) (os : List OauthAccount)
    → P oa.user_id
    → All (λ o. P o.user_id) os
    → All (λ o. P o.user_id) (upsert_link oa os)
unfolding upsert_link
links-upsert_link P oa [] h d = (h, tt)
links-upsert_link P oa (o ∷ os) h d =
    elim (Bool-cases (linked oa.provider oa.provider_account_id o)) [
      | inl hit ↦ rw hit (h, d.1)
      | inr miss ↦ rw miss (d.0, links-upsert_link P oa os h d.1)
    ]

profile-IsValid :
    (u : User) (key : String) (email : Option String) (name : String) (avatar : Option String)
    (s : Store)
    → IsValid s
    → find_first (identified u.id) s.users ≡ some u
    → email_free s.users email (some u.id) ≡ true
    → rename_error s u key ≡ none
    → IsValid (record s {
      users = update_where (identified u.id) (with_profile key email name avatar) s.users;
    })
profile-IsValid u key email name avatar s v found free fine =
    let f = with_profile key email name avatar in
    rows-IsValid s (update_where (identified u.id) f s.users) v
      (Distinct-update_id name_of u.id f (some key) s.users (λ w. refl) (ground arith) v.ids
        v.names)
      (Distinct-update_id email_of u.id f email s.users (λ w. refl) (ground arith) v.ids v.emails)
      (Distinct-update_where id_of (identified u.id) f s.users (λ w. refl) v.ids)
      (λ k m a.
        any_of-update_row (named k) f u s.users v.ids found
          (λ hit. ground (arith, (eq_iff u.username k).0 hit, eq_iff u.username key, eq_refl key))
          a)
      (λ k a. any_of-update_where (identified k) (identified u.id) f s.users (λ w. refl) ∙ a)

links-IsValid :
    (s : Store) (oa : OauthAccount)
    → IsValid s
    → any_of (identified oa.user_id) s.users ≡ true
    → IsValid (record s { oauth_accounts = upsert_link oa s.oauth_accounts })
links-IsValid s oa v h = record {
  names = v.names;
  emails = v.emails;
  ids = v.ids;
  states = v.states;
  links =
      links-upsert_link (λ id. any_of (identified id) s.users ≡ true) oa s.oauth_accounts h v.links;
}

-- A failed or refreshed profile keeps the constraints, and the id it returns is a row's.
write_provider_profile-IsValid :
    (email_first : Bool) (key : String) (p : ProviderLogin) (s : Store) (o : Option User)
    (us : List User) (id : String)
    → IsValid s
    → ((u : User) → o ≡ some u → find_first (identified u.id) s.users ≡ some u)
    → write_provider_profile email_first key p s o ≡ ok (us, id)
    → IsValid (record s { users = us }) × (any_of (identified id) us ≡ true)
unfolding write_provider_profile
write_provider_profile-IsValid email_first key p s none us id v known h =
    let u = provider_row key p in
    elim (Option-cases (insert_error email_first u s.users)) [
      | inr (e, bad) ↦ absurd (ground arith)
      | inl fine ↦
          let rows : s.users ++ u ∷ [] ≡ us = ground arith in
          let same : p.id ≡ id = ground arith in
          rw (← rows, ← same)
            (
              insert-IsValid email_first u s v fine,
              ground (arith, any_of-append (identified p.id) s.users (u ∷ []), eq_refl p.id),
            )
    ]
write_provider_profile-IsValid email_first key p s (some u) us id v known h =
    let email = or_none p.email in
    elim (Option-cases (rename_error s u key)) [
      | inr (e, bad) ↦ absurd (ground arith)
      | inl fine ↦
          let f = with_profile key email p.display_name p.avatar_url in
          let rows : update_where (identified u.id) f s.users ≡ us = ground arith in
          let same : u.id ≡ id = ground arith in
          let free : email_free s.users email (some u.id) ≡ true = ground arith in
          rw (← rows, ← same)
            (
              profile-IsValid u key email p.display_name p.avatar_url s v (known u refl) free fine,
              any_of-update_where (identified u.id) (identified u.id) f s.users (λ w. refl)
                  ∙ any_of_found_id (identified u.id) s.users u (known u refl),
            )
    ]

user_by_provider-found :
    (s : Store) (provider account_id : String) (u : User)
    → get_user_by_provider_account s provider account_id ≡ some u
    → find_first (identified u.id) s.users ≡ some u
unfolding get_user_by_provider_account
user_by_provider-found s provider account_id u h =
    elim (Option-cases (find_first (linked provider account_id) s.oauth_accounts)) [
      | inl miss ↦ absurd (ground arith)
      | inr (oa, hit) ↦
          let at : find_first (identified oa.user_id) s.users ≡ some u = ground arith in
          let same : u.id ≡ oa.user_id =
            (eq_iff u.id oa.user_id).0 (find_first_holds (identified oa.user_id) s.users u at) in
          simp same at
    ]

module _ (lower encrypt : String → String) where
  pub upsert_provider_user-IsValid :
      (email_first : Bool) (p : ProviderLogin) (s s' : Store) (key : String)
      → IsValid s
      → upsert_provider_user lower encrypt email_first p s ≡ ok (s', key)
      → IsValid s'
  unfolding upsert_provider_user
  upsert_provider_user-IsValid email_first p s s' key v h =
      let o = get_user_by_provider_account s p.provider p.provider_account_id in
      let name = normalize_username lower p.username in
      elim (Result-cases (write_provider_profile email_first name p s o)) [
        | inr (e, bad) ↦ absurd (ground arith)
        | inl ((us, id), fine) ↦
            let (v', row) =
              write_provider_profile-IsValid email_first name p s o us id v
                (user_by_provider-found s p.provider p.provider_account_id) fine in
            let oa = link_row encrypt id p.provider p.provider_account_id p.token p.expires_at in
            let same : record s { users = us; oauth_accounts = upsert_link oa s.oauth_accounts }
                ≡ s' =
              ground arith in
            rw (← same) (links-IsValid (record s { users = us }) oa v' row)
      ]

  pub link_provider_account-IsValid :
      (username provider account_id : String) (token expires_at : Option String) (s s' : Store)
      → IsValid s
      → link_provider_account lower encrypt username provider account_id token expires_at s ≡ ok s'
      → IsValid s'
  unfolding link_provider_account get_user
  link_provider_account-IsValid username provider account_id token expires_at s s' v h =
      elim (Option-cases (find_first (named (normalize_username lower username)) s.users)) [
        | inl miss ↦ absurd (ground arith)
        | inr (u, hit) ↦
            let oa = link_row encrypt u.id provider account_id token expires_at in
            let same : record s { oauth_accounts = upsert_link oa s.oauth_accounts } ≡ s' =
              ground arith in
            rw (← same) (
              links-IsValid s oa v
                (any_of_found_id (named (normalize_username lower username)) s.users u hit))
      ]

pub set_app_state-IsValid :
    (username : String) (state : AppState) (s s' : Store)
    → IsValid s
    → set_app_state username state s ≡ ok s'
    → IsValid s'
unfolding set_app_state
set_app_state-IsValid username state s s' v h =
    let known : any_of (named username) s.users ≡ true = ground (arith, v.states username) in
    let same : record s { app_state = set username state s.app_state } ≡ s' = ground arith in
    rw (← same) (record {
      names = v.names;
      emails = v.emails;
      ids = v.ids;
      states = λ k m.
          ground (arith, member-set username k state s.app_state, v.states k, eq_iff username k);
      links = v.links;
    })
