-- ===== src/Accounts/Effects.antt =====
-- What the methods change, read back through the store's own queries.
use mathlib.Core.Option
use dockb.Prelude.{
  String, ◌≡◌, ap, ◌⊎◌, inl, inr, Bool, Option, none, some, [], ◌∷◌, ◌++◌, arith, ◌==◌, eq_iff,
  if◌then◌else◌, Bool-cases, Option-cases, any_of, find_first,
}
use dockb.Accounts.{
  User, Store, ok, raise, NewUser, new_row, create_user, named, update_where, get_credentials,
  normalize_username, update_user, unknown_user, insert_error,
}
use dockb.Accounts.Rows.{find_first-update_where, find_first-none_iff, find_first-append}

-- What an UPDATE by username does to the row that a name selects.
abbrev pub updated : String → (User → User) → Option User → Option User
updated key f o = Option.map (λ u. if u.username == key then f u else u) o

pub update_user_exact :
    (key : String) (f : User → User) (s : Store)
    → ((u : User) → (f u).username ≡ u.username)
    → ((update_user key f s ≡ raise unknown_user) × (find_first (named key) s.users ≡ none))
      ⊎ ((s' : Store) × (update_user key f s ≡ ok s')
          × ((j : String)
              → find_first (named j) s'.users ≡ updated key f (find_first (named j) s.users)))
update_user_exact key f s h = elim (Bool-cases (any_of (named key) s.users)) [
  | inr miss ↦ inl (ground arith, (find_first-none_iff (named key) s.users).1 miss)
  | inl hit ↦ inr (
    record s { users = update_where (named key) f s.users },
    ground arith,
    λ j. find_first-update_where (named j) (named key) f s.users (λ u. ap (λ n. n == j) (h u)),
  )
]

module _ (lower : String → String) where
  -- A new account is found under every spelling of its name, with the data that it was given, and
  -- no other account is touched.
  pub create_user_exact :
      (email_first : Bool) (n : NewUser) (s s' : Store) (key : String)
      → create_user lower email_first n s ≡ ok (s', key)
      → (get_credentials lower s n.username ≡ none)
        × ((name : String)
            → get_credentials lower s' name ≡ (
                if normalize_username lower name == key
                then some (new_row key n)
                else get_credentials lower s name))
  unfolding create_user get_credentials
  create_user_exact email_first n s s' key h =
      let name = normalize_username lower n.username in
      let u = new_row name n in
      elim (Option-cases (insert_error email_first u s.users)) [
        | inr (e, bad) ↦ absurd (ground arith)
        | inl fine ↦
            let rows : s'.users ≡ s.users ++ u ∷ [] = ground arith in
            let same : name ≡ key = ground arith in
            let fresh : find_first (named name) s.users ≡ none =
              (find_first-none_iff (named name) s.users).1 (ground arith) in
            (
              fresh,
              λ j.
                  rw (rows, ← same)
                    (ground (
                      arith,
                      find_first-append (named (normalize_username lower j)) s.users u,
                      eq_iff name (normalize_username lower j),
                      eq_iff (normalize_username lower j) name,
                      fresh,
                    )),
            )
      ]
