-- ===== src/Auth/Resolve.antt =====
-- Sessions: which still resolve, and what ends them.
use dockb.Prelude.{
  ℕ, ◌≤◌, String, ◌≡◌, refl, ◌⊎◌, inl, inr, Bool, true, false, Option, none, some, arith, ◌==◌,
  if◌then◌else◌, Bool-cases, Option-cases, find_first,
}
use dockb.Dict.{Dict, get, pop, get-pop}
use dockb.Accounts.{
  Store, User, Result, normalize_username, get_credentials, named, update_user, with_password,
  with_block, with_delete, without_delete,
}
use dockb.Accounts.Effects.{update_user_exact, updated}
use dockb.Accounts.Rows.{find_first_holds}
use dockb.Sessions
use dockb.Sessions.{SessionContext}
use dockb.Auth.{
  AuthService, may_sign_in, credentials_changed_since, session_agrees, resolve_session,
}

-- Why a session does not agree with what is found for its account.
disagreement :
    (lower : String → String) (o : Option User) (session : SessionContext)
    → session_agrees lower o session ≡ false
    → (o ≡ none)
      ⊎ (u : User) × (o ≡ some u)
        × ((may_sign_in u ≡ false)
            ⊎ (credentials_changed_since u.credentials_changed_at session.created_at ≡ true))
disagreement lower none session h = inl refl
disagreement lower (some u) session h = elim (Bool-cases (may_sign_in u)) [
  | inr barred ↦ inr (u, refl, inl barred)
  | inl free ↦ inr (u, refl, inr (ground arith))
]

module _ (lower : String → String) where
  -- A session that is held resolves, with nothing changed, exactly if its account may sign in and
  -- its credentials have not changed since it began; else, where the account is gone, may not sign
  -- in, or has changed its credentials since, it does not, and only this session is dropped.
  pub resolve_exact :
      (user_id : String) (a : AuthService) (session : SessionContext)
      → get user_id a.sessions ≡ some session
      → (((resolve_session lower user_id a) ≡ (a, some user_id))
          × (u : User) × (get_credentials lower a.accounts user_id ≡ some u)
          × (may_sign_in u ≡ true)
          × (credentials_changed_since u.credentials_changed_at session.created_at ≡ false))
        ⊎ (((get_credentials lower a.accounts user_id ≡ none)
              ⊎ (u : User) × (get_credentials lower a.accounts user_id ≡ some u)
                × ((may_sign_in u ≡ false)
                    ⊎ (credentials_changed_since u.credentials_changed_at session.created_at
                        ≡ true)))
            × (ctxs : Dict SessionContext) × ((resolve_session lower user_id a)
                ≡ (record a { sessions = ctxs }, none))
            × ((j : String) → get j ctxs ≡ (if user_id == j then none else get j a.sessions)))
  unfolding resolve_session Sessions.lookup Sessions.remove
  resolve_exact user_id a session live =
      elim (Bool-cases (session_agrees lower (get_credentials lower a.accounts user_id) session)) [
        | inr stale ↦ inr (
          disagreement lower (get_credentials lower a.accounts user_id) session stale,
          pop user_id a.sessions,
          ground arith,
          λ j. get-pop user_id j a.sessions,
        )
        | inl fine ↦ elim (Option-cases (get_credentials lower a.accounts user_id)) [
          | inl miss ↦ absurd (ground arith)
          | inr (u, found) ↦ inl (ground arith, u, found, ground arith, ground arith)
        ]
      ]

  -- What blocks, deletes, restores or resets an account writes into its row.
  pub data Ends (now : ℕ) : (User → User) → Type 0 where
    by_block : Ends now (with_block now)
    by_delete : Ends now (with_delete now)
    by_restore : Ends now (without_delete now)
    by_password : (hash : Option String) (must : Bool) → Ends now (with_password now hash must)

  Ends-stamps :
      {now : ℕ} {f : User → User}
      → Ends now f
      → ((u : User) → (f u).username ≡ u.username)
        × ((u : User) → (f u).credentials_changed_at ≡ some now)
  Ends-stamps by_block = (λ u. refl, λ u. refl)
  Ends-stamps by_delete = (λ u. refl, λ u. refl)
  Ends-stamps by_restore = (λ u. refl, λ u. refl)
  Ends-stamps (by_password hash must) = (λ u. refl, λ u. refl)

  -- Blocking, deleting, restoring or resetting an account ends each of its sessions that had begun.
  pub ended_by :
      (now : ℕ) (f : User → User) (user_id : String) (a : AuthService) (s' : Store)
      (session : SessionContext)
      → Ends now f
      → update_user (normalize_username lower user_id) f a.accounts ≡ Result.ok s'
      → get user_id a.sessions ≡ some session
      → session.created_at ≤ now
      → (resolve_session lower user_id (record a { accounts = s' })).1 ≡ none
  unfolding resolve_session Sessions.lookup get_credentials
  ended_by now f user_id a s' session e h live le =
      let key = normalize_username lower user_id in
      let (same, stamp) = Ends-stamps e in
      elim (update_user_exact key f a.accounts same) [
        | inl (bad, miss) ↦ absurd (ground arith)
        | inr (t, fine, rows) ↦
            let eq : t ≡ s' = ground arith in
            let row : find_first (named key) s'.users
                ≡ updated key f (find_first (named key) a.accounts.users) =
              rw (← eq) (rows key) in
            elim (Option-cases (find_first (named key) a.accounts.users)) [
              | inl miss ↦ ground arith
              | inr (u, hit) ↦
                  let at : (u.username == key) ≡ true =
                    find_first_holds (named key) a.accounts.users u hit in
                  ground (arith, stamp u)
            ]
      ]
