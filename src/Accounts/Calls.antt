-- ===== src/Accounts/Calls.antt =====
-- Every method of the store that writes, as a call, and histories of calls.
use dockb.Prelude.{ℕ, String, ◌≡◌, refl, inl, inr, Bool, Option, List, [], ◌∷◌, arith}
use dockb.Accounts.{
  AppState, Store, Result, Result-cases, ok, raise, ◌>>=◌, NewUser, create_user, set_password_hash,
  record_login, block_user, unblock_user, soft_delete_user, restore_user, with_password, with_login,
  with_block, without_block, with_delete, without_delete, normalize_username,
}
use dockb.Accounts.Links.{ProviderLogin, upsert_provider_user, link_provider_account, set_app_state}
use dockb.Accounts.Validity.{
  IsValid, update_user-IsValid, create_user-IsValid, upsert_provider_user-IsValid,
  link_provider_account-IsValid, set_app_state-IsValid,
}

pub data Call : Type 0 where
  create : Bool → NewUser → Call
  set_password : ℕ → String → Option String → Bool → Call
  login : ℕ → String → Call
  block : ℕ → String → Call
  unblock : String → Call
  soft_delete : ℕ → String → Call
  restore : ℕ → String → Call
  provider_login : Bool → ProviderLogin → Call
  link : String → String → String → Option String → Option String → Call
  set_state : String → AppState → Call

module _ (lower encrypt : String → String) where
  unfoldable pub run : Call → Store → Result Store
  run (create email_first n) s = do (s', _) ← create_user lower email_first n s; ok s'
  run (set_password now u hash must) s = set_password_hash lower now u hash must s
  run (login now u) s = record_login lower now u s
  run (block now u) s = block_user lower now u s
  run (unblock u) s = unblock_user lower u s
  run (soft_delete now u) s = soft_delete_user lower now u s
  run (restore now u) s = restore_user lower now u s
  run (provider_login email_first p) s = do
    (s', _) ← upsert_provider_user lower encrypt email_first p s
    ok s'
  run (link u provider account_id token expires_at) s =
      link_provider_account lower encrypt u provider account_id token expires_at s
  run (set_state u state) s = set_app_state u state s

  -- A method that raises leaves the store as it was.
  unfoldable pub serve : List Call → Store → Store
  serve [] s = s
  serve (c ∷ cs) s = elim (run c s) [ ok s' ↦ serve cs s' | raise e ↦ serve cs s ]

  run-IsValid : (c : Call) (s s' : Store) → IsValid s → run c s ≡ ok s' → IsValid s'
  unfolding run set_password_hash record_login block_user unblock_user soft_delete_user restore_user
  run-IsValid (create email_first n) s s' v h =
      elim (Result-cases (create_user lower email_first n s)) [
        | inr (e, bad) ↦ absurd (ground arith)
        | inl ((t, key), fine) ↦
            let same : t ≡ s' = ground arith in
            rw (← same) (create_user-IsValid lower email_first n s t key v fine)
      ]
  run-IsValid (set_password now u hash must) s s' v h =
      update_user-IsValid (normalize_username lower u) (with_password now hash must) s s'
        (λ w. refl) (λ w. refl) (λ w. refl) v h
  run-IsValid (login now u) s s' v h =
      update_user-IsValid (normalize_username lower u) (with_login now) s s' (λ w. refl) (λ w. refl)
        (λ w. refl) v h
  run-IsValid (block now u) s s' v h =
      update_user-IsValid (normalize_username lower u) (with_block now) s s' (λ w. refl) (λ w. refl)
        (λ w. refl) v h
  run-IsValid (unblock u) s s' v h =
      update_user-IsValid (normalize_username lower u) without_block s s' (λ w. refl) (λ w. refl)
        (λ w. refl) v h
  run-IsValid (soft_delete now u) s s' v h =
      update_user-IsValid (normalize_username lower u) (with_delete now) s s' (λ w. refl)
        (λ w. refl) (λ w. refl) v h
  run-IsValid (restore now u) s s' v h =
      update_user-IsValid (normalize_username lower u) (without_delete now) s s' (λ w. refl)
        (λ w. refl) (λ w. refl) v h
  run-IsValid (provider_login email_first p) s s' v h =
      elim (Result-cases (upsert_provider_user lower encrypt email_first p s)) [
        | inr (e, bad) ↦ absurd (ground arith)
        | inl ((t, key), fine) ↦
            let same : t ≡ s' = ground arith in
            rw (← same) (upsert_provider_user-IsValid lower encrypt email_first p s t key v fine)
      ]
  run-IsValid (link u provider account_id token expires_at) s s' v h =
      link_provider_account-IsValid lower encrypt u provider account_id token expires_at s s' v h
  run-IsValid (set_state u state) s s' v h = set_app_state-IsValid u state s s' v h

  -- Whatever calls are made, in any order and with any failures, usernames, addresses and ids stay
  -- unique, and every provider link and every app state refers to an account.
  pub serve-IsValid : (cs : List Call) (s : Store) → IsValid s → IsValid (serve cs s)
  unfolding serve
  serve-IsValid [] s v = v
  serve-IsValid (c ∷ cs) s v = elim (Result-cases (run c s)) [
    | inl (s', e) ↦ rw (e, serve) (serve-IsValid cs s' (run-IsValid c s s' v e))
    | inr (x, e) ↦ rw (e, serve) (serve-IsValid cs s v)
  ]
