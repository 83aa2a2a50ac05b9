-- ===== src/Sessions.antt =====
-- src/dockb/infrastructure/session/session_manager.py and src/dockb/services/session_context.py: the
-- live sessions by account, and each session's notifications.
-- src/dockb/infrastructure/oauth/pending_login.py: the sign-ins in flight at a provider.
pub mod Laws
mod Tests
use dockb.Prelude.{
  ℕ, ◌+◌, String, Bool, not, Option, none, some, List, [], ◌∷◌, ◌++◌, arith, eq_iff, ltb,
  if◌then◌else◌, eqb_iff, tests, keep_if,
}
use dockb.Dict.{Dict, get, set, pop}

-- `Notification`; the payload is its JSON text
pub record Notification : Type 0 where
  pub type : String
  pub payload : String

-- `SessionContext`, without the job queue and the doc cache that a session may carry
pub record SessionContext : Type 0 where
  pub created_at : ℕ
  pub notifications : List Notification

-- `SessionManager`
abbrev pub Sessions : Type 0
Sessions = Dict SessionContext

unfoldable pub create : ℕ → String → Sessions → Sessions
create now account_id ctxs = set account_id (record { created_at = now; notifications = [] }) ctxs

unfoldable pub lookup : String → Sessions → Option SessionContext
lookup account_id ctxs = get account_id ctxs

unfoldable pub remove : String → Sessions → Sessions
remove account_id ctxs = pop account_id ctxs

unfoldable pub add_notification : Notification → SessionContext → SessionContext
add_notification n ctx = record ctx { notifications = ctx.notifications ++ n ∷ [] }

-- `pending_notifications`: the queue, which is left empty
unfoldable pub pending_notifications : SessionContext → List Notification × SessionContext
pending_notifications ctx = (ctx.notifications, record ctx { notifications = [] })

-- `PendingLogin`
pub record PendingLogin : Type 0 where
  pub provider : String
  pub code_verifier : String
  pub created_at : ℕ

-- `PendingLoginStore`
pub record PendingLoginStore : Type 0 where
  pub entries : Dict PendingLogin
  pub ttl : ℕ

-- `now - created_at > ttl`
abbrev pub is_expired : ℕ → ℕ → PendingLogin → Bool
is_expired ttl now e = ltb (e.created_at + ttl) now

-- `_expire_stale`
unfoldable pub expire_stale : ℕ → PendingLoginStore → PendingLoginStore
expire_stale now s = record s { entries = keep_if (λ e. not (is_expired s.ttl now e.1)) s.entries }

-- `issue`; the state and the verifier are fresh random texts
unfoldable pub issue : ℕ → String → String → String → PendingLoginStore → PendingLoginStore
unfolding expire_stale
issue now state verifier provider s =
    let s' = expire_stale now s in
    record s' {
      entries =
          set state (record { provider = provider; code_verifier = verifier; created_at = now })
            s'.entries;
    }

-- `consume`
unfoldable pub consume : ℕ → String → PendingLoginStore → PendingLoginStore × Option PendingLogin
consume now state s = (
  record s { entries = pop state s.entries },
  elim (get state s.entries) [
    | none ↦ none
    | some e ↦ if is_expired s.ttl now e then none else some e
  ],
)
