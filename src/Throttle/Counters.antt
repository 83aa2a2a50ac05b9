-- ===== src/Throttle/Counters.antt =====
-- The failure counters: which keys an attempt touches, and what the counts stand for.
use Prim.Native.Char.{code}
use Prim.Native.String.append
use Prim.Native.String.{◌++◌ as str_append, ◌∷◌ as ◌∷ˢ◌}
use text.Mathlib.TextLemmas.{head-eq_of_cons-eq}
use dockb.Prelude.{
  ℕ, suc, ◌+◌, String, ◌≡◌, refl, sym, ap, ◌∙◌, ◌≢◌, ◌||◌, List, [], ◌∷◌, arith, ◌==◌, eq_iff, leb,
  if◌then◌else◌,
}
use dockb.Dict.{get, pop, get-set, get-pop}
use dockb.Throttle.{
  LoginThrottle, username_key, ip_key, is_stale, current, count_failure, record_failure,
  record_success,
}

-- No username shares a counter with an address, whatever the two texts are.
pub keys_apart : (username client_ip : String) → username_key username ≢ ip_key client_ip
unfolding username_key ip_key
keys_apart username client_ip e =
    let user_side : str_append "username:" username ≡ "u" ∷ˢ str_append "sername:" username =
      λ j. append.cons "u" "sername:" username j in
    let ip_side : str_append "ip:" client_ip ≡ "i" ∷ˢ str_append "p:" client_ip =
      λ j. append.cons "i" "p:" client_ip j in
    let same : code "u" ≡ code "i" = ap code (head-eq_of_cons-eq (sym user_side ∙ e ∙ ip_side)) in
    absurd (omega arith)

-- One turn of the loop: the key is counted on, every other key is left alone.
current-count_failure :
    (t : LoginThrottle) (now : ℕ) (key : String) (later : ℕ) (k : String)
    → current (count_failure now key t) later k ≡ (
        if key == k
        then (if leb (now + t.decay) later then 0 else suc (current t now k))
        else current t later k)
unfolding current count_failure is_stale
current-count_failure t now key later k = ground (
  arith,
  get-set key k (record { count = current t now key + 1; last_failure = now }) t.failures,
  eq_iff key k,
)

module _ (t : LoginThrottle) (now : ℕ) (u i : String) where
  -- The count of every key after a failure.
  pub current-record_failure :
      (later : ℕ) (k : String)
      → current (record_failure t now u i) later k ≡ (
          if (username_key u == k) || (ip_key i == k)
          then (if leb (now + t.decay) later then 0 else suc (current t now k))
          else current t later k)
  unfolding record_failure
  current-record_failure later k =
      let t' = count_failure now (username_key u) t in
      ground (
        arith,
        current-count_failure t' now (ip_key i) later k,
        current-count_failure t now (username_key u) later k,
        current-count_failure t now (username_key u) now k,
        eq_iff (username_key u) k,
        eq_iff (ip_key i) k,
        keys_apart u i,
      )

  -- The count of every key after a sign-in: both counters are gone.
  pub current-record_success :
      (k : String)
      → current (record_success t u i) now k
        ≡ (if (username_key u == k) || (ip_key i == k) then 0 else current t now k)
  unfolding current record_success is_stale
  current-record_success k = ground (
    arith,
    get-pop (ip_key i) k (pop (username_key u) t.failures),
    get-pop (username_key u) k t.failures,
  )

-- What the service reports to the throttle.
pub data Attempt : Type 0 where
  failed : ℕ → String → String → Attempt
  signed_in : String → String → Attempt

-- The throttle after a list of attempts, the latest first.
unfoldable pub replay : LoginThrottle → List Attempt → LoginThrottle
replay t [] = t
replay t (failed now u i ∷ past) = record_failure (replay t past) now u i
replay t (signed_in u i ∷ past) = record_success (replay t past) u i

-- The specification: how many failures touched the key since its last sign-in, if each came
-- within `decay` of the next one and the last within `decay` of `now`.
unfoldable pub run_of : ℕ → ℕ → String → List Attempt → ℕ
run_of decay now k [] = 0
run_of decay now k (failed at u i ∷ past) =
    if (username_key u == k) || (ip_key i == k)
    then (if leb (at + decay) now then 0 else suc (run_of decay at k past))
    else run_of decay now k past
run_of decay now k (signed_in u i ∷ past) =
    if (username_key u == k) || (ip_key i == k) then 0 else run_of decay now k past

-- Attempts leave the settings alone.
pub settings-replay :
    (t : LoginThrottle) (past : List Attempt)
    → ((replay t past).decay ≡ t.decay) × ((replay t past).max_attempts ≡ t.max_attempts)
unfolding replay record_failure record_success count_failure
settings-replay t [] = (refl, refl)
settings-replay t (failed now u i ∷ past) = settings-replay t past
settings-replay t (signed_in u i ∷ past) = settings-replay t past

-- From a throttle with no failures, the count of a key after any attempts, for any users and
-- addresses, is the length of the key's unbroken run of failures.
pub current-replay :
    (t : LoginThrottle) (past : List Attempt) (now : ℕ) (k : String)
    → t.failures ≡ []
    → current (replay t past) now k ≡ run_of t.decay now k past
unfolding replay run_of
current-replay t [] now k e = unfold current get in rw e refl
current-replay t (failed at u i ∷ past) now k e = ground (
  arith,
  current-record_failure (replay t past) at u i now k,
  current-replay t past at k e,
  current-replay t past now k e,
  (settings-replay t past).0,
)
current-replay t (signed_in u i ∷ past) now k e =
    ground (arith, current-record_success (replay t past) now u i k, current-replay t past now k e)
