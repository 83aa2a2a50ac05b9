-- ===== src/Throttle/Backoff.antt =====
-- The delays: how long a key is refused, and that serving the wait is enough.
use dockb.Prelude.{
  ℕ, zero, suc, ◌+◌, ◌-◌, ◌*◌, ◌^◌, ◌≤◌, ◌<◌, max, min, String, ◌≡◌, refl, ◌↔◌, inl, inr, none,
  some, List, [], ◌∷◌, arith, eq_refl, Option-cases,
}
use native.Mathlib.Nat.{pow-suc}
use dockb.Dict.{get}
use dockb.Throttle.Counters.{Attempt, failed, replay, run_of, current-replay, settings-replay}
use dockb.Throttle.{
  LoginThrottle, Failures, username_key, ip_key, is_stale, current, delay_for, owed, attempts,
  delay_for_count, float_exponents,
}

-- A key's wait falls with the clock and is over once it is served; the run of failures may go
-- stale meanwhile.
owed_served :
    (t : LoginThrottle) (now d later : ℕ) (k : String)
    → 0 < t.max_attempts
    → owed t now k ≡ some d
    → now + d ≤ later
    → owed t later k ≡ some 0
unfolding owed current delay_for_count is_stale
owed_served t now d later k pos h le = ground arith

-- The wait that a refusal reports, once served, lets the next attempt through.
pub delay_served :
    (t : LoginThrottle) (now d later : ℕ) (u i : String)
    → 0 < t.max_attempts
    → delay_for t now u i ≡ some d
    → now + d ≤ later
    → delay_for t later u i ≡ some 0
unfolding delay_for
delay_served t now d later u i pos h le = elim (Option-cases (owed t now (username_key u))) [
  | inl crash ↦ absurd (ground arith)
  | inr (a, ha) ↦ elim (Option-cases (owed t now (ip_key i))) [
    | inl crash ↦ absurd (ground arith)
    | inr (b, hb) ↦
        let fits : max a b ≡ d = ground arith in
        ground (
          arith,
          owed_served t now a later (username_key u) pos ha (omega arith),
          owed_served t now b later (ip_key i) pos hb (omega arith),
        )
  ]
]

-- No recorded failure lies ahead of the clock.
pub record NotAhead (now : ℕ) (t : LoginThrottle) : Type 0 where
  pub past : (k : String) (f : Failures) → get k t.failures ≡ some f → f.last_failure ≤ now

owed_bounds :
    (t : LoginThrottle) (now d : ℕ) (k : String)
    → NotAhead now t
    → owed t now k ≡ some d
    → (d ≤ t.max_delay) × (current t now k < t.max_attempts → d ≡ 0)
unfolding owed current delay_for_count
owed_bounds t now d k ok h = elim (Option-cases (get k t.failures)) [
  | inl miss ↦ (ground arith, λ few. ground arith)
  | inr (f, hit) ↦
      let before : f.last_failure ≤ now = ok.past k f hit in (ground arith, λ few. ground arith)
]

-- With the clock not behind the failures, a wait is at most the cap, and there is none below the
-- allowance.
pub delay_bounds :
    (t : LoginThrottle) (now d : ℕ) (u i : String)
    → NotAhead now t
    → delay_for t now u i ≡ some d
    → (d ≤ t.max_delay) × (attempts t now u i < t.max_attempts → d ≡ 0)
unfolding delay_for attempts
delay_bounds t now d u i ok h = elim (Option-cases (owed t now (username_key u))) [
  | inl crash ↦ absurd (ground arith)
  | inr (a, ha) ↦ elim (Option-cases (owed t now (ip_key i))) [
    | inl crash ↦ absurd (ground arith)
    | inr (b, hb) ↦
        let fits : max a b ≡ d = ground arith in
        let left = owed_bounds t now a (username_key u) ok ha in
        let right = owed_bounds t now b (ip_key i) ok hb in
        (omega arith, λ few. omega (arith, left.1 (omega arith), right.1 (omega arith)))
  ]
]

owed_crash :
    (t : LoginThrottle) (now : ℕ) (k : String)
    → (owed t now k ≡ none) ↔ (t.max_attempts + float_exponents ≤ current t now k)
unfolding owed current delay_for_count
owed_crash t now k = (λ h. ground arith, λ h. ground arith)

-- `delay_for` raises OverflowError exactly when a counter in force is 1024 or more past the
-- allowance.
pub delay_for-none_iff :
    (t : LoginThrottle) (now : ℕ) (u i : String)
    → (delay_for t now u i ≡ none) ↔ (t.max_attempts + float_exponents ≤ attempts t now u i)
unfolding delay_for attempts
delay_for-none_iff t now u i = (λ h. grind (arith, owed_crash), λ h. grind (arith, owed_crash))

-- One more failure doubles the delay, up to the cap.
pub delay_doubles :
    (t : LoginThrottle) (n d : ℕ)
    → t.max_attempts ≤ n
    → n + 1 < t.max_attempts + float_exponents
    → delay_for_count t n ≡ some d
    → delay_for_count t (n + 1) ≡ some (min (2 * d) t.max_delay)
unfolding delay_for_count
delay_doubles t n d ge room h =
    let e : n + 1 - t.max_attempts ≡ suc (n - t.max_attempts) = omega arith in
    let twice : t.base_delay * 2 ^ suc (n - t.max_attempts)
        ≡ 2 * (t.base_delay * 2 ^ (n - t.max_attempts)) =
      rw pow-suc (omega arith) in
    rw (e, twice) (ground arith)

-- Failures of one user from one address that each wait out the longest delay, the latest first.
unfoldable pub patient : LoginThrottle → String → String → ℕ → List Attempt
patient t u i zero = []
patient t u i (suc n) = failed (n * t.max_delay) u i ∷ patient t u i n

run_of-patient :
    (t : LoginThrottle) (u i : String) (n now : ℕ)
    → t.max_delay < t.decay
    → now ≤ n * t.max_delay
    → run_of t.decay now (username_key u) (patient t u i n) ≡ n
unfolding run_of patient
run_of-patient t u i zero now lt le = refl
run_of-patient t u i (suc n) now lt le =
    let span : suc n * t.max_delay ≡ n * t.max_delay + t.max_delay = omega arith in
    ground
      (arith, eq_refl (username_key u), run_of-patient t u i n (n * t.max_delay) lt (omega arith))

-- Failures that each wait out the longest delay keep the run alive when `max_delay` is below
-- `decay`, and once 1024 of them are past the allowance `delay_for` raises OverflowError.
pub patient_overflows :
    (t : LoginThrottle) (u i : String) (n : ℕ)
    → t.failures ≡ []
    → t.max_delay < t.decay
    → t.max_attempts + float_exponents ≤ n
    → delay_for (replay t (patient t u i n)) (n * t.max_delay) u i ≡ none
unfolding attempts
patient_overflows t u i n e lt many =
    (delay_for-none_iff (replay t (patient t u i n)) (n * t.max_delay) u i).1 (
      omega (
        arith,
        current-replay t (patient t u i n) (n * t.max_delay) (username_key u) e,
        run_of-patient t u i n (n * t.max_delay) lt (omega arith),
        (settings-replay t (patient t u i n)).1,
      ))
