-- ===== src/Throttle/Tests.antt =====
-- Runs of the throttle with its default settings, and its theorems at concrete attempts.
use dockb.Prelude.{ℕ, ◌*◌, ◌≡◌, refl, none, some, List, [], ◌∷◌, arith, eq_iff}
use dockb.Dict.{get, set, pop}
use dockb.Throttle.{
  LoginThrottle, default_throttle, username_key, ip_key, current, delay_for, record_failure,
  record_success, attempts,
}
use dockb.Throttle.Counters.{Attempt, failed, signed_in, replay, run_of, current-replay}
use dockb.Throttle.Backoff.{NotAhead, patient, patient_overflows}

-- five failures in five seconds, after one that was forgiven
abbrev five : List Attempt
five =
    failed 5000000 "abby" "10.0.0.1"
    ∷ failed 4000000 "abby" "10.0.0.2"
    ∷ failed 3000000 "abby" "10.0.0.1"
    ∷ failed 2000000 "abby" "10.0.0.1"
    ∷ failed 1000000 "abby" "10.0.0.1"
    ∷ signed_in "abby" "10.0.0.1"
    ∷ failed 500000 "abby" "10.0.0.1"
    ∷ []

runs :
    (delay_for (replay default_throttle five) 5000000 "abby" "10.0.0.9" ≡ some 1000000)
    × (delay_for (replay default_throttle five) 5000000 "mira" "10.0.0.1" ≡ some 0)
    × (attempts (replay default_throttle five) 5000000 "mira" "10.0.0.1" ≡ 4)
    × (attempts (replay default_throttle five) 905000000 "abby" "10.0.0.1" ≡ 0)
unfolding replay record_failure record_success delay_for attempts username_key ip_key get set pop
runs = (refl, refl, refl, refl)

current-replay_example :
    current (replay default_throttle five) 5000000 (username_key "abby")
    ≡ run_of 900000000 5000000 (username_key "abby") five
current-replay_example = current-replay default_throttle five 5000000 (username_key "abby") refl

abbrev one : LoginThrottle
one = record default_throttle {
  failures = ("username:abby", record { count = 7; last_failure = 10 }) ∷ [];
}

one-NotAhead : NotAhead 20 one
unfolding get
one-NotAhead = record { past = λ k f h. ground (arith, h, eq_iff "username:abby" k) }

abbrev wait : ℕ
wait = 3999990

patient_overflows_example :
    delay_for
      (replay default_throttle (patient default_throttle "abby" "10.0.0.1" 1029))
      (1029 * 300000000)
      "abby"
      "10.0.0.1"
    ≡ none
patient_overflows_example =
    patient_overflows default_throttle "abby" "10.0.0.1" 1029 refl (omega arith) (omega arith)
