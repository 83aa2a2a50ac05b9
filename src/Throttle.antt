-- ===== src/Throttle.antt =====
-- src/dockb/infrastructure/session/login_throttle.py: the backoff on sign-in attempts.
-- Times and delays are whole microseconds, as the differences of the clock's instants are. The
-- clock is read once for each operation, and its reading `now` is an argument.
pub mod Backoff
pub mod Counters
mod Tests
use Prim.Native.String.{◌++◌ as str_append}
use dockb.Prelude.{
  ℕ, ◌+◌, ◌-◌, ◌*◌, ◌^◌, max, min, String, Bool, Option, none, some, [], arith, eq_iff, ltb, leb,
  if◌then◌else◌, eqb_iff, tests,
}
use dockb.Dict.{Dict, get, set, pop}

-- `_Failures`
pub record Failures : Type 0 where
  pub count : ℕ
  pub last_failure : ℕ

pub record LoginThrottle : Type 0 where
  pub max_attempts : ℕ
  pub base_delay : ℕ
  pub max_delay : ℕ
  pub decay : ℕ
  pub failures : Dict Failures

-- the defaults of `__init__`, in microseconds
abbrev pub default_throttle : LoginThrottle
default_throttle = record {
  max_attempts = 5;
  base_delay = 1000000;
  max_delay = 300000000;
  decay = 900000000;
  failures = [];
}

-- `float ** int` raises OverflowError at this exponent of 2.0 and above.
abbrev pub float_exponents : ℕ
float_exponents = 1024

-- `_keys`
unfoldable pub username_key : String → String
username_key username = str_append "username:" username

unfoldable pub ip_key : String → String
ip_key client_ip = str_append "ip:" client_ip

-- `_elapsed(failures) >= decay`: `now - last_failure`, moved to the other side
unfoldable pub is_stale : LoginThrottle → ℕ → Failures → Bool
is_stale t now f = leb (f.last_failure + t.decay) now

-- `_current`
unfoldable pub current : LoginThrottle → ℕ → String → ℕ
unfolding is_stale
current t now key = elim (get key t.failures) [
  | none ↦ 0
  | some f ↦ if is_stale t now f then 0 else f.count
]

-- `_delay_for_count`; `none` is the OverflowError of `2.0 ** exponent`
unfoldable pub delay_for_count : LoginThrottle → ℕ → Option ℕ
delay_for_count t count =
    if ltb count t.max_attempts
    then some 0
    else if leb float_exponents (count - t.max_attempts)
    then none
    else some (min (t.base_delay * 2 ^ (count - t.max_attempts)) t.max_delay)

-- `max(0.0, delay - elapsed)`, with `elapsed = now - last_failure`
abbrev pub remaining : ℕ → Failures → Option ℕ → Option ℕ
remaining now f none = none
remaining now f (some delay) = some (delay + f.last_failure - now)

-- `_owed`
unfoldable pub owed : LoginThrottle → ℕ → String → Option ℕ
unfolding current delay_for_count
owed t now key = elim (get key t.failures) [
  | none ↦ some 0
  | some f ↦ remaining now f (delay_for_count t (current t now key))
]

abbrev pub max_owed : Option ℕ → Option ℕ → Option ℕ
max_owed none b = none
max_owed (some a) none = none
max_owed (some a) (some b) = some (max a b)

-- `delay_for`
unfoldable pub delay_for : LoginThrottle → ℕ → String → String → Option ℕ
unfolding owed
delay_for t now username client_ip =
    max_owed (owed t now (username_key username)) (owed t now (ip_key client_ip))

-- one turn of the loop of `record_failure`
unfoldable pub count_failure : ℕ → String → LoginThrottle → LoginThrottle
unfolding current
count_failure now key t = record t {
  failures = set key (record { count = current t now key + 1; last_failure = now }) t.failures;
}

-- `record_failure`
unfoldable pub record_failure : LoginThrottle → ℕ → String → String → LoginThrottle
unfolding count_failure
record_failure t now username client_ip =
    count_failure now (ip_key client_ip) (count_failure now (username_key username) t)

-- `record_success`
unfoldable pub record_success : LoginThrottle → String → String → LoginThrottle
record_success t username client_ip = record t {
  failures = pop (ip_key client_ip) (pop (username_key username) t.failures);
}

-- `attempts`
unfoldable pub attempts : LoginThrottle → ℕ → String → String → ℕ
unfolding current
attempts t now username client_ip =
    max (current t now (username_key username)) (current t now (ip_key client_ip))
