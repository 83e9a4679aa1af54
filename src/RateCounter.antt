-- ===== src/RateCounter.antt =====
-- packages/ratelimit/src/index.ts: the rate limiter on a Redis counter for each minute. Redis, the
-- clock and the timer are parameters that act on a state of their own; a command that is rejected
-- answers none, or false.
pub mod Waiting
pub mod Tests
pub mod Bounds
use hy_fib_wa_app.Prelude.{
  ℕ, zero, suc, ◌+◌, ◌-◌, ◌*◌, ◌/◌, min, Bool, true, false, Option, none, some, String, leb, ltb,
  ◌==◌, if◌then◌else◌,
}

-- The key `rl:{scope}:{windowStart}`, by its parts.
abbrev pub Key : Type 0
Key = String × ℕ

pub record Redis (S : Type 0) : Type 0 where
  pub incr : Key → S → S × Option ℕ
  pub pexpire : Key → (ms : ℕ) → S → S × Bool

pub record RateCheck : Type 0 where
  pub allowed : Bool
  pub wait_ms : ℕ

abbrev pub window_ms : ℕ
window_ms = 60000

abbrev pub max_wait_ms : ℕ
max_wait_ms = 70000

abbrev pub max_sleep_ms : ℕ
max_sleep_ms = 5000

abbrev pub window_start : ℕ → ℕ
window_start now = now / window_ms * window_ms

abbrev pub granted : RateCheck
granted = record { allowed = true; wait_ms = 0 }

-- Below, `count` is what the counter was incremented to.
unfoldable pub judge : (rate now count : ℕ) → RateCheck
judge rate now count =
    if leb count rate
    then granted
    else record { allowed = false; wait_ms = window_start now + window_ms - now }

module _ {S : Type 0} (redis : Redis S) where
  -- After an expiry that may have been rejected.
  unfoldable pub judge_expiring : (rate now : ℕ) → S × Bool → S × RateCheck
  unfolding judge
  judge_expiring rate now (s, true) = (s, judge rate now 1)
  judge_expiring rate now (s, false) = (s, granted)

  unfoldable pub judge_counted : Key → (rate now : ℕ) → S × Option ℕ → S × RateCheck
  unfolding judge judge_expiring
  judge_counted key rate now (s, none) = (s, granted)
  judge_counted key rate now (s, some count) =
      if count == 1
      then judge_expiring rate now (redis.pexpire key (window_ms * 2) s)
      else (s, judge rate now count)

  unfoldable pub check_rate_limit : (scope : String) → (rate now : ℕ) → S → S × RateCheck
  unfolding judge_counted
  check_rate_limit scope rate now s =
      let key : Key = (scope, window_start now) in judge_counted key rate now (redis.incr key s)

  module _ (now : S → ℕ) (sleep : ℕ → S → S) where
    -- The loop, with how long it has waited. None where the fuel runs out before the loop ends.
    unfoldable pub acquire_loop :
        (fuel : ℕ) → (scope : String) → (rate waited : ℕ) → S → Option (S × ℕ)
    unfolding check_rate_limit
    acquire_loop zero scope rate waited s = none
    acquire_loop (suc fuel) scope rate waited s =
        let (s', check) = check_rate_limit scope rate (now s) s in
        let pause = min check.wait_ms max_sleep_ms in
        elim (ltb waited max_wait_ms) [
          | false ↦ some (s, waited)
          | true ↦ elim check.allowed [
            | true ↦ some (s', waited)
            | false ↦ acquire_loop fuel scope rate (waited + pause) (sleep pause s')
          ]
        ]

    unfoldable pub acquire_rate_limit : (scope : String) → (rate : ℕ) → S → Option (S × ℕ)
    unfolding acquire_loop
    acquire_rate_limit scope rate s = acquire_loop (suc max_wait_ms) scope rate 0 s
