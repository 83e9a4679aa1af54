-- ===== src/RateCounter/Waiting.antt =====
-- The loop of packages/ratelimit/src/index.ts ends, whatever Redis, the clock and the timer do.
use hy_fib_wa_app.Prelude.{
  ℕ, zero, suc, ◌+◌, ◌*◌, ◌≤◌, ◌<◌, ◌≡◌, inl, inr, min, Bool, true, false, Option, none, some,
  String, arith, ltb, ◌==◌, Bool-cases,
}
use hy_fib_wa_app.RateCounter.{acquire_loop, acquire_rate_limit}
use hy_fib_wa_app.RateCounter.{
  Key, Redis, RateCheck, window_ms, max_wait_ms, max_sleep_ms, window_start, judge, judge_expiring,
  judge_counted, check_rate_limit,
}

-- A refusal asks for a wait of at least one millisecond and at most a window.
abbrev IsRefusal : RateCheck → Type 0
IsRefusal check = check.allowed ≡ false → (1 ≤ check.wait_ms) × (check.wait_ms ≤ window_ms)

judge-IsRefusal : (rate now count : ℕ) → IsRefusal (judge rate now count)
unfolding judge
judge-IsRefusal rate now count h = ground arith

-- The loop returned, and had waited so long at most.
abbrev pub Returns {ℓ} : {S : Type ℓ} → Option (S × ℕ) → Type 0
Returns none = ⊥
Returns (some (s, waited)) = waited < max_wait_ms + max_sleep_ms

module _ {S : Type 0} (redis : Redis S) where
  judge_expiring-IsRefusal :
      (rate now : ℕ) (answer : S × Bool) → IsRefusal (judge_expiring redis rate now answer).1
  unfolding judge_expiring
  judge_expiring-IsRefusal rate now (s, true) h = judge-IsRefusal rate now 1 h
  judge_expiring-IsRefusal rate now (s, false) h = cc

  judge_counted-IsRefusal :
      (key : Key) (rate now : ℕ) (answer : S × Option ℕ)
      → IsRefusal (judge_counted redis key rate now answer).1
  unfolding judge_counted
  judge_counted-IsRefusal key rate now (s, none) = λ h. cc
  judge_counted-IsRefusal key rate now (s, some count) = elim (Bool-cases (count == 1)) [
    | inl y ↦ rw y (judge_expiring-IsRefusal rate now (redis.pexpire key (window_ms * 2) s))
    | inr n ↦ rw n (judge-IsRefusal rate now count)
  ]

  check_rate_limit-IsRefusal :
      (scope : String) (rate now : ℕ) (s : S)
      → IsRefusal (check_rate_limit redis scope rate now s).1
  unfolding check_rate_limit
  check_rate_limit-IsRefusal scope rate now s =
      let key : Key = (scope, window_start now) in
      judge_counted-IsRefusal key rate now (redis.incr key s)

  module _ (now : S → ℕ) (sleep : ℕ → S → S) where
    acquire_loop-Returns :
        (fuel : ℕ) (scope : String) (rate waited : ℕ) (s : S)
        → 1 ≤ fuel
        → max_wait_ms < fuel + waited
        → waited < max_wait_ms + max_sleep_ms
        → Returns (acquire_loop redis now sleep fuel scope rate waited s)
    unfolding acquire_loop
    acquire_loop-Returns zero scope rate waited s some_left enough short = absurd (omega arith)
    acquire_loop-Returns (suc fuel) scope rate waited s some_left enough short =
        let answer = check_rate_limit redis scope rate (now s) s in
        let pause = min answer.1.wait_ms max_sleep_ms in
        elim (Bool-cases (ltb waited max_wait_ms)) [
          | inr n ↦ rw (n, acquire_loop) short
          | inl y ↦ elim (Bool-cases answer.1.allowed) [
            | inl a ↦ rw (y, a, acquire_loop) short
            | inr r ↦
                let wait = check_rate_limit-IsRefusal scope rate (now s) s r in
                rw (y, r, acquire_loop)
                  (acquire_loop-Returns fuel scope rate (waited + pause) (sleep pause answer.0)
                    (ground arith) (ground arith) (ground arith))
          ]
        ]

    -- Whatever Redis, the clock and the timer do, a slot is acquired or given up on after a finite
    -- number of rounds and less than 75 seconds of waiting.
    pub acquire_rate_limit-Returns :
        (scope : String) (rate : ℕ) (s : S)
        → Returns (acquire_rate_limit redis now sleep scope rate s)
    unfolding acquire_rate_limit
    acquire_rate_limit-Returns scope rate s =
        acquire_loop-Returns (suc max_wait_ms) scope rate 0 s (omega arith) (omega arith)
          (omega arith)
