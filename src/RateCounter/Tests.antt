-- ===== src/RateCounter/Tests.antt =====
-- Runs of the rate limiter on a Redis that keeps the keys that were incremented, with a clock.
use hy_fib_wa_app.Prelude.{
  ℕ, ◌+◌, ◌-◌, ◌≡◌, refl, min, true, false, List, [], ◌∷◌, none, some, String, arith, if◌then◌else◌,
  eq_iff, ==_iff,
}
use hy_fib_wa_app.RateCounter.{
  Key, Redis, granted, judge_counted, check_rate_limit, acquire_rate_limit,
}
use hy_fib_wa_app.RateCounter.Bounds.{key_eq, Counts, grants_of, checks_of, grants_of-rate}
use hy_fib_wa_app.RateCounter.Waiting.{Returns, acquire_rate_limit-Returns}

abbrev Keys : Type 0
Keys = List Key

-- How often a key was incremented.
abbrev count : Keys → Key → ℕ
count [] key = 0
count (k ∷ ks) key = let rest = count ks key in if key_eq k key then rest + 1 else rest

abbrev redis : Redis Keys
redis = record {
  incr = λ key ks. (key ∷ ks, some (count ks key + 1));
  pexpire = λ key ms ks. (ks, true);
}

-- A Redis that is away.
abbrev redis_away : Redis Keys
redis_away = record { incr = λ key ks. (ks, none); pexpire = λ key ms ks. (ks, false) }

key_eq_refl : (key : Key) → key_eq key key ≡ true
key_eq_refl (scope, window) =
    let same = (eq_iff scope scope).1 refl in ground (arith, same, ==_iff window window)

redis-Counts : Counts redis count
redis-Counts = record {
  incr_answers = λ key s. refl;
  incr_counts = λ key s. rw (key_eq_refl key) refl;
  incr_others = λ key other s h. rw h refl;
  pexpire_answers = λ key ms s. refl;
  pexpire_keeps = λ key ms s other. refl;
}

abbrev busy_minute : List (String × ℕ)
busy_minute =
    ("acme", 60000) ∷ ("other", 60500) ∷ ("acme", 61000) ∷ ("acme", 119999) ∷ ("acme", 120000) ∷ []

abbrev acme_key : Key
acme_key = ("acme", 60000)

grants_of-rate_example :
    grants_of redis acme_key 2 busy_minute []
    ≡ min (checks_of acme_key busy_minute) (2 - count [] acme_key)
grants_of-rate_example = grants_of-rate redis count redis-Counts acme_key 2 busy_minute []

two_granted : grants_of redis acme_key 2 busy_minute [] ≡ 2
unfolding grants_of check_rate_limit judge_counted
two_granted = refl

open_without_redis : check_rate_limit redis_away "acme" 0 5 [] ≡ ([], granted)
unfolding check_rate_limit judge_counted
open_without_redis = refl

-- A clock that the timer moves on.
abbrev Timed : Type 0
Timed = ℕ × Keys

abbrev timed : Redis Timed
timed = record {
  incr = λ key s. let (ks, answer) = redis.incr key s.1 in ((s.0, ks), answer);
  pexpire = λ key ms s. (s, true);
}

abbrev sleep : ℕ → Timed → Timed
sleep ms s = (s.0 + ms, s.1)

abbrev late : Timed
late = (112000, acme_key ∷ [])

waits_for_the_next_minute :
    acquire_rate_limit timed (λ s. s.0) sleep "acme" 1 late
    ≡ some ((120000, ("acme", 120000) ∷ acme_key ∷ acme_key ∷ acme_key ∷ []), 8000)
unfolding acquire_rate_limit
waits_for_the_next_minute = refl

acquire_rate_limit-Returns_example :
    Returns (acquire_rate_limit timed (λ s. s.0) sleep "acme" 1 late)
acquire_rate_limit-Returns_example = acquire_rate_limit-Returns timed (λ s. s.0) sleep "acme" 1 late
