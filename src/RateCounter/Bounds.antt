-- ===== src/RateCounter/Bounds.antt =====
-- How many slots packages/ratelimit/src/index.ts grants in a window.
use hy_fib_wa_app.Prelude.{
  ℕ, suc, ◌+◌, ◌-◌, ◌*◌, ◌≡◌, inl, inr, refl, min, Bool, true, false, ◌&&◌, List, [], ◌∷◌, Option,
  some, String, arith, leb, ◌==◌, if◌then◌else◌, Bool-cases, str_eq, eq_iff, ap, ◌∙◌,
}
use hy_fib_wa_app.RateCounter.{window_ms}
use hy_fib_wa_app.RateCounter.{
  Key, Redis, RateCheck, window_start, judge, judge_expiring, judge_counted, check_rate_limit,
}

abbrev pub key_eq : Key → Key → Bool
key_eq (scope, window) (scope', window') = str_eq scope scope' && window == window'

-- What Redis documents of INCR and PEXPIRE, where neither is rejected and no key has expired: a
-- counter that is missing counts from 0.
pub record Counts {S : Type 0} (redis : Redis S) (count : S → Key → ℕ) : Type 0 where
  pub incr_answers : (key : Key) (s : S) → (redis.incr key s).1 ≡ some (count s key + 1)
  pub incr_counts : (key : Key) (s : S) → count (redis.incr key s).0 key ≡ count s key + 1
  pub incr_others :
      (key other : Key) (s : S)
      → key_eq key other ≡ false
      → count (redis.incr key s).0 other ≡ count s other
  pub pexpire_answers : (key : Key) (ms : ℕ) (s : S) → (redis.pexpire key ms s).1 ≡ true
  pub pexpire_keeps :
      (key : Key) (ms : ℕ) (s : S) (other : Key)
      → count (redis.pexpire key ms s).0 other ≡ count s other

-- How many checks are of a counter.
abbrev pub checks_of : Key → List (String × ℕ) → ℕ
checks_of key [] = 0
checks_of key ((scope, now) ∷ checks) =
    let rest = checks_of key checks in
    if key_eq (scope, window_start now) key then suc rest else rest

module _ {S : Type 0} (redis : Redis S) where
  -- The checks that are made, by scope and time, with the same rate; and how many of those of a
  -- counter are granted.
  unfoldable pub grants_of : Key → (rate : ℕ) → List (String × ℕ) → S → ℕ
  grants_of key rate [] s = 0
  grants_of key rate ((scope, now) ∷ checks) s =
      let (s', check) = check_rate_limit redis scope rate now s in
      let rest = grants_of key rate checks s' in
      if key_eq (scope, window_start now) key && check.allowed then suc rest else rest

  module _ (count : S → Key → ℕ) (documented : Counts redis count) where
    expiring_lem :
        (rate now : ℕ) (answer : S × Bool)
        → answer.1 ≡ true
        → ((judge_expiring redis rate now answer).1.allowed ≡ leb 1 rate)
          × ((judge_expiring redis rate now answer).0 ≡ answer.0)
    unfolding judge_expiring judge
    expiring_lem rate now (s, true) h = ground arith
    expiring_lem rate now (s, false) h = cc

    counted_lem :
        (key : Key) (rate now : ℕ) (s : S) (n : ℕ)
        → ((judge_counted redis key rate now (s, some n)).1.allowed ≡ leb n rate)
          × ((other : Key)
              → count (judge_counted redis key rate now (s, some n)).0 other ≡ count s other)
    unfolding judge_counted judge
    counted_lem key rate now s n = elim (Bool-cases (n == 1)) [
      | inl y ↦
          let answer = redis.pexpire key (window_ms * 2) s in
          let (allowed, same) =
            expiring_lem rate now answer (documented.pexpire_answers key (window_ms * 2) s) in
          let n_one : n ≡ 1 = ground arith in
          rw (y, judge_counted)
            (
              rw n_one allowed,
              λ other. rw same (documented.pexpire_keeps key (window_ms * 2) s other),
            )
      | inr m ↦ rw (m, judge_counted) (judged n, λ other. refl)
    ]
      where
        judged : (n : ℕ) → (judge rate now n).allowed ≡ leb n rate
        judged n = ground arith

    -- What one check answers and does to the counters.
    abbrev Stepped : Key → (rate : ℕ) → S → S × RateCheck → Type 0
    Stepped key rate s answer =
        (answer.1.allowed ≡ leb (count s key + 1) rate)
        × (count answer.0 key ≡ count s key + 1)
        × ((other : Key) → key_eq key other ≡ false → count answer.0 other ≡ count s other)

    check-Stepped :
        (scope : String) (rate now : ℕ) (s : S)
        → Stepped (scope, window_start now) rate s (check_rate_limit redis scope rate now s)
    unfolding check_rate_limit
    check-Stepped scope rate now s =
        let key : Key = (scope, window_start now) in
        let (allowed, same) = counted_lem key rate now (redis.incr key s).0 (count s key + 1) in
        rw (answered key s) (
          allowed,
          same key ∙ documented.incr_counts key s,
          λ other differs. same other ∙ documented.incr_others key other s differs,
        )
      where
        answered :
            (key : Key) (s : S) → redis.incr key s ≡ ((redis.incr key s).0, some (count s key + 1))
        answered key s =
            ap (λ (o : Option ℕ). ((redis.incr key s).0, o)) (documented.incr_answers key s)

    -- On a Redis that answers and counts as documented, for one scope, minute and rate: of the
    -- checks that are made, however those of other scopes and minutes come between them, exactly as
    -- many are granted as the counter leaves below the rate.
    pub grants_of-rate :
        (key : Key) (rate : ℕ) (checks : List (String × ℕ)) (s : S)
        → grants_of key rate checks s ≡ min (checks_of key checks) (rate - count s key)
    unfolding grants_of
    grants_of-rate key rate [] s = omega arith
    grants_of-rate key rate ((scope, now) ∷ checks) s =
        let answer = check_rate_limit redis scope rate now s in
        let (allowed, counted, others) = check-Stepped scope rate now s in
        let ih = grants_of-rate key rate checks answer.0 in
        elim (Bool-cases (key_eq (scope, window_start now) key)) [
          | inl y ↦
              let same = count_same answer.0 (scope, window_start now) key y in
              let same' = count_same s (scope, window_start now) key y in
              rw (y, allowed, ih) (ground (arith, same, same', counted))
          | inr n ↦ let other = others key n in rw (n, ih, other) refl
        ]
      where
        count_same : (s : S) (k key : Key) → key_eq k key ≡ true → count s k ≡ count s key
        count_same s (scope, window) (scope', window') h =
            let names : scope ≡ scope' = (eq_iff scope scope').0 (ground arith) in
            let windows : window ≡ window' = ground arith in cc
