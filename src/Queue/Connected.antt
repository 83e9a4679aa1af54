-- ===== src/Queue/Connected.antt =====
-- How long packages/queue/src/index.ts tries to connect.
use hy_fib_wa_app.Prelude.{
  ℕ, zero, suc, ◌+◌, ◌*◌, ◌≤◌, ◌<◌, ◌≡◌, ◌⊎◌, inl, inr, refl, Bool, true, false, arith, Bool-cases,
  ◌==◌, sym, subst,
}
use hy_fib_wa_app.Queue.{max_attempts, max_delay_ms, connect}
use hy_fib_wa_app.Queue.{delay_ms, ConnectResult, connect_loop}

-- What the loop has waited when it has made so many attempts, all of which failed.
abbrev pub waited_after : ℕ → ℕ
waited_after zero = 0
waited_after (suc n) = waited_after n + delay_ms (n + 1)

-- The result of the attempts: the first that succeeds ends them, and if none does, all were made.
pub record IsOutcome (succeeds : ℕ → Bool) (from most : ℕ) (result : ConnectResult) : Type 0 where
  pub bounded : result.attempts ≤ most
  pub failed : (n : ℕ) → from ≤ n → n < result.attempts → succeeds n ≡ false
  pub ended :
      (result.connected ≡ true) × (succeeds result.attempts ≡ true)
      ⊎ (result.connected ≡ false) × (result.attempts ≡ most)
  pub waited : result.waited_ms ≡ waited_after result.attempts

waited_after-next : (n : ℕ) → waited_after (n + 1) ≡ waited_after n + delay_ms (n + 1)
waited_after-next n = ground arith

waited_after_bound : (n : ℕ) → waited_after n ≤ n * max_delay_ms
unfolding delay_ms
waited_after_bound zero = omega arith
waited_after_bound (suc n) = ground (arith, waited_after_bound n)

connect_loop-IsOutcome :
    (succeeds : ℕ → Bool) (left attempt waited most : ℕ)
    → attempt + left ≡ most
    → waited ≡ waited_after attempt
    → IsOutcome succeeds attempt most (connect_loop succeeds left attempt waited)
unfolding connect_loop
connect_loop-IsOutcome succeeds zero attempt waited most m w = record {
  bounded = omega arith;
  failed = λ n a b. absurd (omega arith);
  ended = inr (refl, omega arith);
  waited = w;
}
connect_loop-IsOutcome succeeds (suc left) attempt waited most m w =
    elim (Bool-cases (succeeds attempt)) [
      | inl y ↦
          rw (y, connect_loop)
            (record {
              bounded = omega arith;
              failed = λ n a b. absurd (omega arith);
              ended = inl (refl, y);
              waited = w;
            })
      | inr x ↦
          let later =
            connect_loop-IsOutcome succeeds left (attempt + 1) (waited + delay_ms (attempt + 1))
              most (omega arith) (rw w (sym (waited_after-next attempt))) in
          rw (x, connect_loop)
            (record {
              bounded = later.bounded;
              failed = λ n a b. before_or_later x n a b (later.failed n);
              ended = later.ended;
              waited = later.waited;
            })
    ]
  where
    before_or_later :
        {k : ℕ}
        → succeeds attempt ≡ false
        → (n : ℕ) → attempt ≤ n
        → n < k
        → (attempt + 1 ≤ n → n < k → succeeds n ≡ false)
        → succeeds n ≡ false
    before_or_later x n a b f = elim (Bool-cases (attempt == n)) [
      | inl e ↦ let same : attempt ≡ n = ground arith in subst (λ k. succeeds k ≡ false) same x
      | inr d ↦ f (ground arith) b
    ]

-- A connect ends with the first attempt that succeeds, or has failed after 30. It has waited the
-- delays of the attempts that failed, and 7 and a half minutes at most.
pub connect-IsOutcome :
    (succeeds : ℕ → Bool)
    → IsOutcome succeeds 0 max_attempts (connect succeeds)
      × ((connect succeeds).waited_ms ≤ max_attempts * max_delay_ms)
unfolding connect
connect-IsOutcome succeeds =
    let outcome =
      connect_loop-IsOutcome succeeds max_attempts 0 0 max_attempts (omega arith) refl in
    (
      outcome,
      omega
          (arith, outcome.waited, outcome.bounded, waited_after_bound (connect succeeds).attempts),
    )
