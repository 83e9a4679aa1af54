-- ===== src/Idempotency/Tests.antt =====
-- Runs of packages/shared-core/src/idempotency.ts, and its theorems at a short history.
use hy_fib_wa_app.Idempotency.Redis.{RedisSetNx, KeepsKeys}
use hy_fib_wa_app.Prelude.Maps.{lookup, insert, delete}
use hy_fib_wa_app.Prelude.{
  ◌≡◌, refl, Bool, true, false, not, ◌&&◌, ◌||◌, String, [], ◌∷◌, str_eq, eq_iff, arith,
}
use hy_fib_wa_app.Idempotency.{
  delete_expired, Store, Options, prune_expired, prune_due, claim, is_duplicate, release,
}
use hy_fib_wa_app.Idempotency.Runs.{check, forget, run, is_duplicate-run}

store_runs : Unit {0}
unfolding is_duplicate claim prune_due prune_expired release lookup insert delete delete_expired
store_runs = tt

abbrev options : Options
options = record { ttl_ms = 100; prune_interval_ms = 60 }

abbrev fresh : Store
fresh = record { store = []; last_prune_at = 0 }

abbrev claimed : Store
claimed = (is_duplicate options "a" 10 fresh).0

history :
    ((is_duplicate options "a" 10 fresh).1 ≡ false)
    × ((is_duplicate options "a" 110 claimed).1 ≡ true)
    × ((is_duplicate options "a" 111 claimed).1 ≡ false)
    × ((is_duplicate options "a" 20 (release "a" claimed)).1 ≡ false)
unfolding store_runs
history = (refl, refl, refl, refl)

is_duplicate-run_example :
    (is_duplicate options "a" 105
      (run options (check "b" 90 ∷ forget "b" ∷ check "a" 100 ∷ []) claimed)).1
    ≡ true
is_duplicate-run_example =
    is_duplicate-run options "a" 10 105 fresh (check "b" 90 ∷ forget "b" ∷ check "a" 100 ∷ [])
      history.0 (omega arith, (ground (arith, eq_iff "b" "a"), (omega arith, tt))) (omega arith)

-- Redis as the set of its keys.
abbrev key_set : RedisSetNx (String → Bool)
key_set = record {
  set = λ key seconds s. ((λ k. str_eq key k || s k), not (s key));
  del = λ key s. λ k. not (str_eq key k) && s k;
}

abbrev member_of : (String → Bool) → String → Bool
member_of s k = s k

key_set-KeepsKeys : KeepsKeys key_set member_of
key_set-KeepsKeys = record {
  set_answers = λ key seconds s. refl;
  set_keeps = λ key seconds s. ground (arith, eq_iff key key);
  del_drops = λ key s. ground (arith, eq_iff key key);
}

abbrev no_keys : String → Bool
no_keys k = false
