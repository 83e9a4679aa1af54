-- ===== src/Idempotency/Redis.antt =====
-- The store on Redis of packages/shared-core/src/idempotency.ts. Redis is a parameter: `set` is
-- SET key 1 EX seconds NX, whose answer is true where it is "OK".
use hy_fib_wa_app.Prelude.{ℕ, ◌≡◌, refl, Bool, true, false, not, String}
use Prim.Native.String.{◌++◌}

pub record RedisSetNx (S : Type 0) : Type 0 where
  pub set : String → (seconds : ℕ) → S → S × Bool
  pub del : String → S → S

-- What Redis documents of SET with NX and of DEL, before the key expires.
pub record KeepsKeys {S : Type 0} (redis : RedisSetNx S) (holds : S → String → Bool) : Type 0 where
  pub set_answers :
      (key : String) (seconds : ℕ) (s : S) → (redis.set key seconds s).1 ≡ not (holds s key)
  pub set_keeps :
      (key : String) (seconds : ℕ) (s : S) → holds (redis.set key seconds s).0 key ≡ true
  pub del_drops : (key : String) (s : S) → holds (redis.del key s) key ≡ false

module _ {S : Type 0} (redis : RedisSetNx S) (ttl_seconds : ℕ) (key_prefix : String) where
  pub redis_is_duplicate : String → S → S × Bool
  redis_is_duplicate key s =
      let (after, ok) = redis.set (key_prefix ++ key) ttl_seconds s in (after, not ok)

  pub redis_release : String → S → S
  redis_release key s = redis.del (key_prefix ++ key) s

  -- On Redis too, a key that was checked is a duplicate when it is checked again, and a key that was
  -- released is not.
  pub redis_is_duplicate_lem :
      (holds : S → String → Bool) (key : String) (s : S)
      → KeepsKeys redis holds
      → ((redis_is_duplicate key (redis_is_duplicate key s).0).1 ≡ true)
        × ((redis_is_duplicate key (redis_release key s)).1 ≡ false)
  unfolding redis_is_duplicate redis_release
  redis_is_duplicate_lem holds key s k =
      let name = key_prefix ++ key in
      (
        rw
            (
              k.set_answers name ttl_seconds (redis.set name ttl_seconds s).0,
              k.set_keeps name ttl_seconds s,
            )
            refl,
        rw (k.set_answers name ttl_seconds (redis.del name s), k.del_drops name s) refl,
      )
