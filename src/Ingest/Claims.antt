-- ===== src/Ingest/Claims.antt =====
-- The idempotency store that services/webhook-ingestor/src/ingest.ts is given: what it answers, and the
-- keys that are claimed, over a span of time in which no claim that it makes expires.
use hy_fib_wa_app.Prelude.{ℕ, ◌+◌, ◌≤◌, ◌≡◌, Bool, not, ◌&&◌, ◌||◌, String, str_eq}

-- A reading of the clock no more than the lifetime of a claim after `from`, in milliseconds.
pub record Moment (from ttl_ms : ℕ) : Type 0 where
  pub now : ℕ
  pub begun : from ≤ now
  pub in_time : now ≤ from + ttl_ms

pub record IdempotencyStore (S : Type 0) (from ttl_ms : ℕ) : Type 0 where
  pub is_duplicate : String → Moment from ttl_ms → S → S × Bool
  pub release : String → S → S
  pub claimed : S → String → Bool
  pub answers :
      (key : String) (m : Moment from ttl_ms) (s : S) → (is_duplicate key m s).1 ≡ claimed s key
  pub claims :
      (key j : String) (m : Moment from ttl_ms) (s : S)
      → claimed (is_duplicate key m s).0 j ≡ (str_eq key j || claimed s j)
  pub releases :
      (key j : String) (s : S) → claimed (release key s) j ≡ (not (str_eq key j) && claimed s j)
