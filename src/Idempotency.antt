-- ===== src/Idempotency.antt =====
-- packages/shared-core/src/idempotency.ts: the store of claimed keys in memory, and the one on Redis.
-- The map is an association list with one entry to a key; `Date.now()` is the argument `now`, in
-- milliseconds. An operation returns the new store and its result.
pub mod Claims
pub mod Runs
pub mod Redis
pub mod Tests
use hy_fib_wa_app.Prelude.Maps.{lookup, insert, delete}
use hy_fib_wa_app.Prelude.{
  ℕ, ◌+◌, Bool, true, false, List, [], ◌∷◌, Option, none, some, String, str_eq, ltb, leb,
  if◌then◌else◌,
}

abbrev pub Entries : Type 0
Entries = List (String × ℕ)

unfoldable pub delete_expired : ℕ → Entries → Entries
delete_expired now [] = []
delete_expired now ((k, expiry) ∷ m) =
    let rest = delete_expired now m in if ltb expiry now then rest else (k, expiry) ∷ rest

pub record Store : Type 0 where
  pub store : Entries
  pub last_prune_at : ℕ

pub record Options : Type 0 where
  pub ttl_ms : ℕ
  pub prune_interval_ms : ℕ

unfoldable pub prune_expired : ℕ → Store → Store
prune_expired now s = record { store = delete_expired now s.store; last_prune_at = now }

-- The pruning at the head of `isDuplicate`.
unfoldable pub prune_due : Options → ℕ → Store → Store
prune_due o now s =
    if leb (s.last_prune_at + o.prune_interval_ms) now then prune_expired now s else s

unfoldable pub claim : Options → String → ℕ → Store → Option ℕ → Store × Bool
claim o key now s none = (record s { store = insert key (now + o.ttl_ms) s.store }, false)
claim o key now s (some existing) =
    if ltb existing now
    then (record s { store = insert key (now + o.ttl_ms) s.store }, false)
    else (s, true)

unfoldable pub is_duplicate : Options → String → ℕ → Store → Store × Bool
is_duplicate o key now s =
    let pruned = prune_due o now s in claim o key now pruned (lookup key pruned.store)

unfoldable pub release : String → Store → Store
release key s = record s { store = delete key s.store }
