-- ===== src/Idempotency/Claims.antt =====
-- The laws of the map of packages/shared-core/src/idempotency.ts, and what a claim answers.
use hy_fib_wa_app.Prelude.Maps.{
  lookup, lookup-insert, lookup-delete, IsUnique, insert-IsUnique, delete-IsUnique,
}
use hy_fib_wa_app.Prelude.{
  ℕ, ◌+◌, ◌≡◌, refl, Bool, true, false, [], ◌∷◌, Option, none, some, String, str_eq, eq_iff, arith,
  inl, inr, ltb, if◌then◌else◌, Option-cases,
}
use hy_fib_wa_app.Idempotency.{
  Entries, delete_expired, Store, Options, prune_expired, prune_due, claim, is_duplicate, release,
}

-- The expiry of a claim that still stands at `now`.
abbrev pub standing : ℕ → Option ℕ → Option ℕ
standing now none = none
standing now (some expiry) = if ltb expiry now then none else some expiry

delete_expired-none :
    (now : ℕ) (k : String) (m : Entries)
    → lookup k m ≡ none
    → lookup k (delete_expired now m) ≡ none
unfolding lookup delete_expired
delete_expired-none now k [] h = refl
delete_expired-none now k ((j, e) ∷ m) h = ground (arith, eq_iff j k, delete_expired-none now k m)

pub lookup-delete_expired :
    (now : ℕ) (key : String) (m : Entries)
    → IsUnique m
    → lookup key (delete_expired now m) ≡ standing now (lookup key m)
unfolding lookup delete_expired
lookup-delete_expired now key [] u = refl
lookup-delete_expired now key ((k, e) ∷ m) u =
    ground (arith, eq_iff k key, lookup-delete_expired now key m, delete_expired-none now k m)

delete_expired-IsUnique : (now : ℕ) (m : Entries) → IsUnique m → IsUnique (delete_expired now m)
unfolding delete_expired
delete_expired-IsUnique now [] u = tt
delete_expired-IsUnique now ((k, e) ∷ m) u =
    ground (arith, delete_expired-none now k m, delete_expired-IsUnique now m)

pub prune_due-IsUnique :
    (o : Options) (now : ℕ) (s : Store) → IsUnique s.store → IsUnique (prune_due o now s).store
unfolding prune_due prune_expired
prune_due-IsUnique o now s u = ground (arith, delete_expired-IsUnique now s.store)

-- Pruning cannot be seen at the time of the pruning.
lookup-prune_due :
    (o : Options) (now : ℕ) (key : String) (s : Store)
    → IsUnique s.store
    → standing now (lookup key (prune_due o now s).store) ≡ standing now (lookup key s.store)
unfolding prune_due prune_expired
lookup-prune_due o now key s u = ground (arith, lookup-delete_expired now key s.store u)

claim-IsUnique :
    (o : Options) (key : String) (now : ℕ) (s : Store) (existing : Option ℕ)
    → IsUnique s.store
    → IsUnique (claim o key now s existing).0.store
unfolding claim
claim-IsUnique o key now s existing u = ground (arith, insert-IsUnique key (now + o.ttl_ms) s.store)

pub is_duplicate-IsUnique :
    (o : Options) (key : String) (now : ℕ) (s : Store)
    → IsUnique s.store
    → IsUnique (is_duplicate o key now s).0.store
unfolding is_duplicate
is_duplicate-IsUnique o key now s u =
    let p = prune_due o now s in
    claim-IsUnique o key now p (lookup key p.store) (prune_due-IsUnique o now s u)

pub release-IsUnique :
    (key : String) (s : Store) → IsUnique s.store → IsUnique (release key s).store
unfolding release
release-IsUnique key s u = delete-IsUnique key s.store u

-- Whether a claim stands.
abbrev pub stands : Option ℕ → Bool
stands none = false
stands (some expiry) = true

claim_lem :
    (o : Options) (key j : String) (now : ℕ) (s : Store)
    → ((claim o key now s (lookup key s.store)).1 ≡ stands (standing now (lookup key s.store)))
      × (standing now (lookup j (claim o key now s (lookup key s.store)).0.store) ≡ (
          if str_eq key j
          then some
              (elim (standing now (lookup key s.store)) [ none ↦ now + o.ttl_ms | some e ↦ e ])
          else standing now (lookup j s.store)))
unfolding claim
claim_lem o key j now s = elim (Option-cases (lookup key s.store)) [
  | inl e ↦ ground (arith, e, eq_iff key j, lookup-insert key j (now + o.ttl_ms) s.store)
  | inr (x, e) ↦ ground (arith, e, eq_iff key j, lookup-insert key j (now + o.ttl_ms) s.store)
]

-- A check answers "duplicate" exactly when a claim of the key stands. Afterwards a claim of the key
-- stands, until its old expiry or for the whole lifetime if it is new, and the claims on other keys
-- stand as before. So the pruning of expired entries is not seen.
pub is_duplicate_lem :
    (o : Options) (key j : String) (now : ℕ) (s : Store)
    → IsUnique s.store
    → ((is_duplicate o key now s).1 ≡ stands (standing now (lookup key s.store)))
      × (standing now (lookup j (is_duplicate o key now s).0.store) ≡ (
          if str_eq key j
          then some
              (elim (standing now (lookup key s.store)) [ none ↦ now + o.ttl_ms | some e ↦ e ])
          else standing now (lookup j s.store)))
unfolding is_duplicate
is_duplicate_lem o key j now s u =
    let (answer, after) = claim_lem o key j now (prune_due o now s) in
    let same = lookup-prune_due o now key s u in
    let other = lookup-prune_due o now j s u in rw (← same, ← other) (answer, after)

-- A release takes away the claim of its key and no other.
pub release_lem :
    (key j : String) (now : ℕ) (s : Store)
    → standing now (lookup j (release key s).store)
      ≡ (if str_eq key j then none else standing now (lookup j s.store))
unfolding release
release_lem key j now s = ground (arith, lookup-delete key j s.store)
