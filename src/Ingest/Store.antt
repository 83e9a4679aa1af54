-- ===== src/Ingest/Store.antt =====
-- The store of packages/shared-core/src/idempotency.ts is one that services/webhook-ingestor/src/ingest.ts
-- may be given, over a span as long as the lifetime of its claims, if it holds no older ones.
use hy_fib_wa_app.Prelude.Maps.{lookup, insert, delete, lookup-delete, IsUnique}
use hy_fib_wa_app.Prelude.{
  ℕ, ◌+◌, ◌≤◌, ◌≡◌, inl, inr, refl, sym, ap, ◌∙◌, Bool, [], ◌∷◌, Option-cases, String, str_eq,
  arith, not, ◌&&◌, ◌||◌, All,
}
use hy_fib_wa_app.Idempotency
use hy_fib_wa_app.Idempotency.{Entries, Options, Store}
use hy_fib_wa_app.Idempotency.Claims.{
  standing, stands, is_duplicate_lem, is_duplicate-IsUnique, release-IsUnique,
}
use hy_fib_wa_app.Ingest.Claims.{Moment, IdempotencyStore}

-- No claim expires before a time.
abbrev pub Lasts : ℕ → Entries → Type 0
Lasts until m = All (λ x. until ≤ x.1) m

delete_expired-Lasts :
    (until now : ℕ) (m : Entries) → Lasts until m → Lasts until (Idempotency.delete_expired now m)
unfolding Idempotency.delete_expired
delete_expired-Lasts until now [] h = tt
delete_expired-Lasts until now ((k, e) ∷ m) (h, hs) =
    ground (arith, delete_expired-Lasts until now m hs)

insert-Lasts :
    (until : ℕ) (key : String) (e : ℕ) (m : Entries)
    → until ≤ e
    → Lasts until m
    → Lasts until (insert key e m)
unfolding insert
insert-Lasts until key e [] l h = (l, tt)
insert-Lasts until key e ((k, old) ∷ m) l (h, hs) = ground (arith, insert-Lasts until key e m l hs)

delete-Lasts : (until : ℕ) (key : String) (m : Entries) → Lasts until m → Lasts until (delete key m)
unfolding delete
delete-Lasts until key [] h = tt
delete-Lasts until key ((k, old) ∷ m) (h, hs) = ground (arith, delete-Lasts until key m hs)

pub is_duplicate-Lasts :
    (o : Options) (until now : ℕ) (key : String) (s : Store)
    → until ≤ now + o.ttl_ms
    → Lasts until s.store
    → Lasts until (Idempotency.is_duplicate o key now s).0.store
unfolding Idempotency.is_duplicate Idempotency.prune_due Idempotency.prune_expired Idempotency.claim
is_duplicate-Lasts o until now key s l h =
    let pruned = Idempotency.prune_due o now s in
    let kept : Lasts until pruned.store =
      ground (arith, delete_expired-Lasts until now s.store h) in
    elim (Option-cases (lookup key pruned.store)) [
      | inl e ↦ rw e (insert-Lasts until key (now + o.ttl_ms) pruned.store l kept)
      | inr (x, e) ↦
          rw e (ground (arith, insert-Lasts until key (now + o.ttl_ms) pruned.store l kept))
    ]

pub release-Lasts :
    (until : ℕ) (key : String) (s : Store)
    → Lasts until s.store
    → Lasts until (Idempotency.release key s).store
unfolding Idempotency.release
release-Lasts until key s h = delete-Lasts until key s.store h

-- A claim that lasts stands at every time before.
standing-Lasts :
    (until now : ℕ) (key : String) (m : Entries)
    → now ≤ until
    → Lasts until m
    → standing now (lookup key m) ≡ lookup key m
unfolding lookup
standing-Lasts until now key [] l h = refl
standing-Lasts until now key ((k, e) ∷ m) l (h, hs) =
    ground (arith, standing-Lasts until now key m l hs)

module _ (o : Options) (from : ℕ) where
  abbrev pub Lasting : Type 0
  Lasting = (s : Store) × IsUnique s.store × Lasts (from + o.ttl_ms) s.store

  abbrev pub has_claim : Lasting → String → Bool
  has_claim (s, unique, lasts) key = stands (lookup key s.store)

  abbrev pub check : String → Moment from o.ttl_ms → Lasting → Lasting × Bool
  check key m (s, unique, lasts) = (
    (
      (Idempotency.is_duplicate o key m.now s).0,
      is_duplicate-IsUnique o key m.now s unique,
      is_duplicate-Lasts o (from + o.ttl_ms) m.now key s (omega (arith, m.begun)) lasts,
    ),
    (Idempotency.is_duplicate o key m.now s).1,
  )

  abbrev pub drop_claim : String → Lasting → Lasting
  drop_claim key (s, unique, lasts) = (
    Idempotency.release key s,
    release-IsUnique key s unique,
    release-Lasts (from + o.ttl_ms) key s lasts,
  )

  pub answers_lem :
      (key : String) (m : Moment from o.ttl_ms) (s : Lasting) → (check key m s).1 ≡ has_claim s key
  answers_lem key m (s, unique, lasts) =
      (is_duplicate_lem o key key m.now s unique).0
      ∙ ap stands (standing-Lasts (from + o.ttl_ms) m.now key s.store m.in_time lasts)

  pub claims_lem :
      (key j : String) (m : Moment from o.ttl_ms) (s : Lasting)
      → has_claim (check key m s).0 j ≡ (str_eq key j || has_claim s j)
  claims_lem key j m (s, unique, lasts) =
      let (after, duplicate) = check key m (s, unique, lasts) in
      let later = standing-Lasts (from + o.ttl_ms) m.now j after.0.store m.in_time after.2 in
      let before = standing-Lasts (from + o.ttl_ms) m.now j s.store m.in_time lasts in
      ap stands (sym later)
      ∙ ap stands (is_duplicate_lem o key j m.now s unique).1
      ∙ (rw before (ground arith))

  pub releases_lem :
      (key j : String) (s : Lasting)
      → has_claim (drop_claim key s) j ≡ (not (str_eq key j) && has_claim s j)
  unfolding Idempotency.release
  releases_lem key j (s, unique, lasts) = ground (arith, lookup-delete key j s.store)

  abbrev pub in_memory : IdempotencyStore Lasting from o.ttl_ms
  in_memory = record {
    is_duplicate = check;
    release = drop_claim;
    claimed = has_claim;
    answers = answers_lem;
    claims = claims_lem;
    releases = releases_lem;
  }
