-- ===== src/Idempotency/Runs.antt =====
-- A claim of packages/shared-core/src/idempotency.ts through any sequence of other operations.
use hy_fib_wa_app.Prelude.Maps.{lookup, lookup-insert, lookup-delete, IsUnique}
use hy_fib_wa_app.Prelude.{
  ℕ, ◌+◌, ◌≤◌, ◌≡◌, ◌≢◌, refl, ap, ◌∙◌, Option-cases, true, false, List, [], ◌∷◌, some, String,
  str_eq, eq_iff, arith, All, Bool-cases, inl, inr, ltb,
}
use hy_fib_wa_app.Idempotency.{
  Entries, delete_expired, Store, Options, prune_expired, prune_due, claim, is_duplicate, release,
}
use hy_fib_wa_app.Idempotency.Claims.{is_duplicate_lem, release-IsUnique}

pub data Operation : Type 0 where
  check : (key : String) → (now : ℕ) → Operation
  forget : (key : String) → Operation

pub apply : Options → Operation → Store → Store
apply o (check key now) s = (is_duplicate o key now s).0
apply o (forget key) s = release key s

pub run : Options → List Operation → Store → Store
unfolding apply
run o [] s = s
run o (op ∷ ops) s = run o ops (apply o op s)

-- An operation that does not release `key`, and looks no later than `limit`.
abbrev pub Spares : String → ℕ → Operation → Type 0
Spares key limit (check k now) = now ≤ limit
Spares key limit (forget k) = k ≢ key

delete_expired-some :
    (now : ℕ) (key : String) (m : Entries) {e : ℕ}
    → now ≤ e
    → lookup key m ≡ some e
    → lookup key (delete_expired now m) ≡ some e
unfolding lookup delete_expired
delete_expired-some now key [] l h = cc
delete_expired-some now key ((k, x) ∷ m) l h =
    ground (arith, eq_iff k key, delete_expired-some now key m l)

claim-some :
    (o : Options) (k key : String) (now : ℕ) (s : Store) {e : ℕ}
    → now ≤ e
    → lookup key s.store ≡ some e
    → lookup key (claim o k now s (lookup k s.store)).0.store ≡ some e
unfolding claim
claim-some o k key now s {e} l h = elim (Bool-cases (str_eq k key)) [
  | inl y ↦
      let same : lookup k s.store ≡ some e = ap (λ j. lookup j s.store) ((eq_iff k key).0 y) ∙ h in
      rw same (ground arith)
  | inr n ↦ ground (arith, lookup-insert k key (now + o.ttl_ms) s.store)
]

prune_due-some :
    (o : Options) (key : String) (now : ℕ) (s : Store) {e : ℕ}
    → now ≤ e
    → lookup key s.store ≡ some e
    → lookup key (prune_due o now s).store ≡ some e
unfolding prune_due prune_expired
prune_due-some o key now s l h = ground (arith, delete_expired-some now key s.store l h)

apply-some :
    (o : Options) (key : String) (limit e : ℕ) (op : Operation) (s : Store)
    → limit ≤ e
    → Spares key limit op
    → lookup key s.store ≡ some e
    → lookup key (apply o op s).store ≡ some e
unfolding apply is_duplicate release
apply-some o key limit e (check k now) s l spares h =
    claim-some o k key now (prune_due o now s) (omega arith)
      (prune_due-some o key now s (omega arith) h)
apply-some o key limit e (forget k) s l spares h =
    ground (arith, lookup-delete k key s.store, eq_iff k key)

run-some :
    (o : Options) (key : String) (limit e : ℕ) (ops : List Operation) (s : Store)
    → limit ≤ e
    → All (Spares key limit) ops
    → lookup key s.store ≡ some e
    → lookup key (run o ops s).store ≡ some e
unfolding run
run-some o key limit e [] s l spares h = h
run-some o key limit e (op ∷ ops) s l (first, rest) h =
    run-some o key limit e ops (apply o op s) l rest (apply-some o key limit e op s l first h)

claimed-some :
    (o : Options) (key : String) (now : ℕ) (s : Store)
    → (is_duplicate o key now s).1 ≡ false
    → lookup key (is_duplicate o key now s).0.store ≡ some (now + o.ttl_ms)
unfolding is_duplicate claim
claimed-some o key now s h =
    let p = prune_due o now s in
    elim (Option-cases (lookup key p.store)) [
      | inl e ↦
          rw (e, claim)
            (ground (arith, lookup-insert key key (now + o.ttl_ms) p.store, eq_iff key key))
      | inr (x, e) ↦
          let fresh : ltb x now ≡ true = ground (arith, e) in
          rw (e, claim, fresh)
            (ground (arith, lookup-insert key key (now + o.ttl_ms) p.store, eq_iff key key))
    ]

some-duplicate :
    (o : Options) (key : String) (now e : ℕ) (s : Store)
    → now ≤ e
    → lookup key s.store ≡ some e
    → (is_duplicate o key now s).1 ≡ true
unfolding is_duplicate claim
some-duplicate o key now e s l h = rw (prune_due-some o key now s l h, claim) (ground arith)

-- Once a check has claimed a key at `t`, every check of it up to `t + ttl` answers "duplicate",
-- whatever checks and releases of other keys, and checks of the key, come between, in any order and
-- with any prunings: no work is done twice within the lifetime of its key.
pub is_duplicate-run :
    (o : Options) (key : String) (t now : ℕ) (s : Store) (ops : List Operation)
    → (is_duplicate o key t s).1 ≡ false
    → All (Spares key (t + o.ttl_ms)) ops
    → now ≤ t + o.ttl_ms
    → (is_duplicate o key now (run o ops (is_duplicate o key t s).0)).1 ≡ true
is_duplicate-run o key t now s ops claimed spares l = some-duplicate o key now (t + o.ttl_ms) _ l (
    run-some o key (t + o.ttl_ms) (t + o.ttl_ms) ops _ (omega arith) spares
      (claimed-some o key t s claimed))

-- A key that was released can be claimed again at once.
pub is_duplicate-release :
    (o : Options) (key : String) (now : ℕ) (s : Store)
    → IsUnique s.store
    → (is_duplicate o key now (release key s)).1 ≡ false
unfolding release
is_duplicate-release o key now s u = ground (
  arith,
  (is_duplicate_lem o key key now (release key s) (release-IsUnique key s u)).0,
  lookup-delete key key s.store,
  (eq_iff key key).1 refl,
)
