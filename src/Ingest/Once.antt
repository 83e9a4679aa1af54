-- ===== src/Ingest/Once.antt =====
-- Every item of a webhook is published once, whatever fails and is delivered again:
-- services/webhook-ingestor/src/ingest.ts.
use hy_fib_wa_app.Prelude.{
  ℕ, ◌≡◌, sym, ap, subst, Bool, true, false, ◌||◌, List, [], ◌∷◌, String, str_eq, eq_iff, arith,
  any, Bool-cases, inl, inr,
}
use hy_fib_wa_app.Ingest.Claims.{IdempotencyStore}
use hy_fib_wa_app.Ingest.{
  WebhookPayload, IngestSummary, Kind, Surroundings, World, Outcome, returned, thrown, ◌>>=◌,
  publish, release_claim, settle, handle, ingest_meta_webhook, empty_summary,
}
use hy_fib_wa_app.Ingest.Items.{Item, items, process, ingest_meta_webhook-process}

abbrev pub member : String → List String → Bool
member key keys = any (λ k. str_eq k key) keys

-- No key twice.
abbrev pub Distinct : List String → Type 0
Distinct [] = Unit
Distinct (k ∷ keys) = (member k keys ≡ false) × Distinct keys

abbrev pub world_of : {S : Type 0} → Outcome S → World S
world_of (returned w s) = w
world_of (thrown w) = w

-- The item of a key was published, or its failed publish could not be undone, which is logged.
abbrev pub known : {S : Type 0} → String → World S → Bool
known key w = member key w.published || member key w.unreleased

module _ {S : Type 0} {from ttl_ms : ℕ} (store : IdempotencyStore S from ttl_ms)
    (env : Surroundings from ttl_ms) where
  -- The claimed keys are those of the published items, which are distinct, and those of the releases that
  -- failed.
  pub record IsSettled (w : World S) : Type 0 where
    pub same : (key : String) → store.claimed w.claims key ≡ known key w
    pub distinct : Distinct w.published

  member_of :
      (w : World S)
      → IsSettled w
      → (key j : String) → str_eq key j ≡ true
      → store.claimed w.claims j ≡ store.claimed w.claims key
  member_of w h key j e = ap (store.claimed w.claims) (sym ((eq_iff key j).0 e))

  pub handle-IsSettled :
      (kind : Kind) (key : String) (w : World S) (s : IngestSummary)
      → IsSettled w
      → IsSettled (world_of (handle store env kind key w s))
  unfolding handle settle publish release_claim
  handle-IsSettled kind key w s h =
      elim (Bool-cases (store.is_duplicate key (env.clock w.asks) w.claims).1) [
        | inl dup ↦
            rw (dup, settle)
              (record {
                same = λ j. ground (
                  arith,
                  dup,
                  store.claims key j (env.clock w.asks) w.claims,
                  store.answers key (env.clock w.asks) w.claims,
                  h.same j,
                  member_of w h key j,
                );
                distinct = h.distinct;
              })
        | inr new ↦ elim (Bool-cases (env.accepts w.calls)) [
          | inl y ↦
              rw (new, settle, y)
                (record {
                  same =
                      λ j. ground (arith, store.claims key j (env.clock w.asks) w.claims, h.same j);
                  distinct = (
                    ground (arith, store.answers key (env.clock w.asks) w.claims, new, h.same key),
                    h.distinct,
                  );
                })
          | inr n ↦ elim (Bool-cases (env.releases w.calls)) [
            | inr u ↦
                rw (new, settle, n, release_claim, u)
                  (record {
                    same = λ j.
                        ground (arith, store.claims key j (env.clock w.asks) w.claims, h.same j);
                    distinct = h.distinct;
                  })
            | inl y ↦
                rw (new, settle, n, release_claim, y)
                  (record {
                    same = λ j. ground (
                      arith,
                      new,
                      store.releases key j (store.is_duplicate key (env.clock w.asks) w.claims).0,
                      store.claims key j (env.clock w.asks) w.claims,
                      store.answers key (env.clock w.asks) w.claims,
                      h.same j,
                      member_of w h key j,
                    );
                    distinct = h.distinct;
                  })
          ]
        ]
      ]

  bind-IsSettled :
      (o : Outcome S) (k : World S → IngestSummary → Outcome S)
      → ((w : World S) (s : IngestSummary) → IsSettled w → IsSettled (world_of (k w s)))
      → IsSettled (world_of o)
      → IsSettled (world_of (o >>= k))
  bind-IsSettled (returned w s) k keep h = keep w s h
  bind-IsSettled (thrown w) k keep h = h

  process-IsSettled :
      (xs : List Item) (w : World S) (s : IngestSummary)
      → IsSettled w
      → IsSettled (world_of (process store env xs w s))
  unfolding process
  process-IsSettled [] w s h = h
  process-IsSettled ((kind, key) ∷ xs) w s h =
      bind-IsSettled (handle store env kind key w s) (process store env xs) (process-IsSettled xs)
        (handle-IsSettled kind key w s h)

  -- Webhooks that arrive one after the other; one that throws may be delivered again later.
  unfoldable pub deliver : List WebhookPayload → World S → World S
  deliver [] w = w
  deliver (p ∷ ps) w = deliver ps (world_of (ingest_meta_webhook store env p w))

  pub deliver-IsSettled :
      (ps : List WebhookPayload) (w : World S) → IsSettled w → IsSettled (deliver ps w)
  unfolding deliver
  deliver-IsSettled [] w h = h
  deliver-IsSettled (p ∷ ps) w h =
      deliver-IsSettled ps (world_of (ingest_meta_webhook store env p w)) (
        rw (ingest_meta_webhook-process store env p w)
          (process-IsSettled (items p) w empty_summary h))

  -- Nothing is claimed, published or logged yet.
  pub record IsFresh (w : World S) : Type 0 where
    pub none_published : w.published ≡ []
    pub none_unreleased : w.unreleased ≡ []
    pub none_claimed : (key : String) → store.claimed w.claims key ≡ false

  pub fresh-IsSettled : (w : World S) → IsFresh w → IsSettled w
  fresh-IsSettled w f = record {
    same = λ k. rw (f.none_published, f.none_unreleased) (f.none_claimed k);
    distinct = subst Distinct (sym f.none_published) tt;
  }

  -- From a world where nothing is claimed or published, any webhooks, delivered in any order and any
  -- number of times, with any failures of the bus and of releases, while the clock has moved on by
  -- no more than the lifetime of a claim: no key is published twice. The keys that are claimed are
  -- those that were published and those whose release failed, which is logged; so another item that
  -- failed is not swallowed when it is delivered again.
  pub deliver_once :
      (ps : List WebhookPayload) (w : World S) (key : String)
      → IsFresh w
      → Distinct (deliver ps w).published
        × (store.claimed (deliver ps w).claims key ≡ known key (deliver ps w))
  deliver_once ps w key f =
      let after = deliver-IsSettled ps w (fresh-IsSettled w f) in (after.distinct, after.same key)
