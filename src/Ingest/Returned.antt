-- ===== src/Ingest/Returned.antt =====
-- What services/webhook-ingestor/src/ingest.ts has done for a webhook when it returns, and when it does.
use hy_fib_wa_app.Prelude.{
  ℕ, ◌+◌, ◌≤◌, ◌≡◌, refl, sym, subst, ◌∙◌, true, List, [], ◌∷◌, String, eq_iff, arith, length, All,
  Bool-cases, inl, inr,
}
use hy_fib_wa_app.Ingest.Claims.{IdempotencyStore}
use hy_fib_wa_app.Ingest.{
  WebhookPayload, IngestSummary, Kind, counted, Surroundings, World, Outcome, returned, thrown,
  ◌>>=◌, publish, release_claim, settle, handle, ingest_meta_webhook, empty_summary,
}
use hy_fib_wa_app.Ingest.Items.{Item, items, process, ingest_meta_webhook-process}
use hy_fib_wa_app.Ingest.Once.{
  known, world_of, IsSettled, IsFresh, fresh-IsSettled, handle-IsSettled, deliver,
  deliver-IsSettled,
}

abbrev pub total : IngestSummary → ℕ
total s = s.inbound + s.statuses + s.duplicates

-- What a handled item has done to the world and to the summary.
record Handled {S : Type 0} (key : String) (w w' : World S) (s s' : IngestSummary) : Type 0 where
  there : known key w' ≡ true
  kept : (j : String) → known j w ≡ true → known j w' ≡ true
  counted_once : total s' ≡ total s + 1
  counted_published :
      length w'.published + s.inbound + s.statuses ≡ length w.published + s'.inbound + s'.statuses

returned_keeps :
    {S : Type 0} (P : World S → IngestSummary → Type 0) {v w : World S} {r s : IngestSummary}
    → returned v r ≡ returned w s
    → P v r
    → P w s
returned_keeps P {v} {w} {r} {s} e h =
    let same_world : v ≡ w = cc in
    let same_summary : r ≡ s = cc in subst (λ x. P x s) same_world (subst (P v) same_summary h)

publish-Handled :
    {S : Type 0} (kind : Kind) (key : String) (w : World S) (claims : S) (s : IngestSummary)
    → Handled key w
        (record w {
          claims = claims;
          published = key ∷ w.published;
          calls = w.calls + 1;
          asks = w.asks + 1;
        })
        s
        (counted kind s)
publish-Handled kind key w claims s = record {
  there = ground (arith, (eq_iff key key).1 refl);
  kept = λ j m. ground arith;
  counted_once = ground arith;
  counted_published = ground arith;
}

module _ {S : Type 0} {from ttl_ms : ℕ} (store : IdempotencyStore S from ttl_ms)
    (env : Surroundings from ttl_ms) where
  handle-Handled :
      (kind : Kind) (key : String) (w w' : World S) (s s' : IngestSummary)
      → IsSettled store env w
      → handle store env kind key w s ≡ returned w' s'
      → Handled key w w' s s'
  unfolding handle settle publish release_claim
  handle-Handled kind key w w' s s' h e =
      elim (Bool-cases (store.is_duplicate key (env.clock w.asks) w.claims).1) [
        | inl dup ↦
            returned_keeps (λ v r. Handled key w v s r) (rw (dup, settle) at e)
              (record {
                there =
                    ground (arith, dup, store.answers key (env.clock w.asks) w.claims, h.same key);
                kept = λ j m. m;
                counted_once = omega arith;
                counted_published = refl;
              })
        | inr new ↦ elim (Bool-cases (env.accepts w.calls)) [
          | inl y ↦
              returned_keeps (λ v r. Handled key w v s r) (rw (new, settle, y) at e)
                (publish-Handled kind key w (store.is_duplicate key (env.clock w.asks) w.claims).0
                  s)
          | inr n ↦ let failed = rw (new, settle, n) at e in cc
        ]
      ]

  bind-returned :
      (o : Outcome S) (k : World S → IngestSummary → Outcome S) {w : World S} {s : IngestSummary}
      → (o >>= k) ≡ returned w s
      → (v : World S) × (r : IngestSummary) × (o ≡ returned v r) × (k v r ≡ returned w s)
  bind-returned (returned v r) k e = (v, r, refl, e)
  bind-returned (thrown v) k e = cc

  abbrev Processed : List Item → World S → World S → IngestSummary → IngestSummary → Type 0
  Processed xs w w' s s' =
      All (λ x. known x.1 w' ≡ true) xs
      × ((j : String) → known j w ≡ true → known j w' ≡ true)
      × (total s' ≡ total s + length xs)
      × (length w'.published + s.inbound + s.statuses
          ≡ length w.published + s'.inbound + s'.statuses)

  process-Processed :
      (xs : List Item) (w w' : World S) (s s' : IngestSummary)
      → IsSettled store env w
      → process store env xs w s ≡ returned w' s'
      → Processed xs w w' s s'
  unfolding process
  process-Processed [] w w' s s' h e =
      returned_keeps (λ v r. Processed [] w v s r) e (tt, λ j m. m, omega arith, refl)
  process-Processed ((kind, key) ∷ xs) w w' s s' h e =
      let (v, r, first, rest) =
        bind-returned (handle store env kind key w s) (process store env xs) e in
      let one = handle-Handled kind key w v s r h first in
      let settled =
        subst (λ o. IsSettled store env (world_of o)) first
          (handle-IsSettled store env kind key w s h) in
      let (there, kept, counts, published) = process-Processed xs v w' r s' settled rest in
      (
        (kept key one.there, there),
        λ j m. kept j (one.kept j m),
        omega (arith, counts, one.counted_once),
        omega (arith, published, one.counted_published),
      )

  -- From a world where nothing is claimed or published, after any webhooks, delivered in any order and any
  -- number of times, with any failures of the bus and of releases, while the clock has moved on by
  -- no more than the lifetime of a claim: when the ingest of a webhook returns, the key of each of
  -- its items was published, now or before, or is one whose release failed, which is logged. Its
  -- summary counts each item once, and as inbound or status exactly those that it published itself.
  -- Items are told apart by their keys: messages without an id have one key.
  pub ingest_meta_webhook-returned :
      (ps : List WebhookPayload) (p : WebhookPayload) (w w' : World S) (s : IngestSummary)
      → IsFresh store env w
      → ingest_meta_webhook store env p (deliver store env ps w) ≡ returned w' s
      → All (λ x. known x.1 w' ≡ true) (items p)
        × (s.inbound + s.statuses + s.duplicates ≡ length (items p))
        × (length w'.published ≡ length (deliver store env ps w).published + s.inbound + s.statuses)
  ingest_meta_webhook-returned ps p w w' s f e =
      let before = deliver store env ps w in
      let h = deliver-IsSettled store env ps w (fresh-IsSettled store env w f) in
      let (there, kept, counts, published) =
        process-Processed (items p) before w' empty_summary s h
          (sym (ingest_meta_webhook-process store env p before) ∙ e) in
      (there, omega (arith, counts), omega (arith, published))

  -- The bus takes every call from one on.
  abbrev pub IsUpFrom : ℕ → Type 0
  IsUpFrom call = (n : ℕ) → call ≤ n → env.accepts n ≡ true
