-- ===== src/Ingest/Tests.antt =====
-- Runs of services/webhook-ingestor/src/ingest.ts on the store in memory, and its theorems there.
use hy_fib_wa_app.Prelude.Maps.{lookup, insert, delete}
use hy_fib_wa_app.Prelude.{
  ◌+◌, ◌≡◌, refl, arith, Bool, true, false, not, [], ◌∷◌, none, some, ◌==◌, length, All,
  if◌then◌else◌,
}
use hy_fib_wa_app.Idempotency
use hy_fib_wa_app.Idempotency.{Options}
use hy_fib_wa_app.Ingest.{
  WebhookPayload, IngestSummary, Surroundings, World, Outcome, returned, thrown, social_key,
  inbound_key, status_key, publish, release_claim, settle, handle, handle_event, ingest_messaging,
  ingest_messages, ingest_statuses, ingest_changes, ingest_entry, ingest_entries,
  ingest_meta_webhook, empty_summary,
}
use hy_fib_wa_app.Ingest.Claims.{Moment}
use hy_fib_wa_app.Ingest.Store.{Lasting, has_claim, in_memory}
use hy_fib_wa_app.Ingest.Items.{items, process, ingest_meta_webhook-process}
use hy_fib_wa_app.Ingest.Returned.{ingest_meta_webhook-returned}
use hy_fib_wa_app.Ingest.Once.{known, world_of, Distinct, IsFresh, deliver, deliver_once}

ingestion : Unit {0}
unfolding ingest_meta_webhook ingest_entries ingest_entry ingest_changes ingest_statuses
    ingest_messages ingest_messaging handle_event handle settle publish release_claim deliver
    status_key inbound_key social_key Idempotency.is_duplicate Idempotency.claim
    Idempotency.prune_due Idempotency.prune_expired Idempotency.release lookup insert delete
    Idempotency.delete_expired
ingestion = tt

abbrev options : Options
options = record { ttl_ms = 1000; prune_interval_ms = 60 }

abbrev early : Moment 5 1000
early = record { now = 5; begun = omega arith; in_time = omega arith }

abbrev late : Moment 5 1000
late = record { now = 900; begun = omega arith; in_time = omega arith }

-- The second call of the bus fails, and its claim is released.
abbrev outside : Surroundings 5 1000
outside = record {
  clock = λ n. if n == 0 then early else late;
  accepts = λ n. not (n == 1);
  releases = λ n. true;
}

-- The same, where the release fails too.
abbrev stuck : Surroundings 5 1000
stuck = record outside { releases = λ n. false }

abbrev calm : Surroundings 5 1000
calm = record outside { accepts = λ n. true }

abbrev start : World (Lasting options 5)
start = record {
  claims = (record { store = []; last_prune_at = 0 }, tt, tt);
  published = [];
  calls = 0;
  asks = 0;
  unreleased = [];
}

abbrev hook : WebhookPayload
hook = record {
  object = some "whatsapp_business_account";
  entry = some (
      record {
        id = some "1";
        changes = some (
            some (record {
              messages = some (record { id = some "a" } ∷ record { id = some "b" } ∷ []);
              statuses = some (record { id = some "a"; status = some "read" } ∷ []);
            })
            ∷ []);
        messaging = none;
      }
      ∷ []);
}

abbrev ended : {S : Type 0} → Outcome S → Bool
ended (returned w s) = true
ended (thrown w) = false

abbrev after : World (Lasting options 5)
after = world_of (ingest_meta_webhook (in_memory options 5) outside hook start)

first_fails :
    (ended (ingest_meta_webhook (in_memory options 5) outside hook start) ≡ false)
    × (after.published ≡ "inbound:a" ∷ [])
unfolding ingestion
first_fails = (refl, refl)

again_succeeds :
    (ended (ingest_meta_webhook (in_memory options 5) outside hook after) ≡ true)
    × ((world_of (ingest_meta_webhook (in_memory options 5) outside hook after)).published
        ≡ "status:a:read" ∷ "inbound:b" ∷ "inbound:a" ∷ [])
unfolding ingestion
again_succeeds = (refl, refl)

ingest_meta_webhook-process_example :
    ingest_meta_webhook (in_memory options 5) outside hook start
    ≡ process (in_memory options 5) outside (items hook) start empty_summary
ingest_meta_webhook-process_example =
    ingest_meta_webhook-process (in_memory options 5) outside hook start

-- What a failed release leaves claimed is a duplicate at the next delivery, and is logged.
stuck_swallows :
    ((deliver (in_memory options 5) stuck (hook ∷ hook ∷ []) start).published
      ≡ "status:a:read" ∷ "inbound:a" ∷ [])
    × ((deliver (in_memory options 5) stuck (hook ∷ hook ∷ []) start).unreleased ≡ "inbound:b" ∷ [])
unfolding ingestion
stuck_swallows = (refl, refl)

start-IsFresh : IsFresh (in_memory options 5) outside start
unfolding lookup
start-IsFresh = record { none_published = refl; none_unreleased = refl; none_claimed = λ key. refl }

deliver_once_example :
    Distinct (deliver (in_memory options 5) outside (hook ∷ hook ∷ []) start).published
    × (has_claim options 5
          (deliver (in_memory options 5) outside (hook ∷ hook ∷ []) start).claims
          "inbound:b"
        ≡ known "inbound:b" (deliver (in_memory options 5) outside (hook ∷ hook ∷ []) start))
deliver_once_example =
    deliver_once (in_memory options 5) outside (hook ∷ hook ∷ []) start "inbound:b" start-IsFresh

-- The second delivery publishes what the first did not.
ingested : Outcome (Lasting options 5)
ingested =
    ingest_meta_webhook (in_memory options 5) outside hook
      (deliver (in_memory options 5) outside (hook ∷ []) start)

summary : IngestSummary
summary = record { inbound = 1; statuses = 1; duplicates = 1 }

ingested_lem : ingested ≡ returned (world_of ingested) summary
unfolding ingested summary ingestion
ingested_lem = refl

ingest_meta_webhook-returned_example :
    All (λ x. known x.1 (world_of ingested) ≡ true) (items hook)
    × (summary.inbound + summary.statuses + summary.duplicates ≡ length (items hook))
    × (length (world_of ingested).published
        ≡ length (deliver (in_memory options 5) outside (hook ∷ []) start).published
          + summary.inbound
          + summary.statuses)
unfolding ingested
ingest_meta_webhook-returned_example =
    ingest_meta_webhook-returned (in_memory options 5) outside (hook ∷ []) hook start
      (world_of ingested) summary start-IsFresh ingested_lem

abbrev once : World (Lasting options 5)
once = deliver (in_memory options 5) outside (hook ∷ []) start
