-- ===== src/Ingest/Forwarded.antt =====
-- services/webhook-ingestor/src/ingest.ts, processForwardedWebhook: a raw body is ingested if its
-- signature is right. The check of the signature and JSON.parse, none where it throws, are parameters.
use hy_fib_wa_app.Prelude.{
  ℕ, ◌≡◌, refl, Bool, true, false, List, [], ◌∷◌, map, Option, none, some, String, filter,
  Bool-cases, inl, inr, if◌then◌else◌,
}
use hy_fib_wa_app.Ingest.{
  WebhookPayload, Surroundings, World, Outcome, returned, ingest_meta_webhook, empty_summary,
}
use hy_fib_wa_app.Ingest.Claims.{IdempotencyStore}
use hy_fib_wa_app.Ingest.Once.{world_of, deliver}

pub record ForwardedWebhook : Type 0 where
  pub raw_body : String
  pub signature : Option String

-- What was returned or thrown, with `verified`.
pub record ProcessWebhookResult (S : Type 0) : Type 0 where
  pub verified : Bool
  pub outcome : Outcome S

abbrev no_payload : WebhookPayload
no_payload = record { object = none; entry = none }

abbrev pub or_empty : Option WebhookPayload → WebhookPayload
or_empty none = no_payload
or_empty (some payload) = payload

pub safe_json_parse : (parse : String → Option WebhookPayload) → String → WebhookPayload
safe_json_parse parse value = or_empty (parse value)

abbrev pub is_verified : (verify : String → Option String → Bool) → ForwardedWebhook → Bool
is_verified verify f = verify f.raw_body f.signature

module _ {S : Type 0} {from ttl_ms : ℕ} (store : IdempotencyStore S from ttl_ms)
    (env : Surroundings from ttl_ms) (verify : String → Option String → Bool)
    (parse : String → Option WebhookPayload) where
  pub process_forwarded_webhook : ForwardedWebhook → World S → ProcessWebhookResult S
  process_forwarded_webhook forwarded w =
      if verify forwarded.raw_body forwarded.signature
      then record {
        verified = true;
        outcome = ingest_meta_webhook store env (safe_json_parse parse forwarded.raw_body) w;
      }
      else record { verified = false; outcome = returned w empty_summary }

  -- Webhooks that are forwarded one after the other.
  pub forward : List ForwardedWebhook → World S → World S
  forward [] w = w
  forward (f ∷ fs) w = forward fs (world_of (process_forwarded_webhook f w).outcome)

  -- Forwarded webhooks do to the store and the bus exactly what the payloads of those with a right
  -- signature do: a body that is not verified leaves no trace.
  pub forward-deliver :
      (fs : List ForwardedWebhook) (w : World S)
      → forward fs w
        ≡ deliver store env
            (map
              (λ (f : ForwardedWebhook). safe_json_parse parse f.raw_body)
              (filter (is_verified verify) fs))
            w
  unfolding forward process_forwarded_webhook deliver
  forward-deliver [] w = refl
  forward-deliver (f ∷ fs) w = elim (Bool-cases (is_verified verify f)) [
    | inl y ↦
        rw (y, forward, process_forwarded_webhook)
          (forward-deliver fs
            (world_of (ingest_meta_webhook store env (safe_json_parse parse f.raw_body) w)))
    | inr n ↦ rw (n, forward, process_forwarded_webhook) (forward-deliver fs w)
  ]
