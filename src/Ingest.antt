-- ===== src/Ingest.antt =====
-- services/webhook-ingestor/src/ingest.ts: a Meta webhook is taken apart into items, and each is
-- published once. The idempotency store is an interface, the bus a parameter that says which of its
-- calls succeed, and a parameter says which releases do. The normalized payloads and the counters are left out: a publish
-- is recorded by the item's key.
pub mod Claims
pub mod Store
pub mod Items
pub mod Once
pub mod Returned
pub mod Forwarded
pub mod Tests
use hy_fib_wa_app.Prelude.{
  ℕ, suc, ◌+◌, ◌≡◌, Bool, true, false, not, ◌&&◌, ◌||◌, List, [], ◌∷◌, Option, none, some, String,
  str_eq, if◌then◌else◌,
}
use Prim.Native.String.{◌++◌}
use hy_fib_wa_app.Ingest.Claims.{Moment, IdempotencyStore}

pub record SocialMessage : Type 0 where
  pub mid : Option String
  pub is_echo : Bool

pub record RawMessagingEvent : Type 0 where
  pub message : Option SocialMessage

pub record RawMessage : Type 0 where
  pub id : Option String

pub record RawStatus : Type 0 where
  pub id : Option String
  pub status : Option String

pub record RawValue : Type 0 where
  pub messages : Option (List RawMessage)
  pub statuses : Option (List RawStatus)

pub record Entry : Type 0 where
  pub id : Option String
  pub changes : Option (List (Option RawValue))
  pub messaging : Option (List RawMessagingEvent)

pub record WebhookPayload : Type 0 where
  pub object : Option String
  pub entry : Option (List Entry)

pub record IngestSummary : Type 0 where
  pub inbound : ℕ
  pub statuses : ℕ
  pub duplicates : ℕ

-- `xs ?? []`
abbrev pub or_nil {ℓ} : {A : Type ℓ} → Option (List A) → List A
or_nil none = []
or_nil (some xs) = xs

-- `s ?? "unknown"`
abbrev pub or_unknown : Option String → String
or_unknown none = "unknown"
or_unknown (some s) = s

first_id : List Entry → Option String
first_id [] = none
first_id (e ∷ rest) = e.id

-- `payload.entry?.[0]?.id ?? fallbackTenantId`
pub derive_tenant_id : WebhookPayload → Option String → Option String
unfolding first_id
derive_tenant_id payload fallback = elim (first_id (or_nil payload.entry)) [
  | none ↦ fallback
  | some id ↦ some id
]

-- The three loops that publish, by what they count and the topic they publish on.
pub data Kind : Type 0 where
  social message status : Kind

abbrev pub counted : Kind → IngestSummary → IngestSummary
counted status s = record s { statuses = s.statuses + 1 }
counted _ s = record s { inbound = s.inbound + 1 }

-- The store, the keys of the items that were published (the last first), how often the bus was
-- called and the store asked, and the keys of the log lines "idempotency_release_failed" (the last
-- first).
pub record World (S : Type 0) : Type 0 where
  pub claims : S
  pub published : List String
  pub calls : ℕ
  pub asks : ℕ
  pub unreleased : List String

-- When the store is asked, by how often it was asked before; and whether a call of the bus succeeds,
-- and the release of a claim after one that fails, by how often the bus was called before.
pub record Surroundings (from ttl_ms : ℕ) : Type 0 where
  pub clock : ℕ → Moment from ttl_ms
  pub accepts : ℕ → Bool
  pub releases : ℕ → Bool

pub data Outcome (S : Type 0) : Type 0 where
  returned : World S → IngestSummary → Outcome S
  thrown : World S → Outcome S

infixl 5 ◌>>=◌
abbrev pub ◌>>=◌ : {S : Type 0} → Outcome S → (World S → IngestSummary → Outcome S) → Outcome S
returned w s >>= k = k w s
thrown w >>= k = thrown w

-- A test for truth of a text that may be missing.
abbrev pub truthy : Option String → Option String
truthy none = none
truthy (some s) = if str_eq s "" then none else some s

-- The key of a messaging event, none if the event is skipped.
pub social_key : RawMessagingEvent → Option String
social_key event = elim event.message [
  | none ↦ none
  | some m ↦
      if m.is_echo
      then none
      else elim (truthy m.mid) [ none ↦ none | some mid ↦ some ("social:" ++ mid) ]
]

pub inbound_key : RawMessage → String
inbound_key m = "inbound:" ++ or_unknown m.id

pub status_key : RawStatus → String
status_key s = "status:" ++ (or_unknown s.id ++ (":" ++ or_unknown s.status))

abbrev pub is_social : Option String → Bool
is_social none = false
is_social (some object) = str_eq object "page" || str_eq object "instagram"

-- The messaging events of an entry, if the payload's object and the entry have them.
abbrev pub social_events : Option String → Entry → Option (List RawMessagingEvent)
social_events object entry = if is_social object then entry.messaging else none

abbrev pub empty_summary : IngestSummary
empty_summary = record { inbound = 0; statuses = 0; duplicates = 0 }

module _ {S : Type 0} {from ttl_ms : ℕ} (store : IdempotencyStore S from ttl_ms)
    (env : Surroundings from ttl_ms) where
  -- The release of a claim after a failed publish; one that throws is logged and leaves the claim.
  pub release_claim : String → World S → World S
  release_claim key w =
      if env.releases w.calls
      then record w { claims = store.release key w.claims }
      else record w { unreleased = key ∷ w.unreleased }

  -- The publish of a claimed item; where it fails, the claim is released and the error thrown on.
  pub publish : Kind → String → World S → IngestSummary → Outcome S
  publish kind key w s =
      if env.accepts w.calls
      then returned (record w { published = key ∷ w.published; calls = w.calls + 1 })
          (counted kind s)
      else thrown (record (release_claim key w) { calls = w.calls + 1 })

  pub settle : Kind → String → World S → IngestSummary → Bool → Outcome S
  settle kind key w s true = returned w (record s { duplicates = s.duplicates + 1 })
  settle kind key w s false = publish kind key w s

  pub handle : Kind → String → World S → IngestSummary → Outcome S
  handle kind key w s =
      let (claims, duplicate) = store.is_duplicate key (env.clock w.asks) w.claims in
      settle kind key (record w { claims = claims; asks = w.asks + 1 }) s duplicate

  pub handle_event : Option String → World S → IngestSummary → Outcome S
  handle_event none w s = returned w s
  handle_event (some key) w s = handle social key w s

  pub ingest_messaging : List RawMessagingEvent → World S → IngestSummary → Outcome S
  ingest_messaging [] w s = returned w s
  ingest_messaging (event ∷ events) w s =
      handle_event (social_key event) w s >>= ingest_messaging events

  pub ingest_messages : List RawMessage → World S → IngestSummary → Outcome S
  ingest_messages [] w s = returned w s
  ingest_messages (m ∷ ms) w s = handle message (inbound_key m) w s >>= ingest_messages ms

  pub ingest_statuses : List RawStatus → World S → IngestSummary → Outcome S
  ingest_statuses [] w s = returned w s
  ingest_statuses (u ∷ us) w s = handle status (status_key u) w s >>= ingest_statuses us

  pub ingest_changes : List (Option RawValue) → World S → IngestSummary → Outcome S
  ingest_changes [] w s = returned w s
  ingest_changes (none ∷ changes) w s = ingest_changes changes w s
  ingest_changes (some value ∷ changes) w s = ingest_messages (or_nil value.messages) w s >>= λ w s.
      ingest_statuses (or_nil value.statuses) w s >>= ingest_changes changes

  pub ingest_entry : Entry → Option (List RawMessagingEvent) → World S → IngestSummary → Outcome S
  ingest_entry entry none w s = ingest_changes (or_nil entry.changes) w s
  ingest_entry entry (some events) w s = ingest_messaging events w s

  pub ingest_entries : Option String → List Entry → World S → IngestSummary → Outcome S
  ingest_entries object [] w s = returned w s
  ingest_entries object (entry ∷ entries) w s =
      ingest_entry entry (social_events object entry) w s >>= ingest_entries object entries

  pub ingest_meta_webhook : WebhookPayload → World S → Outcome S
  ingest_meta_webhook payload w =
      ingest_entries payload.object (or_nil payload.entry) w empty_summary
