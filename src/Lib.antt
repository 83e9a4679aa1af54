-- ===== src/Lib.antt =====
-- HyFib WA App, a WhatsApp customer-messaging platform: the verification library of the logic of its
-- packages and services that runs between the network and the database.
--
-- How the parts interact. A webhook of Meta is ingested (services/webhook-ingestor) and published once
-- per message on the event bus, under a claim of an idempotency store (packages/shared-core). The
-- gateway (services/api-gateway) authenticates a caller against the realm's keys (packages/auth),
-- classifies a failure to do so, authorizes what the caller asks, pushes events to open streams, relays
-- the outbox to the bus, and imports and exports contacts. Requests to URLs that tenants give go through
-- a guard (packages/shared-core), sending is counted per minute (packages/ratelimit), and the services
-- exchange events over a bus (packages/event-bus). What is sent goes through the policy engine
-- (packages/policy-engine), the 24 hour window and the campaign's status; a chatbot flow (packages/shared-core)
-- answers an inbound message.
--
-- Files, with the code they model:
--   Prelude: shared names, Boolean tests, lists, text as UTF-16 units, and association lists
--   (Prelude/Maps) for a Map in its order of insertion.
--   Flow: packages/shared-core/src/flows.ts. `advance_flow` is advanceFlow, on fuel `step_cap`, which is
--   the source's own bound STEP_CAP of 10 on its loop, so that no run is cut off that the source would go on
--   with. Flow/Validation is validateFlowDefinition over the JSON values of Flow/Json, with a result of its
--   own for a thrown error.
--   Compliance: packages/shared-core/src/compliance.ts.
--   Policy: packages/policy-engine/src/index.ts.
--   Idempotency: packages/shared-core/src/idempotency.ts, the store in memory over an explicit clock, and
--   in Idempotency/Redis the store on Redis.
--   Ingest: services/webhook-ingestor/src/ingest.ts. Ingest/Claims is the interface of
--   the store that it is given, over a span as long as the lifetime of a claim; Ingest/Store gives it
--   the store in memory, whose claims expire.
--   Ingest/Forwarded is the check of a signature before it.
--   Auth: roles of packages/shared-core/src/index.ts, and their expansion in packages/auth/src/index.ts;
--   Auth/Token is its authenticate, with token-verdict.ts, whose errors are read by AuthFailure.
--   Authorization: services/api-gateway/src/authorization.ts.
--   RealmKeySet: packages/auth/src/realm-key-set.ts, as a state and one step for a token, with a
--   second step for the end of a background retry.
--   AuthFailure: services/api-gateway/src/auth-failure.ts. The walk of the cause chain stops
--   at the source's bound of 8 links, by recursion on what is left of it and on the queue.
--   SseHub: services/api-gateway/src/sse-hub.ts.
--   Csv: services/api-gateway/src/csv.ts; Csv/Import is its parseCsv, from decoded text.
--   Campaign, SessionWindow, OutboxRelay, RateLimit: campaign.ts, session-window.ts, outbox-relay.ts and
--   rate-limit.ts of services/api-gateway/src.
--   OutboundUrl: packages/shared-core/src/outbound-url.ts. OutboundUrl/Parsing and Address have the parsers
--   and ranges, OutboundUrl/Names and Allowlist the operator's allow list, OutboundUrl/Guard the policy for a URL and the lookup.
--   WorkingHours: packages/shared-core/src/working-hours.ts.
--   RateCounter: packages/ratelimit/src/index.ts. Its loop is on fuel, one more than the milliseconds that it
--   waits at most, since each round waits one or more.
--   EventBus: packages/event-bus/src/index.ts, the RabbitMQ transport as a state and one step for each event;
--   EventBus/Dispatch is what becomes of a message, on fuel for two deliveries, and the bus in process.
--   Automations: packages/shared-core/src/automation.ts and services/notification-worker/src/autoreply.ts.
--   Queue: packages/queue/src/index.ts; its loop runs on the source's own bound of 30 attempts.
--   Segment: services/api-gateway/src/segment-definition.ts, over the JSON values of Flow/Json.
--   CustomerWebhook, DefaultAutomations: customer-webhook.ts and default-automations.ts of
--   services/notification-worker/src, on top of OutboundUrl and WorkingHours.
--
-- What the models leave out. Numbers are natural numbers. Changing case is that of the ASCII letters.
-- A message for the operator is a constructor where nothing depends on its wording. Of a payload or a
-- template only the fields that the code reads are kept. Logs, counters and frames are left out. jose,
-- Redis, JSON, regular expressions, `isIP`, the URL parser, the resolver, time zones, the network, the
-- broker, the database, the sinks and random identifiers are parameters or arguments. In Ingest the
-- normalized payload and its tenant are left out, the store has a release, and its check does not
-- throw. A token's check in
-- RealmKeySet is one step, so two that wait on the realm at once are not interleaved. In EventBus the setup
-- of one consumer is one event, and one that is rejected with no one to handle it does not end the
-- process. In RateCounter the counters that are compared have not expired.
--
-- Not modelled: the request handler of the gateway and the entry points of the services, which route and
-- call; the HTTP exchange of packages/shared-core/src/outbound-url.ts; packages/persistence and packages/db,
-- which talk to PostgreSQL; the user interface in services/web-app; the Graph API calls of
-- services/meta-adapter; and the reporting, billing and intelligence services.
pub mod Auth
pub mod AuthFailure
pub mod Authorization
pub mod Automations
pub mod Campaign
pub mod Compliance
pub mod Csv
pub mod CustomerWebhook
pub mod DefaultAutomations
pub mod EventBus
pub mod Flow
pub mod Idempotency
pub mod Ingest
pub mod OutboundUrl
pub mod OutboxRelay
pub mod Policy
pub mod Prelude
pub mod Queue
pub mod RateCounter
pub mod RateLimit
pub mod RealmKeySet
pub mod Segment
pub mod SessionWindow
pub mod SseHub
pub mod WorkingHours
