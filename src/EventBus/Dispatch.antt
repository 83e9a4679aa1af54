-- ===== src/EventBus/Dispatch.antt =====
-- What becomes of a message of packages/event-bus/src/index.ts, and the bus that is in process. The
-- envelope's id and time come from outside.
use hy_fib_wa_app.Prelude.{
  ℕ, zero, suc, Bool, true, not, ◌&&◌, List, [], ◌∷◌, ◌++◌, Option, none, some, String, str_eq,
  if◌then◌else◌,
}

pub data Settlement : Type 0 where
  acked requeued dead_lettered : Settlement

-- `handled` says whether the content parsed and the handler returned.
unfoldable pub dispatch : (ephemeral handled redelivered : Bool) → Settlement
dispatch ephemeral handled redelivered =
    if handled
    then acked
    else if ephemeral
    then acked
    else if not redelivered
    then requeued
    else dead_lettered

-- The deliveries of a message: a requeued one comes back, marked as redelivered. `handles n` says how
-- the nth delivery is handled. The answer counts the deliveries; none where the fuel runs out.
unfoldable pub deliver :
    (fuel : ℕ)
    → (ephemeral : Bool) → (handles : ℕ → Bool) → (n : ℕ) → (redelivered : Bool)
    → Option (Settlement × ℕ)
unfolding dispatch
deliver zero ephemeral handles n redelivered = none
deliver (suc fuel) ephemeral handles n redelivered =
    elim (dispatch ephemeral (handles n) redelivered) [
      | acked ↦ some (acked, suc n)
      | dead_lettered ↦ some (dead_lettered, suc n)
      | requeued ↦ deliver fuel ephemeral handles (suc n) true
    ]

pub record EventEnvelope : Type 0 where
  pub id : String
  pub topic : String
  pub tenant_id : Option String
  pub payload : String
  pub occurred_at : String

-- The handlers by topic, in the order of their subscription.
abbrev pub Handlers : Type 0
Handlers = List (String × List ℕ)

unfoldable pub handlers_of : String → Handlers → List ℕ
handlers_of topic [] = []
handlers_of topic ((key, current) ∷ handlers) =
    let rest = handlers_of topic handlers in if str_eq key topic then current else rest

-- `current.push(handler)`, where a topic that is new gets a list.
unfoldable pub subscribe_in_memory : (topic : String) → (handler : ℕ) → Handlers → Handlers
subscribe_in_memory topic handler [] = (topic, handler ∷ []) ∷ []
subscribe_in_memory topic handler ((key, current) ∷ handlers) =
    let rest = subscribe_in_memory topic handler handlers in
    if str_eq key topic then (key, current ++ handler ∷ []) ∷ handlers else (key, current) ∷ rest

-- The handlers that are called, in order, and whether the promise resolves: it does if none rejects.
unfoldable pub publish_in_memory :
    (succeeds : ℕ → EventEnvelope → Bool) → EventEnvelope → Handlers → List ℕ × Bool
unfolding handlers_of
publish_in_memory succeeds event handlers =
    let called = handlers_of event.topic handlers in (called, all_succeed called)
  where
    all_succeed : List ℕ → Bool
    all_succeed [] = true
    all_succeed (h ∷ hs) = succeeds h event && all_succeed hs

-- The subscriptions that a run makes, in order, on a bus without handlers.
unfoldable pub subscribe_all : List (String × ℕ) → Handlers → Handlers
unfolding subscribe_in_memory
subscribe_all [] handlers = handlers
subscribe_all ((topic, handler) ∷ subs) handlers =
    subscribe_all subs (subscribe_in_memory topic handler handlers)
