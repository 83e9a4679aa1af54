-- ===== src/Queue.antt =====
-- packages/queue/src/index.ts: the connection that the services share, and what they publish and consume
-- over it. The broker, JSON and the identifiers that are made up are parameters.
pub mod Connected
pub mod Received
pub mod Tests
use hy_fib_wa_app.Prelude.{
  ℕ, zero, suc, ◌+◌, ◌*◌, ◌^◌, min, Bool, true, false, not, Option, none, some, String, List, [],
  ◌∷◌, str_eq, if◌then◌else◌,
}

abbrev pub max_attempts : ℕ
max_attempts = 30

abbrev pub max_delay_ms : ℕ
max_delay_ms = 15000

-- The wait after an attempt has failed, where `attempt` counts it.
unfoldable pub delay_ms : (attempt : ℕ) → ℕ
delay_ms attempt = min max_delay_ms (500 * 2 ^ min attempt 5)

pub record ConnectResult : Type 0 where
  pub connected : Bool
  pub attempts : ℕ
  pub waited_ms : ℕ

-- `left` is what is left of the attempts; `succeeds n` says how the attempt after n others ends.
unfoldable pub connect_loop : (succeeds : ℕ → Bool) → (left attempt waited : ℕ) → ConnectResult
unfolding delay_ms
connect_loop succeeds zero attempt waited = record {
  connected = false;
  attempts = attempt;
  waited_ms = waited;
}
connect_loop succeeds (suc left) attempt waited = elim (succeeds attempt) [
  | true ↦ record { connected = true; attempts = attempt; waited_ms = waited }
  | false ↦ connect_loop succeeds left (attempt + 1) (waited + delay_ms (attempt + 1))
]

unfoldable pub connect : (succeeds : ℕ → Bool) → ConnectResult
unfolding connect_loop
connect succeeds = connect_loop succeeds max_attempts 0 0

pub record PublishOptions : Type 0 where
  pub tenant_id : Option String
  pub message_id : Option String

pub record MessageEnvelope (P : Type 0) : Type 0 where
  pub id : Option String
  pub topic : Option String
  pub tenant_id : Option String
  pub occurred_at : Option String
  pub payload : P

-- What the broker delivers: the content, the routing key and the properties of the message.
pub record ConsumeMessage (C : Type 0) : Type 0 where
  pub content : C
  pub routing_key : String
  pub message_id : Option String
  pub tenant_header : Option String

pub record ReceivedMessage (P : Type 0) : Type 0 where
  pub topic : String
  pub payload : P
  pub tenant_id : Option String
  pub message_id : String
  pub occurred_at : String

abbrev pub or_else : Option String → String → String
or_else none default = default
or_else (some s) default = s

-- A test for truth of a text that may be missing.
abbrev pub truthy : Option String → Option String
truthy none = none
truthy (some s) = if str_eq s "" then none else some s

pub data Acknowledgement : Type 0 where
  ack nack_dropped : Acknowledgement

-- `randomUUID()` and the time of the call are `fresh` and `now`.
module _ {C P : Type 0} (stringify : MessageEnvelope P → C)
    (parse : C → Option (MessageEnvelope P)) where
  unfoldable pub publish :
      (fresh now : String) → (topic : String) → P → PublishOptions → ConsumeMessage C
  publish fresh now topic payload options =
      let message_id = or_else options.message_id fresh in
      record {
        content = stringify (record {
          id = some message_id;
          topic = some topic;
          tenant_id = options.tenant_id;
          occurred_at = some now;
          payload = payload;
        });
        routing_key = topic;
        message_id = some message_id;
        tenant_header = truthy options.tenant_id;
      }

  unfoldable pub received :
      (fresh now : String) → ConsumeMessage C → MessageEnvelope P → ReceivedMessage P
  received fresh now raw envelope = record {
    topic = or_else envelope.topic raw.routing_key;
    payload = envelope.payload;
    tenant_id = envelope.tenant_id;
    message_id = or_else envelope.id (or_else raw.message_id fresh);
    occurred_at = or_else envelope.occurred_at now;
  }

  -- What the handler is called with, if the content parses, and how the message is settled.
  unfoldable pub consume :
      (fresh now : String)
      → (succeeds : ReceivedMessage P → Bool) → ConsumeMessage C
      → Option (ReceivedMessage P) × Acknowledgement
  unfolding received
  consume fresh now succeeds raw = elim (parse raw.content) [
    | none ↦ (none, ack)
    | some envelope ↦
        let message = received fresh now raw envelope in
        (some message, if succeeds message then ack else nack_dropped)
  ]
