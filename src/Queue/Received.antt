-- ===== src/Queue/Received.antt =====
-- What packages/queue/src/index.ts publishes is what it hands to a handler.
use hy_fib_wa_app.Prelude.{◌≡◌, refl, Bool, Option, some, String, if◌then◌else◌}
use hy_fib_wa_app.Queue.{
  PublishOptions, MessageEnvelope, ReceivedMessage, or_else, publish, received, consume, ack,
  nack_dropped,
}

-- A JSON codec that reads back the envelopes that it writes hands the handler the topic, payload,
-- tenant and time of the publish, under the identifier given or made for it, and the message is
-- acknowledged if the handler succeeds and dropped if not.
pub consume-publish :
    {C P : Type 0} (stringify : MessageEnvelope P → C) (parse : C → Option (MessageEnvelope P))
    (succeeds : ReceivedMessage P → Bool) (fresh fresh' now later topic : String) (payload : P)
    (options : PublishOptions)
    → ((envelope : MessageEnvelope P) → parse (stringify envelope) ≡ some envelope)
    → consume stringify parse fresh' later succeeds
        (publish stringify parse fresh now topic payload options)
      ≡ (let message : ReceivedMessage P = record {
        topic = topic;
        payload = payload;
        tenant_id = options.tenant_id;
        message_id = or_else options.message_id fresh;
        occurred_at = now;
      } in
          (some message, if succeeds message then ack else nack_dropped))
unfolding consume received publish
consume-publish stringify parse succeeds fresh fresh' now later topic payload options reads =
    rw (reads _, consume) refl
