-- ===== src/Queue/Tests.antt =====
-- Runs of the shared connection.
use hy_fib_wa_app.Prelude.{ℕ, ◌*◌, ◌≤◌, ◌≡◌, refl, Bool, true, false, Option, none, some, leb}
use hy_fib_wa_app.Queue.{
  max_attempts, max_delay_ms, connect, PublishOptions, MessageEnvelope, ReceivedMessage, publish,
  consume, ack,
}
use hy_fib_wa_app.Queue.Connected.{IsOutcome, connect-IsOutcome}

abbrev third_time : ℕ → Bool
third_time n = leb 2 n

third_attempt : connect third_time ≡ record { connected = true; attempts = 2; waited_ms = 3000 }
unfolding connect
third_attempt = refl

abbrev never : ℕ → Bool
never n = false

gives_up : connect never ≡ record { connected = false; attempts = 30; waited_ms = 405000 }
unfolding connect
gives_up = refl

connect-IsOutcome_example :
    IsOutcome third_time 0 max_attempts (connect third_time)
    × ((connect third_time).waited_ms ≤ max_attempts * max_delay_ms)
connect-IsOutcome_example = connect-IsOutcome third_time

abbrev Envelope : Type 0
Envelope = MessageEnvelope ℕ

abbrev write : Envelope → Envelope
write envelope = envelope

abbrev read : Envelope → Option Envelope
read envelope = some envelope

abbrev accepts : ReceivedMessage ℕ → Bool
accepts message = leb message.payload 9

abbrev for_tenant : PublishOptions
for_tenant = record { tenant_id = some "t1"; message_id = none }

consumed :
    consume write read "other" "later" accepts (publish write read "m1" "now" "order" 7 for_tenant)
    ≡ (
      some (record {
        topic = "order";
        payload = 7;
        tenant_id = some "t1";
        message_id = "m1";
        occurred_at = "now";
      }),
      ack,
    )
unfolding consume publish
consumed = refl

-- An empty tenant gets no header.
no_header :
    (publish write read "m1" "now" "order" 7
      (record for_tenant { tenant_id = some "" })).tenant_header
    ≡ none
unfolding publish
no_header = refl
