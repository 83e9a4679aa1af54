-- ===== src/EventBus/Tests.antt =====
-- Runs of the transports, with a broker that goes away.
use hy_fib_wa_app.Prelude.{
  ℕ, zero, suc, ◌≡◌, refl, Bool, true, false, List, [], ◌∷◌, ◌++◌, map, ◌≤◌, none, some,
}
use hy_fib_wa_app.EventBus.{
  Subscription, RabbitMqEventBus, opening, connected, min_reconnect_delay_ms, new_bus, BusEvent,
  run, subscribing, opened, consumer_set_up, connecting_failed, timer, setup_settled,
  consumer_cancelled, consuming, rejected, cancelled,
}
use hy_fib_wa_app.EventBus.Healthy.{IsHealthy}
use hy_fib_wa_app.EventBus.Missing.{missing, breaks}
use hy_fib_wa_app.EventBus.Reconnected.{set_ups, consumer_of, reconnect_lem}
use hy_fib_wa_app.EventBus.Runs.{run-IsHealthy}
use hy_fib_wa_app.EventBus.Dispatch.{dispatch, deliver, EventEnvelope, acked}
use hy_fib_wa_app.EventBus.Settled.{IsSettled, deliver-IsSettled}

abbrev inbound : Subscription
inbound = record { topic = "message.inbound"; queue = "notify"; handler = 0; ephemeral = false }

abbrev stream : Subscription
stream = record { topic = "message.inbound"; queue = "sse"; handler = 1; ephemeral = true }

abbrev outage : List BusEvent
outage =
    subscribing inbound
    ∷ subscribing stream
    ∷ connecting_failed
    ∷ timer 1
    ∷ opened
    ∷ consumer_set_up
    ∷ consumer_set_up
    ∷ consumer_set_up
    ∷ []

recovers : map (λ c. c.subscription) (run outage new_bus).consumers ≡ inbound ∷ stream ∷ []
unfolding run
recovers = refl

-- The timer that is left finds the channel.
left_over : (run (outage ++ timer 0 ∷ []) new_bus).timers ≡ []
unfolding run
left_over = refl

abbrev connecting_bus : RabbitMqEventBus
connecting_bus = record new_bus {
  connecting = opening;
  subscriptions = inbound ∷ stream ∷ [];
  reconnect_delay_ms = 16000;
  waiting = 2;
  timers = 8000 ∷ [];
}

reconnect_lem_example :
    run (opened ∷ set_ups (inbound ∷ stream ∷ [])) connecting_bus ≡ record connecting_bus {
      channel = true;
      connecting = connected;
      consumers = map consumer_of (inbound ∷ stream ∷ []);
      reconnect_delay_ms = min_reconnect_delay_ms;
      waiting = 0;
    }
reconnect_lem_example = reconnect_lem connecting_bus refl

-- A subscription on the open channel that the broker rejects, and one whose consumer it cancels.
abbrev breaking : List BusEvent
breaking =
    outage
    ++ subscribing inbound
      ∷ subscribing stream
      ∷ setup_settled false 2
      ∷ setup_settled true 3
      ∷ consumer_cancelled 0
      ∷ []

breaks_two :
    map (λ c. c.state) (run breaking new_bus).consumers
    ≡ cancelled ∷ consuming ∷ rejected ∷ consuming ∷ []
unfolding run
breaks_two = refl

run-IsHealthy_example :
    IsHealthy (run breaking new_bus) × (missing (run breaking new_bus).consumers ≤ breaks breaking)
run-IsHealthy_example = run-IsHealthy breaking

abbrev fails_once : ℕ → Bool
fails_once zero = false
fails_once (suc n) = true

second_try : deliver 2 false fails_once 0 false ≡ some (acked, 2)
unfolding deliver dispatch
second_try = refl

deliver-IsSettled_example : IsSettled false fails_once (deliver 2 false fails_once 0 false)
deliver-IsSettled_example = deliver-IsSettled false false fails_once

abbrev event : EventEnvelope
event = record { id = "e1"; topic = "a"; tenant_id = none; payload = "{}"; occurred_at = "now" }

abbrev always : ℕ → EventEnvelope → Bool
always _ _ = true
