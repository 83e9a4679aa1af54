-- ===== src/EventBus/Runs.antt =====
-- The invariant of the transport of packages/event-bus/src/index.ts holds after every run.
use hy_fib_wa_app.Prelude.{◌≤◌, refl, List, [], ◌∷◌, arith}
use hy_fib_wa_app.EventBus.{RabbitMqEventBus, new_bus, BusEvent, step, run}
use hy_fib_wa_app.EventBus.Healthy.{IsHealthy}
use hy_fib_wa_app.EventBus.Steps.{step-IsHealthy}
use hy_fib_wa_app.EventBus.Missing.{missing, breaks, run-missing}

run_lem :
    (events : List BusEvent) (bus : RabbitMqEventBus) → IsHealthy bus → IsHealthy (run events bus)
unfolding run
run_lem [] bus h = h
run_lem (event ∷ events) bus h = run_lem events (step event bus) (step-IsHealthy event bus h)

new_bus-IsHealthy : IsHealthy new_bus
new_bus-IsHealthy = record {
  delay_range = (omega arith, omega arith);
  timer_range = tt;
  socket = refl;
  served = tt;
  retried = refl;
  awaited = refl;
}

-- After any events in any order: the reconnect delay and all pending ones are 1 to 30 seconds; once
-- a connect has passed the subscriptions, and while there is a channel, each of them has a consumer
-- there that was set up, or whose setup is under way, or that the broker rejected or cancelled, and
-- of the last there are no more than there were such events; and a bus that is not closed, has
-- subscriptions and has no channel has a connect that schedules another if it fails, which is under
-- way, or a timer pending.
pub run-IsHealthy :
    (events : List BusEvent)
    → IsHealthy (run events new_bus) × (missing (run events new_bus).consumers ≤ breaks events)
run-IsHealthy events =
    (run_lem events new_bus new_bus-IsHealthy, omega (arith, run-missing events new_bus))
