-- ===== src/EventBus.antt =====
-- packages/event-bus/src/index.ts: the transport on RabbitMQ. Its asynchronous steps are events, which
-- come in any order; what the broker does between them is left open.
pub mod Healthy
pub mod Consumers
pub mod Subscribed
pub mod Steps
pub mod Missing
pub mod Runs
pub mod Reconnected
pub mod Dispatch
pub mod Settled
pub mod Tests
use hy_fib_wa_app.Prelude.{
  ℕ, zero, suc, ◌+◌, ◌*◌, min, Bool, true, false, not, List, [], ◌∷◌, ◌++◌, Option, none, some,
  String, length, ltb, if◌then◌else◌,
}

pub record Subscription : Type 0 where
  pub topic : String
  pub queue : String
  pub handler : ℕ
  pub ephemeral : Bool

-- How far `setupConsumer` has come for a subscription: begun by `subscribe` and not awaited, done, or
-- rejected; and whether the broker has cancelled the consumer since.
pub data ConsumerState : Type 0 where
  begun consuming rejected cancelled : ConsumerState

pub record Consumer : Type 0 where
  pub subscription : Subscription
  pub state : ConsumerState

-- The promise `connecting`: undefined, at the socket, at the consumer of a position of the
-- subscriptions, or resolved.
pub data Connecting : Type 0 where
  not_connecting opening connected : Connecting
  setting_up : (next : ℕ) → Connecting

-- `consumers` are those on the channel opened last, with those that are no more; `waiting` counts the callers of `ensureChannel`
-- that schedule a reconnect if it fails; `timers` holds the delays of those that are pending.
pub record RabbitMqEventBus : Type 0 where
  pub channel : Bool
  pub connecting : Connecting
  pub consumers : List Consumer
  pub subscriptions : List Subscription
  pub closed : Bool
  pub reconnect_delay_ms : ℕ
  pub waiting : ℕ
  pub timers : List ℕ

abbrev pub min_reconnect_delay_ms : ℕ
min_reconnect_delay_ms = 1000

abbrev pub max_reconnect_delay_ms : ℕ
max_reconnect_delay_ms = 30000

abbrev pub new_bus : RabbitMqEventBus
new_bus = record {
  channel = false;
  connecting = not_connecting;
  consumers = [];
  subscriptions = [];
  closed = false;
  reconnect_delay_ms = min_reconnect_delay_ms;
  waiting = 0;
  timers = [];
}

unfoldable pub schedule_reconnect : RabbitMqEventBus → RabbitMqEventBus
schedule_reconnect bus = if bus.closed then bus else record bus {
  timers = bus.reconnect_delay_ms ∷ bus.timers;
  reconnect_delay_ms = min (bus.reconnect_delay_ms * 2) max_reconnect_delay_ms;
}

-- Each caller that waits schedules one.
unfoldable pub schedule_each : ℕ → RabbitMqEventBus → RabbitMqEventBus
unfolding schedule_reconnect
schedule_each zero bus = bus
schedule_each (suc waiting) bus = schedule_each waiting (schedule_reconnect bus)

-- The rejection of `connecting`, which clears it.
unfoldable pub reject_connecting : RabbitMqEventBus → RabbitMqEventBus
unfolding schedule_each
reject_connecting bus =
    schedule_each bus.waiting (record bus { connecting = not_connecting; waiting = 0 })

-- `waiters` is 1 for a caller that schedules a reconnect if this fails, 0 for `publish`.
unfoldable pub ensure_connecting : (waiters : ℕ) → Connecting → RabbitMqEventBus → RabbitMqEventBus
ensure_connecting waiters not_connecting bus = record bus {
  connecting = opening;
  waiting = bus.waiting + waiters;
}
ensure_connecting waiters opening bus = record bus { waiting = bus.waiting + waiters }
ensure_connecting waiters (setting_up next) bus = record bus { waiting = bus.waiting + waiters }
ensure_connecting waiters connected bus = bus

unfoldable pub ensure_channel : (waiters : ℕ) → RabbitMqEventBus → RabbitMqEventBus
unfolding ensure_connecting
ensure_channel waiters bus =
    if bus.channel then bus else ensure_connecting waiters bus.connecting bus

unfoldable pub subscribe : Subscription → RabbitMqEventBus → RabbitMqEventBus
unfolding ensure_channel
subscribe sub bus =
    let pushed : RabbitMqEventBus = record bus { subscriptions = bus.subscriptions ++ sub ∷ [] } in
    if bus.channel
    then record pushed {
      consumers = bus.consumers ++ record { subscription = sub; state = begun } ∷ [];
    }
    else ensure_channel 1 pushed

-- The connection and its channel are open.
unfoldable pub channel_opened : Connecting → RabbitMqEventBus → RabbitMqEventBus
channel_opened opening bus = record bus {
  channel = true;
  consumers = [];
  reconnect_delay_ms = min_reconnect_delay_ms;
  connecting = setting_up 0;
}
channel_opened _ bus = bus

unfoldable pub nth : ℕ → List Subscription → Option Subscription
nth n [] = none
nth zero (s ∷ subs) = some s
nth (suc n) (s ∷ subs) = nth n subs

unfoldable pub add_consumer : (next : ℕ) → Option Subscription → RabbitMqEventBus → RabbitMqEventBus
add_consumer next none bus = record bus { connecting = connected; waiting = 0 }
add_consumer next (some sub) bus = record bus {
  consumers = bus.consumers ++ record { subscription = sub; state = consuming } ∷ [];
  connecting = setting_up (suc next);
}

-- The next consumer of the loop is set up, or the loop is over.
unfoldable pub set_up_next : Connecting → RabbitMqEventBus → RabbitMqEventBus
unfolding add_consumer nth
set_up_next (setting_up next) bus = add_consumer next (nth next bus.subscriptions) bus
set_up_next _ bus = bus

unfoldable pub connect_failed : Connecting → RabbitMqEventBus → RabbitMqEventBus
unfolding reject_connecting
connect_failed opening bus = reject_connecting bus
connect_failed (setting_up next) bus = reject_connecting bus
connect_failed _ bus = bus

-- The connection's "close" event; a loop that is under way then fails.
unfoldable pub connection_closed : RabbitMqEventBus → RabbitMqEventBus
unfolding reject_connecting schedule_reconnect
connection_closed bus = reject_connecting (schedule_reconnect (record bus { channel = false }))

unfoldable pub remove_nth : ℕ → List ℕ → List ℕ
remove_nth n [] = []
remove_nth zero (t ∷ ts) = ts
remove_nth (suc n) (t ∷ ts) = t ∷ remove_nth n ts

-- One of the pending timers fires.
unfoldable pub timer_fired : (which : ℕ) → RabbitMqEventBus → RabbitMqEventBus
unfolding remove_nth ensure_channel
timer_fired which bus =
    let fired : RabbitMqEventBus = record bus { timers = remove_nth which bus.timers } in
    if not (ltb which (length bus.timers))
    then bus
    else if bus.closed
    then fired
    else ensure_channel 1 fired

unfoldable pub close : RabbitMqEventBus → RabbitMqEventBus
close bus = record bus { closed = true; channel = false }

-- The promise of a `setupConsumer` that was not awaited settles. A rejection is handled by no one.
unfoldable pub settle_setup : (succeeds : Bool) → Consumer → Consumer
settle_setup succeeds consumer = elim consumer.state [
  | begun ↦ record consumer { state = if succeeds then consuming else rejected }
  | other ↦ consumer
]

-- The broker calls the consumer with null, which returns; no one is told.
unfoldable pub cancel : Consumer → Consumer
cancel consumer = elim consumer.state [
  | consuming ↦ record consumer { state = cancelled }
  | other ↦ consumer
]

unfoldable pub at_nth : (Consumer → Consumer) → ℕ → List Consumer → List Consumer
at_nth change n [] = []
at_nth change zero (c ∷ cs) = change c ∷ cs
at_nth change (suc n) (c ∷ cs) = c ∷ at_nth change n cs

unfoldable pub change_consumer : (Consumer → Consumer) → ℕ → RabbitMqEventBus → RabbitMqEventBus
unfolding at_nth
change_consumer change which bus = record bus { consumers = at_nth change which bus.consumers }

pub data BusEvent : Type 0 where
  subscribing : Subscription → BusEvent
  publishing opened consumer_set_up connecting_failed lost closing : BusEvent
  timer : ℕ → BusEvent
  setup_settled : (succeeds : Bool) → (which : ℕ) → BusEvent
  consumer_cancelled : (which : ℕ) → BusEvent

unfoldable pub step : BusEvent → RabbitMqEventBus → RabbitMqEventBus
unfolding subscribe ensure_channel channel_opened set_up_next connect_failed connection_closed
    timer_fired close change_consumer settle_setup cancel
step (subscribing sub) bus = subscribe sub bus
step publishing bus = ensure_channel 0 bus
step opened bus = channel_opened bus.connecting bus
step consumer_set_up bus = set_up_next bus.connecting bus
step connecting_failed bus = connect_failed bus.connecting bus
step lost bus = connection_closed bus
step closing bus = close bus
step (timer which) bus = timer_fired which bus
step (setup_settled succeeds which) bus = change_consumer (settle_setup succeeds) which bus
step (consumer_cancelled which) bus = change_consumer cancel which bus

unfoldable pub run : List BusEvent → RabbitMqEventBus → RabbitMqEventBus
unfolding step
run [] bus = bus
run (event ∷ events) bus = run events (step event bus)
