-- ===== src/EventBus/Missing.antt =====
-- How many consumers of packages/event-bus/src/index.ts can be missing.
use hy_fib_wa_app.Prelude.{
  ℕ, zero, suc, ◌+◌, ◌≤◌, ◌≡◌, refl, ◌∙◌, ap, Bool, true, false, List, [], ◌∷◌, ◌++◌, Option, none,
  some, arith, if-cases,
}
use hy_fib_wa_app.EventBus.{
  Subscription, Consumer, ConsumerState, begun, consuming, rejected, cancelled, Connecting,
  not_connecting, opening, connected, setting_up, RabbitMqEventBus, schedule_reconnect,
  schedule_each, reject_connecting, ensure_connecting, ensure_channel, subscribe, channel_opened,
  nth, add_consumer, set_up_next, connect_failed, connection_closed, timer_fired, close,
  settle_setup, cancel, at_nth, change_consumer, BusEvent, step, run, subscribing, publishing,
  opened, consumer_set_up, connecting_failed, lost, closing, timer, setup_settled,
  consumer_cancelled,
}

abbrev is_missing : ConsumerState → ℕ
is_missing begun = 0
is_missing consuming = 0
is_missing rejected = 1
is_missing cancelled = 1

-- The consumers of the channel that were rejected or cancelled.
abbrev pub missing : List Consumer → ℕ
missing [] = 0
missing (c ∷ cs) = is_missing c.state + missing cs

-- An event in which the broker rejects or cancels a consumer.
abbrev pub break : BusEvent → ℕ
break (setup_settled true which) = 0
break (setup_settled false which) = 1
break (consumer_cancelled which) = 1
break _ = 0

abbrev pub breaks : List BusEvent → ℕ
breaks [] = 0
breaks (event ∷ events) = break event + breaks events

missing-append : (cs ds : List Consumer) → missing (cs ++ ds) ≡ missing cs + missing ds
missing-append [] ds = omega arith
missing-append (c ∷ cs) ds = omega (arith, missing-append cs ds)

schedule_each-consumers :
    (n : ℕ) (bus : RabbitMqEventBus) → (schedule_each n bus).consumers ≡ bus.consumers
unfolding schedule_each schedule_reconnect
schedule_each-consumers zero bus = refl
schedule_each-consumers (suc n) bus =
    schedule_each-consumers n (schedule_reconnect bus) ∙ (ground arith)

ensure_channel-consumers :
    (n : ℕ) (bus : RabbitMqEventBus) → (ensure_channel n bus).consumers ≡ bus.consumers
unfolding ensure_channel ensure_connecting
ensure_channel-consumers n bus = ground arith

set_up_next-missing :
    (c : Connecting) (bus : RabbitMqEventBus)
    → missing (set_up_next c bus).consumers ≡ missing bus.consumers
unfolding set_up_next add_consumer
set_up_next-missing not_connecting bus = refl
set_up_next-missing opening bus = refl
set_up_next-missing connected bus = refl
set_up_next-missing (setting_up next) bus = by_next (nth next bus.subscriptions)
  where
    by_next :
        (o : Option Subscription)
        → missing (add_consumer next o bus).consumers ≡ missing bus.consumers
    by_next none = refl
    by_next (some sub) = omega (
      arith,
      missing-append bus.consumers (record { subscription = sub; state = consuming } ∷ []),
    )

channel_opened-missing :
    (c : Connecting) (bus : RabbitMqEventBus)
    → missing (channel_opened c bus).consumers ≤ missing bus.consumers
unfolding channel_opened
channel_opened-missing not_connecting bus = omega arith
channel_opened-missing opening bus = omega arith
channel_opened-missing connected bus = omega arith
channel_opened-missing (setting_up next) bus = omega arith

connect_failed-consumers :
    (c : Connecting) (bus : RabbitMqEventBus) → (connect_failed c bus).consumers ≡ bus.consumers
unfolding connect_failed reject_connecting
connect_failed-consumers not_connecting bus = refl
connect_failed-consumers connected bus = refl
connect_failed-consumers opening bus = schedule_each-consumers bus.waiting _
connect_failed-consumers (setting_up next) bus = schedule_each-consumers bus.waiting _

lost-consumers : (bus : RabbitMqEventBus) → (connection_closed bus).consumers ≡ bus.consumers
unfolding connection_closed reject_connecting schedule_each
lost-consumers bus =
    let lost_bus = schedule_reconnect (record bus { channel = false }) in
    schedule_each-consumers lost_bus.waiting
      (record lost_bus { connecting = not_connecting; waiting = 0 })
    ∙ schedule_each-consumers 1 (record bus { channel = false })

fired-consumers :
    (which : ℕ) (bus : RabbitMqEventBus) → (timer_fired which bus).consumers ≡ bus.consumers
unfolding timer_fired ensure_channel ensure_connecting
fired-consumers which bus = ground arith

subscribe-missing :
    (sub : Subscription) (bus : RabbitMqEventBus)
    → missing (subscribe sub bus).consumers ≡ missing bus.consumers
unfolding subscribe
subscribe-missing sub bus =
    let starting : Consumer = record { subscription = sub; state = begun } in
    let pushed : RabbitMqEventBus = record bus { subscriptions = bus.subscriptions ++ sub ∷ [] } in
    if-cases (λ b. missing b.consumers ≡ missing bus.consumers) bus.channel
      (record pushed { consumers = bus.consumers ++ starting ∷ [] }) (ensure_channel 1 pushed)
      (λ y. omega (arith, missing-append bus.consumers (starting ∷ [])))
      (λ n. ap missing (ensure_channel-consumers 1 pushed))

at_nth-missing :
    (change : Consumer → Consumer) (more : ℕ)
    → ((c : Consumer) → is_missing (change c).state ≤ is_missing c.state + more)
    → (n : ℕ) (cs : List Consumer) → missing (at_nth change n cs) ≤ missing cs + more
unfolding at_nth
at_nth-missing change more h n [] = omega arith
at_nth-missing change more h zero (c ∷ cs) = omega (arith, h c)
at_nth-missing change more h (suc n) (c ∷ cs) = omega (arith, at_nth-missing change more h n cs)

settle_setup-missing :
    (succeeds : Bool) (which : ℕ) (c : Consumer)
    → is_missing (settle_setup succeeds c).state
      ≤ is_missing c.state + break (setup_settled succeeds which)
unfolding settle_setup
settle_setup-missing succeeds which c = ground arith

cancel-missing : (c : Consumer) → is_missing (cancel c).state ≤ is_missing c.state + 1
unfolding cancel
cancel-missing c = ground arith

step-missing :
    (event : BusEvent) (bus : RabbitMqEventBus)
    → missing (step event bus).consumers ≤ missing bus.consumers + break event
unfolding step change_consumer close
step-missing (subscribing sub) bus = omega (arith, subscribe-missing sub bus)
step-missing publishing bus = omega (arith, ap missing (ensure_channel-consumers 0 bus))
step-missing opened bus = omega (arith, channel_opened-missing bus.connecting bus)
step-missing consumer_set_up bus = omega (arith, set_up_next-missing bus.connecting bus)
step-missing connecting_failed bus =
    omega (arith, ap missing (connect_failed-consumers bus.connecting bus))
step-missing lost bus = omega (arith, ap missing (lost-consumers bus))
step-missing closing bus = omega arith
step-missing (timer which) bus = omega (arith, ap missing (fired-consumers which bus))
step-missing (setup_settled succeeds which) bus =
    at_nth-missing (settle_setup succeeds) (break (setup_settled succeeds which))
      (settle_setup-missing succeeds which) which bus.consumers
step-missing (consumer_cancelled which) bus =
    at_nth-missing cancel 1 cancel-missing which bus.consumers

pub run-missing :
    (events : List BusEvent) (bus : RabbitMqEventBus)
    → missing (run events bus).consumers ≤ missing bus.consumers + breaks events
unfolding run
run-missing [] bus = omega arith
run-missing (event ∷ events) bus =
    omega (arith, run-missing events (step event bus), step-missing event bus)
