-- ===== src/EventBus/Steps.antt =====
-- Each event keeps the invariant of the transport of packages/event-bus/src/index.ts.
use hy_fib_wa_app.Prelude.{
  ℕ, zero, suc, ◌≡◌, inl, inr, refl, subst, Bool, true, false, not, ◌&&◌, List, [], ◌∷◌, length,
  ltb, arith, All, if-cases, Option-cases,
}
use hy_fib_wa_app.EventBus.{
  channel_opened, add_consumer, set_up_next, connect_failed, remove_nth, timer_fired, close,
  BusEvent, step, subscribing, publishing, opened, consumer_set_up, connecting_failed, lost,
  closing, timer, setup_settled, consumer_cancelled, settle_setup, cancel, change_consumer,
  Consumer, consuming,
}
use hy_fib_wa_app.EventBus.{
  Connecting, RabbitMqEventBus, ensure_connecting, ensure_channel, nth, not_connecting, opening,
  connected, setting_up,
}
use hy_fib_wa_app.EventBus.Consumers.{ServesFirst-next, ServesFirst-all, Served-changed}
use hy_fib_wa_app.EventBus.Healthy.{reject_connecting-IsHealthy, lost-IsHealthy}
use hy_fib_wa_app.EventBus.Healthy.{Serves, ServesFirst, Served, InRange, has_socket, IsHealthy}
use hy_fib_wa_app.EventBus.Subscribed.{
  ensure_connecting-IsHealthy, subscribe-IsHealthy, publish-IsHealthy,
}

opened-IsHealthy :
    (c : Connecting) (bus : RabbitMqEventBus) → IsHealthy bus → IsHealthy (channel_opened c bus)
unfolding channel_opened
opened-IsHealthy opening bus h = record {
  delay_range = (omega arith, omega arith);
  timer_range = h.timer_range;
  socket = refl;
  served = tt;
  retried = ground arith;
  awaited = refl;
}
opened-IsHealthy not_connecting bus h = h
opened-IsHealthy (setting_up next) bus h = h
opened-IsHealthy connected bus h = h

set_up-IsHealthy :
    (c : Connecting) (bus : RabbitMqEventBus)
    → bus.connecting ≡ c
    → IsHealthy bus
    → IsHealthy (set_up_next c bus)
unfolding set_up_next add_consumer
set_up-IsHealthy not_connecting bus p h = h
set_up-IsHealthy opening bus p h = h
set_up-IsHealthy connected bus p h = h
set_up-IsHealthy (setting_up next) bus p h =
    let first : ServesFirst next bus.consumers bus.subscriptions =
      subst (λ c. Served c bus.channel bus.consumers bus.subscriptions) p h.served in
    let socket : not bus.channel && not bus.closed ≡ false =
      subst (λ c. has_socket c && not bus.channel && not bus.closed ≡ false) p h.socket in
    elim (Option-cases (nth next bus.subscriptions)) [
      | inl e ↦ simp e (record {
        delay_range = h.delay_range;
        timer_range = h.timer_range;
        socket = socket;
        served =
            served_at bus.channel (ServesFirst-all next bus.consumers bus.subscriptions e first);
        retried = ground arith;
        awaited = refl;
      })
      | inr (s, e) ↦ simp e (record {
        delay_range = h.delay_range;
        timer_range = h.timer_range;
        socket = socket;
        served =
            ServesFirst-next next bus.consumers bus.subscriptions
              (record { subscription = s; state = consuming }) e first;
        retried = h.retried;
        awaited = refl;
      })
    ]
  where
    served_at :
        (ch : Bool)
        → All (Serves bus.consumers) bus.subscriptions
        → Served connected ch bus.consumers bus.subscriptions
    served_at true a = a
    served_at false a = tt

failed-IsHealthy :
    (c : Connecting) (bus : RabbitMqEventBus) → IsHealthy bus → IsHealthy (connect_failed c bus)
unfolding connect_failed
failed-IsHealthy not_connecting bus h = h
failed-IsHealthy connected bus h = h
failed-IsHealthy opening bus h =
    reject_connecting-IsHealthy bus h.delay_range h.timer_range h.retried
failed-IsHealthy (setting_up next) bus h =
    reject_connecting-IsHealthy bus h.delay_range h.timer_range h.retried

closed-IsHealthy : (bus : RabbitMqEventBus) → IsHealthy bus → IsHealthy (close bus)
unfolding close
closed-IsHealthy bus h = record {
  delay_range = h.delay_range;
  timer_range = h.timer_range;
  socket = ground arith;
  served = dropped bus.connecting bus.channel h.served;
  retried = refl;
  awaited = h.awaited;
}
  where
    dropped :
        (c : Connecting) (ch : Bool)
        → Served c ch bus.consumers bus.subscriptions
        → Served c false bus.consumers bus.subscriptions
    dropped not_connecting ch v = tt
    dropped opening ch v = tt
    dropped (setting_up next) ch v = v
    dropped connected ch v = tt

All-remove : (n : ℕ) (ts : List ℕ) → All InRange ts → All InRange (remove_nth n ts)
unfolding remove_nth
All-remove n [] h = tt
All-remove zero (t ∷ ts) (h, hs) = hs
All-remove (suc n) (t ∷ ts) (h, hs) = (h, All-remove n ts hs)

fired-IsHealthy :
    (which : ℕ) (bus : RabbitMqEventBus) → IsHealthy bus → IsHealthy (timer_fired which bus)
unfolding timer_fired ensure_channel
fired-IsHealthy which bus h =
    let fired : RabbitMqEventBus = record bus { timers = remove_nth which bus.timers } in
    let timers = All-remove which bus.timers h.timer_range in
    if-cases IsHealthy (not (ltb which (length bus.timers))) bus _ (λ y. h)
      (λ n.
        if-cases IsHealthy bus.closed fired (ensure_channel 1 fired)
          (λ c. record {
            delay_range = h.delay_range;
            timer_range = timers;
            socket = h.socket;
            served = h.served;
            retried = ground arith;
            awaited = h.awaited;
          })
          (λ o.
            if-cases IsHealthy bus.channel fired (ensure_connecting 1 bus.connecting fired)
              (λ y. record {
                delay_range = h.delay_range;
                timer_range = timers;
                socket = h.socket;
                served = h.served;
                retried = ground arith;
                awaited = h.awaited;
              })
              (λ m.
                ensure_connecting-IsHealthy 1 bus.connecting fired refl m h.delay_range timers
                  h.socket h.served h.awaited (ground arith))))

changed-IsHealthy :
    (change : Consumer → Consumer)
    → ((c : Consumer) → (change c).subscription ≡ c.subscription)
    → (which : ℕ) (bus : RabbitMqEventBus) → IsHealthy bus
    → IsHealthy (change_consumer change which bus)
unfolding change_consumer
changed-IsHealthy change keeps which bus h = record {
  delay_range = h.delay_range;
  timer_range = h.timer_range;
  socket = h.socket;
  served =
      Served-changed change keeps bus.connecting bus.channel which bus.consumers bus.subscriptions
        h.served;
  retried = h.retried;
  awaited = h.awaited;
}

settle_setup-keeps :
    (succeeds : Bool) (c : Consumer) → (settle_setup succeeds c).subscription ≡ c.subscription
unfolding settle_setup
settle_setup-keeps succeeds c = ground arith

cancel-keeps : (c : Consumer) → (cancel c).subscription ≡ c.subscription
unfolding cancel
cancel-keeps c = ground arith

pub step-IsHealthy :
    (event : BusEvent) (bus : RabbitMqEventBus) → IsHealthy bus → IsHealthy (step event bus)
unfolding step
step-IsHealthy (subscribing sub) bus h = subscribe-IsHealthy sub bus h
step-IsHealthy publishing bus h = publish-IsHealthy bus h
step-IsHealthy opened bus h = opened-IsHealthy bus.connecting bus h
step-IsHealthy consumer_set_up bus h = set_up-IsHealthy bus.connecting bus refl h
step-IsHealthy connecting_failed bus h = failed-IsHealthy bus.connecting bus h
step-IsHealthy lost bus h = lost-IsHealthy bus h
step-IsHealthy closing bus h = closed-IsHealthy bus h
step-IsHealthy (timer which) bus h = fired-IsHealthy which bus h
step-IsHealthy (setup_settled succeeds which) bus h =
    changed-IsHealthy (settle_setup succeeds) (settle_setup-keeps succeeds) which bus h
step-IsHealthy (consumer_cancelled which) bus h = changed-IsHealthy cancel cancel-keeps which bus h
