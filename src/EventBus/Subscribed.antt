-- ===== src/EventBus/Subscribed.antt =====
-- Asking for a channel, and subscribing, keep the invariant of packages/event-bus/src/index.ts.
use hy_fib_wa_app.Prelude.{
  ℕ, ◌+◌, ◌≡◌, refl, sym, subst, true, false, not, ◌&&◌, ◌||◌, [], ◌∷◌, ◌++◌, length, ltb, arith,
  All, if-cases,
}
use hy_fib_wa_app.EventBus.{Consumer, begun}
use hy_fib_wa_app.EventBus.{
  Subscription, Connecting, RabbitMqEventBus, ensure_connecting, ensure_channel, subscribe,
  not_connecting, opening, connected, setting_up,
}
use hy_fib_wa_app.EventBus.Healthy.{is_awaited}
use hy_fib_wa_app.EventBus.Consumers.{Served-subscribed, Served-pushed}
use hy_fib_wa_app.EventBus.Healthy.{Served, InRange, has_socket, is_nil, IsHealthy}

pub ensure_connecting-IsHealthy :
    (waiters : ℕ) (c : Connecting) (bus : RabbitMqEventBus)
    → bus.connecting ≡ c
    → bus.channel ≡ false
    → InRange bus.reconnect_delay_ms
    → All InRange bus.timers
    → has_socket bus.connecting && not bus.channel && not bus.closed ≡ false
    → Served bus.connecting bus.channel bus.consumers bus.subscriptions
    → is_awaited bus.connecting bus.waiting ≡ true
    → (bus.closed || is_nil bus.subscriptions || ltb 0 (bus.waiting + waiters + length bus.timers))
      ≡ true
    → IsHealthy (ensure_connecting waiters c bus)
unfolding ensure_connecting
ensure_connecting-IsHealthy waiters not_connecting bus p n d t s v w r = record {
  delay_range = d;
  timer_range = t;
  socket = refl;
  served = tt;
  retried = ground arith;
  awaited = refl;
}
ensure_connecting-IsHealthy waiters opening bus p n d t s v w r = record {
  delay_range = d;
  timer_range = t;
  socket = s;
  served = v;
  retried = ground arith;
  awaited = (rw p refl);
}
ensure_connecting-IsHealthy waiters (setting_up next) bus p n d t s v w r = record {
  delay_range = d;
  timer_range = t;
  socket = s;
  served = v;
  retried = ground arith;
  awaited = (rw p refl);
}
ensure_connecting-IsHealthy waiters connected bus p n d t s v w r =
    let socketed : has_socket bus.connecting ≡ true = rw p refl in
    record {
      delay_range = d;
      timer_range = t;
      socket = s;
      served = v;
      retried = ground arith;
      awaited = w;
    }

pub subscribe-IsHealthy :
    (sub : Subscription) (bus : RabbitMqEventBus) → IsHealthy bus → IsHealthy (subscribe sub bus)
unfolding subscribe ensure_channel
subscribe-IsHealthy sub bus h =
    let pushed : RabbitMqEventBus = record bus { subscriptions = bus.subscriptions ++ sub ∷ [] } in
    let starting : Consumer = record { subscription = sub; state = begun } in
    let served : RabbitMqEventBus = record pushed { consumers = bus.consumers ++ starting ∷ [] } in
    if-cases IsHealthy bus.channel served (ensure_channel 1 pushed)
      (λ y. record {
        delay_range = h.delay_range;
        timer_range = h.timer_range;
        socket = h.socket;
        served =
            subst (λ ch. Served bus.connecting ch served.consumers served.subscriptions) (sym y)
              (Served-subscribed bus.connecting bus.consumers bus.subscriptions starting (
                subst (λ ch. Served bus.connecting ch bus.consumers bus.subscriptions) y h.served));
        retried = ground arith;
        awaited = h.awaited;
      })
      (λ n.
        if-cases IsHealthy bus.channel pushed (ensure_connecting 1 bus.connecting pushed)
          (λ y. absurd (ground arith))
          (λ n.
            ensure_connecting-IsHealthy 1 bus.connecting pushed refl n h.delay_range h.timer_range
              h.socket
              (subst (λ ch. Served bus.connecting ch bus.consumers pushed.subscriptions) (sym n)
                (Served-pushed bus.connecting bus.consumers bus.subscriptions (sub ∷ []) (
                  subst (λ ch. Served bus.connecting ch bus.consumers bus.subscriptions) n
                    h.served)))
              h.awaited (ground arith)))

pub publish-IsHealthy : (bus : RabbitMqEventBus) → IsHealthy bus → IsHealthy (ensure_channel 0 bus)
unfolding ensure_channel
publish-IsHealthy bus h =
    if-cases IsHealthy bus.channel bus (ensure_connecting 0 bus.connecting bus) (λ y. h)
      (λ n.
        ensure_connecting-IsHealthy 0 bus.connecting bus refl n h.delay_range h.timer_range h.socket
          h.served h.awaited (let again = h.retried in ground arith))
