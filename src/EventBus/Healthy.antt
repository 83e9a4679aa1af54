-- ===== src/EventBus/Healthy.antt =====
-- The invariant of the transport of packages/event-bus/src/index.ts, and that scheduling keeps it.
use hy_fib_wa_app.Prelude.{
  ℕ, zero, suc, ◌+◌, ◌≤◌, ◌≡◌, ◌⊎◌, inl, inr, refl, Bool, true, false, not, ◌&&◌, ◌||◌, List, [],
  ◌∷◌, length, ltb, arith, All, Bool-cases, ◌==◌,
}
use hy_fib_wa_app.EventBus.{connection_closed}
use hy_fib_wa_app.EventBus.{
  Subscription, Consumer, Connecting, RabbitMqEventBus, min_reconnect_delay_ms,
  max_reconnect_delay_ms, schedule_reconnect, schedule_each, reject_connecting, not_connecting,
  opening, connected, setting_up,
}

-- A consumer was set up for a subscription, or its setup was begun.
abbrev pub Serves : List Consumer → Subscription → Type 0
Serves [] sub = ⊥
Serves (c ∷ cs) sub = (c.subscription ≡ sub) ⊎ Serves cs sub

-- This holds for the first n subscriptions.
abbrev pub ServesFirst : (n : ℕ) → List Consumer → List Subscription → Type 0
ServesFirst zero consumers subs = Unit
ServesFirst (suc n) consumers [] = ⊥
ServesFirst (suc n) consumers (sub ∷ subs) = Serves consumers sub × ServesFirst n consumers subs

-- It holds for those that the loop over the subscriptions has passed, and for all once the loop is
-- over and while there is a channel.
abbrev pub Served : Connecting → (channel : Bool) → List Consumer → List Subscription → Type 0
Served not_connecting channel consumers subs = Unit
Served opening channel consumers subs = Unit
Served (setting_up next) channel consumers subs = ServesFirst next consumers subs
Served connected true consumers subs = All (Serves consumers) subs
Served connected false consumers subs = Unit

abbrev pub InRange : ℕ → Type 0
InRange delay = (min_reconnect_delay_ms ≤ delay) × (delay ≤ max_reconnect_delay_ms)

abbrev pub has_socket : Connecting → Bool
has_socket not_connecting = false
has_socket opening = false
has_socket (setting_up next) = true
has_socket connected = true

-- Callers wait only for a connect that is under way.
abbrev pub is_awaited : Connecting → (waiting : ℕ) → Bool
is_awaited not_connecting waiting = waiting == 0
is_awaited connected waiting = waiting == 0
is_awaited opening waiting = true
is_awaited (setting_up next) waiting = true

abbrev pub is_nil : List Subscription → Bool
is_nil [] = true
is_nil (s ∷ subs) = false

-- Someone waits for a channel or a timer is pending, unless none is wanted.
abbrev pub is_retried : RabbitMqEventBus → Bool
is_retried bus =
    bus.closed || is_nil bus.subscriptions || bus.channel || ltb 0 (bus.waiting + length bus.timers)

pub record IsHealthy (bus : RabbitMqEventBus) : Type 0 where
  pub delay_range : InRange bus.reconnect_delay_ms
  pub timer_range : All InRange bus.timers
  pub socket : has_socket bus.connecting && not bus.channel && not bus.closed ≡ false
  pub served : Served bus.connecting bus.channel bus.consumers bus.subscriptions
  pub retried : is_retried bus ≡ true
  pub awaited : is_awaited bus.connecting bus.waiting ≡ true

-- What scheduling gives by itself.
schedule_reconnect-range :
    (bus : RabbitMqEventBus)
    → InRange bus.reconnect_delay_ms
    → All InRange bus.timers
    → InRange (schedule_reconnect bus).reconnect_delay_ms
      × All InRange (schedule_reconnect bus).timers
      × (is_retried (schedule_reconnect bus) ≡ true)
unfolding schedule_reconnect
schedule_reconnect-range bus d t = elim (Bool-cases bus.closed) [
  | inl c ↦ simp (c, schedule_reconnect) (d, t, ground arith)
  | inr o ↦ simp (o, schedule_reconnect) ((ground arith, ground arith), (d, t), ground arith)
]

schedule_reconnect-IsHealthy :
    (bus : RabbitMqEventBus)
    → InRange bus.reconnect_delay_ms
    → All InRange bus.timers
    → has_socket bus.connecting && not bus.channel && not bus.closed ≡ false
    → Served bus.connecting bus.channel bus.consumers bus.subscriptions
    → is_awaited bus.connecting bus.waiting ≡ true
    → IsHealthy (schedule_reconnect bus)
unfolding schedule_reconnect
schedule_reconnect-IsHealthy bus d t s v w =
    let (delay, timers, again) = schedule_reconnect-range bus d t in
    record {
      delay_range = delay;
      timer_range = timers;
      socket = ground arith;
      served = elim (Bool-cases bus.closed) [
        | inl c ↦ simp (c, schedule_reconnect) v
        | inr o ↦ simp (o, schedule_reconnect) v
      ];
      retried = again;
      awaited = ground arith;
    }

pub schedule_each-IsHealthy :
    (waiting : ℕ) (bus : RabbitMqEventBus) → IsHealthy bus → IsHealthy (schedule_each waiting bus)
unfolding schedule_each
schedule_each-IsHealthy zero bus h = h
schedule_each-IsHealthy (suc waiting) bus h =
    schedule_each-IsHealthy waiting (schedule_reconnect bus)
      (schedule_reconnect-IsHealthy bus h.delay_range h.timer_range h.socket h.served h.awaited)

-- As above, where the bus itself need not be retried if there is a caller to schedule for.
schedule_all-IsHealthy :
    (waiting : ℕ) (bus : RabbitMqEventBus)
    → InRange bus.reconnect_delay_ms
    → All InRange bus.timers
    → has_socket bus.connecting && not bus.channel && not bus.closed ≡ false
    → Served bus.connecting bus.channel bus.consumers bus.subscriptions
    → is_awaited bus.connecting bus.waiting ≡ true
    → (bus.closed || is_nil bus.subscriptions || bus.channel || ltb 0 (waiting + length bus.timers))
      ≡ true
    → IsHealthy (schedule_each waiting bus)
unfolding schedule_each
schedule_all-IsHealthy zero bus d t s v w r = record {
  delay_range = d;
  timer_range = t;
  socket = s;
  served = v;
  retried = ground arith;
  awaited = w;
}
schedule_all-IsHealthy (suc waiting) bus d t s v w r =
    schedule_each-IsHealthy waiting (schedule_reconnect bus)
      (schedule_reconnect-IsHealthy bus d t s v w)

pub reject_connecting-IsHealthy :
    (bus : RabbitMqEventBus)
    → InRange bus.reconnect_delay_ms
    → All InRange bus.timers
    → is_retried bus ≡ true
    → IsHealthy (reject_connecting bus)
unfolding reject_connecting
reject_connecting-IsHealthy bus d t r =
    schedule_all-IsHealthy bus.waiting (record bus { connecting = not_connecting; waiting = 0 }) d t
      refl tt refl r

pub lost-IsHealthy : (bus : RabbitMqEventBus) → IsHealthy bus → IsHealthy (connection_closed bus)
unfolding connection_closed
lost-IsHealthy bus h =
    let (delay, timers, again) =
      schedule_reconnect-range (record bus { channel = false }) h.delay_range h.timer_range in
    reject_connecting-IsHealthy (schedule_reconnect (record bus { channel = false })) delay timers
      again
