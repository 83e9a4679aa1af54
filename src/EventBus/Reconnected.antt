-- ===== src/EventBus/Reconnected.antt =====
-- A connect of packages/event-bus/src/index.ts that nothing interrupts.
use hy_fib_wa_app.Prelude.{
  ℕ, zero, suc, ◌≡◌, refl, sym, ap, ◌∙◌, true, List, [], ◌∷◌, ◌++◌, map, some, none,
}
use mathlib.Core.List.{append-nil, append_assoc}
use hy_fib_wa_app.EventBus.{
  Subscription, Consumer, consuming, opening, connected, setting_up, RabbitMqEventBus,
  min_reconnect_delay_ms, channel_opened, nth, add_consumer, set_up_next, BusEvent, step, run,
  opened, consumer_set_up,
}

-- One event for the setup of each subscription, and one for the end of the loop.
abbrev pub set_ups : List Subscription → List BusEvent
set_ups [] = consumer_set_up ∷ []
set_ups (sub ∷ subs) = consumer_set_up ∷ set_ups subs

abbrev pub consumer_of : Subscription → Consumer
consumer_of sub = record { subscription = sub; state = consuming }

abbrev count : List Subscription → ℕ
count [] = zero
count (sub ∷ subs) = suc (count subs)

nth-end : (before : List Subscription) → nth (count before) (before ++ []) ≡ none
unfolding nth
nth-end [] = refl
nth-end (b ∷ before) = nth-end before

nth-next :
    (before : List Subscription) (sub : Subscription) (rest : List Subscription)
    → nth (count before) (before ++ sub ∷ rest) ≡ some sub
unfolding nth
nth-next [] sub rest = refl
nth-next (b ∷ before) sub rest = nth-next before sub rest

count-next :
    (before : List Subscription) (sub : Subscription)
    → suc (count before) ≡ count (before ++ sub ∷ [])
count-next [] sub = refl
count-next (b ∷ before) sub = ap suc (count-next before sub)

-- The bus in the loop, with the subscriptions that it has passed and those to come.
abbrev looping : RabbitMqEventBus → ℕ → List Subscription → List Consumer → RabbitMqEventBus
looping bus next subs consumers = record bus {
  connecting = setting_up next;
  subscriptions = subs;
  consumers = consumers;
}

loop_lem :
    (rest before : List Subscription) (consumers : List Consumer) (bus : RabbitMqEventBus)
    → run (set_ups rest) (looping bus (count before) (before ++ rest) consumers) ≡ record bus {
      connecting = connected;
      waiting = 0;
      subscriptions = before ++ rest;
      consumers = consumers ++ map consumer_of rest;
    }
unfolding run step set_up_next add_consumer
loop_lem [] before consumers bus = rw (nth-end before, append-nil consumers) refl
loop_lem (sub ∷ rest) before consumers bus =
    rw (nth-next before sub rest, run)
      (ap
          (λ l.
            run (set_ups rest)
              (looping bus (suc (count before)) l (consumers ++ consumer_of sub ∷ [])))
          (sym (append_assoc before (sub ∷ []) rest))
        ∙ ap
            (λ n.
              run (set_ups rest)
                (looping bus n ((before ++ sub ∷ []) ++ rest) (consumers ++ consumer_of sub ∷ [])))
            (count-next before sub)
        ∙ loop_lem rest (before ++ sub ∷ []) (consumers ++ consumer_of sub ∷ []) bus
        ∙ ap
            (λ l. record bus {
              connecting = connected;
              waiting = 0;
              subscriptions = l;
              consumers = (consumers ++ consumer_of sub ∷ []) ++ map consumer_of rest;
            })
            (append_assoc before (sub ∷ []) rest)
        ∙ ap
            (λ l. record bus {
              connecting = connected;
              waiting = 0;
              subscriptions = before ++ sub ∷ rest;
              consumers = l;
            })
            (append_assoc consumers (consumer_of sub ∷ []) (map consumer_of rest)))

-- A connect that nothing interrupts ends, after one setup for each subscription: then the bus has
-- a channel, with one consumer for each subscription, in their order and no others, the backoff is
-- one second again, and no caller waits. The timers, the subscriptions and whether it was
-- closed are as before.
pub reconnect_lem :
    (bus : RabbitMqEventBus)
    → bus.connecting ≡ opening
    → run (opened ∷ set_ups bus.subscriptions) bus ≡ record bus {
      channel = true;
      connecting = connected;
      consumers = map consumer_of bus.subscriptions;
      reconnect_delay_ms = min_reconnect_delay_ms;
      waiting = 0;
    }
unfolding run step channel_opened
reconnect_lem bus e = rw e (
    loop_lem bus.subscriptions [] []
      (record bus { channel = true; reconnect_delay_ms = min_reconnect_delay_ms }))
