-- ===== src/EventBus/Settled.antt =====
-- Every message of packages/event-bus/src/index.ts is settled, and the bus in process calls the handlers
-- of the topic.
use hy_fib_wa_app.Prelude.{
  ℕ, suc, ◌≤◌, ◌≡◌, ◌⊎◌, inl, inr, refl, sym, ap, ◌∙◌, Bool, true, false, List, [], ◌∷◌, ◌++◌,
  Option, some, String, str_eq, eq_iff, if◌then◌else◌, arith, Bool-cases,
}
use mathlib.Core.List.{append-nil, append_assoc}
use hy_fib_wa_app.EventBus.Dispatch.{EventEnvelope, publish_in_memory, subscribe_all}
use hy_fib_wa_app.EventBus.Dispatch.{
  Settlement, dispatch, deliver, Handlers, handlers_of, subscribe_in_memory, acked, dead_lettered,
}

-- The message was settled: acknowledged after a delivery that was handled, or was of an ephemeral
-- queue, or dead-lettered after one that was not, at the second delivery at the latest.
abbrev pub IsSettled : (ephemeral : Bool) → (handles : ℕ → Bool) → Option (Settlement × ℕ) → Type 0
IsSettled ephemeral handles (some (acked, suc n)) =
    (n ≤ 1) × ((handles n ≡ true) ⊎ (ephemeral ≡ true))
IsSettled ephemeral handles (some (dead_lettered, suc n)) =
    (n ≤ 1) × (handles n ≡ false) × (ephemeral ≡ false)
IsSettled ephemeral handles _ = ⊥

deliver-failed :
    (ephemeral redelivered : Bool) (handles : ℕ → Bool)
    → handles 0 ≡ false
    → deliver 2 ephemeral handles 0 redelivered ≡ (
        if ephemeral
        then some (acked, 1)
        else if redelivered
        then some (dead_lettered, 1)
        else deliver 1 ephemeral handles 1 true)
unfolding deliver dispatch
deliver-failed ephemeral redelivered handles n = ground arith

deliver-handled :
    (ephemeral redelivered : Bool) (handles : ℕ → Bool)
    → handles 0 ≡ true
    → deliver 2 ephemeral handles 0 redelivered ≡ some (acked, 1)
unfolding deliver dispatch
deliver-handled ephemeral redelivered handles y = ground arith

deliver-last :
    (handles : ℕ → Bool)
    → deliver 1 false handles 1 true ≡ some (if handles 1 then acked else dead_lettered, 2)
unfolding deliver dispatch
deliver-last handles = ground arith

-- Two deliveries settle every message: it is acknowledged, after a delivery that was handled or on
-- an ephemeral queue, or it is dead-lettered, after a delivery that was not handled on a queue that
-- is not ephemeral.
pub deliver-IsSettled :
    (ephemeral redelivered : Bool) (handles : ℕ → Bool)
    → IsSettled ephemeral handles (deliver 2 ephemeral handles 0 redelivered)
unfolding deliver dispatch
deliver-IsSettled ephemeral redelivered handles = elim (Bool-cases (handles 0)) [
  | inl y ↦ rw (deliver-handled ephemeral redelivered handles y) (omega arith, inl y)
  | inr n ↦ failed_once ephemeral redelivered n
]
  where
    failed_twice :
        (b : Bool)
        → handles 0 ≡ false
        → handles 1 ≡ b
        → IsSettled false handles (deliver 2 false handles 0 false)
    failed_twice true n e =
        rw (deliver-failed false false handles n, deliver-last handles, e) (omega arith, inl e)
    failed_twice false n e =
        rw (deliver-failed false false handles n, deliver-last handles, e) (omega arith, e, refl)

    failed_once :
        (ephemeral redelivered : Bool)
        → handles 0 ≡ false
        → IsSettled ephemeral handles (deliver 2 ephemeral handles 0 redelivered)
    failed_once true redelivered n =
        rw (deliver-failed true redelivered handles n) (omega arith, inr refl)
    failed_once false true n = rw (deliver-failed false true handles n) (omega arith, n, refl)
    failed_once false false n = failed_twice (handles 1) n refl

handlers_of-subscribe :
    (topic topic' : String) (handler : ℕ) (handlers : Handlers)
    → handlers_of topic (subscribe_in_memory topic' handler handlers) ≡ (
        if str_eq topic' topic
        then handlers_of topic handlers ++ handler ∷ []
        else handlers_of topic handlers)
unfolding handlers_of subscribe_in_memory
handlers_of-subscribe topic topic' handler [] = ground arith
handlers_of-subscribe topic topic' handler ((key, current) ∷ handlers) =
    elim (Bool-cases (str_eq key topic')) [
      | inl y ↦ first current ((eq_iff key topic').0 y) y
      | inr n ↦ elim (Bool-cases (str_eq key topic)) [
        | inl k ↦ rw (n, k, other ((eq_iff key topic).0 k) n) refl
        | inr m ↦ rw (n, m) (handlers_of-subscribe topic topic' handler handlers)
      ]
    ]
  where
    first :
        (current : List ℕ)
        → key ≡ topic'
        → str_eq key topic' ≡ true
        → handlers_of topic (subscribe_in_memory topic' handler ((key, current) ∷ handlers)) ≡ (
            if str_eq topic' topic
            then handlers_of topic ((key, current) ∷ handlers) ++ handler ∷ []
            else handlers_of topic ((key, current) ∷ handlers))
    first current e y =
        let link : str_eq key topic ≡ str_eq topic' topic = ap (λ k. str_eq k topic) e in
        elim (Bool-cases (str_eq topic' topic)) [
          | inl t ↦ rw (y, t, link ∙ t) refl
          | inr m ↦ rw (y, m, link ∙ m) refl
        ]

    clash : {b : Bool} → b ≡ true → b ≡ false → ⊥
    clash t f = cc

    other : key ≡ topic → str_eq key topic' ≡ false → str_eq topic' topic ≡ false
    other e n = elim (Bool-cases (str_eq topic' topic)) [
      | inl t ↦
          let same = (eq_iff key topic').1 (e ∙ sym ((eq_iff topic' topic).0 t)) in
          absurd (clash same n)
      | inr m ↦ m
    ]

-- The handlers that were subscribed to a topic, in order.
abbrev pub subscribed_to : String → List (String × ℕ) → List ℕ
subscribed_to topic [] = []
subscribed_to topic ((topic', handler) ∷ subs) =
    let rest = subscribed_to topic subs in if str_eq topic' topic then handler ∷ rest else rest

subscribe_all_lem :
    (topic : String) (subs : List (String × ℕ)) (handlers : Handlers)
    → handlers_of topic (subscribe_all subs handlers)
      ≡ handlers_of topic handlers ++ subscribed_to topic subs
unfolding subscribe_all
subscribe_all_lem topic [] handlers = sym (append-nil (handlers_of topic handlers))
subscribe_all_lem topic ((topic', handler) ∷ subs) handlers =
    subscribe_all_lem topic subs (subscribe_in_memory topic' handler handlers)
    ∙ (rw (handlers_of-subscribe topic topic' handler handlers)
        (branch (str_eq topic' topic) (handlers_of topic handlers)))
  where
    branch :
        (b : Bool) (hs : List ℕ)
        → (if b then hs ++ handler ∷ [] else hs) ++ subscribed_to topic subs
          ≡ hs ++ (if b then handler ∷ subscribed_to topic subs else subscribed_to topic subs)
    branch true hs = append_assoc hs (handler ∷ []) (subscribed_to topic subs)
    branch false hs = refl

-- In process, an event calls exactly the handlers that were subscribed to its topic, in the order of
-- their subscription, whatever else was subscribed.
pub publish_in_memory_lem :
    (succeeds : ℕ → EventEnvelope → Bool) (event : EventEnvelope) (subs : List (String × ℕ))
    → (publish_in_memory succeeds event (subscribe_all subs [])).0 ≡ subscribed_to event.topic subs
unfolding publish_in_memory
publish_in_memory_lem succeeds event subs = subscribe_all_lem event.topic subs []
