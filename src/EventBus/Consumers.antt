-- ===== src/EventBus/Consumers.antt =====
-- Which subscriptions have a consumer on the channel of packages/event-bus/src/index.ts.
use hy_fib_wa_app.Prelude.{
  ℕ, zero, suc, ◌≡◌, inl, inr, refl, ◌∙◌, subst, Bool, true, false, List, [], ◌∷◌, ◌++◌, none, some,
  All, All_mono, All-append,
}
use hy_fib_wa_app.EventBus.{
  Subscription, Consumer, Connecting, nth, at_nth, not_connecting, opening, connected, setting_up,
}
use hy_fib_wa_app.EventBus.Healthy.{Serves, ServesFirst, Served}

Serves-more : (cs ds : List Consumer) (s : Subscription) → Serves cs s → Serves (cs ++ ds) s
Serves-more [] ds s h = absurd h
Serves-more (c ∷ cs) ds s (inl e) = inl e
Serves-more (c ∷ cs) ds s (inr h) = inr (Serves-more cs ds s h)

Serves-last : (cs : List Consumer) (k : Consumer) → Serves (cs ++ k ∷ []) k.subscription
Serves-last [] k = inl refl
Serves-last (c ∷ cs) k = inr (Serves-last cs k)

ServesFirst-more :
    (n : ℕ) (cs ds : List Consumer) (subs ts : List Subscription)
    → ServesFirst n cs subs
    → ServesFirst n (cs ++ ds) (subs ++ ts)
ServesFirst-more zero cs ds subs ts h = tt
ServesFirst-more (suc n) cs ds [] ts h = absurd h
ServesFirst-more (suc n) cs ds (s ∷ subs) ts (h, hs) =
    (Serves-more cs ds s h, ServesFirst-more n cs ds subs ts hs)

ServesFirst-pushed :
    (n : ℕ) (cs : List Consumer) (subs ts : List Subscription)
    → ServesFirst n cs subs
    → ServesFirst n cs (subs ++ ts)
ServesFirst-pushed zero cs subs ts h = tt
ServesFirst-pushed (suc n) cs [] ts h = absurd h
ServesFirst-pushed (suc n) cs (s ∷ subs) ts (h, hs) = (h, ServesFirst-pushed n cs subs ts hs)

-- The loop goes on with the next subscription.
pub ServesFirst-next :
    (n : ℕ) (cs : List Consumer) (subs : List Subscription) (k : Consumer)
    → nth n subs ≡ some k.subscription
    → ServesFirst n cs subs
    → ServesFirst (suc n) (cs ++ k ∷ []) subs
unfolding nth
ServesFirst-next zero cs [] k e h = cc
ServesFirst-next zero cs (t ∷ subs) k e h =
    let same : k.subscription ≡ t = cc in
    (subst (Serves (cs ++ k ∷ [])) same (Serves-last cs k), tt)
ServesFirst-next (suc n) cs [] k e h = absurd h
ServesFirst-next (suc n) cs (t ∷ subs) k e (h, hs) =
    (Serves-more cs (k ∷ []) t h, ServesFirst-next n cs subs k e hs)

-- The loop is over.
pub ServesFirst-all :
    (n : ℕ) (cs : List Consumer) (subs : List Subscription)
    → nth n subs ≡ none
    → ServesFirst n cs subs
    → All (Serves cs) subs
unfolding nth
ServesFirst-all n cs [] e h = tt
ServesFirst-all zero cs (t ∷ subs) e h = cc
ServesFirst-all (suc n) cs (t ∷ subs) e (h, hs) = (h, ServesFirst-all n cs subs e hs)

pub Served-subscribed :
    (c : Connecting) (cs : List Consumer) (subs : List Subscription) (k : Consumer)
    → Served c true cs subs
    → Served c true (cs ++ k ∷ []) (subs ++ k.subscription ∷ [])
Served-subscribed not_connecting cs subs k h = tt
Served-subscribed opening cs subs k h = tt
Served-subscribed (setting_up n) cs subs k h =
    ServesFirst-more n cs (k ∷ []) subs (k.subscription ∷ []) h
Served-subscribed connected cs subs k h =
    All-append (Serves (cs ++ k ∷ [])) subs (k.subscription ∷ [])
      (All_mono (Serves cs) (Serves (cs ++ k ∷ [])) (λ t. Serves-more cs (k ∷ []) t) subs h)
      (Serves-last cs k, tt)

-- What happens to one consumer later.
module _ (change : Consumer → Consumer)
    (keeps : (c : Consumer) → (change c).subscription ≡ c.subscription) where
  Serves-changed :
      (n : ℕ) (cs : List Consumer) (s : Subscription) → Serves cs s → Serves (at_nth change n cs) s
  unfolding at_nth
  Serves-changed n [] s h = absurd h
  Serves-changed zero (c ∷ cs) s (inl e) = inl (keeps c ∙ e)
  Serves-changed zero (c ∷ cs) s (inr h) = inr h
  Serves-changed (suc n) (c ∷ cs) s (inl e) = inl e
  Serves-changed (suc n) (c ∷ cs) s (inr h) = inr (Serves-changed n cs s h)

  ServesFirst-changed :
      (m n : ℕ) (cs : List Consumer) (subs : List Subscription)
      → ServesFirst m cs subs
      → ServesFirst m (at_nth change n cs) subs
  ServesFirst-changed zero n cs subs h = tt
  ServesFirst-changed (suc m) n cs [] h = absurd h
  ServesFirst-changed (suc m) n cs (s ∷ subs) (h, hs) =
      (Serves-changed n cs s h, ServesFirst-changed m n cs subs hs)

  pub Served-changed :
      (c : Connecting) (channel : Bool) (n : ℕ) (cs : List Consumer) (subs : List Subscription)
      → Served c channel cs subs
      → Served c channel (at_nth change n cs) subs
  Served-changed not_connecting channel n cs subs h = tt
  Served-changed opening channel n cs subs h = tt
  Served-changed (setting_up m) channel n cs subs h = ServesFirst-changed m n cs subs h
  Served-changed connected false n cs subs h = tt
  Served-changed connected true n cs subs h =
      All_mono (Serves cs) (Serves (at_nth change n cs)) (λ s. Serves-changed n cs s) subs h

pub Served-pushed :
    (c : Connecting) (cs : List Consumer) (subs ts : List Subscription)
    → Served c false cs subs
    → Served c false cs (subs ++ ts)
Served-pushed not_connecting cs subs ts h = tt
Served-pushed opening cs subs ts h = tt
Served-pushed (setting_up n) cs subs ts h = ServesFirst-pushed n cs subs ts h
Served-pushed connected cs subs ts h = tt
