-- ===== src/RealmKeySet/Fresh.antt =====
-- The age of the keys that packages/auth/src/realm-key-set.ts answers from.
use hy_fib_wa_app.Prelude.{
  ℕ, ◌+◌, ◌<◌, ◌≡◌, ◌⊎◌, refl, inl, inr, Bool, true, false, Option, none, some, arith, Option-cases,
  Bool-cases, if◌then◌else◌, ◌∙◌,
}
use hy_fib_wa_app.RealmKeySet.Noted.{Fetch-cases, IsDown}
use hy_fib_wa_app.RealmKeySet.{
  Options, Resolution, found, no_match, unusable, Reload, Outage, State, key, is_younger,
  cached_keys, last_good_keys, fetch_succeeded, retry_is_due, retry_in_background,
  from_last_good_keys, note_failure, answer_from, during_outage, final_answer, ask_again,
}

module _ {Keys Key Error Request : Type 0} (o : Options)
    (resolve : Keys → Request → Resolution Key Error) where
  -- A key that a set answered, the set being the last that was fetched, not too long before `at`: it is
  -- younger than the cache's age, or just fetched, or there is an outage and it is younger than
  -- the limit of the fallback.
  pub record IsBacked (at : ℕ) (request : Request) (k : Key) (s : State Keys Error) : Type 0 where
    pub keys : Keys
    pub fetched_at : ℕ
    pub last : s.last_fetch ≡ some keys
    pub since : s.fetched_at ≡ some fetched_at
    pub resolved : resolve keys request ≡ found k
    pub fresh :
        (at < fetched_at + o.cache_max_age_ms)
        ⊎ (IsDown s × (at < fetched_at + o.max_stale_ms))
        ⊎ (at ≡ fetched_at)

  younger_lem :
      (now limit : ℕ) (s : State Keys Error)
      → is_younger o resolve now limit s ≡ true
      → (t : ℕ) × (s.fetched_at ≡ some t) × (now < t + limit)
  unfolding is_younger
  younger_lem now limit s h = elim (Option-cases s.fetched_at) [
    | inl e ↦ let no_fetch = rw (e, is_younger) at h in cc
    | inr (t, e) ↦ (t, e, ground (arith, e))
  ]

  if_some :
      (b : Bool) (x : Option Keys) {keys : Keys}
      → (if b then x else none) ≡ some keys
      → (b ≡ true) × (x ≡ some keys)
  if_some true x e = (refl, e)
  if_some false x e = cc

  pub last_good_lem :
      (now : ℕ) (s : State Keys Error) {keys : Keys}
      → last_good_keys o resolve now s ≡ some keys
      → (t : ℕ) × (s.fetched_at ≡ some t) × (now < t + o.max_stale_ms) × (s.last_fetch ≡ some keys)
  unfolding last_good_keys
  last_good_lem now s h =
      let (young, last) = if_some (is_younger o resolve now o.max_stale_ms s) s.last_fetch h in
      let (t, e, l) = younger_lem now o.max_stale_ms s young in (t, e, l, last)

  pub cached_lem :
      (now : ℕ) (s : State Keys Error) {keys : Keys}
      → cached_keys o resolve now s ≡ some keys
      → (t : ℕ) × (s.fetched_at ≡ some t)
        × (now < t + o.cache_max_age_ms)
        × (s.last_fetch ≡ some keys)
  unfolding cached_keys
  cached_lem now s h =
      let (young, last) = if_some (is_younger o resolve now o.cache_max_age_ms s) s.last_fetch h in
      let (t, e, l) = younger_lem now o.cache_max_age_ms s young in (t, e, l, last)

  pub from_last_good_lem :
      (error : Error) (r : Resolution Key Error) {k : Key}
      → from_last_good_keys o resolve error r ≡ key k
      → r ≡ found k
  unfolding from_last_good_keys
  from_last_good_lem error (found j) h = ground arith
  from_last_good_lem error (no_match e) h = cc
  from_last_good_lem error (unusable e) h = cc

  note_failure_keeps :
      (failure : Error) (now : ℕ) (s : State Keys Error)
      → ((note_failure o resolve failure now s).last_fetch ≡ s.last_fetch)
        × ((note_failure o resolve failure now s).fetched_at ≡ s.fetched_at)
  unfolding note_failure
  note_failure_keeps failure now s = elim (Option-cases s.outage) [
    | inl e ↦ rw e (refl, refl)
    | inr (c, e) ↦ rw e (refl, refl)
  ]

  note_failure-IsDown :
      (failure : Error) (now : ℕ) (s : State Keys Error)
      → IsDown (note_failure o resolve failure now s)
  unfolding note_failure
  note_failure-IsDown failure now s = elim (Option-cases s.outage) [
    | inl e ↦ rw (e, note_failure) (_, refl)
    | inr (c, e) ↦ rw (e, note_failure) (_, refl)
  ]

  pub during_outage-IsBacked :
      (failure : Error) (now : ℕ) (request : Request) (s : State Keys Error) {k : Key}
      → (during_outage o resolve failure now request s).1 ≡ key k
      → IsBacked now request k (during_outage o resolve failure now request s).0
  unfolding during_outage answer_from
  during_outage-IsBacked failure now request s h =
      elim (Option-cases (last_good_keys o resolve now s)) [
        | inl e ↦ let none_left = rw (e, answer_from) at h in cc
        | inr (keys, e) ↦
            let (t, at, l, last) = last_good_lem now s e in
            let (same_last, same_at) = note_failure_keeps failure now s in
            record {
              keys = keys;
              fetched_at = t;
              last = same_last ∙ last;
              since = same_at ∙ at;
              resolved = from_last_good_lem failure _ (rw (e, answer_from) at h);
              fresh = inr (inl (note_failure-IsDown failure now s, l));
            }
      ]

  pub succeeded-IsBacked :
      (now : ℕ) (keys : Keys) (request : Request) (s : State Keys Error) {k : Key}
      → resolve keys request ≡ found k
      → IsBacked now request k (fetch_succeeded o resolve now keys s)
  unfolding fetch_succeeded
  succeeded-IsBacked now keys request s h = record {
    keys = keys;
    fetched_at = now;
    last = refl;
    since = refl;
    resolved = h;
    fresh = inr (inr refl);
  }

  final_answer_lem :
      (r : Resolution Key Error) {k : Key} → final_answer o resolve r ≡ key k → r ≡ found k
  unfolding final_answer
  final_answer_lem (found j) h = ground arith
  final_answer_lem (no_match e) h = cc
  final_answer_lem (unusable e) h = cc

  pub ask_again-IsBacked :
      (r : Reload Keys Error) (request : Request) (s : State Keys Error) {k : Key}
      → (ask_again o resolve r request s).1 ≡ key k
      → IsBacked r.ends request k (ask_again o resolve r request s).0
  unfolding ask_again
  ask_again-IsBacked r request s h = elim (Fetch-cases r.result) [
    | inl (failure, e) ↦
        rw (e, ask_again) (during_outage-IsBacked failure r.ends request s (rw (e, ask_again) at h))
    | inr (keys, e) ↦
        rw (e, ask_again)
          (succeeded-IsBacked r.ends keys request s (final_answer_lem _ (rw (e, ask_again) at h)))
  ]

  pub retry-IsDown :
      (now : ℕ) (c : Outage Error) (s : State Keys Error)
      → s.outage ≡ some c
      → IsDown (retry_in_background o resolve now c s)
  unfolding retry_in_background
  retry-IsDown now c s h = elim (Bool-cases (retry_is_due o resolve now c s)) [
    | inl y ↦ rw (y, retry_in_background) (_, refl)
    | inr n ↦ rw (n, retry_in_background) (c, h)
  ]

  pub retry_keeps :
      (now : ℕ) (c : Outage Error) (s : State Keys Error)
      → ((retry_in_background o resolve now c s).last_fetch ≡ s.last_fetch)
        × ((retry_in_background o resolve now c s).fetched_at ≡ s.fetched_at)
  unfolding retry_in_background
  retry_keeps now c s = elim (Bool-cases (retry_is_due o resolve now c s)) [
    | inl y ↦ rw y (refl, refl)
    | inr n ↦ rw n (refl, refl)
  ]
