-- ===== src/RealmKeySet/Outages.antt =====
-- What tokens are answered while the realm cannot be asked: packages/auth/src/realm-key-set.ts.
use hy_fib_wa_app.Prelude.{
  ℕ, ◌≤◌, ◌≡◌, ◌⊎◌, refl, inl, inr, Bool, true, false, Option, none, some, arith, Option-cases,
  Bool-cases, if◌then◌else◌, ◌∙◌, sym,
}
use hy_fib_wa_app.RealmKeySet.{
  Options, Resolution, found, no_match, unusable, Reload, Outage, State, refused, is_younger,
  cached_keys, last_good_keys, fetch_succeeded, retry_is_due, retry_in_background,
  from_last_good_keys, note_failure, answer_from, during_outage, ask_again, try_keys, ask,
  forget_last_good, through_outage, get_key,
}
use hy_fib_wa_app.RealmKeySet.Noted.{Fetch-cases}

module _ {Keys Key Error Request : Type 0} (o : Options)
    (resolve : Keys → Request → Resolution Key Error) where
  -- A refusal that an outage explains, or a key of the last good set that jose cannot use.
  abbrev pub IsExplained : Request → Error → State Keys Error → Outage Error → Type 0
  IsExplained request e s current =
      (e ≡ current.error)
      ⊎ ((keys : Keys) × (s.last_fetch ≡ some keys) × (resolve keys request ≡ unusable e))

  if_some :
      (b : Bool) (x : Option Keys) {keys : Keys}
      → (if b then x else none) ≡ some keys
      → x ≡ some keys
  if_some true x e = e
  if_some false x e = cc

  last_good-last :
      (now : ℕ) (s : State Keys Error) {keys : Keys}
      → last_good_keys o resolve now s ≡ some keys
      → s.last_fetch ≡ some keys
  unfolding last_good_keys
  last_good-last now s h = if_some (is_younger o resolve now o.max_stale_ms s) s.last_fetch h

  from_last_good-refused :
      (outage_error : Error) (r : Resolution Key Error) {e : Error}
      → from_last_good_keys o resolve outage_error r ≡ refused e
      → (e ≡ outage_error) ⊎ (r ≡ unusable e)
  unfolding from_last_good_keys
  from_last_good-refused outage_error (found k) h = cc
  from_last_good-refused outage_error (no_match x) h = inl (ground arith)
  from_last_good-refused outage_error (unusable x) h = inr (ground arith)

  note_failure-error :
      (failure : Error) (now : ℕ) (s : State Keys Error) {current : Outage Error}
      → (note_failure o resolve failure now s).outage ≡ some current
      → (current.error ≡ failure)
        × ((note_failure o resolve failure now s).last_fetch ≡ s.last_fetch)
  unfolding note_failure
  note_failure-error failure now s h = elim (Option-cases s.outage) [
    | inl e ↦ rw (e, note_failure) (ground (arith, e), refl)
    | inr (c, e) ↦ rw (e, note_failure) (ground (arith, e), refl)
  ]

  during_outage-IsExplained :
      (failure : Error) (now : ℕ) (request : Request) (s : State Keys Error) {e : Error}
      {current : Outage Error}
      → (during_outage o resolve failure now request s).1 ≡ refused e
      → (during_outage o resolve failure now request s).0.outage ≡ some current
      → IsExplained request e (during_outage o resolve failure now request s).0 current
  unfolding during_outage answer_from
  during_outage-IsExplained failure now request s {e} h c =
      let (same, last) = note_failure-error failure now s c in
      elim (Option-cases (last_good_keys o resolve now s)) [
        | inl g ↦ let failed_so : refused failure ≡ refused e = rw (g, answer_from) at h in inl (cc)
        | inr (keys, g) ↦
            elim (from_last_good-refused failure (resolve keys request)
              (rw (g, answer_from) at h)) [
                | inl own ↦ inl (own ∙ sym same)
                | inr u ↦ inr (keys, last ∙ last_good-last now s g, u)
              ]
      ]

  ask_again-IsExplained :
      (r : Reload Keys Error) (request : Request) (s : State Keys Error) {e : Error}
      {current : Outage Error}
      → (ask_again o resolve r request s).1 ≡ refused e
      → (ask_again o resolve r request s).0.outage ≡ some current
      → IsExplained request e (ask_again o resolve r request s).0 current
  unfolding ask_again fetch_succeeded
  ask_again-IsExplained r request s h c = elim (Fetch-cases r.result) [
    | inl (failure, f) ↦
        rw (f, ask_again)
          (during_outage-IsExplained failure r.ends request s (rw (f, ask_again) at h)
            (rw (f, ask_again) at c))
    | inr (keys, f) ↦ let ended = rw (f, ask_again, fetch_succeeded) at c in cc
  ]

  try_keys-IsExplained :
      (at : ℕ) (second : Reload Keys Error) (request : Request) (s : State Keys Error)
      (r : Resolution Key Error) {e : Error} {current : Outage Error}
      → s.outage ≡ none
      → (try_keys o resolve at second request s r).1 ≡ refused e
      → (try_keys o resolve at second request s r).0.outage ≡ some current
      → IsExplained request e (try_keys o resolve at second request s r).0 current
  unfolding try_keys
  try_keys-IsExplained at second request s (found k) n h c = cc
  try_keys-IsExplained at second request s (unusable x) n h c = cc
  try_keys-IsExplained at second request s (no_match x) n h c =
      elim (Bool-cases (is_younger o resolve at o.cooldown_ms s)) [
        | inl y ↦ let still = rw y at c in cc
        | inr old ↦ rw old (ask_again-IsExplained second request s (rw old at h) (rw old at c))
      ]

  ask-IsExplained :
      (now : ℕ) (first second : Reload Keys Error) (request : Request) (s : State Keys Error)
      {e : Error} {current : Outage Error}
      → (s.outage ≡ none) ⊎ (cached_keys o resolve now s ≡ none)
      → (ask o resolve now first second request s).1 ≡ refused e
      → (ask o resolve now first second request s).0.outage ≡ some current
      → IsExplained request e (ask o resolve now first second request s).0 current
  unfolding ask
  ask-IsExplained now first second request s n h c =
      elim (Option-cases (cached_keys o resolve now s)) [
        | inr (keys, g) ↦
            let calm : s.outage ≡ none = ground (arith, g) in
            rw (g, ask)
              (try_keys-IsExplained now second request s (resolve keys request) calm
                (rw (g, ask) at h) (rw (g, ask) at c))
        | inl g ↦ elim (Fetch-cases first.result) [
          | inl (failure, f) ↦
              rw (g, f, ask)
                (during_outage-IsExplained failure first.ends request s (rw (g, f, ask) at h)
                  (rw (g, f, ask) at c))
          | inr (keys, f) ↦
              rw (g, f, ask)
                (try_keys-IsExplained first.ends second request
                  (fetch_succeeded o resolve first.ends keys s) (resolve keys request)
                  (unfold fetch_succeeded in refl) (rw (g, f, ask) at h) (rw (g, f, ask) at c))
        ]
      ]

  fallback-IsExplained :
      (now : ℕ) (request : Request) (s : State Keys Error) (before : Outage Error) (keys : Keys)
      (e : Error) {current : Outage Error}
      → s.outage ≡ some before
      → last_good_keys o resolve now s ≡ some keys
      → from_last_good_keys o resolve before.error (resolve keys request) ≡ refused e
      → (retry_in_background o resolve now before s).outage ≡ some current
      → IsExplained request e (retry_in_background o resolve now before s) current
  unfolding retry_in_background
  fallback-IsExplained now request s before keys e {current} b g h c =
      elim (Bool-cases (retry_is_due o resolve now before s)) [
        | inl y ↦
            let same : current.error ≡ before.error = ground (arith, rw y at c) in
            rw y (elim (from_last_good-refused before.error (resolve keys request) h) [
              | inl own ↦ inl (own ∙ sym same)
              | inr u ↦ inr (keys, last_good-last now s g, u)
            ])
        | inr n ↦
            let same : current.error ≡ before.error = ground (arith, b, rw n at c) in
            rw n (elim (from_last_good-refused before.error (resolve keys request) h) [
              | inl own ↦ inl (own ∙ sym same)
              | inr u ↦ inr (keys, last_good-last now s g, u)
            ])
      ]

  no_cache :
      (now : ℕ) (s : State Keys Error) (current : Outage Error)
      → o.cache_max_age_ms ≤ o.max_stale_ms
      → last_good_keys o resolve now s ≡ none
      → cached_keys o resolve now (forget_last_good o resolve current s) ≡ none
  unfolding cached_keys last_good_keys is_younger forget_last_good
  no_cache now s current l h = elim (Option-cases s.fetched_at) [
    | inl e ↦ rw (e, cached_keys, forget_last_good, is_younger) refl
    | inr (t, e) ↦
        rw (e, cached_keys, forget_last_good, is_younger)
          (ground (arith, rw (e, last_good_keys, is_younger) at h))
  ]

  -- During an outage no token is refused for a key id that the last good set does not hold, since the
  -- realm may have published it. A refusal that leaves an outage is the outage's own error, or the
  -- last good set has a key for the token that jose cannot use. The limit of the fallback must be no
  -- shorter than the cache's age, as in the defaults.
  pub get_key-refused :
      (now : ℕ) (first second : Reload Keys Error) (request : Request) (s : State Keys Error)
      (e : Error) (current : Outage Error)
      → o.cache_max_age_ms ≤ o.max_stale_ms
      → (get_key o resolve now first second request s).1 ≡ refused e
      → (get_key o resolve now first second request s).0.outage ≡ some current
      → IsExplained request e (get_key o resolve now first second request s).0 current
  unfolding get_key through_outage
  get_key-refused now first second request s e current l h c = elim (Option-cases s.outage) [
    | inl n ↦
        rw (n, get_key)
          (ask-IsExplained now first second request s (inl n) (rw (n, get_key) at h)
            (rw (n, get_key) at c))
    | inr (before, b) ↦ elim (Option-cases (last_good_keys o resolve now s)) [
      | inl g ↦
          rw (b, g, get_key, through_outage)
            (ask-IsExplained now first second request (forget_last_good o resolve before s)
              (inr (no_cache now s before l g)) (rw (b, g, get_key, through_outage) at h)
              (rw (b, g, get_key, through_outage) at c))
      | inr (keys, g) ↦
          rw (b, g, get_key, through_outage)
            (fallback-IsExplained now request s before keys e b g
              (rw (b, g, get_key, through_outage) at h) (rw (b, g, get_key, through_outage) at c))
    ]
  ]
