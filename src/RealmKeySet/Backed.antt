-- ===== src/RealmKeySet/Backed.antt =====
-- No token is accepted on keys that packages/auth/src/realm-key-set.ts should no longer trust.
use hy_fib_wa_app.Prelude.{ℕ, ◌≡◌, ◌⊎◌, refl, inl, inr, arith, Option-cases, Bool-cases, ◌∙◌}
use hy_fib_wa_app.RealmKeySet.Noted.{Fetch-cases, IsExcused, get_key-IsExcused}
use hy_fib_wa_app.RealmKeySet.{
  Options, Resolution, found, no_match, unusable, Reload, State, key, is_younger, cached_keys,
  last_good_keys, fetch_succeeded, try_keys, ask, forget_last_good, through_outage, get_key,
}
use hy_fib_wa_app.RealmKeySet.Fresh.{
  IsBacked, last_good_lem, cached_lem, from_last_good_lem, during_outage-IsBacked,
  succeeded-IsBacked, ask_again-IsBacked, retry-IsDown, retry_keeps,
}

module _ {Keys Key Error Request : Type 0} (o : Options)
    (resolve : Keys → Request → Resolution Key Error) where
  -- The call's clock at the moment of the answer: at its start, or where one of its fetches ended.
  abbrev pub IsMoment : ℕ → (first second : Reload Keys Error) → ℕ → Type 0
  IsMoment now first second at = (at ≡ now) ⊎ (at ≡ first.ends) ⊎ (at ≡ second.ends)

  abbrev pub IsAccepted :
      ℕ → (first second : Reload Keys Error) → Request → Key → State Keys Error → Type 0
  IsAccepted now first second request k s =
      (at : ℕ) × IsMoment now first second at × IsBacked o resolve at request k s

  try_keys-IsAccepted :
      (now at : ℕ) (first second : Reload Keys Error) (request : Request) (s : State Keys Error)
      (r : Resolution Key Error) {k : Key}
      → IsMoment now first second at
      → (r ≡ found k → IsBacked o resolve at request k s)
      → (try_keys o resolve at second request s r).1 ≡ key k
      → IsAccepted now first second request k (try_keys o resolve at second request s r).0
  unfolding try_keys
  try_keys-IsAccepted now at first second request s (found j) m b h = (at, m, b (ground arith))
  try_keys-IsAccepted now at first second request s (unusable e) m b h = cc
  try_keys-IsAccepted now at first second request s (no_match e) m b h =
      elim (Bool-cases (is_younger o resolve at o.cooldown_ms s)) [
        | inl y ↦ let refused_now = rw y at h in cc
        | inr n ↦
            rw n (
              second.ends,
              inr (inr refl),
              ask_again-IsBacked o resolve second request s (rw n at h),
            )
      ]

  ask-IsAccepted :
      (now : ℕ) (first second : Reload Keys Error) (request : Request) (s : State Keys Error)
      {k : Key}
      → (ask o resolve now first second request s).1 ≡ key k
      → IsAccepted now first second request k (ask o resolve now first second request s).0
  unfolding ask
  ask-IsAccepted now first second request s h = elim (Option-cases (cached_keys o resolve now s)) [
    | inr (keys, e) ↦
        let (t, at, l, last) = cached_lem o resolve now s e in
        rw (e, ask)
          (try_keys-IsAccepted now now first second request s (resolve keys request) (inl refl)
            (λ r. record {
              keys = keys;
              fetched_at = t;
              last = last;
              since = at;
              resolved = r;
              fresh = inl l;
            })
            (rw (e, ask) at h))
    | inl e ↦ elim (Fetch-cases first.result) [
      | inl (failure, f) ↦
          rw (e, f, ask)
            (
              first.ends,
              inr (inl refl),
              during_outage-IsBacked o resolve failure first.ends request s (rw (e, f, ask) at h),
            )
      | inr (keys, f) ↦
          rw (e, f, ask)
            (try_keys-IsAccepted now first.ends first second request
              (fetch_succeeded o resolve first.ends keys s) (resolve keys request) (inr (inl refl))
              (succeeded-IsBacked o resolve first.ends keys request s) (rw (e, f, ask) at h))
    ]
  ]

  get_key-backed :
      (now : ℕ) (first second : Reload Keys Error) (request : Request) (s : State Keys Error)
      (k : Key)
      → (get_key o resolve now first second request s).1 ≡ key k
      → IsAccepted now first second request k (get_key o resolve now first second request s).0
  unfolding get_key through_outage
  get_key-backed now first second request s k h = elim (Option-cases s.outage) [
    | inl e ↦ rw (e, get_key) (ask-IsAccepted now first second request s (rw (e, get_key) at h))
    | inr (c, e) ↦ elim (Option-cases (last_good_keys o resolve now s)) [
      | inl g ↦
          rw (e, g, get_key, through_outage)
            (ask-IsAccepted now first second request (forget_last_good o resolve c s)
              (rw (e, g, get_key, through_outage) at h))
      | inr (keys, g) ↦
          let (t, at, l, last) = last_good_lem o resolve now s g in
          let (same_last, same_at) = retry_keeps o resolve now c s in
          rw (e, g, get_key, through_outage)
            (
              now,
              inl refl,
              record {
                keys = keys;
                fetched_at = t;
                last = same_last ∙ last;
                since = same_at ∙ at;
                resolved =
                    from_last_good_lem o resolve c.error _
                      (rw (e, g, get_key, through_outage) at h);
                fresh = inr (inl (retry-IsDown o resolve now c s e, l));
              },
            )
    ]
  ]

  -- A token's key always comes from the set of the last successful fetch. At the moment of the
  -- answer, the set has just been fetched, or is younger than the cache's age, or is younger than the
  -- limit of the fallback while an outage is noted; and an outage is noted only if one was when the
  -- call began, or a fetch failed that the call made.
  pub get_key-IsAccepted :
      (now : ℕ) (first second : Reload Keys Error) (request : Request) (s : State Keys Error)
      (k : Key)
      → (get_key o resolve now first second request s).1 ≡ key k
      → IsAccepted now first second request k (get_key o resolve now first second request s).0
        × IsExcused s first second (get_key o resolve now first second request s).0
  get_key-IsAccepted now first second request s k h = (
    get_key-backed now first second request s k h,
    get_key-IsExcused o resolve now first second request s,
  )
