-- ===== src/RealmKeySet/Noted.antt =====
-- When packages/auth/src/realm-key-set.ts notes an outage.
use hy_fib_wa_app.Prelude.{ℕ, ◌≡◌, ◌⊎◌, refl, inl, inr, none, some, Option-cases, Bool-cases}
use hy_fib_wa_app.RealmKeySet.{
  Options, Resolution, found, no_match, unusable, Fetch, fetched, failed, Reload, Outage, State,
  is_younger, cached_keys, fetch_succeeded, ask_again, try_keys, ask, get_key,
}

pub Fetch-cases :
    {Keys Error : Type 0} (f : Fetch Keys Error)
    → ((e : Error) × (f ≡ failed e)) ⊎ ((keys : Keys) × (f ≡ fetched keys))
Fetch-cases (failed e) = inl (e, refl)
Fetch-cases (fetched keys) = inr (keys, refl)

-- An outage is noted.
abbrev pub IsDown : {Keys Error : Type 0} → State Keys Error → Type 0
IsDown {Keys} {Error} s = (current : Outage Error) × (s.outage ≡ some current)

abbrev pub Fails : {Keys Error : Type 0} → Reload Keys Error → Type 0
Fails {Keys} {Error} r = (e : Error) × (r.result ≡ failed e)

-- What the state `after` a call notes, was noted before or comes from a fetch.
abbrev pub IsExcused :
    {Keys Error : Type 0}
    → State Keys Error
    → (first second : Reload Keys Error) → (after : State Keys Error) → Type 0
IsExcused s first second after = (after.outage ≡ none) ⊎ IsDown s ⊎ Fails first ⊎ Fails second

module _ {Keys Key Error Request : Type 0} (o : Options)
    (resolve : Keys → Request → Resolution Key Error) where
  try_keys-noted :
      (now : ℕ) (r : Reload Keys Error) (request : Request) (s : State Keys Error)
      (found_so : Resolution Key Error)
      → s.outage ≡ none
      → ((try_keys o resolve now r request s found_so).0.outage ≡ none) ⊎ Fails r
  unfolding try_keys ask_again fetch_succeeded
  try_keys-noted now r request s (found k) h = inl h
  try_keys-noted now r request s (unusable e) h = inl h
  try_keys-noted now r request s (no_match e) h =
      elim (Bool-cases (is_younger o resolve now o.cooldown_ms s)) [
        | inl y ↦ rw y (inl h)
        | inr n ↦ elim (Fetch-cases r.result) [
          | inl (failure, f) ↦ inr (failure, f)
          | inr (keys, f) ↦ rw (n, f) (inl refl)
        ]
      ]

  pub get_key-IsExcused :
      (now : ℕ) (first second : Reload Keys Error) (request : Request) (s : State Keys Error)
      → IsExcused s first second (get_key o resolve now first second request s).0
  unfolding get_key ask fetch_succeeded
  get_key-IsExcused now first second request s = elim (Option-cases s.outage) [
    | inr (c, e) ↦ inr (inl (c, e))
    | inl e ↦ elim (Option-cases (cached_keys o resolve now s)) [
      | inr (keys, c) ↦ elim (try_keys-noted now second request s (resolve keys request) e) [
        | inl h ↦ rw (e, get_key, c, ask) (inl h)
        | inr f ↦ inr (inr (inr f))
      ]
      | inl c ↦ elim (Fetch-cases first.result) [
        | inl (failure, f) ↦ inr (inr (inl (failure, f)))
        | inr (keys, f) ↦
            elim (try_keys-noted first.ends second request
              (fetch_succeeded o resolve first.ends keys s) (resolve keys request) refl) [
                | inl h ↦ rw (e, get_key, c, ask, f) (inl h)
                | inr g ↦ inr (inr (inr g))
              ]
      ]
    ]
  ]
