-- ===== src/AuthFailure/Verdict.antt =====
-- Which failures services/api-gateway/src/auth-failure.ts takes for an outage, and what it logs.
use hy_fib_wa_app.Prelude.{
  ℕ, ◌-◌, ◌≤◌, ◌<◌, ◌⊎◌, ◌≡◌, refl, ap, ◌↔◌, true, false, List, [], ◌∷◌, ◌++◌, Option, some, arith,
  length, length-append, take, length-take_le, Bool-cases, inl, inr, All, ltb,
}
use hy_fib_wa_app.AuthFailure.{
  Thrown, Heap, credential, unavailable, max_logged_message_length, chain, error_chain,
  is_credential_failure, is_infrastructure_failure, classify_links, classify_auth_failure, bounded,
  summarize_auth_failure,
}

abbrev pub IsUnrecognised : Thrown → Type 0
IsUnrecognised t = (is_credential_failure t ≡ false) × (is_infrastructure_failure t ≡ false)

-- The first link that is recognised is an infrastructure failure and no refusal.
pub record IsOutage (heap : Heap) (links : List ℕ) : Type 0 where
  pub before : List ℕ
  pub link : ℕ
  pub after : List ℕ
  pub split : links ≡ before ++ link ∷ after
  pub quiet : All (λ l. IsUnrecognised (heap l)) before
  pub not_refused : is_credential_failure (heap link) ≡ false
  pub failed : is_infrastructure_failure (heap link) ≡ true

classify_links-IsOutage :
    (heap : Heap) (links : List ℕ) → classify_links heap links ≡ unavailable → IsOutage heap links
unfolding classify_links
classify_links-IsOutage heap [] h = cc
classify_links-IsOutage heap (l ∷ links) h = elim (Bool-cases (is_credential_failure (heap l))) [
  | inl y ↦ let refused = rw (y, classify_links) at h in cc
  | inr n ↦ elim (Bool-cases (is_infrastructure_failure (heap l))) [
    | inl f ↦ record {
      before = [];
      link = l;
      after = links;
      split = refl;
      quiet = tt;
      not_refused = n;
      failed = f;
    }
    | inr q ↦
        let rest = classify_links-IsOutage heap links (rw (n, q) at h) in
        record {
          before = l ∷ rest.before;
          link = rest.link;
          after = rest.after;
          split = ap (λ ls. l ∷ ls) rest.split;
          quiet = ((n, q), rest.quiet);
          not_refused = rest.not_refused;
          failed = rest.failed;
        }
  ]
]

outage_classified :
    (heap : Heap) (before after : List ℕ) (link : ℕ)
    → All (λ l. IsUnrecognised (heap l)) before
    → is_credential_failure (heap link) ≡ false
    → is_infrastructure_failure (heap link) ≡ true
    → classify_links heap (before ++ link ∷ after) ≡ unavailable
unfolding classify_links
outage_classified heap [] after link q n f = rw (n, f) refl
outage_classified heap (b ∷ before) after link ((n1, n2), q) n f =
    rw (n1, n2) (outage_classified heap before after link q n f)

-- A failure counts as an outage exactly when, along its cause chain, the first recognised link is an
-- infrastructure failure and not a refusal. All else is the credential's fault.
pub classify_auth_failure-unavailable_iff :
    (heap : Heap) (error : Option ℕ)
    → (classify_auth_failure heap error ≡ unavailable) ↔ IsOutage heap (error_chain heap error)
unfolding classify_auth_failure
classify_auth_failure-unavailable_iff heap error = (
  classify_links-IsOutage heap (error_chain heap error),
  λ o. rw o.split (outage_classified heap o.before o.after o.link o.quiet o.not_refused o.failed),
)

-- An AuthError, and an error with one of jose's verdict codes, is the credential's fault, whatever
-- outage caused it.
pub classify_auth_failure-credential :
    (heap : Heap) (link : ℕ)
    → is_credential_failure (heap link) ≡ true
    → classify_auth_failure heap (some link) ≡ credential
unfolding classify_auth_failure error_chain chain classify_links
classify_auth_failure-credential heap link h = rw h refl

-- A logged message has at most 300 units, and is the error's own message unless that is longer.
pub summarize_auth_failure-message :
    (heap : Heap) (error : ℕ)
    → (length (summarize_auth_failure heap error).message ≤ max_logged_message_length)
      × (((summarize_auth_failure heap error).message ≡ (heap error).message)
          ⊎ (max_logged_message_length < length (heap error).message))
unfolding summarize_auth_failure bounded
summarize_auth_failure-message heap error =
    let message = (heap error).message in
    let kept = take (max_logged_message_length - 1) message in
    elim (Bool-cases (ltb max_logged_message_length (length message))) [
      | inl y ↦ rw y (
        omega (
          arith,
          length-append {0} kept (0x2026 ∷ []),
          length-take_le {0} (max_logged_message_length - 1) message,
        ),
        inr (ground arith),
      )
      | inr n ↦ rw n (ground arith, inl refl)
    ]
