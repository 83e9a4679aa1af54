-- ===== src/AuthFailure/Tests.antt =====
-- Runs of services/api-gateway/src/auth-failure.ts, and its theorems at a wrapped outage.
use hy_fib_wa_app.Prelude.{
  zero, suc, ◌≡◌, ◌↔◌, refl, true, false, [], ◌∷◌, none, some, codes, text_eq,
}
use hy_fib_wa_app.AuthFailure.{
  Heap, credential, unavailable, network_error_codes, transient_sqlstate_classes,
  transient_sqlstates, infrastructure_messages, jwks_unavailable_codes, jose_credential_codes, has,
  is_sqlstate, links, chain, error_chain, is_credential_failure, is_infrastructure_code,
  is_infrastructure_failure, classify_links, classify_auth_failure, first_code, bounded,
  summarize_auth_failure,
}
use hy_fib_wa_app.AuthFailure.Verdict.{IsOutage, classify_auth_failure-unavailable_iff}

classifier : Unit {0}
unfolding classify_auth_failure classify_links error_chain chain links is_credential_failure
    is_infrastructure_failure is_infrastructure_code is_sqlstate has network_error_codes
    transient_sqlstate_classes transient_sqlstates infrastructure_messages jwks_unavailable_codes
    jose_credential_codes summarize_auth_failure first_code bounded text_eq
classifier = tt

-- 0 is an error without a code, caused by 1, a refused connection to Postgres, and by itself; the
-- rest are refusals caused by 1.
abbrev heap : Heap
heap zero = record {
  is_auth_error = false;
  is_error = true;
  name = codes "Error";
  message = codes "query failed";
  code = none;
  errors = some 0 ∷ none ∷ [];
  cause = some (some 1);
}
heap (suc zero) = record {
  is_auth_error = false;
  is_error = true;
  name = codes "Error";
  message = codes "admin shutdown";
  code = some (codes "57P01");
  errors = [];
  cause = none;
}
heap (suc (suc n)) = record {
  is_auth_error = true;
  is_error = true;
  name = codes "AuthError";
  message = codes "refused";
  code = none;
  errors = [];
  cause = some (some 1);
}

verdicts :
    (classify_auth_failure heap (some 0) ≡ unavailable)
    × (classify_auth_failure heap (some 2) ≡ credential)
    × (classify_auth_failure heap none ≡ credential)
    × ((summarize_auth_failure heap 0).code ≡ some (codes "57P01"))
unfolding classifier
verdicts = (refl, refl, refl, refl)

classify_auth_failure-unavailable_iff_example :
    (classify_auth_failure heap (some 0) ≡ unavailable) ↔ IsOutage heap (error_chain heap (some 0))
classify_auth_failure-unavailable_iff_example = classify_auth_failure-unavailable_iff heap (some 0)
