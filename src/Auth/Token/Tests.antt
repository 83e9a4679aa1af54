-- ===== src/Auth/Token/Tests.antt =====
-- Runs of `authenticate`, with a token that is expired and one that could not be checked.
use hy_fib_wa_app.AuthFailure.{network_error_codes}
use hy_fib_wa_app.Auth.{normalize_roles}
use hy_fib_wa_app.Prelude.Slices.{has_prefix, drop}
use hy_fib_wa_app.Prelude.{
  zero, suc, ◌≡◌, ◌||◌, refl, true, false, [], ◌∷◌, none, some, Text, codes, trim, length, ◌==◌,
  if◌then◌else◌, text_eq,
}
use hy_fib_wa_app.Auth.{AuthContext, analyst, compliance_auditor}
use hy_fib_wa_app.AuthFailure.{
  Thrown, Heap, has, is_infrastructure_code, is_infrastructure_failure, classify_auth_failure,
  credential, unavailable,
}
use hy_fib_wa_app.Auth.Token.{
  is_token_verdict, KeycloakClaims, Verified, AuthorizationHeader, header_of, authenticate,
  thrown_by, payload, throws, single, repeated, caller, auth_error,
}
use hy_fib_wa_app.Auth.Token.Answers.{
  with_error, authenticate-classified, IsVerified, authenticate-IsVerified,
}

abbrev jose_error : Text → Thrown
jose_error code = record {
  is_auth_error = false;
  is_error = true;
  name = codes "Error";
  message = codes "no";
  code = some code;
  errors = [];
  cause = none;
}

-- 0: the realm's keys cannot be reached; else an expired token.
abbrev heap : Heap
heap zero = jose_error (codes "ECONNREFUSED")
heap (suc n) = jose_error (codes "ERR_JWT_EXPIRED")

abbrev claims : KeycloakClaims
claims = record {
  sub = some (codes "u1");
  tenant_id = some (codes "t1");
  email = none;
  realm_roles = some (codes " Viewer" ∷ codes "guest" ∷ []);
}

abbrev verify : Text → Verified
verify token =
    if text_eq token (codes "good")
    then payload claims
    else if text_eq token (codes "old")
    then throws 1
    else throws 0

abbrev good_header : AuthorizationHeader
good_header = repeated (codes "Bearer  good" ∷ [])

abbrev other_header : AuthorizationHeader
other_header = single (codes "Bearer other")

abbrev context : AuthContext
context = record {
  subject = codes "u1";
  tenant_id = some (codes "t1");
  roles = analyst ∷ compliance_auditor ∷ [];
  email = none;
}

good_header-caller : authenticate heap verify good_header ≡ caller context
unfolding authenticate has_prefix trim drop text_eq normalize_roles
good_header-caller = refl

authenticate-IsVerified_example : IsVerified verify good_header context
authenticate-IsVerified_example =
    authenticate-IsVerified heap verify good_header context good_header-caller

abbrev away : Thrown
away = record {
  is_auth_error = false;
  is_error = true;
  name = codes "AuthUnavailableError";
  message = codes "Token could not be verified: no";
  code = none;
  errors = [];
  cause = some (some 0);
}

other_bearer : has_prefix (codes "Bearer ") (header_of other_header) ≡ true
unfolding has_prefix header_of
other_bearer = refl

other_given : (length (trim (drop 7 (header_of other_header))) == 0) ≡ false
unfolding trim drop header_of
other_given = refl

other_thrown : verify (trim (drop 7 (header_of other_header))) ≡ throws 0
unfolding trim drop header_of text_eq
other_thrown = refl

away_recognised : (is_token_verdict (heap 0) || is_infrastructure_failure (heap 0)) ≡ true
unfolding is_token_verdict is_infrastructure_failure is_infrastructure_code has text_eq
    network_error_codes
away_recognised = refl

away_thrown : thrown_by (authenticate heap verify other_header) ≡ some away
unfolding authenticate thrown_by has_prefix trim drop text_eq
away_thrown = refl

authenticate-classified_example :
    classify_auth_failure (with_error heap 5 away) (some 5)
    ≡ (if is_token_verdict (heap 0) then credential else unavailable)
authenticate-classified_example =
    authenticate-classified heap verify other_header 5 0 away other_bearer other_given other_thrown
      refl refl away_recognised away_thrown

expired_refused :
    authenticate heap verify (single (codes "Bearer old")) ≡ auth_error (codes "Invalid token: no")
unfolding authenticate has_prefix trim drop text_eq
expired_refused = refl
