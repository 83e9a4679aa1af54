-- ===== src/Auth/Token/Answers.antt =====
-- Which failed authentications services/api-gateway/src/auth-failure.ts takes for an outage, by what
-- packages/auth/src/index.ts throws.
use hy_fib_wa_app.Prelude.{
  ℕ, ◌≡◌, ◌≢◌, inl, inr, refl, sym, subst, ◌∙◌, true, false, [], ◌∷◌, ◌++◌, Option, none, some,
  Text, codes, text_eq, arith, ◌==◌, if◌then◌else◌, Bool-cases, Option-cases, trim, length, ◌||◌,
}
use hy_fib_wa_app.AuthFailure.Verdict.{classify_auth_failure-credential}
use hy_fib_wa_app.Auth.{AuthContext, normalize_roles}
use hy_fib_wa_app.Prelude.Slices.{has_prefix, drop}
use hy_fib_wa_app.AuthFailure.{credential}
use hy_fib_wa_app.AuthFailure.{
  infrastructure_messages, links, chain, error_chain, is_credential_failure, is_infrastructure_code,
  is_infrastructure_failure, classify_links, classify_auth_failure, unavailable,
}
use hy_fib_wa_app.AuthFailure.Verdict.{classify_auth_failure-credential}
use hy_fib_wa_app.Auth.{AuthContext, normalize_roles}
use hy_fib_wa_app.Prelude.Slices.{has_prefix, drop}
use hy_fib_wa_app.AuthFailure.{credential}
use hy_fib_wa_app.AuthFailure.{Thrown, Heap, jose_credential_codes, has, code_in}
use hy_fib_wa_app.Auth.Token.{
  KeycloakClaims, Verified, AuthorizationHeader, header_of, or_no_roles, context_of, refuse,
  conclude, authenticate, thrown_by, payload, throws, caller,
}
use hy_fib_wa_app.Auth.Token.{token_verdict_codes, is_token_verdict}

-- The heap with a new error at a reference.
abbrev pub with_error : Heap → ℕ → Thrown → Heap
with_error heap fresh error n = if n == fresh then error else heap n

-- token-verdict.ts and auth-failure.ts list the same codes.
verdict_is_refusal :
    (error : Thrown) → is_token_verdict error ≡ code_in jose_credential_codes error.code
unfolding is_token_verdict token_verdict_codes jose_credential_codes has
verdict_is_refusal error = elim (Option-cases error.code) [
  | inl e ↦ rw (e, is_token_verdict) refl
  | inr (code, e) ↦ rw (e, is_token_verdict) refl
]

-- The error that says that a token could not be checked is no link that is recognised.
abbrev unchecked : Text → ℕ → Thrown
unchecked detail cause = record {
  is_auth_error = false;
  is_error = true;
  name = codes "AuthUnavailableError";
  message = codes "Token could not be verified: " ++ detail;
  code = none;
  errors = [];
  cause = some (some cause);
}

unchecked_unrecognised :
    (detail : Text) (cause : ℕ)
    → (is_credential_failure (unchecked detail cause) ≡ false)
      × (is_infrastructure_failure (unchecked detail cause) ≡ false)
unfolding is_credential_failure is_infrastructure_failure is_infrastructure_code has
    infrastructure_messages text_eq
unchecked_unrecognised detail cause = (refl, refl)

at_fresh : (heap : Heap) (fresh : ℕ) (t : Thrown) → with_error heap fresh t fresh ≡ t
at_fresh heap fresh t = ground arith

elsewhere :
    (heap : Heap) (fresh n : ℕ) (t : Thrown) → n ≢ fresh → with_error heap fresh t n ≡ heap n
elsewhere heap fresh n t h = ground arith

-- The chain of such an error starts with it and its cause.
outage_at :
    (heap : Heap) (fresh cause : ℕ) (detail : Text)
    → heap fresh ≡ unchecked detail cause
    → (fresh == cause) ≡ false
    → is_credential_failure (heap cause) ≡ false
    → is_infrastructure_failure (heap cause) ≡ true
    → classify_auth_failure heap (some fresh) ≡ unavailable
unfolding classify_auth_failure error_chain chain links classify_links
outage_at heap fresh cause detail p d c i =
    let (n1, n2) = unchecked_unrecognised detail cause in rw (p, n1, n2, d, c, i) refl

refused_at :
    (heap : Heap) (fresh : ℕ)
    → (heap fresh).is_auth_error ≡ true
    → classify_auth_failure heap (some fresh) ≡ credential
unfolding is_credential_failure
refused_at heap fresh h = classify_auth_failure-credential heap fresh (rw h refl)

-- How the error that `refuse` throws is classified.
refuse_lem :
    (heap : Heap) (verify : Text → Verified) (fresh cause : ℕ) (t : Thrown)
    → (fresh == cause) ≡ false
    → (heap cause).is_auth_error ≡ false
    → (is_token_verdict (heap cause) || is_infrastructure_failure (heap cause)) ≡ true
    → thrown_by (refuse heap verify cause) ≡ some t
    → classify_auth_failure (with_error heap fresh t) (some fresh)
      ≡ (if is_token_verdict (heap cause) then credential else unavailable)
unfolding refuse thrown_by is_credential_failure
refuse_lem heap verify fresh cause t d a h e = elim (Bool-cases (is_token_verdict (heap cause))) [
  | inl y ↦
      let flagged : t.is_auth_error ≡ true = cc (rw (y, refuse) at e) in
      rw y (refused_at (with_error heap fresh t) fresh (rw (at_fresh heap fresh t) flagged))
  | inr n ↦
      let detail =
        if (heap cause).is_error then (heap cause).message else codes "verification failed" in
      let same : unchecked detail cause ≡ t = cc (rw (n, refuse) at e) in
      let there = elsewhere heap fresh cause (unchecked detail cause) (ground arith) in
      let c : is_credential_failure (heap cause) ≡ false =
        rw a (sym (verdict_is_refusal (heap cause)) ∙ n) in
      let i : is_infrastructure_failure (heap cause) ≡ true = ground arith in
      rw n (
        subst (λ t. classify_auth_failure (with_error heap fresh t) (some fresh) ≡ unavailable) same
          (outage_at (with_error heap fresh (unchecked detail cause)) fresh cause detail
            (at_fresh heap fresh (unchecked detail cause)) d (rw there c) (rw there i)))
]

-- A bearer token that is not blank, and that jose throws an error for, which is neither an
-- AuthError nor the one that is thrown anew: the gateway answers what `authenticate` throws as the
-- credential's fault if jose reached a verdict on the token, and as an outage if it reached none
-- and the error is an infrastructure failure.
pub authenticate-classified :
    (heap : Heap) (verify : Text → Verified) (header : AuthorizationHeader) (fresh cause : ℕ)
    (t : Thrown)
    → has_prefix (codes "Bearer ") (header_of header) ≡ true
    → (length (trim (drop 7 (header_of header))) == 0) ≡ false
    → verify (trim (drop 7 (header_of header))) ≡ throws cause
    → (fresh == cause) ≡ false
    → (heap cause).is_auth_error ≡ false
    → (is_token_verdict (heap cause) || is_infrastructure_failure (heap cause)) ≡ true
    → thrown_by (authenticate heap verify header) ≡ some t
    → classify_auth_failure (with_error heap fresh t) (some fresh)
      ≡ (if is_token_verdict (heap cause) then credential else unavailable)
unfolding authenticate conclude
authenticate-classified heap verify header fresh cause t p l v d a h e =
    refuse_lem heap verify fresh cause t d a h (rw (p, l, v, authenticate) at e)

-- What a caller is told of, was verified.
pub record IsVerified (verify : Text → Verified) (header : AuthorizationHeader)
    (context : AuthContext) : Type 0 where
  pub token : Text
  pub claims : KeycloakClaims
  pub bearer : header_of header ≡ codes "Bearer " ++ drop 7 (header_of header)
  pub given : token ≢ []
  pub trimmed : token ≡ trim (drop 7 (header_of header))
  pub verified : verify token ≡ payload claims
  pub subject : claims.sub ≡ some context.subject
  pub named : context.subject ≢ []
  pub tenant : context.tenant_id ≡ claims.tenant_id
  pub roles : context.roles ≡ normalize_roles (or_no_roles claims.realm_roles)

context_of-caller :
    (claims : KeycloakClaims) (sub : Option Text) (context : AuthContext)
    → context_of claims sub ≡ caller context
    → (sub ≡ some context.subject)
      × (context.subject ≢ [])
      × (context.tenant_id ≡ claims.tenant_id)
      × (context.roles ≡ normalize_roles (or_no_roles claims.realm_roles))
unfolding context_of
context_of-caller claims none context e = cc
context_of-caller claims (some []) context e = cc
context_of-caller claims (some (c ∷ s)) context e = (cc, λ h. cc, cc, cc)

has_prefix-append : (p s : Text) → has_prefix p s ≡ true → s ≡ p ++ drop (length p) s
unfolding has_prefix drop
has_prefix-append [] s h = refl
has_prefix-append (c ∷ p) [] h = cc
has_prefix-append (c ∷ p) (d ∷ s) h =
    let same : c ≡ d = ground arith in let rest = has_prefix-append p s (ground arith) in cc

conclude-caller :
    (heap : Heap) (verify : Text → Verified) (v : Verified) (context : AuthContext)
    → conclude heap verify v ≡ caller context
    → (claims : KeycloakClaims) × (v ≡ payload claims)
      × (context_of claims claims.sub ≡ caller context)
unfolding conclude refuse
conclude-caller heap verify (payload claims) context e = (claims, refl, e)
conclude-caller heap verify (throws cause) context e = absurd (ground arith)

-- No identity without a verified token: a caller has a bearer token that is not blank, jose verified
-- it, and the caller's subject, tenant and roles are those of its claims.
pub authenticate-IsVerified :
    (heap : Heap) (verify : Text → Verified) (header : AuthorizationHeader) (context : AuthContext)
    → authenticate heap verify header ≡ caller context
    → IsVerified verify header context
unfolding authenticate
authenticate-IsVerified heap verify header context e =
    let bearer : has_prefix (codes "Bearer ") (header_of header) ≡ true = ground arith in
    let given : (length (trim (drop 7 (header_of header))) == 0) ≡ false = ground arith in
    let concluded : conclude heap verify (verify (trim (drop 7 (header_of header))))
        ≡ caller context =
      rw (bearer, given, authenticate) at e in
    let (claims, verified, found) =
      conclude-caller heap verify (verify (trim (drop 7 (header_of header)))) context concluded in
    let (subject, named, tenant, roles) = context_of-caller claims claims.sub context found in
    record {
      token = trim (drop 7 (header_of header));
      claims = claims;
      bearer = has_prefix-append (codes "Bearer ") (header_of header) bearer;
      given = λ blank. cc;
      trimmed = refl;
      verified = verified;
      subject = subject;
      named = named;
      tenant = tenant;
      roles = roles;
    }
