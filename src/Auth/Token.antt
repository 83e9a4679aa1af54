-- ===== src/Auth/Token.antt =====
-- packages/auth/src/index.ts and token-verdict.ts: the check of a bearer token. jose's verification is a
-- parameter; what it throws is a reference into the heap of services/api-gateway/src/auth-failure.ts.
pub mod Answers
pub mod Tests
use hy_fib_wa_app.Prelude.Slices.{has_prefix, drop}
use hy_fib_wa_app.Prelude.{
  ℕ, Bool, true, false, not, ◌&&◌, ◌||◌, List, [], ◌∷◌, ◌++◌, Option, none, some, Text, codes,
  text_eq, trim, any, length, ◌==◌, if◌then◌else◌,
}
use hy_fib_wa_app.Auth.{Role, AuthContext, normalize_roles}
use hy_fib_wa_app.AuthFailure.{Thrown, Heap}

unfoldable pub token_verdict_codes : List Text
token_verdict_codes =
    codes "ERR_JWT_EXPIRED"
    ∷ codes "ERR_JWT_CLAIM_VALIDATION_FAILED"
    ∷ codes "ERR_JWS_SIGNATURE_VERIFICATION_FAILED"
    ∷ codes "ERR_JWS_INVALID"
    ∷ codes "ERR_JWT_INVALID"
    ∷ codes "ERR_JWK_INVALID"
    ∷ codes "ERR_JWKS_NO_MATCHING_KEY"
    ∷ codes "ERR_JWKS_MULTIPLE_MATCHING_KEYS"
    ∷ codes "ERR_JOSE_ALG_NOT_ALLOWED"
    ∷ codes "ERR_JOSE_NOT_SUPPORTED"
    ∷ codes "ERR_JWE_INVALID"
    ∷ codes "ERR_JWE_DECRYPTION_FAILED"
    ∷ []

unfoldable pub is_token_verdict : Thrown → Bool
unfolding token_verdict_codes
is_token_verdict error = elim error.code [
  | none ↦ false
  | some code ↦ any (λ verdict. text_eq verdict code) token_verdict_codes
]

pub record KeycloakClaims : Type 0 where
  pub sub : Option Text
  pub tenant_id : Option Text
  pub email : Option Text
  pub realm_roles : Option (List Text)

-- What `jwtVerify` does with a token: it gives the claims, or throws an error.
pub data Verified : Type 0 where
  payload : KeycloakClaims → Verified
  throws : ℕ → Verified

pub data AuthorizationHeader : Type 0 where
  absent : AuthorizationHeader
  single : Text → AuthorizationHeader
  repeated : List Text → AuthorizationHeader

pub data Authenticated : Type 0 where
  caller : AuthContext → Authenticated
  auth_error : (message : Text) → Authenticated
  auth_unavailable : (message : Text) → (cause : ℕ) → Authenticated

unfoldable pub header_of : AuthorizationHeader → Text
header_of absent = []
header_of (single header) = header
header_of (repeated []) = []
header_of (repeated (header ∷ headers)) = header

abbrev pub or_no_roles : Option (List Text) → List Text
or_no_roles none = []
or_no_roles (some roles) = roles

-- The end of `authenticate`, for the token's claims.
unfoldable pub context_of : KeycloakClaims → Option Text → Authenticated
context_of claims none = auth_error (codes "Token missing subject")
context_of claims (some []) = auth_error (codes "Token missing subject")
context_of claims (some (c ∷ subject)) = caller (record {
  subject = c ∷ subject;
  tenant_id = claims.tenant_id;
  roles = normalize_roles (or_no_roles claims.realm_roles);
  email = claims.email;
})

module _ (heap : Heap) (jwt_verify : Text → Verified) where
  -- The error that is thrown for one of `jwtVerify`.
  unfoldable pub refuse : ℕ → Authenticated
  unfolding is_token_verdict
  refuse error =
      let detail =
        if (heap error).is_error then (heap error).message else codes "verification failed" in
      if is_token_verdict (heap error)
      then auth_error (codes "Invalid token: " ++ detail)
      else auth_unavailable (codes "Token could not be verified: " ++ detail) error

  unfoldable pub conclude : Verified → Authenticated
  unfolding refuse context_of
  conclude (payload claims) = context_of claims claims.sub
  conclude (throws error) = refuse error

  unfoldable pub authenticate : AuthorizationHeader → Authenticated
  unfolding conclude header_of
  authenticate authorization =
      let header = header_of authorization in
      let token = trim (drop 7 header) in
      if not (has_prefix (codes "Bearer ") header)
      then auth_error (codes "Missing or malformed Authorization header")
      else if length token == 0
      then auth_error (codes "Empty bearer token")
      else conclude (jwt_verify token)

-- The value that a caller of `authenticate` catches, none where there is none.
unfoldable pub thrown_by : Authenticated → Option Thrown
thrown_by (caller context) = none
thrown_by (auth_error message) = some (record {
  is_auth_error = true;
  is_error = true;
  name = codes "AuthError";
  message = message;
  code = none;
  errors = [];
  cause = none;
})
thrown_by (auth_unavailable message cause) = some (record {
  is_auth_error = false;
  is_error = true;
  name = codes "AuthUnavailableError";
  message = message;
  code = none;
  errors = [];
  cause = some (some cause);
})
