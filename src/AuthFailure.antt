-- ===== src/AuthFailure.antt =====
-- services/api-gateway/src/auth-failure.ts: whether a failed authentication is the credential's fault
-- or a backend's. A thrown value is a reference into a heap of objects, since the cause chain may
-- run in a circle; null and undefined are `none`.
pub mod Chain
pub mod Verdict
pub mod Tests
use hy_fib_wa_app.Prelude.{
  ℕ, zero, suc, ◌+◌, ◌-◌, Bool, true, false, not, ◌&&◌, ◌||◌, List, [], ◌∷◌, ◌++◌, Option, none,
  some, Text, codes, text_eq, any, all, length, take, map, find?, leb, ltb, ◌==◌, if◌then◌else◌,
}

pub record Thrown : Type 0 where
  pub is_auth_error : Bool  -- `instanceof AuthError`
  pub is_error : Bool  -- `instanceof Error`
  pub name : Text
  pub message : Text  -- the error's message, or `String(value)` of another value
  pub code : Option Text  -- an own or inherited `code` that is a string
  pub errors : List (Option ℕ)  -- of an `AggregateError`
  pub cause : Option (Option ℕ)  -- `none` if undefined

abbrev pub Heap : Type 0
Heap = ℕ → Thrown

pub data AuthFailureKind : Type 0 where
  credential unavailable : AuthFailureKind

abbrev pub auth_unavailable_retry_after_seconds : ℕ
auth_unavailable_retry_after_seconds = 5

unfoldable pub network_error_codes : List Text
network_error_codes =
    codes "ECONNREFUSED"
    ∷ codes "ECONNRESET"
    ∷ codes "ECONNABORTED"
    ∷ codes "ETIMEDOUT"
    ∷ codes "EPIPE"
    ∷ codes "EHOSTUNREACH"
    ∷ codes "EHOSTDOWN"
    ∷ codes "ENETUNREACH"
    ∷ codes "ENETDOWN"
    ∷ codes "ENOTFOUND"
    ∷ codes "EAI_AGAIN"
    ∷ codes "EADDRNOTAVAIL"
    ∷ codes "UND_ERR_CONNECT_TIMEOUT"
    ∷ codes "UND_ERR_HEADERS_TIMEOUT"
    ∷ codes "UND_ERR_BODY_TIMEOUT"
    ∷ codes "UND_ERR_SOCKET"
    ∷ codes "UND_ERR_CLOSED"
    ∷ []

unfoldable pub transient_sqlstate_classes : List Text
transient_sqlstate_classes = codes "08" ∷ codes "28" ∷ codes "53" ∷ codes "58" ∷ []

unfoldable pub transient_sqlstates : List Text
transient_sqlstates =
    codes "57P01"
    ∷ codes "57P02"
    ∷ codes "57P03"
    ∷ codes "57014"
    ∷ codes "40001"
    ∷ codes "40P01"
    ∷ codes "55P03"
    ∷ codes "25006"
    ∷ codes "3D000"
    ∷ []

unfoldable pub infrastructure_messages : List Text
infrastructure_messages =
    codes "timeout exceeded when trying to connect"
    ∷ codes "Connection terminated due to connection timeout"
    ∷ codes "Connection terminated unexpectedly"
    ∷ codes "Connection terminated"
    ∷ codes "Client has encountered a connection error and is not queryable"
    ∷ codes "Client was closed and is not queryable"
    ∷ codes "Query read timeout"
    ∷ codes "timeout expired"
    ∷ codes "Cannot use a pool after calling end on the pool"
    ∷ codes "Expected 200 OK from the JSON Web Key Set HTTP response"
    ∷ codes "Failed to parse the JSON Web Key Set HTTP response as JSON"
    ∷ []

unfoldable pub jwks_unavailable_codes : List Text
jwks_unavailable_codes = codes "ERR_JWKS_TIMEOUT" ∷ codes "ERR_JWKS_INVALID" ∷ []

unfoldable pub jose_credential_codes : List Text
jose_credential_codes =
    codes "ERR_JWT_EXPIRED"
    ∷ codes "ERR_JWT_CLAIM_VALIDATION_FAILED"
    ∷ codes "ERR_JWS_SIGNATURE_VERIFICATION_FAILED"
    ∷ codes "ERR_JWS_INVALID"
    ∷ codes "ERR_JWT_INVALID"
    ∷ codes "ERR_JWK_INVALID"
    ∷ codes "ERR_JWKS_NO_MATCHING_KEY"
    ∷ codes "ERR_JWKS_MULTIPLE_MATCHING_KEYS"
    ∷ codes "ERR_JOSE_ALG_NOT_ALLOWED"
    ∷ codes "ERR_JOSE_NOT_SUPPORTED"
    ∷ codes "ERR_JWE_INVALID"
    ∷ codes "ERR_JWE_DECRYPTION_FAILED"
    ∷ []

abbrev pub max_chain_length : ℕ
max_chain_length = 8

abbrev pub max_logged_message_length : ℕ
max_logged_message_length = 300

-- `set.has(code)`
unfoldable pub has : List Text → Text → Bool
has set code = any (λ s. text_eq s code) set

-- `/^[0-9A-Z]{5}$/`
unfoldable pub is_sqlstate : Text → Bool
is_sqlstate code =
    length code == 5 && all (λ c. (leb b'0' c && leb c b'9') || (leb b'A' c && leb c b'Z')) code

abbrev pub cause_link : Option (Option ℕ) → List (Option ℕ)
cause_link none = []
cause_link (some link) = link ∷ []

-- What a link adds to the queue.
unfoldable pub links : Thrown → List (Option ℕ)
links t = t.errors ++ cause_link t.cause

abbrev pub seen_has : List ℕ → ℕ → Bool
seen_has seen link = any (λ s. s == link) seen

-- The links of the chain, nearest first. `room` is how many more may be seen: the code's bound less
-- `seen.size`.
unfoldable pub chain : Heap → (room : ℕ) → (seen : List ℕ) → (queue : List (Option ℕ)) → List ℕ
chain heap zero seen queue = []
chain heap (suc room) seen [] = []
chain heap (suc room) seen (none ∷ queue) = chain heap (suc room) seen queue
chain heap (suc room) seen (some link ∷ queue) =
    let skip = chain heap (suc room) seen queue in
    let step = link ∷ chain heap room (link ∷ seen) (queue ++ links (heap link)) in
    if seen_has seen link then skip else step

unfoldable pub error_chain : Heap → Option ℕ → List ℕ
error_chain heap error = chain heap max_chain_length [] (error ∷ [])

abbrev pub code_in : List Text → Option Text → Bool
code_in set none = false
code_in set (some code) = has set code

unfoldable pub is_credential_failure : Thrown → Bool
is_credential_failure t = t.is_auth_error || code_in jose_credential_codes t.code

unfoldable pub is_infrastructure_code : Option Text → Bool
is_infrastructure_code none = false
is_infrastructure_code (some code) =
    has network_error_codes code
    || has jwks_unavailable_codes code
    || (is_sqlstate code
        && (has transient_sqlstate_classes (take 2 code) || has transient_sqlstates code))

unfoldable pub is_infrastructure_failure : Thrown → Bool
is_infrastructure_failure t =
    is_infrastructure_code t.code
    || (t.is_error && text_eq t.name (codes "TimeoutError"))
    || (t.is_error && has infrastructure_messages t.message)

unfoldable pub classify_links : Heap → List ℕ → AuthFailureKind
classify_links heap [] = credential
classify_links heap (link ∷ rest) =
    let later = classify_links heap rest in
    if is_credential_failure (heap link)
    then credential
    else if is_infrastructure_failure (heap link)
    then unavailable
    else later

unfoldable pub classify_auth_failure : Heap → Option ℕ → AuthFailureKind
classify_auth_failure heap error = classify_links heap (error_chain heap error)

pub record AuthFailureSummary : Type 0 where
  pub name : Text
  pub code : Option Text
  pub message : Text

pub first_code : Heap → List ℕ → Option Text
first_code heap [] = none
first_code heap (link ∷ rest) = elim (heap link).code [
  | none ↦ first_code heap rest
  | some code ↦ some code
]

-- A message that is too long ends in an ellipsis.
pub bounded : Text → Text
bounded message =
    if ltb max_logged_message_length (length message)
    then take (max_logged_message_length - 1) message ++ 0x2026 ∷ []
    else message

-- For a value that is not null or undefined.
pub summarize_auth_failure : Heap → ℕ → AuthFailureSummary
summarize_auth_failure heap error =
    let thrown = heap error in
    record {
      name = if thrown.is_error then thrown.name else codes "unknown";
      code = first_code heap (error_chain heap (some error));
      message = bounded thrown.message;
    }
