-- ===== src/CustomerWebhook.antt =====
-- services/notification-worker/src/customer-webhook.ts: the delivery of an event to the URL that a tenant
-- gave, behind the guard of packages/shared-core/src/outbound-url.ts. The signature and the transport are
-- parameters; the transport's timeout and refusals are among its results.
pub mod Guarded
pub mod Tests
use hy_fib_wa_app.Prelude.{
  ℕ, Bool, true, false, not, ◌&&◌, List, [], ◌∷◌, ◌++◌, Option, none, some, Text, codes, leb, ltb,
  if◌then◌else◌,
}
use hy_fib_wa_app.OutboundUrl.Names.{OutboundAllowlist}
use hy_fib_wa_app.OutboundUrl.Guard.{
  Url, Remedy, UrlError, OutboundUrlValidation, accepted, refused, validate_outbound_url,
}

pub record Target : Type 0 where
  pub url : Text
  pub secret : Option Text

pub record Request : Type 0 where
  pub url : Text
  pub headers : List (Text × Text)
  pub body : Text

-- A response, the guard's refusal at connect time, or another error.
pub data TransportResult : Type 0 where
  response : (ok : Bool) → (status : ℕ) → TransportResult
  blocked_error : (message : Text) → Option Remedy → TransportResult
  transport_failed : TransportResult

pub data CustomerWebhookResult : Type 0 where
  answered : (ok : Bool) → (status : ℕ) → CustomerWebhookResult
  refused_url : UrlError → Option Remedy → CustomerWebhookResult
  refused_address : (message : Text) → Option Remedy → CustomerWebhookResult
  failed : CustomerWebhookResult

unfoldable pub is_ok : CustomerWebhookResult → Bool
is_ok (answered ok status) = ok
is_ok _ = false

abbrev pub signed_headers :
    (sign : Text → Text → Text) → Option Text → (body : Text) → List (Text × Text)
signed_headers sign none body = []
signed_headers sign (some []) body = []
signed_headers sign (some (c ∷ secret)) body =
    (codes "x-hyfib-signature", sign (c ∷ secret) body) ∷ []

unfoldable pub request_of : (sign : Text → Text → Text) → Target → (body : Text) → Request
request_of sign target body = record {
  url = target.url;
  headers =
      (codes "content-type", codes "application/json")
      ∷ (codes "user-agent", codes "HyFib-Webhook/1.0")
      ∷ signed_headers sign target.secret body;
  body = body;
}

abbrev pub is_redirect : ℕ → Bool
is_redirect status = leb 300 status && ltb status 400

unfoldable pub result_of : TransportResult → CustomerWebhookResult
result_of (response ok status) = answered (ok && not (is_redirect status)) status
result_of (blocked_error message remedy) = refused_address message remedy
result_of transport_failed = failed

-- The request that is sent, if any, and the result.
unfoldable pub deliver_checked :
    (sign : Text → Text → Text)
    → (transport : Request → TransportResult) → Target
    → (body : Text) → OutboundUrlValidation
    → Option Request × CustomerWebhookResult
unfolding request_of result_of
deliver_checked sign transport target body (refused error remedy) = (none, refused_url error remedy)
deliver_checked sign transport target body (accepted url) =
    let request = request_of sign target body in (some request, result_of (transport request))

-- `body` is the event as JSON. None where the allow list is malformed, for which the code throws.
unfoldable pub deliver_customer_webhook :
    (is_ip : Text → ℕ)
    → (parse : Text → Option Url) → (sign : Text → Text → Text)
    → (transport : Request → TransportResult) → Target
    → (body : Text) → Option OutboundAllowlist
    → Option (Option Request × CustomerWebhookResult)
unfolding deliver_checked
deliver_customer_webhook is_ip parse sign transport target body allowlist =
    elim (validate_outbound_url is_ip parse target.url allowlist) [
      | none ↦ none
      | some validation ↦ some (deliver_checked sign transport target body validation)
    ]
