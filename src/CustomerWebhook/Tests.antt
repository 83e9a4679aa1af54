-- ===== src/CustomerWebhook/Tests.antt =====
-- Runs of the delivery to a customer's webhook.
use hy_fib_wa_app.Prelude.Slices.{split_on}
use hy_fib_wa_app.Prelude.Slices.{has_suffix}
use hy_fib_wa_app.Prelude.{trim}
use hy_fib_wa_app.Prelude.{to_lower}
use hy_fib_wa_app.OutboundUrl.Guard.{validate_trimmed}
use hy_fib_wa_app.OutboundUrl.Guard.{validate_parsed}
use hy_fib_wa_app.OutboundUrl.Guard.{validate_outbound_url}
use hy_fib_wa_app.OutboundUrl.Guard.{validate_host}
use hy_fib_wa_app.OutboundUrl.Guard.{is_internal_host_name}
use hy_fib_wa_app.OutboundUrl.Guard.{internal_name_suffixes}
use hy_fib_wa_app.OutboundUrl.Guard.{host_of}
use hy_fib_wa_app.OutboundUrl.Names.{strip_dot}
use hy_fib_wa_app.Prelude.{
  ℕ, ◌≡◌, refl, true, false, [], ◌∷◌, ◌++◌, Option, none, some, Text, codes, text_eq, if◌then◌else◌,
}
use hy_fib_wa_app.Prelude.Slices.{has_unit}
use hy_fib_wa_app.OutboundUrl.Guard.{Url, compiled_allowlist}
use hy_fib_wa_app.CustomerWebhook.{
  Target, Request, TransportResult, is_ok, deliver_customer_webhook, response, answered,
}
use hy_fib_wa_app.CustomerWebhook.Guarded.{
  IsGuarded, deliver_customer_webhook-IsGuarded, IsDelivered, deliver_customer_webhook-IsDelivered,
}

abbrev is_literal : Text → ℕ
is_literal host = if text_eq host (codes "10.1.2.3") then 4 else 0

abbrev parse : Text → Option Url
parse text = some (record {
  protocol = codes "https:";
  username = [];
  password = [];
  hostname =
      if text_eq text (codes "https://10.1.2.3/") then codes "10.1.2.3" else codes "example.com";
})

abbrev sign : Text → Text → Text
sign secret body = codes "sha256=" ++ secret

abbrev accepts_all : Request → TransportResult
accepts_all request = response true 204

abbrev redirects : Request → TransportResult
redirects request = response true 302

abbrev target : Target
target = record { url = codes "https://example.com/in"; secret = some (codes "k") }

abbrev body : Text
body = codes "{}"

abbrev request : Request
request = record {
  url = codes "https://example.com/in";
  headers =
      (codes "content-type", codes "application/json")
      ∷ (codes "user-agent", codes "HyFib-Webhook/1.0")
      ∷ (codes "x-hyfib-signature", codes "sha256=k")
      ∷ [];
  body = codes "{}";
}

delivered :
    deliver_customer_webhook is_literal parse sign accepts_all target body none
    ≡ some (some request, answered true 204)
unfolding deliver_customer_webhook validate_outbound_url compiled_allowlist validate_trimmed trim
    validate_parsed text_eq validate_host host_of strip_dot split_on is_internal_host_name has_unit
    to_lower internal_name_suffixes has_suffix
delivered = refl

redirected :
    deliver_customer_webhook is_literal parse sign redirects target body none
    ≡ some (some request, answered false 302)
unfolding deliver_customer_webhook validate_outbound_url compiled_allowlist validate_trimmed trim
    validate_parsed text_eq validate_host host_of strip_dot split_on is_internal_host_name has_unit
    to_lower internal_name_suffixes has_suffix
redirected = refl

no_allowlist : compiled_allowlist is_literal none ≡ some none
unfolding compiled_allowlist
no_allowlist = refl

deliver_customer_webhook-IsGuarded_example :
    IsGuarded is_literal parse sign accepts_all none none target body request
deliver_customer_webhook-IsGuarded_example =
    deliver_customer_webhook-IsGuarded is_literal parse sign accepts_all target body none none
      request (answered true 204) no_allowlist delivered

answered_ok : is_ok (answered true 204) ≡ true
unfolding is_ok
answered_ok = refl

deliver_customer_webhook-IsDelivered_example :
    IsDelivered is_literal parse sign accepts_all (some request)
deliver_customer_webhook-IsDelivered_example =
    deliver_customer_webhook-IsDelivered is_literal parse sign accepts_all target body none
      (some request) (answered true 204) delivered answered_ok
