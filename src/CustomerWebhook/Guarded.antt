-- ===== src/CustomerWebhook/Guarded.antt =====
-- What services/notification-worker/src/customer-webhook.ts sends, and when that counts as delivered.
use hy_fib_wa_app.Prelude.{
  ℕ, ◌≡◌, ◌⊎◌, ◌≤◌, ◌<◌, inl, inr, refl, sym, ◌∙◌, subst, ap, true, false, Option, none, some, Text,
  arith, Option-cases,
}
use hy_fib_wa_app.OutboundUrl.Names.{OutboundAllowlist, CompiledAllowlist}
use hy_fib_wa_app.OutboundUrl.Guard.{
  Url, OutboundUrlValidation, accepted, refused, validate_outbound_url, compiled_allowlist,
}
use hy_fib_wa_app.OutboundUrl.Safe.{IsSafeUrl, validate_outbound_url-IsSafeUrl}
use hy_fib_wa_app.CustomerWebhook.{is_ok, response, blocked_error, transport_failed}
use hy_fib_wa_app.CustomerWebhook.{
  Target, Request, TransportResult, CustomerWebhookResult, request_of, result_of, deliver_checked,
  deliver_customer_webhook,
}

module _ (is_ip : Text → ℕ) (parse : Text → Option Url) (sign : Text → Text → Text)
    (transport : Request → TransportResult) where
  -- A request went to the target's URL, which was accepted, as a URL that is safe.
  pub record IsGuarded (given : Option OutboundAllowlist) (allowlist : Option CompiledAllowlist)
      (target : Target) (body : Text) (request : Request) : Type 0 where
    pub url : Url
    pub passes : validate_outbound_url is_ip parse target.url given ≡ some (accepted url)
    pub safe : IsSafeUrl is_ip allowlist url
    pub sent : request ≡ request_of sign target body

  checked_lem :
      (target : Target) (body : Text) (validation : OutboundUrlValidation) (request : Request)
      (result : CustomerWebhookResult)
      → deliver_checked sign transport target body validation ≡ (some request, result)
      → (url : Url) × (validation ≡ accepted url)
        × (request ≡ request_of sign target body)
        × (result ≡ result_of (transport request))
  unfolding deliver_checked
  checked_lem target body (refused error remedy) request result h =
      let none_sent : ◌≡◌ {A = Option Request} none (some request) = ap (λ p. p.0) h in absurd (cc)
  checked_lem target body (accepted url) request result h =
      let sent : ◌≡◌ {A = Option Request} (some (request_of sign target body)) (some request) =
        ap (λ p. p.0) h in
      let same : request_of sign target body ≡ request = cc in
      let got : result_of (transport (request_of sign target body)) ≡ result = ap (λ p. p.1) h in
      (url, refl, sym same, sym got ∙ ap (λ r. result_of (transport r)) same)

  -- Whatever the URL's parser, the resolver and the receiver do, a request is only sent to a URL that
  -- the guard accepts under the operator's allow list, and which is safe as such.
  pub deliver_customer_webhook-IsGuarded :
      (target : Target) (body : Text) (given : Option OutboundAllowlist)
      (allowlist : Option CompiledAllowlist) (request : Request) (result : CustomerWebhookResult)
      → compiled_allowlist is_ip given ≡ some allowlist
      → deliver_customer_webhook is_ip parse sign transport target body given
        ≡ some (some request, result)
      → IsGuarded given allowlist target body request
  unfolding deliver_customer_webhook
  deliver_customer_webhook-IsGuarded target body given allowlist request result c h =
      elim (Option-cases (validate_outbound_url is_ip parse target.url given)) [
        | inl n ↦ absurd (thrown (rw (n, deliver_customer_webhook) at h))
        | inr (validation, v) ↦
            let checked : deliver_checked sign transport target body validation
                ≡ (some request, result) =
              cc (rw (v, deliver_customer_webhook) at h) in
            let (url, ok, sent, got) = checked_lem target body validation request result checked in
            record {
              url = url;
              passes = v ∙ ap some ok;
              safe =
                  validate_outbound_url-IsSafeUrl is_ip parse target.url given allowlist url c
                    (v ∙ ap some ok);
              sent = sent;
            }
      ]
    where
      thrown : {A : Type 0} → {a : A} → ◌≡◌ {A = Option A} none (some a) → ⊥
      thrown e = cc

  -- The receiver answered a request with success, and not with a redirect.
  pub record IsDelivered (sent : Option Request) : Type 0 where
    pub request : Request
    pub status : ℕ
    pub was_sent : sent ≡ some request
    pub responded : transport request ≡ response true status
    pub direct : (status < 300) ⊎ (400 ≤ status)

  result_of-ok :
      (answer : TransportResult)
      → is_ok (result_of answer) ≡ true
      → (status : ℕ) × (answer ≡ response true status) × ((status < 300) ⊎ (400 ≤ status))
  unfolding is_ok result_of
  result_of-ok (response true status) h = (status, refl, ground arith)
  result_of-ok (response false status) h = cc
  result_of-ok (blocked_error message remedy) h = cc
  result_of-ok transport_failed h = cc

  checked-ok :
      (target : Target) (body : Text) (validation : OutboundUrlValidation)
      → is_ok (deliver_checked sign transport target body validation).1 ≡ true
      → IsDelivered (deliver_checked sign transport target body validation).0
  unfolding deliver_checked is_ok
  checked-ok target body (refused error remedy) h = cc
  checked-ok target body (accepted url) h =
      let request = request_of sign target body in
      let (status, responded, direct) = result_of-ok (transport request) h in
      record {
        request = request;
        status = status;
        was_sent = refl;
        responded = responded;
        direct = direct;
      }

  -- A delivery is only reported as successful if a request was sent and its receiver answered with
  -- success; an answer that redirects is a failed delivery.
  pub deliver_customer_webhook-IsDelivered :
      (target : Target) (body : Text) (given : Option OutboundAllowlist) (sent : Option Request)
      (result : CustomerWebhookResult)
      → deliver_customer_webhook is_ip parse sign transport target body given ≡ some (sent, result)
      → is_ok result ≡ true
      → IsDelivered sent
  unfolding deliver_customer_webhook
  deliver_customer_webhook-IsDelivered target body given sent result h ok =
      elim (Option-cases (validate_outbound_url is_ip parse target.url given)) [
        | inl n ↦ absurd (thrown (rw (n, deliver_customer_webhook) at h))
        | inr (validation, v) ↦
            let checked : deliver_checked sign transport target body validation ≡ (sent, result) =
              cc (rw (v, deliver_customer_webhook) at h) in
            subst (λ p. IsDelivered p.0) checked
              (checked-ok target body validation (subst (λ p. is_ok p.1 ≡ true) (sym checked) ok))
      ]
    where
      thrown : {A : Type 0} → {a : A} → ◌≡◌ {A = Option A} none (some a) → ⊥
      thrown e = cc
