-- ===== src/RateLimit/Tests.antt =====
-- Requests as services/api-gateway/src/rate-limit.ts classifies them.
use hy_fib_wa_app.Prelude.{◌≡◌, refl, Text, codes, text_eq, to_lower}
use hy_fib_wa_app.Authorization.{starts_with}
use hy_fib_wa_app.RateLimit.{
  read, write, expensive, exempt, api_rate_limits, listed, mutating_methods, exempt_exact_paths,
  exempt_path_prefixes, is_hex, hex_units, literal, dash, uuid_segment, uuid_path, is_campaign_run,
  is_media_upload, expensive_exact, upper_unit, to_upper, is_exempt, is_expensive, classify_api,
  classify_auth, classify_route,
}

tables : Unit {0}
unfolding api_rate_limits listed mutating_methods exempt_exact_paths exempt_path_prefixes is_hex
    hex_units literal dash uuid_segment uuid_path is_campaign_run is_media_upload expensive_exact
    upper_unit to_upper is_exempt is_expensive classify_api classify_auth classify_route starts_with
    text_eq to_lower
tables = tt

abbrev run : Text
run = codes "/api/v1/campaigns/0F8fad5b-d9cb-469f-a165-70867728950e/run"

abbrev tags : Text
tags = codes "/api/v1/tags"

classified :
    (classify_route (codes "post") run ≡ expensive)
    × (classify_route (codes "PUT") run ≡ write)
    × (classify_route (codes "GET") tags ≡ read)
    × (classify_route (codes "POST") (codes "/auth/logout") ≡ write)
    × (classify_route (codes "POST") (codes "/api/v1/webhooks/meta") ≡ exempt)
unfolding tables
classified = (refl, refl, refl, refl, refl)
