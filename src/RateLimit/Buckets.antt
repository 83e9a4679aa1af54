-- ===== src/RateLimit/Buckets.antt =====
-- How strict the buckets of services/api-gateway/src/rate-limit.ts are.
use hy_fib_wa_app.Prelude.{
  ℕ, ◌≤◌, ◌≡◌, true, false, some, Text, codes, arith, refl, Bool-cases, inl, inr,
}
use hy_fib_wa_app.Authorization.{starts_with}
use hy_fib_wa_app.RateLimit.{
  api_rate_limits, listed, mutating_methods, is_exempt, is_expensive, to_upper, classify_api,
  classify_route,
}

-- A request that changes state under /api/, in whatever case its method is written, is limited to 120
-- a minute at most, unless its path is one of those listed as exempt.
pub classify_route-mutating :
    (method path : Text)
    → is_exempt path ≡ false
    → starts_with path (codes "/api/") ≡ true
    → listed mutating_methods (to_upper method) ≡ true
    → (limit : ℕ) × (api_rate_limits (classify_route method path) ≡ some limit) × (limit ≤ 120)
unfolding classify_route classify_api api_rate_limits
classify_route-mutating method path e a m =
    elim (Bool-cases (is_expensive (to_upper method) path)) [
      | inl y ↦ rw (e, a, y, classify_route) (10, refl, omega arith)
      | inr n ↦ rw (e, a, n, m, classify_route) (120, refl, omega arith)
    ]
