-- ===== src/RateLimit.antt =====
-- services/api-gateway/src/rate-limit.ts: the bucket of requests, with its limit a minute, that a
-- method and path fall into. Changing case is that of the ASCII letters.
pub mod Buckets
pub mod Tests
use hy_fib_wa_app.Prelude.{
  ℕ, zero, suc, ◌-◌, Bool, true, false, ◌&&◌, ◌||◌, List, [], ◌∷◌, ◌++◌, map, Option, none, some,
  Text, codes, text_eq, to_lower, any, leb, ◌==◌, if◌then◌else◌,
}
use hy_fib_wa_app.Authorization.{starts_with}

pub data RouteClass : Type 0 where
  read write expensive exempt : RouteClass

pub api_rate_limits : RouteClass → Option ℕ
api_rate_limits read = some 600
api_rate_limits write = some 120
api_rate_limits expensive = some 10
api_rate_limits exempt = none

-- `set.has(s)`
unfoldable pub listed : List Text → Text → Bool
listed set s = any (λ t. text_eq t s) set

pub mutating_methods : List Text
mutating_methods = codes "POST" ∷ codes "PUT" ∷ codes "PATCH" ∷ codes "DELETE" ∷ []

pub exempt_exact_paths : List Text
exempt_exact_paths =
    codes "/api/v1/events/stream"
    ∷ codes "/health"
    ∷ codes "/metrics"
    ∷ codes "/auth/login"
    ∷ codes "/auth/register"
    ∷ []

pub exempt_path_prefixes : List Text
exempt_path_prefixes = codes "/api/v1/webhooks/" ∷ codes "/r/" ∷ []

is_hex : ℕ → Bool
is_hex c = (leb b'0' c && leb c b'9') || (leb b'a' c && leb c b'f')

-- A pattern is matched on the lower-cased path, from where the text stands: `rest` on what is left.
hex_units : ℕ → (rest : Text → Bool) → Text → Bool
hex_units zero rest s = rest s
hex_units (suc n) rest [] = false
hex_units (suc n) rest (c ∷ s) = is_hex c && hex_units n rest s

literal : Text → (rest : Text → Bool) → Text → Bool
literal [] rest s = rest s
literal (c ∷ t) rest [] = false
literal (c ∷ t) rest (d ∷ s) = c == d && literal t rest s

dash : (rest : Text → Bool) → Text → Bool
dash rest s = literal (codes "-") rest s

uuid_segment : (rest : Text → Bool) → Text → Bool
uuid_segment rest s =
    hex_units 8
      (dash (hex_units 4 (dash (hex_units 4 (dash (hex_units 4 (dash (hex_units 12 rest)))))))) s

-- `^<before><uuid><after>$`, whatever the case.
uuid_path : (before after : Text) → Text → Bool
uuid_path before after path = literal before (uuid_segment (λ s. text_eq s after)) (to_lower path)

pub is_campaign_run : Text → Bool
is_campaign_run path = uuid_path (codes "/api/v1/campaigns/") (codes "/run") path

pub is_media_upload : Text → Bool
is_media_upload path = uuid_path (codes "/api/v1/channels/whatsapp/") (codes "/media") path

pub expensive_exact : List (Text × Text)
expensive_exact =
    (codes "POST", codes "/api/v1/contacts/import")
    ∷ (codes "GET", codes "/api/v1/contacts/export")
    ∷ (codes "GET", codes "/api/v1/messages/search")
    ∷ []

upper_unit : ℕ → ℕ
upper_unit c = if leb b'a' c && leb c b'z' then c - 32 else c

pub to_upper : Text → Text
to_upper s = map upper_unit s

pub is_exempt : Text → Bool
is_exempt path =
    listed exempt_exact_paths path || any (λ p. starts_with path p) exempt_path_prefixes

-- For an upper-cased method.
pub is_expensive : Text → Text → Bool
is_expensive m path =
    any (λ r. text_eq r.0 m && text_eq r.1 path) expensive_exact
    || (text_eq m (codes "POST") && is_campaign_run path)
    || (text_eq m (codes "POST") && is_media_upload path)

pub classify_api : Text → Text → RouteClass
classify_api m path =
    if is_expensive m path
    then expensive
    else if listed mutating_methods m
    then write
    else if text_eq m (codes "GET") || text_eq m (codes "HEAD")
    then read
    else exempt

pub classify_auth : Text → Text → RouteClass
classify_auth m path =
    if text_eq m (codes "POST") && text_eq path (codes "/auth/logout") then write else exempt

pub classify_route : Text → Text → RouteClass
classify_route method path =
    let m = to_upper method in
    if is_exempt path
    then exempt
    else if starts_with path (codes "/api/")
    then classify_api m path
    else if starts_with path (codes "/auth/")
    then classify_auth m path
    else exempt
