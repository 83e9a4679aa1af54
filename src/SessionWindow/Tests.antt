-- ===== src/SessionWindow/Tests.antt =====
-- A decision of services/api-gateway/src/session-window.ts.
use hy_fib_wa_app.Prelude.{String}

abbrev kind : String
kind = "text"
