-- ===== src/SessionWindow/Laws.antt =====
-- When services/api-gateway/src/session-window.ts lets a message out.
use hy_fib_wa_app.Prelude.{
  ℕ, ◌+◌, ◌<◌, ◌≡◌, ◌⊎◌, ◌↔◌, true, Option, none, some, String, eq_iff, arith,
}
use hy_fib_wa_app.SessionWindow.{
  session_window_ms, requires_session_window, valid_date, check_window, evaluate_session_window,
}

-- The customer wrote, and less than the window ago; a time that is yet to come counts.
abbrev pub IsOpen : Option (Option ℕ) → ℕ → Type 0
IsOpen (some (some last)) now = now < last + session_window_ms
IsOpen _ now = ⊥

-- A message may be sent exactly if it is a template or the window is open.
pub evaluate_session_window-allowed_iff :
    (kind : String) (last_inbound_at : Option (Option ℕ)) (now : ℕ)
    → ((evaluate_session_window kind last_inbound_at now).allowed ≡ true)
      ↔ ((kind ≡ "template") ⊎ IsOpen last_inbound_at now)
unfolding evaluate_session_window requires_session_window valid_date check_window
evaluate_session_window-allowed_iff kind none now = ground (arith, eq_iff kind "template")
evaluate_session_window-allowed_iff kind (some none) now = ground (arith, eq_iff kind "template")
evaluate_session_window-allowed_iff kind (some (some last)) now =
    ground (arith, eq_iff kind "template")
