-- ===== src/SessionWindow.antt =====
-- services/api-gateway/src/session-window.ts: whether a kind of message may be sent, given when the
-- customer last wrote. Times are in milliseconds; a date is none where it is invalid. The reasons are
-- constructors.
pub mod Laws
pub mod Tests
use hy_fib_wa_app.Prelude.{
  ℕ, ◌+◌, ◌*◌, Bool, true, false, not, Option, none, some, String, str_eq, leb, if◌then◌else◌,
}

abbrev pub session_window_ms : ℕ
session_window_ms = 24 * 60 * 60 * 1000

pub requires_session_window : String → Bool
requires_session_window kind = not (str_eq kind "template")

pub data Reason : Type 0 where
  never_messaged : Reason
  window_closed : (last_inbound_at : ℕ) → Reason

pub record SessionWindowDecision : Type 0 where
  pub allowed : Bool
  pub reason : Option Reason
  pub last_inbound_at : Option ℕ

-- A missing date and an invalid one are the same.
pub valid_date : Option (Option ℕ) → Option ℕ
valid_date none = none
valid_date (some date) = date

-- For a kind that needs the window.
pub check_window : Option ℕ → (now : ℕ) → SessionWindowDecision
check_window none now = record {
  allowed = false;
  reason = some never_messaged;
  last_inbound_at = none;
}
check_window (some last) now =
    if leb (last + session_window_ms) now
    then record { allowed = false; reason = some (window_closed last); last_inbound_at = some last }
    else record { allowed = true; reason = none; last_inbound_at = some last }

pub evaluate_session_window :
    (kind : String) → Option (Option ℕ) → (now : ℕ) → SessionWindowDecision
unfolding requires_session_window valid_date check_window
evaluate_session_window kind last_inbound_at now =
    let last = valid_date last_inbound_at in
    if requires_session_window kind
    then check_window last now
    else record { allowed = true; reason = none; last_inbound_at = last }
