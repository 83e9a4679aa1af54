-- ===== src/Policy/Laws.antt =====
-- When packages/policy-engine/src/index.ts lets a message out.
use hy_fib_wa_app.Prelude.{
  ℕ, ◌+◌, ◌-◌, ◌%◌, ◌<◌, ◌≤◌, ◌≡◌, ◌⊎◌, ◌↔◌, true, false, Option, none, some, arith,
}
use hy_fib_wa_app.Policy.{
  MessageCategory, TemplateStatus, approved, same_category, is_approved, QuietHours, FrequencyCap,
  OutboundPolicyContext, allowed, in_quiet, check_cap, is_inside_quiet_hours,
  evaluate_outbound_policy,
}

-- How many hours after `start` the hour `h` of the day comes.
abbrev pub hours_after : ℕ → ℕ → ℕ
hours_after start h = (h + 24 - start) % 24

-- For hours of the day, an hour is quiet exactly when it comes, counted round the clock from the
-- start hour, before the end hour does. So a period may span midnight, and one that ends at the hour
-- it starts is empty.
pub is_inside_quiet_hours_iff :
    (hour : ℕ) (q : QuietHours)
    → hour < 24
    → q.start_hour < 24
    → q.end_hour < 24
    → (is_inside_quiet_hours hour q ≡ true)
      ↔ (hours_after q.start_hour hour < hours_after q.start_hour q.end_hour)
unfolding is_inside_quiet_hours
is_inside_quiet_hours_iff hour q h s e = ground arith

-- Counted round the clock from the start hour, the hour does not come before the end hour does.
abbrev pub IsOutsideQuietHours : ℕ → Option QuietHours → Type 0
IsOutsideQuietHours hour none = Unit
IsOutsideQuietHours hour (some q) =
    hours_after q.start_hour q.end_hour ≤ hours_after q.start_hour hour

-- The hours are hours of the day.
abbrev pub IsClock : ℕ → Option QuietHours → Type 0
IsClock hour none = hour < 24
IsClock hour (some q) = (hour < 24) × (q.start_hour < 24) × (q.end_hour < 24)

abbrev pub IsBelowCap : Option FrequencyCap → Type 0
IsBelowCap none = Unit
IsBelowCap (some cap) = cap.sent_in_period < cap.max_messages

pub record IsSendable (c : OutboundPolicyContext) : Type 0 where
  pub not_opted_out : c.is_opted_out ≡ false
  pub consent : c.has_active_consent ≡ true
  pub routed : c.country_blocked ≡ false
  pub window_or_template : (c.is_inside24h_window ≡ true) ⊎ (c.template.status ≡ approved)
  pub category : c.template.category ≡ c.requested_category
  pub quiet : IsOutsideQuietHours c.current_hour_local c.quiet_hours
  pub cap : IsBelowCap c.frequency_cap

same_category_iff : (a b : MessageCategory) → (same_category a b ≡ true) ↔ (a ≡ b)
same_category_iff a b = ground arith

is_approved_iff : (s : TemplateStatus) → (is_approved s ≡ true) ↔ (s ≡ approved)
is_approved_iff s = ground arith

in_quiet_iff :
    (hour : ℕ) (o : Option QuietHours)
    → IsClock hour o
    → (in_quiet hour o ≡ false) ↔ IsOutsideQuietHours hour o
unfolding in_quiet
in_quiet_iff hour none h = ground arith
in_quiet_iff hour (some q) (h, s, e) = ground (arith, is_inside_quiet_hours_iff hour q h s e)

check_cap_iff : (o : Option FrequencyCap) → (check_cap o ≡ allowed) ↔ IsBelowCap o
unfolding check_cap
check_cap_iff none = ground arith
check_cap_iff (some cap) = ground arith

-- A message is allowed exactly when the contact is not opted out and has consented, the country is
-- not blocked, the session window is open or the template approved, the template has the requested
-- category, the hour does not lie in the quiet hours, counted round the clock from their start to
-- their end, and fewer messages than the cap were sent in the period. The hour and those of the
-- quiet hours are to be below 24.
pub evaluate_outbound_policy-allowed_iff :
    (c : OutboundPolicyContext)
    → IsClock c.current_hour_local c.quiet_hours
    → (evaluate_outbound_policy c ≡ allowed) ↔ IsSendable c
unfolding evaluate_outbound_policy
evaluate_outbound_policy-allowed_iff c clock = ground (
  arith,
  same_category_iff c.template.category c.requested_category,
  is_approved_iff c.template.status,
  in_quiet_iff c.current_hour_local c.quiet_hours clock,
  check_cap_iff c.frequency_cap,
)
