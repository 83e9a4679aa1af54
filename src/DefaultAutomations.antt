-- ===== src/DefaultAutomations.antt =====
-- services/notification-worker/src/default-automations.ts: whether an inbound message gets the out-of-office
-- text or the welcome, by the hours of packages/shared-core/src/working-hours.ts.
pub mod Closed
pub mod Tests
use hy_fib_wa_app.Prelude.{
  ℕ, Bool, true, false, not, ◌&&◌, List, [], ◌∷◌, Option, none, some, Text, trim, if◌then◌else◌,
}
use hy_fib_wa_app.WorkingHours.{WorkingHours, Parts, is_within_working_hours}

-- The parts of the time are those in the settings' time zone.
pub record AutomationSettings : Type 0 where
  pub working_hours : Option WorkingHours
  pub welcome_enabled : Bool
  pub welcome_text : Option Text
  pub ooo_enabled : Bool
  pub ooo_text : Option Text

pub data DefaultAutomationDecision : Type 0 where
  nothing : DefaultAutomationDecision
  ooo welcome : Text → DefaultAutomationDecision

abbrev pub hours_or_empty : Option WorkingHours → WorkingHours
hours_or_empty none = []
hours_or_empty (some hours) = hours

abbrev pub is_configured : WorkingHours → Bool
is_configured [] = false
is_configured (entry ∷ hours) = true

abbrev pub trimmed : Option Text → Text
trimmed none = []
trimmed (some text) = trim text

abbrev pub is_given : Text → Bool
is_given [] = false
is_given (c ∷ s) = true

unfoldable pub decide :
    AutomationSettings → (first_inbound : Bool) → Option Parts → DefaultAutomationDecision
decide settings first_inbound now =
    let hours = hours_or_empty settings.working_hours in
    if settings.ooo_enabled
      && is_given (trimmed settings.ooo_text)
      && is_configured hours
      && not (is_within_working_hours hours now)
    then ooo (trimmed settings.ooo_text)
    else if settings.welcome_enabled && is_given (trimmed settings.welcome_text) && first_inbound
    then welcome (trimmed settings.welcome_text)
    else nothing

unfoldable pub decide_default_automation :
    Option AutomationSettings
    → (first_inbound : Bool) → (now : Option Parts) → DefaultAutomationDecision
unfolding decide
decide_default_automation none first_inbound now = nothing
decide_default_automation (some settings) first_inbound now = decide settings first_inbound now
