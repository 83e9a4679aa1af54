-- ===== src/DefaultAutomations/Tests.antt =====
-- Runs of the default automations, on a Sunday and in a night that is covered.
use hy_fib_wa_app.WorkingHours.{within_overflow}
use hy_fib_wa_app.WorkingHours.{within_day}
use hy_fib_wa_app.WorkingHours.{to_minutes}
use hy_fib_wa_app.WorkingHours.{is_within_working_hours}
use hy_fib_wa_app.WorkingHours.{is_within_local}
use hy_fib_wa_app.WorkingHours.{is_in_window}
use hy_fib_wa_app.WorkingHours.{is_in_overflow}
use hy_fib_wa_app.WorkingHours.{hours_of}
use hy_fib_wa_app.WorkingHours.{day_at}
use hy_fib_wa_app.Prelude.{trim}
use hy_fib_wa_app.Prelude.{to_lower}
use hy_fib_wa_app.Prelude.{text_eq}
use hy_fib_wa_app.Prelude.{
  ℕ, ◌<◌, ◌≡◌, ◌≢◌, refl, sym, ◌∙◌, true, [], ◌∷◌, Option, some, codes, arith,
}
use hy_fib_wa_app.WorkingHours.{Parts, WeekDay, WorkingHours, sat, sun, local_parts}
use hy_fib_wa_app.DefaultAutomations.{
  AutomationSettings, hours_or_empty, trimmed, decide_default_automation, ooo, welcome,
}
use hy_fib_wa_app.DefaultAutomations.Closed.{IsClosed, decide_default_automation-ooo}

abbrev saturdays : WorkingHours
saturdays = (sat, some (record { open_at = codes "09:00"; close_at = codes "12:00" })) ∷ []

abbrev settings : AutomationSettings
settings = record {
  working_hours = some saturdays;
  welcome_enabled = true;
  welcome_text = some (codes "Hello");
  ooo_enabled = true;
  ooo_text = some (codes " Closed ");
}

abbrev sunday_noon : Option Parts
sunday_noon = some (record { weekday = some (codes "Sun"); hour = some 12; minute = some 0 })

abbrev saturday_ten : Option Parts
saturday_ten = some (record { weekday = some (codes "Sat"); hour = some 10; minute = some 0 })

welcomed : decide_default_automation (some settings) true saturday_ten ≡ welcome (codes "Hello")
unfolding decide_default_automation trim is_within_working_hours local_parts text_eq to_lower
    is_within_local within_day hours_of is_in_window to_minutes
welcomed = refl

sunday-closed : decide_default_automation (some settings) true sunday_noon ≡ ooo (codes "Closed")
unfolding decide_default_automation trim is_within_working_hours local_parts text_eq to_lower
    is_within_local within_day hours_of within_overflow day_at is_in_overflow to_minutes
sunday-closed = refl

sunday-local : local_parts sunday_noon ≡ some (sun, 720)
unfolding local_parts text_eq to_lower
sunday-local = refl

sunday-early :
    (day : WeekDay) (minutes : ℕ) → local_parts sunday_noon ≡ some (day, minutes) → minutes < 1440
sunday-early day minutes h =
    let same : minutes ≡ 720 = minutes_of (sym sunday-local ∙ h) in omega arith
  where
    minutes_of :
        ◌≡◌ {A = Option (WeekDay × ℕ)} (some (sun, 720)) (some (day, minutes)) → minutes ≡ 720
    minutes_of e = cc

decide_default_automation-ooo_example :
    (settings.ooo_enabled ≡ true)
    × (hours_or_empty settings.working_hours ≢ [])
    × IsClosed (hours_or_empty settings.working_hours) sunday_noon
    × (trimmed settings.ooo_text ≡ codes "Closed")
decide_default_automation-ooo_example =
    decide_default_automation-ooo settings true sunday_noon (codes "Closed") sunday-early
      sunday-closed
