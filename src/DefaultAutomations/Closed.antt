-- ===== src/DefaultAutomations/Closed.antt =====
-- When services/notification-worker/src/default-automations.ts says that nobody is there.
use hy_fib_wa_app.Prelude.{
  ℕ, ◌<◌, ◌≡◌, ◌≢◌, inl, inr, ap, Bool, true, false, [], ◌∷◌, Option, some, Text, arith,
  Option-cases,
}
use hy_fib_wa_app.WorkingHours.{WorkingHours, WeekDay, Parts, local_parts, is_within_working_hours}
use hy_fib_wa_app.WorkingHours.Open.{IsOpenAt, is_within_working_hours-IsOpenAt}
use hy_fib_wa_app.DefaultAutomations.{
  AutomationSettings, hours_or_empty, is_configured, trimmed, decide, decide_default_automation,
  ooo,
}

decide-closed :
    (settings : AutomationSettings) (first_inbound : Bool) (now : Option Parts) (text : Text)
    → decide settings first_inbound now ≡ ooo text
    → (is_configured (hours_or_empty settings.working_hours) ≡ true)
      × (is_within_working_hours (hours_or_empty settings.working_hours) now ≡ false)
      × (trimmed settings.ooo_text ≡ text)
      × (settings.ooo_enabled ≡ true)
unfolding decide
decide-closed settings first_inbound now text h =
    (ground arith, ground arith, ground arith, ground arith)

-- The local time is known, and lies in the window of no day.
pub record IsClosed (hours : WorkingHours) (now : Option Parts) : Type 0 where
  pub day : WeekDay
  pub minutes : ℕ
  pub known : local_parts now ≡ some (day, minutes)
  pub closed : ¬ IsOpenAt hours day minutes

not_open :
    (hours : WorkingHours) (now : Option Parts)
    → ((day : WeekDay) (minutes : ℕ) → local_parts now ≡ some (day, minutes) → minutes < 1440)
    → is_configured hours ≡ true
    → is_within_working_hours hours now ≡ false
    → IsClosed hours now
unfolding is_within_working_hours
not_open [] now early c w = absurd cc
not_open (entry ∷ hours) now early c w = elim (Option-cases (local_parts now)) [
  | inl e ↦ let open_then = rw (e, is_within_working_hours) at w in absurd cc
  | inr ((day, minutes), e) ↦ record {
    day = day;
    minutes = minutes;
    known = e;
    closed = λ o.
        let within =
          (is_within_working_hours-IsOpenAt entry hours now day minutes e (early day minutes e)).1
            o in
        cc;
  }
]

-- The out-of-office text is only sent where it is switched on and hours are configured, and where
-- the local time is known and lies in the window of no day, so never for a time zone that cannot be
-- read; and it is the text of the settings, trimmed. A local time that is known is to be within
-- the 1440 minutes of a day, as the formatter's hours and minutes are.
pub decide_default_automation-ooo :
    (settings : AutomationSettings) (first_inbound : Bool) (now : Option Parts) (text : Text)
    → ((day : WeekDay) (minutes : ℕ) → local_parts now ≡ some (day, minutes) → minutes < 1440)
    → decide_default_automation (some settings) first_inbound now ≡ ooo text
    → (settings.ooo_enabled ≡ true)
      × (hours_or_empty settings.working_hours ≢ [])
      × IsClosed (hours_or_empty settings.working_hours) now
      × (trimmed settings.ooo_text ≡ text)
unfolding decide_default_automation
decide_default_automation-ooo settings first_inbound now text early h =
    let (configured, closed, same, enabled) = decide-closed settings first_inbound now text h in
    (
      enabled,
      λ e.
          let unset : is_configured (hours_or_empty settings.working_hours) ≡ false =
            ap is_configured e in
          cc,
      not_open (hours_or_empty settings.working_hours) now early configured closed,
      same,
    )
