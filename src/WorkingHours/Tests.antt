-- ===== src/WorkingHours/Tests.antt =====
-- Runs of the working hours, with a window that runs past midnight.
use hy_fib_wa_app.WorkingHours.{within_overflow}
use hy_fib_wa_app.WorkingHours.{within_day}
use hy_fib_wa_app.WorkingHours.{to_minutes}
use hy_fib_wa_app.WorkingHours.{time_of}
use hy_fib_wa_app.WorkingHours.{is_within_local}
use hy_fib_wa_app.WorkingHours.{is_in_overflow}
use hy_fib_wa_app.WorkingHours.{hours_of}
use hy_fib_wa_app.WorkingHours.{day_at}
use hy_fib_wa_app.Prelude.{to_lower}
use hy_fib_wa_app.Prelude.{text_eq}
use hy_fib_wa_app.Flow.Json.{get_member}
use hy_fib_wa_app.Flow.Json.{entries}
use hy_fib_wa_app.Prelude.{◌≡◌, ◌↔◌, refl, true, false, [], ◌∷◌, none, some, codes, arith, All}
use hy_fib_wa_app.Flow.Json.{Json, no_members, member, obj, str, null}
use hy_fib_wa_app.WorkingHours.{
  DayHours, WorkingHours, Parts, local_parts, is_within_working_hours, validate_working_hours, fri,
  sat, sun, valid,
}
use hy_fib_wa_app.WorkingHours.Open.{IsOpenAt, is_within_working_hours-IsOpenAt}
use hy_fib_wa_app.WorkingHours.Validated.{IsProperEntry, validate_working_hours-All}

abbrev night : DayHours
night = record { open_at = codes "22:00"; close_at = codes "06:00" }

abbrev nights : WorkingHours
nights = (fri, some night) ∷ (sun, none) ∷ []

abbrev saturday_morning : Parts
saturday_morning = record { weekday = some (codes "Sat"); hour = some 5; minute = some 59 }

saturday_morning-local : local_parts (some saturday_morning) ≡ some (sat, 359)
unfolding local_parts text_eq to_lower
saturday_morning-local = refl

still_open : is_within_working_hours nights (some saturday_morning) ≡ true
unfolding is_within_working_hours local_parts text_eq to_lower is_within_local within_day hours_of
    within_overflow day_at is_in_overflow to_minutes
still_open = refl

closed_sunday :
    is_within_working_hours nights (some (record saturday_morning { weekday = some (codes "Sun") }))
    ≡ false
unfolding is_within_working_hours local_parts text_eq to_lower is_within_local within_day hours_of
    within_overflow day_at
closed_sunday = refl

open_without_zone : is_within_working_hours nights none ≡ true
unfolding is_within_working_hours local_parts
open_without_zone = refl

is_within_working_hours-IsOpenAt_example :
    (is_within_working_hours nights (some saturday_morning) ≡ true) ↔ IsOpenAt nights sat 359
is_within_working_hours-IsOpenAt_example =
    is_within_working_hours-IsOpenAt (fri, some night) ((sun, none) ∷ []) (some saturday_morning)
      sat 359 saturday_morning-local (omega arith)

abbrev nights_json : Json
nights_json = obj (
    member (codes "fri")
      (obj (
        member (codes "open") (str (codes "22:00"))
          (member (codes "close") (str (codes "06:00")) no_members)))
      (member (codes "sun") null no_members))

nights_json-valid : validate_working_hours nights_json ≡ valid nights
unfolding validate_working_hours entries text_eq time_of get_member to_minutes
nights_json-valid = refl

validate_working_hours-All_example : All IsProperEntry nights
validate_working_hours-All_example = validate_working_hours-All nights_json nights nights_json-valid
