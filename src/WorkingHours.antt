-- ===== src/WorkingHours.antt =====
-- packages/shared-core/src/working-hours.ts: the weekly hours of the out-of-office automation. What
-- `Intl.DateTimeFormat` says of an instant is a parameter; a number that is NaN is `none`.

pub mod Open
pub mod Validated
pub mod Tests
use hy_fib_wa_app.Prelude.{
  ℕ, ◌+◌, ◌*◌, ◌-◌, ◌%◌, ◌≡◌, Bool, true, false, not, ◌&&◌, ◌||◌, List, [], ◌∷◌, Option, none, some,
  Text, codes, text_eq, to_lower, take, leb, ltb, ◌==◌, if◌then◌else◌,
}
use hy_fib_wa_app.Flow.Json.{Json, Members, obj, null, str, entries, get_member}

pub record DayHours : Type 0 where
  pub open_at : Text
  pub close_at : Text

pub data WeekDay : Type 0 where
  mon tue wed thu fri sat sun : WeekDay

-- Each key once; a day that is absent or null is closed.
abbrev pub WorkingHours : Type 0
WorkingHours = List (WeekDay × Option DayHours)

-- `WEEK_DAYS.indexOf(day)`
abbrev pub index_of : WeekDay → ℕ
index_of mon = 0
index_of tue = 1
index_of wed = 2
index_of thu = 3
index_of fri = 4
index_of sat = 5
index_of sun = 6

-- `WEEK_DAYS[i]`, which is asked for i < 7 only.
unfoldable pub day_at : ℕ → WeekDay
day_at i =
    if i == 0
    then mon
    else if i == 1
    then tue
    else if i == 2
    then wed
    else if i == 3
    then thu
    else if i == 4
    then fri
    else if i == 5
    then sat
    else sun

-- The day of a key, none where `WEEK_DAYS.includes` is false.
unfoldable pub day_of_key : Text → Option WeekDay
day_of_key key =
    if text_eq key (codes "mon")
    then some mon
    else if text_eq key (codes "tue")
    then some tue
    else if text_eq key (codes "wed")
    then some wed
    else if text_eq key (codes "thu")
    then some thu
    else if text_eq key (codes "fri")
    then some fri
    else if text_eq key (codes "sat")
    then some sat
    else if text_eq key (codes "sun")
    then some sun
    else none

-- `hours[day]`, where undefined and null are the same.
unfoldable pub hours_of : WeekDay → WorkingHours → Option DayHours
hours_of day [] = none
hours_of day ((key, window) ∷ hours) =
    let rest = hours_of day hours in if index_of key == index_of day then window else rest

abbrev pub is_digit : ℕ → Bool
is_digit c = leb b'0' c && leb c b'9'

-- `TIME_RE`
abbrev pub is_time : ℕ → ℕ → ℕ → ℕ → ℕ → Bool
is_time h h' colon m m' =
    (((h == b'0' || h == b'1') && is_digit h') || (h == b'2' && leb b'0' h' && leb h' b'3'))
    && colon == b':'
    && leb b'0' m
    && leb m b'5'
    && is_digit m'

unfoldable pub to_minutes : Text → Option ℕ
to_minutes (h ∷ h' ∷ colon ∷ m ∷ m' ∷ []) =
    if is_time h h' colon m m'
    then some (((h - b'0') * 10 + (h' - b'0')) * 60 + ((m - b'0') * 10 + (m' - b'0')))
    else none
to_minutes _ = none

-- The parts that the formatter gives, the hour and the minute as `Number` reads them.
pub record Parts : Type 0 where
  pub weekday : Option Text
  pub hour : Option ℕ
  pub minute : Option ℕ

unfoldable pub local_of : Option WeekDay → Option ℕ → Option ℕ → Option (WeekDay × ℕ)
local_of (some day) (some hour) (some minute) = some (day, hour % 24 * 60 + minute)
local_of _ _ _ = none

-- None in place of the parts where the formatter throws.
unfoldable pub local_parts : Option Parts → Option (WeekDay × ℕ)
unfolding day_of_key local_of
local_parts none = none
local_parts (some parts) = elim parts.weekday [
  | none ↦ none
  | some weekday ↦ local_of (day_of_key (take 3 (to_lower weekday))) parts.hour parts.minute
]

unfoldable pub is_in_window : Option ℕ → Option ℕ → ℕ → Bool
is_in_window (some opening) (some closing) minutes =
    if opening == closing
    then false
    else if ltb opening closing
    then leb opening minutes && ltb minutes closing
    else leb opening minutes
is_in_window _ _ minutes = false

unfoldable pub within_day : Option DayHours → ℕ → Bool
within_day none minutes = false
within_day (some window) minutes =
    is_in_window (to_minutes window.open_at) (to_minutes window.close_at) minutes

-- The part of the day before that lies after midnight.
unfoldable pub is_in_overflow : Option ℕ → Option ℕ → ℕ → Bool
is_in_overflow (some opening) (some closing) minutes =
    if ltb closing opening then ltb minutes closing else false
is_in_overflow _ _ minutes = false

unfoldable pub within_overflow : Option DayHours → ℕ → Bool
within_overflow none minutes = false
within_overflow (some window) minutes =
    is_in_overflow (to_minutes window.open_at) (to_minutes window.close_at) minutes

unfoldable pub is_within_local : WorkingHours → WeekDay → ℕ → Bool
is_within_local hours day minutes =
    if within_day (hours_of day hours) minutes
    then true
    else within_overflow (hours_of (day_at ((index_of day + 6) % 7)) hours) minutes

unfoldable pub is_within_working_hours : WorkingHours → Option Parts → Bool
is_within_working_hours [] parts = true
is_within_working_hours (entry ∷ hours) parts = elim (local_parts parts) [
  | none ↦ true
  | some (day, minutes) ↦ is_within_local (entry ∷ hours) day minutes
]

pub data HoursError : Type 0 where
  not_an_object : HoursError
  unknown_day bad_window bad_times zero_length : Text → HoursError

pub data WorkingHoursValidation : Type 0 where
  valid : WorkingHours → WorkingHoursValidation
  invalid : HoursError → WorkingHoursValidation

-- The text of a property that matches `TIME_RE`.
unfoldable pub time_of : Option Json → Option Text
time_of (some (str s)) = elim (to_minutes s) [ none ↦ none | some minutes ↦ some s ]
time_of _ = none

-- A window, or the error that it gives.
pub data WindowCheck : Type 0 where
  good : Option DayHours → WindowCheck
  bad : HoursError → WindowCheck

unfoldable pub check_times : Text → Option Text → Option Text → WindowCheck
check_times key (some opening) (some closing) =
    if text_eq opening closing
    then bad (zero_length key)
    else good (some (record { open_at = opening; close_at = closing }))
check_times key _ _ = bad (bad_times key)

unfoldable pub check_window : Text → Json → WindowCheck
unfolding check_times
check_window key null = good none
check_window key (obj members) =
    check_times key (time_of (get_member (codes "open") members))
      (time_of (get_member (codes "close") members))
check_window key _ = bad (bad_window key)

unfoldable pub add_window : WeekDay → WindowCheck → WorkingHoursValidation → WorkingHoursValidation
add_window day (bad error) rest = invalid error
add_window day (good window) (valid hours) = valid ((day, window) ∷ hours)
add_window day (good window) (invalid error) = invalid error

-- The loop over `Object.entries(value)`.
unfoldable pub validate_entries : List (Text × Json) → WorkingHoursValidation
unfolding day_of_key check_window add_window
validate_entries [] = valid []
validate_entries ((key, window) ∷ more) =
    let rest = validate_entries more in
    elim (day_of_key key) [
      | none ↦ invalid (unknown_day key)
      | some day ↦ add_window day (check_window key window) rest
    ]

unfoldable pub validate_working_hours : Json → WorkingHoursValidation
unfolding validate_entries
validate_working_hours (obj members) = validate_entries (entries members)
validate_working_hours _ = invalid not_an_object
