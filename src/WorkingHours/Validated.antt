-- ===== src/WorkingHours/Validated.antt =====
-- What packages/shared-core/src/working-hours.ts accepts over the API.
use hy_fib_wa_app.Prelude.{
  ℕ, ◌+◌, ◌*◌, ◌-◌, ◌<◌, ◌≡◌, ◌≢◌, inl, inr, refl, subst, false, List, [], ◌∷◌, Option, none, some,
  Text, arith, Option-cases, All, text_eq, text_eq_iff, codes,
}
use hy_fib_wa_app.Flow.Json.{Json, null, bool, num, str, arr, obj, entries, get_member}
use hy_fib_wa_app.WorkingHours.{
  DayHours, WeekDay, WorkingHours, day_of_key, to_minutes, HoursError, WorkingHoursValidation,
  time_of, WindowCheck, check_times, check_window, add_window, validate_entries,
  validate_working_hours, valid, invalid, good, bad,
}

-- A text that reads as a time of day.
record IsClock (s : Text) (m : ℕ) : Type 0 where
  h : ℕ
  h' : ℕ
  n : ℕ
  n' : ℕ
  spelt : s ≡ (h + b'0') ∷ (h' + b'0') ∷ b':' ∷ (n + b'0') ∷ (n' + b'0') ∷ []
  hour_bound : h * 10 + h' < 24
  unit_bound : h' < 10
  ten_bound : n < 6
  minute_bound : n' < 10
  sum : m ≡ (h * 10 + h') * 60 + (n * 10 + n')

to_minutes-IsClock : (s : Text) (m : ℕ) → to_minutes s ≡ some m → IsClock s m
unfolding to_minutes
to_minutes-IsClock [] m e = cc
to_minutes-IsClock (_ ∷ []) m e = cc
to_minutes-IsClock (_ ∷ _ ∷ []) m e = cc
to_minutes-IsClock (_ ∷ _ ∷ _ ∷ []) m e = cc
to_minutes-IsClock (_ ∷ _ ∷ _ ∷ _ ∷ []) m e = cc
to_minutes-IsClock (h ∷ h' ∷ c ∷ n ∷ n' ∷ []) m e = record {
  h = h - b'0';
  h' = h' - b'0';
  n = n - b'0';
  n' = n' - b'0';
  spelt = ground arith;
  hour_bound = ground arith;
  unit_bound = ground arith;
  ten_bound = ground arith;
  minute_bound = ground arith;
  sum = ground arith;
}
to_minutes-IsClock (_ ∷ _ ∷ _ ∷ _ ∷ _ ∷ _ ∷ _) m e = cc

same_clock : (s t : Text) (m : ℕ) → IsClock s m → IsClock t m → s ≡ t
same_clock s t m a b =
    let hours : a.h * 10 + a.h' ≡ b.h * 10 + b.h' =
      omega (arith, a.sum, b.sum, a.ten_bound, a.minute_bound, b.ten_bound, b.minute_bound) in
    let minutes : a.n * 10 + a.n' ≡ b.n * 10 + b.n' = omega (arith, a.sum, b.sum, hours) in
    let e1 : a.h ≡ b.h = omega (arith, hours, a.unit_bound, b.unit_bound) in
    let e2 : a.h' ≡ b.h' = omega (arith, hours, e1) in
    let e3 : a.n ≡ b.n = omega (arith, minutes, a.minute_bound, b.minute_bound) in
    let e4 : a.n' ≡ b.n' = omega (arith, minutes, e3) in cc (a.spelt, b.spelt, e1, e2, e3, e4)

-- A window whose times are read, and are two distinct minutes.
pub record IsProper (window : DayHours) : Type 0 where
  pub opening : ℕ
  pub closing : ℕ
  pub opens : to_minutes window.open_at ≡ some opening
  pub closes : to_minutes window.close_at ≡ some closing
  pub lasts : opening ≢ closing

abbrev pub IsProperEntry : WeekDay × Option DayHours → Type 0
IsProperEntry (day, none) = Unit
IsProperEntry (day, some window) = IsProper window

time_of-minutes :
    (o : Option Json) (s : Text) → time_of o ≡ some s → (m : ℕ) × (to_minutes s ≡ some m)
unfolding time_of
time_of-minutes (some (str t)) s e = elim (Option-cases (to_minutes t)) [
  | inl p ↦ absurd (clash (rw (p, time_of) at e))
  | inr (m, p) ↦
      let same : some t ≡ some s = rw (p, time_of) at e in
      let same' : t ≡ s = cc in (m, subst (λ u. to_minutes u ≡ some m) same' p)
]
  where
    clash : {s : Text} → ◌≡◌ {A = Option Text} none (some s) → ⊥
    clash e = cc
time_of-minutes none s e = cc
time_of-minutes (some null) s e = cc
time_of-minutes (some (bool b)) s e = cc
time_of-minutes (some (num n)) s e = cc
time_of-minutes (some (arr vs)) s e = cc
time_of-minutes (some (obj ms)) s e = cc

check_times-IsProper :
    (key : Text) (o c : Option Text) (w : DayHours)
    → ((s : Text) → o ≡ some s → (m : ℕ) × (to_minutes s ≡ some m))
    → ((s : Text) → c ≡ some s → (m : ℕ) × (to_minutes s ≡ some m))
    → check_times key o c ≡ good (some w)
    → IsProper w
unfolding check_times
check_times-IsProper key (some o) (some c) w f g e =
    let (opening, opens) = f o refl in
    let (closing, closes) = g c refl in
    let differ : text_eq o c ≡ false = ground arith in
    let same : record { open_at = o; close_at = c } ≡ w = ground arith in
    subst IsProper same (record {
      opening = opening;
      closing = closing;
      opens = opens;
      closes = closes;
      lasts = λ p.
          let spelt =
            same_clock o c opening (to_minutes-IsClock o opening opens)
              (to_minutes-IsClock c opening (rw p closes)) in
          let equal = (text_eq_iff o c).1 spelt in cc;
    })
check_times-IsProper key (some o) none w f g e = cc
check_times-IsProper key none c w f g e = cc

check_window-IsProperEntry :
    (key : Text) (day : WeekDay) (value : Json) (window : Option DayHours)
    → check_window key value ≡ good window
    → IsProperEntry (day, window)
unfolding check_window
check_window-IsProperEntry key day value none e = tt
check_window-IsProperEntry key day null (some w) e = cc
check_window-IsProperEntry key day (bool b) (some w) e = cc
check_window-IsProperEntry key day (num n) (some w) e = cc
check_window-IsProperEntry key day (str s) (some w) e = cc
check_window-IsProperEntry key day (arr vs) (some w) e = cc
check_window-IsProperEntry key day (obj ms) (some w) e =
    check_times-IsProper key (time_of (get_member (codes "open") ms))
      (time_of (get_member (codes "close") ms)) w (time_of-minutes (get_member (codes "open") ms))
      (time_of-minutes (get_member (codes "close") ms)) e

add_window-All :
    (day : WeekDay) (check : WindowCheck) (rest : WorkingHoursValidation) (hours : WorkingHours)
    → ((window : Option DayHours) → check ≡ good window → IsProperEntry (day, window))
    → ((later : WorkingHours) → rest ≡ valid later → All IsProperEntry later)
    → add_window day check rest ≡ valid hours
    → All IsProperEntry hours
unfolding add_window
add_window-All day (good window) (valid later) hours f g e =
    let same : (day, window) ∷ later ≡ hours = cc in
    subst (All IsProperEntry) same (f window refl, g later refl)
add_window-All day (good window) (invalid error) hours f g e = cc
add_window-All day (bad error) rest hours f g e = cc

validate_entries-All :
    (given : List (Text × Json)) (hours : WorkingHours)
    → validate_entries given ≡ valid hours
    → All IsProperEntry hours
unfolding validate_entries
validate_entries-All [] hours e = let same : [] ≡ hours = cc in subst (All IsProperEntry) same tt
validate_entries-All ((key, value) ∷ more) hours e = elim (Option-cases (day_of_key key)) [
  | inl p ↦ absurd (clash (rw (p, validate_entries) at e))
  | inr (day, p) ↦
      add_window-All day (check_window key value) (validate_entries more) hours
        (check_window-IsProperEntry key day value) (validate_entries-All more)
        (rw (p, validate_entries) at e)
]
  where
    clash : {error : HoursError} {hours : WorkingHours} → invalid error ≡ valid hours → ⊥
    clash e = cc

-- Every window of hours that the API accepts reads as two distinct minutes of a day, so none is taken
-- for closed because a time is malformed or the window has no length.
pub validate_working_hours-All :
    (value : Json) (hours : WorkingHours)
    → validate_working_hours value ≡ valid hours
    → All IsProperEntry hours
unfolding validate_working_hours
validate_working_hours-All null hours e = cc
validate_working_hours-All (bool b) hours e = cc
validate_working_hours-All (num n) hours e = cc
validate_working_hours-All (str s) hours e = cc
validate_working_hours-All (arr vs) hours e = cc
validate_working_hours-All (obj ms) hours e = validate_entries-All (entries ms) hours e
