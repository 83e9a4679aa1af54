-- ===== src/WorkingHours/Open.antt =====
-- When packages/shared-core/src/working-hours.ts is open, by the minutes since a day began.
use hy_fib_wa_app.Prelude.{
  ℕ, ◌+◌, ◌*◌, ◌-◌, ◌%◌, ◌≤◌, ◌<◌, ◌≡◌, ◌⊎◌, ◌↔◌, inl, inr, refl, sym, ap, ◌∙◌, subst, true, [],
  ◌∷◌, Option, none, some, Text, arith, ltb, if◌then◌else◌, Option-cases, Bool-cases,
}
use hy_fib_wa_app.WorkingHours.{Parts, local_parts, is_within_working_hours}
use hy_fib_wa_app.WorkingHours.{
  DayHours, WeekDay, WorkingHours, index_of, day_at, hours_of, to_minutes, is_in_window, within_day,
  is_in_overflow, within_overflow, is_within_local, mon, tue, wed, thu, fri, sat, sun,
}

-- Full days since `d` last began, `today` counted as none.
abbrev pub days_since : (today d : WeekDay) → ℕ
days_since today d = (index_of today + 7 - index_of d) % 7

-- Where a window ends, counted from the midnight before it opens.
abbrev pub end_of : ℕ → ℕ → ℕ
end_of opening closing = if ltb closing opening then closing + 1440 else closing

-- The window of a day lets in an instant so many minutes after that day began.
abbrev pub Holds : Option ℕ → Option ℕ → ℕ → Type 0
Holds (some opening) (some closing) elapsed =
    (opening ≤ elapsed) × (elapsed < end_of opening closing)
Holds _ _ elapsed = ⊥

abbrev pub HoldsWindow : Option DayHours → ℕ → Type 0
HoldsWindow none elapsed = ⊥
HoldsWindow (some window) elapsed =
    Holds (to_minutes window.open_at) (to_minutes window.close_at) elapsed

-- The window of some day, run on past midnight, holds the instant.
pub record IsOpenAt (hours : WorkingHours) (today : WeekDay) (minutes : ℕ) : Type 0 where
  pub day : WeekDay
  pub holds : HoldsWindow (hours_of day hours) (days_since today day * 1440 + minutes)

day_at-index : (d : WeekDay) → day_at (index_of d) ≡ d
unfolding day_at
day_at-index mon = refl
day_at-index tue = refl
day_at-index wed = refl
day_at-index thu = refl
day_at-index fri = refl
day_at-index sat = refl
day_at-index sun = refl

index_of_bound : (d : WeekDay) → index_of d < 7
index_of_bound d = ground arith

index-day_at : (i : ℕ) → i < 7 → index_of (day_at i) ≡ i
unfolding day_at
index-day_at i h = ground arith

same_day : (today d : WeekDay) → days_since today d ≡ 0 → d ≡ today
same_day today d h =
    let e : index_of d ≡ index_of today = omega (arith, index_of_bound d, index_of_bound today) in
    sym (day_at-index d) ∙ ap day_at e ∙ day_at-index today

day_before : (today d : WeekDay) → days_since today d ≡ 1 → d ≡ day_at ((index_of today + 6) % 7)
day_before today d h =
    let e : index_of d ≡ (index_of today + 6) % 7 =
      omega (arith, index_of_bound d, index_of_bound today) in
    sym (day_at-index d) ∙ ap day_at e

since_day_before : (today : WeekDay) → days_since today (day_at ((index_of today + 6) % 7)) ≡ 1
since_day_before today =
    let e = index-day_at ((index_of today + 6) % 7) (omega arith) in
    omega (arith, e, index_of_bound today)

to_minutes_bound : (s : Text) (m : ℕ) → to_minutes s ≡ some m → m < 1440
unfolding to_minutes
to_minutes_bound [] m e = cc
to_minutes_bound (_ ∷ []) m e = cc
to_minutes_bound (_ ∷ _ ∷ []) m e = cc
to_minutes_bound (_ ∷ _ ∷ _ ∷ []) m e = cc
to_minutes_bound (_ ∷ _ ∷ _ ∷ _ ∷ []) m e = cc
to_minutes_bound (h ∷ h' ∷ c ∷ n ∷ n' ∷ []) m e = ground arith
to_minutes_bound (_ ∷ _ ∷ _ ∷ _ ∷ _ ∷ _ ∷ _) m e = cc

abbrev IsTimeOfDay : Option ℕ → Type 0
IsTimeOfDay none = Unit
IsTimeOfDay (some m) = m < 1440

to_minutes-IsTimeOfDay : (s : Text) → IsTimeOfDay (to_minutes s)
to_minutes-IsTimeOfDay s = elim (Option-cases (to_minutes s)) [
  | inl e ↦ rw e tt
  | inr (m, e) ↦ rw e (to_minutes_bound s m e)
]

is_in_window-Holds : (o c : Option ℕ) (m : ℕ) → m < 1440 → (is_in_window o c m ≡ true) ↔ Holds o c m
unfolding is_in_window
is_in_window-Holds (some o) (some c) m h = ground arith
is_in_window-Holds (some o) none m h = ground arith
is_in_window-Holds none c m h = ground arith

is_in_overflow-Holds :
    (o c : Option ℕ) (m : ℕ)
    → IsTimeOfDay o
    → IsTimeOfDay c
    → (is_in_overflow o c m ≡ true) ↔ Holds o c (1440 + m)
unfolding is_in_overflow
is_in_overflow-Holds (some o) (some c) m h k = ground arith
is_in_overflow-Holds (some o) none m h k = ground arith
is_in_overflow-Holds none c m h k = ground arith

Holds-early : (o c : Option ℕ) (m : ℕ) → IsTimeOfDay o → IsTimeOfDay c → Holds o c m → m < 2880
Holds-early (some o) (some c) m h k (a, b) = ground arith
Holds-early (some o) none m h k x = absurd x
Holds-early none c m h k x = absurd x

within_day-HoldsWindow :
    (w : Option DayHours) (m : ℕ) → m < 1440 → (within_day w m ≡ true) ↔ HoldsWindow w m
unfolding within_day
within_day-HoldsWindow none m h = ground arith
within_day-HoldsWindow (some w) m h =
    is_in_window-Holds (to_minutes w.open_at) (to_minutes w.close_at) m h

within_overflow-HoldsWindow :
    (w : Option DayHours) (m : ℕ) → (within_overflow w m ≡ true) ↔ HoldsWindow w (1440 + m)
unfolding within_overflow
within_overflow-HoldsWindow none m = ground arith
within_overflow-HoldsWindow (some w) m =
    is_in_overflow-Holds (to_minutes w.open_at) (to_minutes w.close_at) m
      (to_minutes-IsTimeOfDay w.open_at) (to_minutes-IsTimeOfDay w.close_at)

HoldsWindow-early : (w : Option DayHours) (m : ℕ) → HoldsWindow w m → m < 2880
HoldsWindow-early none m x = absurd x
HoldsWindow-early (some w) m x =
    Holds-early (to_minutes w.open_at) (to_minutes w.close_at) m (to_minutes-IsTimeOfDay w.open_at)
      (to_minutes-IsTimeOfDay w.close_at) x

zero_or_one : (k m : ℕ) → k * 1440 + m < 2880 → (k ≡ 0) ⊎ (k ≡ 1)
zero_or_one k m h = ground arith

elapsed_today : (k m : ℕ) → k ≡ 0 → k * 1440 + m ≡ m
elapsed_today k m e = ground arith

module _ (hours : WorkingHours) (today : WeekDay) (minutes : ℕ) (early : minutes < 1440) where
  opened : is_within_local hours today minutes ≡ true → IsOpenAt hours today minutes
  unfolding is_within_local
  opened e = elim (Bool-cases (within_day (hours_of today hours) minutes)) [
    | inl y ↦
        let none_since : days_since today today * 1440 + minutes ≡ minutes =
          omega (arith, index_of_bound today) in
        record {
          day = today;
          holds = rw none_since ((within_day-HoldsWindow (hours_of today hours) minutes early).0 y);
        }
    | inr n ↦
        let before = day_at ((index_of today + 6) % 7) in
        record {
          day = before;
          holds =
              rw (since_day_before today)
                ((within_overflow-HoldsWindow (hours_of before hours) minutes).0 (ground arith));
        }
  ]

  holding : IsOpenAt hours today minutes → is_within_local hours today minutes ≡ true
  unfolding is_within_local
  holding o =
      let elapsed = days_since today o.day * 1440 + minutes in
      let soon : elapsed < 2880 = HoldsWindow-early (hours_of o.day hours) elapsed o.holds in
      let within_day_of = λ (e : days_since today o.day ≡ 0).
        (within_day-HoldsWindow (hours_of today hours) minutes early).1 (
          subst (λ d. HoldsWindow (hours_of d hours) minutes) (same_day today o.day e)
            (subst (HoldsWindow (hours_of o.day hours))
              (elapsed_today (days_since today o.day) minutes e) o.holds)) in
      let overflow_of = λ (e : days_since today o.day ≡ 1).
        (within_overflow-HoldsWindow (hours_of (day_at ((index_of today + 6) % 7)) hours) minutes).1
          (subst (λ d. HoldsWindow (hours_of d hours) (1440 + minutes)) (day_before today o.day e)
            (rw e at o.holds)) in
      elim (zero_or_one (days_since today o.day) minutes soon) [
        | inl e ↦ let y = within_day_of e in ground arith
        | inr e ↦ let y = overflow_of e in ground arith
      ]

  -- Hours are in use and the zone is known: the instant is within them exactly when the window of
  -- some day, taken to run on past midnight if it closes before it opens, holds it.
  pub is_within_local-IsOpenAt :
      (is_within_local hours today minutes ≡ true) ↔ IsOpenAt hours today minutes
  is_within_local-IsOpenAt = (opened, holding)

-- Hours are in use and the local time is known: the instant is within them exactly when the window
-- of some day holds it, where a window that closes before it opens runs on past midnight.
pub is_within_working_hours-IsOpenAt :
    (entry : WeekDay × Option DayHours) (hours : WorkingHours) (parts : Option Parts)
    (day : WeekDay) (minutes : ℕ)
    → local_parts parts ≡ some (day, minutes)
    → minutes < 1440
    → (is_within_working_hours (entry ∷ hours) parts ≡ true) ↔ IsOpenAt (entry ∷ hours) day minutes
unfolding is_within_working_hours
is_within_working_hours-IsOpenAt entry hours parts day minutes known early =
    rw (known, is_within_working_hours) (is_within_local-IsOpenAt (entry ∷ hours) day minutes early)
