-- ===== src/RealmKeySet/Tests.antt =====
-- A history of packages/auth/src/realm-key-set.ts, and its theorems in it. A set of keys is the id of
-- its one key, and so is a token; error 404 is the missing key, other numbers are failed fetches.
use hy_fib_wa_app.Prelude.{ℕ, ◌≡◌, refl, true, none, some, arith, ◌==◌, if◌then◌else◌}
use hy_fib_wa_app.RealmKeySet.{
  default_options, Resolution, found, no_match, fetched, failed, Reload, State, key, refused,
  is_younger, cached_keys, last_good_keys, fetch_succeeded, retry_is_due, retry_in_background,
  note_error, settle, retry_ends, from_last_good_keys, note_failure, answer_from, during_outage,
  final_answer, ask_again, try_keys, ask, forget_last_good, through_outage, get_key,
}
use hy_fib_wa_app.RealmKeySet.Noted.{IsExcused}
use hy_fib_wa_app.RealmKeySet.Backed.{IsAccepted, get_key-IsAccepted}
use hy_fib_wa_app.RealmKeySet.Outages.{IsExplained, get_key-refused}

resolver : Unit {0}
unfolding get_key through_outage forget_last_good ask try_keys ask_again final_answer during_outage
    answer_from note_failure from_last_good_keys retry_ends settle note_error retry_in_background
    retry_is_due fetch_succeeded last_good_keys cached_keys is_younger
resolver = tt

abbrev resolve : ℕ → ℕ → Resolution ℕ ℕ
resolve keys request = if keys == request then found keys else no_match 404

abbrev brings : ℕ → ℕ → Reload ℕ ℕ
brings keys ends = record { result = fetched keys; ends = ends }

abbrev fails : ℕ → Reload ℕ ℕ
fails ends = record { result = failed 503; ends = ends }

abbrev fresh : State ℕ ℕ
fresh = record { last_fetch = none; fetched_at = none; outage = none; retrying = none; outages = 0 }

abbrev down : State ℕ ℕ
down = record {
  last_fetch = some 7;
  fetched_at = some 100;
  outage = some (record {
    number = 0;
    since = 700_200;
    last_attempt_at = 700_200;
    error = 503;
    on_last_good_keys = true;
  });
  retrying = none;
  outages = 1;
}

abbrev cached : State ℕ ℕ
cached = record fresh { last_fetch = some 7; fetched_at = some 100 }

history :
    (get_key default_options resolve 0 (brings 7 100) (fails 0) 7 fresh ≡ (cached, key 7))
    × (get_key default_options resolve 700_000 (fails 700_200) (fails 0) 7 cached ≡ (down, key 7))
    × ((get_key default_options resolve 700_300 (fails 0) (fails 0) 8 down).1 ≡ refused 503)
    × ((get_key default_options resolve 99_000_000 (fails 99_000_000) (fails 0) 7 down).1
        ≡ refused 503)
    × ((retry_ends default_options resolve
          (brings 9 700_400)
          (get_key default_options resolve 730_300 (fails 0) (fails 0) 7 down).0).outage
        ≡ none)
unfolding resolver
history = (refl, refl, refl, refl, refl)

get_key-IsAccepted_example :
    IsAccepted default_options resolve 700_000
      (fails 700_200)
      (fails 0)
      7
      7
      (get_key default_options resolve 700_000 (fails 700_200) (fails 0) 7 cached).0
    × IsExcused cached
        (fails 700_200)
        (fails 0)
        (get_key default_options resolve 700_000 (fails 700_200) (fails 0) 7 cached).0
get_key-IsAccepted_example =
    get_key-IsAccepted default_options resolve 700_000 (fails 700_200) (fails 0) 7 cached 7
      (unfold resolver in refl)

get_key-refused_example :
    IsExplained default_options resolve 8 503
      (get_key default_options resolve 700_300 (fails 0) (fails 0) 8 down).0
      (record {
        number = 0;
        since = 700_200;
        last_attempt_at = 700_200;
        error = 503;
        on_last_good_keys = true;
      })
unfolding resolver
get_key-refused_example =
    get_key-refused default_options resolve 700_300 (fails 0) (fails 0) 8 down 503 _ (omega arith)
      refl refl
