-- ===== src/RealmKeySet.antt =====
-- packages/auth/src/realm-key-set.ts: the realm's signing keys, fetched, cached and ridden through an
-- outage. jose and the network are parameters: what a fetch brings and when it ends, and what a set
-- of keys answers to a token. A call runs from its start to its answer with no other call between;
-- the background retry ends in a step of its own. Log lines are left out.
pub mod Noted
pub mod Fresh
pub mod Backed
pub mod Outages
pub mod Tests
use hy_fib_wa_app.Prelude.{
  ℕ, ◌+◌, ◌*◌, Bool, true, false, not, ◌||◌, Option, none, some, ltb, ◌==◌, if◌then◌else◌,
}

-- In milliseconds, as `RealmKeySetOptions` with its defaults filled in.
pub record Options : Type 0 where
  pub max_stale_ms : ℕ
  pub retry_interval_ms : ℕ
  pub cache_max_age_ms : ℕ
  pub cooldown_ms : ℕ

abbrev pub default_options : Options
default_options = record {
  max_stale_ms = 24 * 60 * 60 * 1000;
  retry_interval_ms = 30 * 1000;
  cache_max_age_ms = 10 * 60 * 1000;
  cooldown_ms = 30 * 1000;
}

-- What jose answers when it looks for a token's key in a set: the key, the error that the set holds no
-- such key (ERR_JWKS_NO_MATCHING_KEY), or another error.
pub data Resolution (Key Error : Type 0) : Type 0 where
  found : Key → Resolution Key Error
  no_match : Error → Resolution Key Error
  unusable : Error → Resolution Key Error

pub data Fetch (Keys Error : Type 0) : Type 0 where
  fetched : Keys → Fetch Keys Error
  failed : Error → Fetch Keys Error

-- A fetch, if it is made: its result, and the time when it ends.
pub record Reload (Keys Error : Type 0) : Type 0 where
  pub result : Fetch Keys Error
  pub ends : ℕ

-- `number` tells one outage object from a later one.
pub record Outage (Error : Type 0) : Type 0 where
  pub number : ℕ
  pub since : ℕ
  pub last_attempt_at : ℕ
  pub error : Error
  pub on_last_good_keys : Bool

pub record State (Keys Error : Type 0) : Type 0 where
  pub last_fetch : Option Keys
  pub fetched_at : Option ℕ
  pub outage : Option (Outage Error)
  pub retrying : Option ℕ  -- the outage that a background retry is under way for
  pub outages : ℕ  -- how many have begun

pub data Answer (Key Error : Type 0) : Type 0 where
  key : Key → Answer Key Error
  refused : Error → Answer Key Error

-- What a call of the resolver needs from outside. `Request` is the token's header and body.
module _ {Keys Key Error Request : Type 0} (o : Options)
    (resolve : Keys → Request → Resolution Key Error) where
  -- `fetchAgeMs() < limit`; before the first fetch the age is infinite.
  pub is_younger : ℕ → ℕ → State Keys Error → Bool
  is_younger now limit s = elim s.fetched_at [ none ↦ false | some at ↦ ltb now (at + limit) ]

  pub cached_keys : ℕ → State Keys Error → Option Keys
  cached_keys now s = if is_younger now o.cache_max_age_ms s then s.last_fetch else none

  pub last_good_keys : ℕ → State Keys Error → Option Keys
  last_good_keys now s = if is_younger now o.max_stale_ms s then s.last_fetch else none

  pub fetch_succeeded : ℕ → Keys → State Keys Error → State Keys Error
  fetch_succeeded now keys s = record s {
    last_fetch = some keys;
    fetched_at = some now;
    outage = none;
  }

  pub retry_is_due : ℕ → Outage Error → State Keys Error → Bool
  retry_is_due now current s = elim s.retrying [
    | none ↦ not (ltb now (current.last_attempt_at + o.retry_interval_ms))
    | some n ↦ false
  ]

  pub retry_in_background : ℕ → Outage Error → State Keys Error → State Keys Error
  retry_in_background now current s =
      if retry_is_due now current s
      then record s {
        retrying = some current.number;
        outage = some (record current { last_attempt_at = now });
      }
      else s

  pub note_error : ℕ → Error → Option (Outage Error) → Option (Outage Error)
  note_error number error none = none
  note_error number error (some current) =
      if current.number == number then some (record current { error = error }) else some current

  pub settle : ℕ → Reload Keys Error → State Keys Error → State Keys Error
  settle number r s = elim r.result [
    | fetched keys ↦ fetch_succeeded r.ends keys s
    | failed error ↦ record s { outage = note_error number error s.outage }
  ]

  -- The background retry ends.
  pub retry_ends : Reload Keys Error → State Keys Error → State Keys Error
  retry_ends r s = elim s.retrying [
    | none ↦ s
    | some number ↦ record (settle number r s) { retrying = none }
  ]

  pub from_last_good_keys : Error → Resolution Key Error → Answer Key Error
  from_last_good_keys outage_error (found k) = key k
  from_last_good_keys outage_error (no_match e) = refused outage_error
  from_last_good_keys outage_error (unusable e) = refused e

  abbrev pub is_some : Option Keys → Bool
  is_some none = false
  is_some (some keys) = true

  -- The outage that starts or goes on.
  pub note_failure : Error → ℕ → State Keys Error → State Keys Error
  note_failure failure now s = elim s.outage [
    | none ↦ record s {
      outage = some (record {
        number = s.outages;
        since = now;
        last_attempt_at = now;
        error = failure;
        on_last_good_keys = is_some (last_good_keys now s);
      });
      outages = s.outages + 1;
    }
    | some current ↦ record s {
      outage = some (record current { last_attempt_at = now; error = failure });
    }
  ]

  pub answer_from : Error → Request → Option Keys → Answer Key Error
  answer_from failure request none = refused failure
  answer_from failure request (some keys) = from_last_good_keys failure (resolve keys request)

  pub during_outage : Error → ℕ → Request → State Keys Error → State Keys Error × Answer Key Error
  during_outage failure now request s =
      (note_failure failure now s, answer_from failure request (last_good_keys now s))

  pub final_answer : Resolution Key Error → Answer Key Error
  final_answer (found k) = key k
  final_answer (no_match e) = refused e
  final_answer (unusable e) = refused e

  -- A key id that the set does not hold: the realm is asked again.
  pub ask_again :
      Reload Keys Error → Request → State Keys Error → State Keys Error × Answer Key Error
  ask_again r request s = elim r.result [
    | failed failure ↦ during_outage failure r.ends request s
    | fetched keys ↦ (fetch_succeeded r.ends keys s, final_answer (resolve keys request))
  ]

  pub try_keys :
      ℕ
      → Reload Keys Error
      → Request
      → State Keys Error
      → Resolution Key Error
      → State Keys Error × Answer Key Error
  try_keys now r request s (found k) = (s, key k)
  try_keys now r request s (unusable e) = (s, refused e)
  try_keys now r request s (no_match e) =
      if is_younger now o.cooldown_ms s then (s, refused e) else ask_again r request s

  -- The way of a token while nothing is left to fall back on, or there is no outage: `first` is the
  -- fetch for want of cached keys, `second` the one for an unknown key id.
  pub ask :
      ℕ
      → (first second : Reload Keys Error) → Request
      → State Keys Error
      → State Keys Error × Answer Key Error
  ask now first second request s = elim (cached_keys now s) [
    | some keys ↦ try_keys now second request s (resolve keys request)
    | none ↦ elim first.result [
      | failed failure ↦ during_outage failure first.ends request s
      | fetched keys ↦
          try_keys first.ends second request (fetch_succeeded first.ends keys s)
            (resolve keys request)
    ]
  ]

  pub forget_last_good : Outage Error → State Keys Error → State Keys Error
  forget_last_good current s = record s {
    outage = some (record current { on_last_good_keys = false });
  }

  pub through_outage :
      ℕ
      → (first second : Reload Keys Error) → Request
      → Outage Error
      → State Keys Error
      → Option Keys
      → State Keys Error × Answer Key Error
  through_outage now first second request current s (some keys) =
      (retry_in_background now current s, from_last_good_keys current.error (resolve keys request))
  through_outage now first second request current s none =
      ask now first second request (forget_last_good current s)

  -- The function that `createRealmKeySet` returns.
  pub get_key :
      ℕ
      → (first second : Reload Keys Error) → Request
      → State Keys Error
      → State Keys Error × Answer Key Error
  get_key now first second request s = elim s.outage [
    | none ↦ ask now first second request s
    | some current ↦ through_outage now first second request current s (last_good_keys now s)
  ]
