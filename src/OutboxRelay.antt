-- ===== src/OutboxRelay.antt =====
-- services/api-gateway/src/outbox-relay.ts: one run of the relay over a batch of outbox rows. What
-- the bus and the database answer is a parameter that may depend on all that was asked of them
-- before. Counters do not throw.
pub mod Settled
pub mod Tests
use hy_fib_wa_app.Prelude.{
  ℕ, ◌+◌, Bool, true, false, List, [], ◌∷◌, ◌++◌, Option, none, some, String, leb, if◌then◌else◌,
}

pub record OutboxRow : Type 0 where
  pub id : String
  pub topic : String
  pub attempts : ℕ

-- What the relay does: the calls of its dependencies, its counters and its log lines, oldest first.
pub data Effect : Type 0 where
  publish mark_processed mark_failed : OutboxRow → Effect
  count_published count_failed count_dead : OutboxRow → Effect
  claim_error : Effect
  mark_failed_error row_dead mark_processed_failed publish_failed : OutboxRow → Effect

abbrev pub Trace : Type 0
Trace = List Effect

-- Whether a call succeeds, by the calls before it.
pub record Dependencies : Type 0 where
  pub publishes : Trace → OutboxRow → Bool
  pub marks_processed : Trace → OutboxRow → Bool
  pub marks_failed : Trace → OutboxRow → Bool
  pub max_attempts : ℕ

abbrev pub default_max_attempts : ℕ
default_max_attempts = 8

abbrev pub default_batch_size : ℕ
default_batch_size = 50

module _ (deps : Dependencies) where
  abbrev pub is_exhausted : OutboxRow → Bool
  is_exhausted row = leb deps.max_attempts (row.attempts + 1)

  -- The counters and the log line of a failed row.
  pub report : (published : Bool) → OutboxRow → Trace
  report published row =
      count_failed row
      ∷ (if is_exhausted row
          then count_dead row ∷ row_dead row ∷ []
          else (if published then mark_processed_failed row else publish_failed row) ∷ [])

  -- The code's `catch` of a row.
  pub fail_row : (published : Bool) → OutboxRow → Trace → Trace
  fail_row published row before =
      mark_failed row
      ∷ ((if deps.marks_failed before row then [] else mark_failed_error row ∷ [])
          ++ report published row)

  -- After a publish that succeeded.
  pub process_row : OutboxRow → Trace → Trace
  process_row row before =
      let asked = before ++ mark_processed row ∷ [] in
      mark_processed row
      ∷ (if deps.marks_processed before row
          then count_published row ∷ []
          else fail_row true row asked)

  pub relay_row : OutboxRow → Trace → Trace
  relay_row row before =
      let asked = before ++ publish row ∷ [] in
      publish row
      ∷ (if deps.publishes before row then process_row row asked else fail_row false row asked)

  -- The effects of a batch, after those before it.
  pub relay_batch : List OutboxRow → Trace → Trace
  relay_batch [] before = []
  relay_batch (row ∷ batch) before =
      let effects = relay_row row before in effects ++ relay_batch batch (before ++ effects)

  -- `claimed` is the batch, none where the claim throws.
  pub run_outbox_relay_once : (claimed : Option (List OutboxRow)) → Trace
  run_outbox_relay_once none = claim_error ∷ []
  run_outbox_relay_once (some batch) = relay_batch batch []
