-- ===== src/OutboxRelay/Tests.antt =====
-- A run of services/api-gateway/src/outbox-relay.ts over three rows.
use hy_fib_wa_app.Prelude.{◌≡◌, refl, not, List, [], ◌∷◌, none, some, str_eq}
use hy_fib_wa_app.OutboxRelay.{
  OutboxRow, publish, mark_processed, mark_failed, count_published, count_failed, count_dead,
  claim_error, mark_failed_error, row_dead, mark_processed_failed, Dependencies,
  default_max_attempts, run_outbox_relay_once, relay_batch, relay_row, process_row, fail_row,
  report,
}
use hy_fib_wa_app.OutboxRelay.Settled.{IsSettled, IsRelayed, run_outbox_relay_once-IsSettled}

abbrev fresh : OutboxRow
fresh = record { id = "1"; topic = "a"; attempts = 0 }

abbrev poison : OutboxRow
poison = record { id = "2"; topic = "b"; attempts = 7 }

abbrev unmarked : OutboxRow
unmarked = record { id = "3"; topic = "c"; attempts = 1 }

abbrev deps : Dependencies
deps = record {
  publishes = λ before row. not (str_eq row.id "2");
  marks_processed = λ before row. not (str_eq row.id "3");
  marks_failed = λ before row. not (str_eq row.id "3");
  max_attempts = default_max_attempts;
}

abbrev batch : List OutboxRow
batch = fresh ∷ poison ∷ unmarked ∷ []

relay_runs :
    (run_outbox_relay_once deps (some batch)
      ≡ publish fresh
        ∷ mark_processed fresh
        ∷ count_published fresh
        ∷ publish poison
        ∷ mark_failed poison
        ∷ count_failed poison
        ∷ count_dead poison
        ∷ row_dead poison
        ∷ publish unmarked
        ∷ mark_processed unmarked
        ∷ mark_failed unmarked
        ∷ mark_failed_error unmarked
        ∷ count_failed unmarked
        ∷ mark_processed_failed unmarked
        ∷ [])
    × (run_outbox_relay_once deps none ≡ claim_error ∷ [])
unfolding run_outbox_relay_once relay_batch relay_row process_row fail_row report
relay_runs = (refl, refl)

run_outbox_relay_once-IsSettled_example :
    IsSettled deps batch (run_outbox_relay_once deps (some batch))
    × IsRelayed deps [] batch (run_outbox_relay_once deps (some batch))
run_outbox_relay_once-IsSettled_example = run_outbox_relay_once-IsSettled deps batch
