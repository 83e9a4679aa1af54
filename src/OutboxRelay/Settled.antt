-- ===== src/OutboxRelay/Settled.antt =====
-- What a run of services/api-gateway/src/outbox-relay.ts does for the rows of its batch.
use hy_fib_wa_app.Prelude.{
  ◌+◌, ◌≡◌, refl, sym, ap, ◌∙◌, Bool, true, false, not, ◌&&◌, List, [], ◌∷◌, ◌++◌, Option, none,
  some, filter, Bool-cases, inl, inr, arith, length, length-append,
}
use hy_fib_wa_app.OutboxRelay.{
  OutboxRow, Effect, publish, mark_processed, mark_failed, count_published, count_failed,
  count_dead, Trace, Dependencies, is_exhausted, report, fail_row, process_row, relay_row,
  relay_batch, run_outbox_relay_once,
}

abbrev pub prepend : Option OutboxRow → List OutboxRow → List OutboxRow
prepend none rs = rs
prepend (some row) rs = row ∷ rs

-- The rows of the effects of one kind, in order.
abbrev pub rows : (Effect → Option OutboxRow) → Trace → List OutboxRow
rows pick [] = []
rows pick (e ∷ es) = prepend (pick e) (rows pick es)

abbrev pub tried : Effect → Option OutboxRow
tried (publish row) = some row
tried _ = none

abbrev pub counted_published : Effect → Option OutboxRow
counted_published (count_published row) = some row
counted_published _ = none

abbrev pub counted_failed : Effect → Option OutboxRow
counted_failed (count_failed row) = some row
counted_failed _ = none

abbrev pub marked_failed : Effect → Option OutboxRow
marked_failed (mark_failed row) = some row
marked_failed _ = none

abbrev pub counted_dead : Effect → Option OutboxRow
counted_dead (count_dead row) = some row
counted_dead _ = none

prepend-append :
    (o : Option OutboxRow) (rs ss : List OutboxRow) → prepend o (rs ++ ss) ≡ prepend o rs ++ ss
prepend-append none rs ss = refl
prepend-append (some row) rs ss = refl

rows-append :
    (pick : Effect → Option OutboxRow) (xs ys : Trace)
    → rows pick (xs ++ ys) ≡ rows pick xs ++ rows pick ys
rows-append pick [] ys = refl
rows-append pick (x ∷ xs) ys =
    ap (prepend (pick x)) (rows-append pick xs ys)
    ∙ prepend-append (pick x) (rows pick xs) (rows pick ys)

abbrev pub marked_processed : Effect → Option OutboxRow
marked_processed (mark_processed row) = some row
marked_processed _ = none

-- The row alone, if so.
abbrev pub only_if : Bool → OutboxRow → List OutboxRow
only_if true row = row ∷ []
only_if false row = []

module _ (deps : Dependencies) where
  -- The bus takes the row, and the database marks it as processed.
  abbrev pub succeeds : Trace → OutboxRow → Bool
  succeeds before row =
      deps.publishes before row && deps.marks_processed (before ++ publish row ∷ []) row

  -- What is done for one row, by what the bus and the database answer at their calls.
  pub record IsOutcome (before : Trace) (row : OutboxRow) (es : Trace) : Type 0 where
    pub tried_once : rows tried es ≡ row ∷ []
    pub processed : rows marked_processed es ≡ only_if (deps.publishes before row) row
    pub published : rows counted_published es ≡ only_if (succeeds before row) row
    pub failed : rows counted_failed es ≡ only_if (not (succeeds before row)) row
    pub marked : rows marked_failed es ≡ only_if (not (succeeds before row)) row
    pub dead :
        rows counted_dead es ≡ only_if (not (succeeds before row) && is_exhausted deps row) row

  -- The effects are those for each row of the batch, one row after the other.
  abbrev pub IsRelayed : Trace → List OutboxRow → Trace → Type 0
  IsRelayed before [] es = es ≡ []
  IsRelayed before (row ∷ batch) es =
      (mine : Trace) × (later : Trace) × (es ≡ mine ++ later)
      × IsOutcome before row mine
      × IsRelayed (before ++ mine) batch later

  relay_row-IsOutcome :
      (row : OutboxRow) (before : Trace) → IsOutcome before row (relay_row deps row before)
  unfolding relay_row process_row fail_row report
  relay_row-IsOutcome row before = record {
    tried_once = ground arith;
    processed = ground arith;
    published = ground arith;
    failed = ground arith;
    marked = ground arith;
    dead = ground arith;
  }

  relay_batch-IsRelayed :
      (batch : List OutboxRow) (before : Trace)
      → IsRelayed before batch (relay_batch deps batch before)
  unfolding relay_batch
  relay_batch-IsRelayed [] before = refl
  relay_batch-IsRelayed (row ∷ batch) before =
      let mine = relay_row deps row before in
      (
        mine,
        relay_batch deps batch (before ++ mine),
        refl,
        relay_row-IsOutcome row before,
        relay_batch-IsRelayed batch (before ++ mine),
      )

  -- What the relay of one row leaves in each count, whatever its dependencies answer.
  pub record IsSettled (batch : List OutboxRow) (es : Trace) : Type 0 where
    pub tries : rows tried es ≡ batch
    pub marks : rows marked_failed es ≡ rows counted_failed es
    pub ends : length (rows counted_published es) + length (rows counted_failed es) ≡ length batch
    pub dies : rows counted_dead es ≡ filter (is_exhausted deps) (rows counted_failed es)

  relay_row-IsSettled :
      (row : OutboxRow) (before : Trace) → IsSettled (row ∷ []) (relay_row deps row before)
  unfolding relay_row process_row fail_row report
  relay_row-IsSettled row before = record {
    tries = ground arith;
    marks = ground arith;
    ends = ground arith;
    dies = ground arith;
  }

  filter-append :
      (p : OutboxRow → Bool) (xs ys : List OutboxRow)
      → filter p (xs ++ ys) ≡ filter p xs ++ filter p ys
  filter-append p [] ys = refl
  filter-append p (x ∷ xs) ys = elim (Bool-cases (p x)) [
    | inl y ↦ rw y (ap (λ rs. x ∷ rs) (filter-append p xs ys))
    | inr n ↦ rw n (filter-append p xs ys)
  ]

  append-IsSettled :
      (old new : List OutboxRow) (es fs : Trace)
      → IsSettled old es
      → IsSettled new fs
      → IsSettled (old ++ new) (es ++ fs)
  append-IsSettled old new es fs a b = record {
    tries = rw (rows-append tried es fs, a.tries, b.tries) refl;
    marks =
        rw (rows-append marked_failed es fs, rows-append counted_failed es fs, a.marks, b.marks)
          refl;
    ends =
        rw (rows-append counted_published es fs, rows-append counted_failed es fs)
          (omega (
            arith,
            length-append (rows counted_published es) (rows counted_published fs),
            length-append (rows counted_failed es) (rows counted_failed fs),
            length-append old new,
            a.ends,
            b.ends,
          ));
    dies =
        rw (rows-append counted_dead es fs, rows-append counted_failed es fs, a.dies, b.dies)
          (sym
            (filter-append (is_exhausted deps) (rows counted_failed es) (rows counted_failed fs)));
  }

  relay_batch-IsSettled :
      (batch : List OutboxRow) (before : Trace) → IsSettled batch (relay_batch deps batch before)
  unfolding relay_batch
  relay_batch-IsSettled [] before = record { tries = refl; marks = refl; ends = refl; dies = refl }
  relay_batch-IsSettled (row ∷ batch) before =
      append-IsSettled (row ∷ []) batch (relay_row deps row before) _
        (relay_row-IsSettled row before)
        (relay_batch-IsSettled batch (before ++ relay_row deps row before))

  -- Whatever the bus and the database answer, one failing row does not stop the others: a run
  -- publishes exactly the rows of its batch, each once and in order. Row by row, by what was answered
  -- there, it marks the row as processed if the bus took it, counts it as published if the bus took
  -- it and the mark was written, and else marks it as failed and counts it as failed, and as
  -- dead too if its attempts are used up.
  pub run_outbox_relay_once-IsSettled :
      (batch : List OutboxRow)
      → IsSettled batch (run_outbox_relay_once deps (some batch))
        × IsRelayed [] batch (run_outbox_relay_once deps (some batch))
  unfolding run_outbox_relay_once
  run_outbox_relay_once-IsSettled batch =
      (relay_batch-IsSettled batch [], relay_batch-IsRelayed batch [])
