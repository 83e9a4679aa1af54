-- ===== src/Ingest/Items.antt =====
-- The nested loops of services/webhook-ingestor/src/ingest.ts handle a list of items, one by one.
use hy_fib_wa_app.Prelude.{
  ℕ, ◌≡◌, refl, sym, ap, ◌∙◌, List, [], ◌∷◌, ◌++◌, map, Option, none, some, String,
}
use mathlib.Core.List.{append_assoc}
use hy_fib_wa_app.Ingest.Claims.{IdempotencyStore}
use hy_fib_wa_app.Ingest.{
  RawMessagingEvent, RawMessage, RawStatus, RawValue, Entry, WebhookPayload, IngestSummary, or_nil,
  Kind, social, message, status, Surroundings, World, Outcome, returned, thrown, ◌>>=◌, social_key,
  inbound_key, status_key, social_events, handle, handle_event, ingest_messaging, ingest_messages,
  ingest_statuses, ingest_changes, ingest_entry, ingest_entries, ingest_meta_webhook, empty_summary,
}

abbrev pub Item : Type 0
Item = Kind × String

abbrev event_items : Option String → List Item
event_items none = []
event_items (some key) = (social, key) ∷ []

messaging_items : List RawMessagingEvent → List Item
messaging_items [] = []
messaging_items (e ∷ es) = event_items (social_key e) ++ messaging_items es

abbrev message_items : List RawMessage → List Item
message_items ms = map (λ m. (message, inbound_key m)) ms

abbrev status_items : List RawStatus → List Item
status_items us = map (λ u. (status, status_key u)) us

value_items : RawValue → List Item
value_items v = message_items (or_nil v.messages) ++ status_items (or_nil v.statuses)

change_items : List (Option RawValue) → List Item
change_items [] = []
change_items (none ∷ vs) = change_items vs
change_items (some v ∷ vs) = value_items v ++ change_items vs

entry_items : Entry → Option (List RawMessagingEvent) → List Item
entry_items e none = change_items (or_nil e.changes)
entry_items e (some events) = messaging_items events

entries_items : Option String → List Entry → List Item
entries_items object [] = []
entries_items object (e ∷ es) = entry_items e (social_events object e) ++ entries_items object es

-- The items of a payload, in the order of the webhook.
pub items : WebhookPayload → List Item
items p = entries_items p.object (or_nil p.entry)

module _ {S : Type 0} where
  bind_assoc :
      (o : Outcome S) (f g : World S → IngestSummary → Outcome S)
      → ((o >>= f) >>= g) ≡ (o >>= λ w s. f w s >>= g)
  bind_assoc (returned w s) f g = refl
  bind_assoc (thrown w) f g = refl

  bind_congr :
      (o : Outcome S) (f g : World S → IngestSummary → Outcome S)
      → ((w : World S) (s : IngestSummary) → f w s ≡ g w s)
      → (o >>= f) ≡ (o >>= g)
  bind_congr (returned w s) f g h = h w s
  bind_congr (thrown w) f g h = refl

module _ {S : Type 0} {from ttl_ms : ℕ} (store : IdempotencyStore S from ttl_ms)
    (env : Surroundings from ttl_ms) where
  unfoldable pub process : List Item → World S → IngestSummary → Outcome S
  process [] w s = returned w s
  process ((kind, key) ∷ rest) w s = handle store env kind key w s >>= process rest

  process-append :
      (xs ys : List Item) (w : World S) (s : IngestSummary)
      → process (xs ++ ys) w s ≡ (process xs w s >>= process ys)
  unfolding process
  process-append [] ys w s = refl
  process-append ((kind, key) ∷ xs) ys w s =
      bind_congr (handle store env kind key w s) _ _ (process-append xs ys)
      ∙ sym (bind_assoc (handle store env kind key w s) (process xs) (process ys))

  event_lem :
      (o : Option String) (xs : List Item) (w : World S) (s : IngestSummary)
      → (handle_event store env o w s >>= process xs) ≡ process (event_items o ++ xs) w s
  unfolding handle_event process
  event_lem none xs w s = refl
  event_lem (some key) xs w s = refl

  messaging_lem :
      (es : List RawMessagingEvent) (w : World S) (s : IngestSummary)
      → ingest_messaging store env es w s ≡ process (messaging_items es) w s
  unfolding ingest_messaging messaging_items
  messaging_lem [] w s = unfold process in refl
  messaging_lem (e ∷ es) w s =
      bind_congr (handle_event store env (social_key e) w s) _ _ (messaging_lem es)
      ∙ event_lem (social_key e) (messaging_items es) w s

  messages_lem :
      (ms : List RawMessage) (w : World S) (s : IngestSummary)
      → ingest_messages store env ms w s ≡ process (message_items ms) w s
  unfolding ingest_messages process
  messages_lem [] w s = refl
  messages_lem (m ∷ ms) w s =
      bind_congr (handle store env message (inbound_key m) w s) _ _ (messages_lem ms)

  statuses_lem :
      (us : List RawStatus) (w : World S) (s : IngestSummary)
      → ingest_statuses store env us w s ≡ process (status_items us) w s
  unfolding ingest_statuses process
  statuses_lem [] w s = refl
  statuses_lem (u ∷ us) w s =
      bind_congr (handle store env status (status_key u) w s) _ _ (statuses_lem us)

  value_lem :
      (v : RawValue) (ys : List Item) (k : World S → IngestSummary → Outcome S)
      → ((w : World S) (s : IngestSummary) → k w s ≡ process ys w s)
      → (w : World S) (s : IngestSummary)
      → (ingest_messages store env (or_nil v.messages) w s >>= λ w s.
          ingest_statuses store env (or_nil v.statuses) w s >>= k)
        ≡ process (value_items v ++ ys) w s
  unfolding value_items
  value_lem v ys k h w s =
      let ms = message_items (or_nil v.messages) in
      let us = status_items (or_nil v.statuses) in
      bind_congr (ingest_messages store env (or_nil v.messages) w s) _ (process (us ++ ys)) (λ w s.
        bind_congr (ingest_statuses store env (or_nil v.statuses) w s) k (process ys) h
        ∙ ap (λ o. o >>= process ys) (statuses_lem (or_nil v.statuses) w s)
        ∙ sym (process-append us ys w s))
      ∙ ap (λ o. o >>= process (us ++ ys)) (messages_lem (or_nil v.messages) w s)
      ∙ sym (process-append ms (us ++ ys) w s)
      ∙ ap (λ l. process l w s) (sym (append_assoc ms us ys))

  changes_lem :
      (vs : List (Option RawValue)) (w : World S) (s : IngestSummary)
      → ingest_changes store env vs w s ≡ process (change_items vs) w s
  unfolding ingest_changes change_items
  changes_lem [] w s = unfold process in refl
  changes_lem (none ∷ vs) w s = changes_lem vs w s
  changes_lem (some v ∷ vs) w s =
      value_lem v (change_items vs) (ingest_changes store env vs) (changes_lem vs) w s

  entry_lem :
      (e : Entry) (o : Option (List RawMessagingEvent)) (w : World S) (s : IngestSummary)
      → ingest_entry store env e o w s ≡ process (entry_items e o) w s
  unfolding ingest_entry entry_items
  entry_lem e none w s = changes_lem (or_nil e.changes) w s
  entry_lem e (some events) w s = messaging_lem events w s

  entries_lem :
      (object : Option String) (es : List Entry) (w : World S) (s : IngestSummary)
      → ingest_entries store env object es w s ≡ process (entries_items object es) w s
  unfolding ingest_entries entries_items
  entries_lem object [] w s = unfold process in refl
  entries_lem object (e ∷ es) w s =
      let xs = entry_items e (social_events object e) in
      rw (entry_lem e (social_events object e) w s) (
        bind_congr (process xs w s) _ (process (entries_items object es)) (entries_lem object es)
        ∙ sym (process-append xs (entries_items object es) w s))

  -- The nested loops over the entries, changes, messages, statuses and messaging events do what one
  -- loop over the items of the payload does, which stops where it throws.
  pub ingest_meta_webhook-process :
      (p : WebhookPayload) (w : World S)
      → ingest_meta_webhook store env p w ≡ process (items p) w empty_summary
  unfolding ingest_meta_webhook items
  ingest_meta_webhook-process p w = entries_lem p.object (or_nil p.entry) w empty_summary
