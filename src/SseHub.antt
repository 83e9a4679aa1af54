-- ===== src/SseHub.antt =====
-- services/api-gateway/src/sse-hub.ts: the event streams that are open, by tenant. A sink is a number;
-- whether a write to it throws is a parameter, and `ended` records the sinks on which `end` was
-- called, the last first. The id of a new client, a random UUID, and the clock, in milliseconds, are
-- arguments. Frames and the timer are left out.
pub mod Streams
pub mod Revoked
pub mod Delivered
pub mod Invariant
pub mod Tests
use hy_fib_wa_app.Prelude.Maps.{lookup, insert, delete}
use hy_fib_wa_app.Prelude.{
  ℕ, ◌+◌, ◌*◌, Bool, true, false, not, List, [], ◌∷◌, ◌++◌, Option, none, some, String, Text,
  str_eq, text_eq, to_lower, filter, length, leb, ltb, ◌==◌, if◌then◌else◌,
}
use mathlib.Core.Option

abbrev pub default_sse_max_stream_age_ms : ℕ
default_sse_max_stream_age_ms = 10 * 60_000

pub record SseClientOwner : Type 0 where
  pub user_id : Option Text
  pub session_key : Option Text

pub record SseClient : Type 0 where
  pub id : String
  pub sink : ℕ
  pub user_id : Option Text
  pub session_key : Option Text
  pub opened_at : ℕ

abbrev pub Clients : Type 0
Clients = List (String × List SseClient)

pub record SseHub : Type 0 where
  pub clients : Clients
  pub max_stream_age_ms : ℕ
  pub ended : List ℕ

abbrev pub or_nil : Option (List SseClient) → List SseClient
or_nil none = []
or_nil (some current) = current

-- The streams of a tenant.
unfoldable pub clients_of : String → SseHub → List SseClient
clients_of tenant hub = or_nil (lookup tenant hub.clients)

unfoldable pub add_client :
    String → (sink : ℕ) → SseClientOwner → (id : String) → (now : ℕ) → SseHub → SseHub
unfolding clients_of
add_client tenant sink owner id now hub =
    let client : SseClient = record {
      id = id;
      sink = sink;
      user_id = Option.map to_lower owner.user_id;
      session_key = owner.session_key;
      opened_at = now;
    } in
    record hub { clients = insert tenant (clients_of tenant hub ++ client ∷ []) hub.clients }

abbrev pub others : String → List SseClient → List SseClient
others id current = filter (λ c. not (str_eq c.id id)) current

pub put_remaining : String → List SseClient → SseHub → SseHub
put_remaining tenant [] hub = record hub { clients = delete tenant hub.clients }
put_remaining tenant (c ∷ rest) hub = record hub { clients = insert tenant (c ∷ rest) hub.clients }

pub remove_from : String → String → SseHub → Option (List SseClient) → SseHub
remove_from tenant id hub none = hub
remove_from tenant id hub (some current) = put_remaining tenant (others id current) hub

unfoldable pub remove_client : String → String → SseHub → SseHub
unfolding remove_from put_remaining
remove_client tenant id hub = remove_from tenant id hub (lookup tenant hub.clients)

-- The inner loop of `closeWhere`: ends and removes each of the given clients.
unfoldable pub close_clients : String → List SseClient → SseHub → SseHub
unfolding remove_client
close_clients tenant [] hub = hub
close_clients tenant (c ∷ cs) hub =
    close_clients tenant cs (remove_client tenant c.id (record hub { ended = c.sink ∷ hub.ended }))

-- The outer loop, over a copy of the entries, with the count so far.
unfoldable pub close_entries : (SseClient → Bool) → Clients → SseHub → ℕ → SseHub × ℕ
unfolding close_clients
close_entries matches [] hub closed = (hub, closed)
close_entries matches ((tenant, current) ∷ entries) hub closed =
    let matching = filter matches current in
    close_entries matches entries (close_clients tenant matching hub) (closed + length matching)

unfoldable pub close_where : (SseClient → Bool) → SseHub → SseHub × ℕ
unfolding close_entries
close_where matches hub = close_entries matches hub.clients hub 0

abbrev pub is_some_text : Text → Option Text → Bool
is_some_text wanted none = false
is_some_text wanted (some s) = text_eq s wanted

abbrev pub is_user : Text → SseClient → Bool
is_user user_id c = is_some_text (to_lower user_id) c.user_id

abbrev pub is_session : Text → SseClient → Bool
is_session session_key c = is_some_text session_key c.session_key

-- `client.openedAt <= now - maxStreamAgeMs`
abbrev pub is_expired : ℕ → ℕ → SseClient → Bool
is_expired now max_age c = leb (c.opened_at + max_age) now

unfoldable pub close_user_streams : Text → SseHub → SseHub × ℕ
unfolding close_where
close_user_streams user_id hub = close_where (is_user user_id) hub

unfoldable pub close_session_streams : Text → SseHub → SseHub × ℕ
unfolding close_where
close_session_streams session_key hub = close_where (is_session session_key) hub

unfoldable pub close_expired : ℕ → SseHub → SseHub × ℕ
unfolding close_where
close_expired now hub = close_where (is_expired now hub.max_stream_age_ms) hub

pub has_clients : SseHub → Bool
has_clients hub = ltb 0 (length hub.clients)

module _ (writes : ℕ → Bool) where
  -- A write to each of the given clients; one that throws loses its client.
  unfoldable pub write_all : String → List SseClient → SseHub → ℕ → SseHub × ℕ
  unfolding remove_client
  write_all tenant [] hub delivered = (hub, delivered)
  write_all tenant (c ∷ cs) hub delivered =
      write_all tenant cs (if writes c.sink then hub else remove_client tenant c.id hub)
        (if writes c.sink then delivered + 1 else delivered)

  unfoldable pub broadcast : String → SseHub → SseHub × ℕ
  unfolding write_all clients_of
  broadcast tenant hub = write_all tenant (clients_of tenant hub) hub 0

  unfoldable pub ping_entries : Clients → SseHub → SseHub
  unfolding write_all
  ping_entries [] hub = hub
  ping_entries ((tenant, current) ∷ entries) hub =
      ping_entries entries (write_all tenant current hub 0).0

  -- The new hub, and the count that `onExpired` is called with if it is not 0.
  unfoldable pub ping_all : ℕ → SseHub → SseHub × ℕ
  unfolding ping_entries close_expired
  ping_all now hub =
      let (open_hub, expired) = close_expired now hub in
      (ping_entries open_hub.clients open_hub, expired)

end_all : List SseClient → List ℕ → List ℕ
end_all [] ended = ended
end_all (c ∷ cs) ended = end_all cs (c.sink ∷ ended)

end_entries : Clients → List ℕ → List ℕ
end_entries [] ended = ended
end_entries ((tenant, current) ∷ entries) ended = end_entries entries (end_all current ended)

-- Ends every stream, when the gateway shuts down.
pub close : SseHub → SseHub
unfolding end_entries end_all
close hub = record hub { clients = []; ended = end_entries hub.clients hub.ended }
