-- ===== src/SseHub/Tests.antt =====
-- Runs of services/api-gateway/src/sse-hub.ts, and its theorems at a hub with three streams.
use hy_fib_wa_app.Prelude.{
  ℕ, ◌+◌, ◌<◌, ◌≡◌, refl, Bool, not, [], ◌∷◌, none, some, codes, text_eq, to_lower, length, ◌==◌,
  All,
}
use hy_fib_wa_app.Prelude.Maps.{lookup, insert, delete}
use hy_fib_wa_app.SseHub.{
  SseClientOwner, SseHub, clients_of, add_client, remove_client, close_user_streams,
  close_session_streams, close_expired, broadcast, ping_all, is_user,
}
use hy_fib_wa_app.SseHub.Revoked.{IsWellFormed, kept, matching, onto, sinks, close_user_streams_lem}
use hy_fib_wa_app.SseHub.Delivered.{ping_all-young}

operations : Unit {0}
unfolding clients_of add_client remove_client close_user_streams close_session_streams close_expired
    broadcast ping_all insert lookup delete text_eq to_lower
operations = tt

abbrev ann : SseClientOwner
ann = record { user_id = some (codes "Ann"); session_key = some (codes "s1") }

abbrev bob : SseClientOwner
bob = record { user_id = some (codes "bob"); session_key = none }

abbrev empty : SseHub
empty = record { clients = []; max_stream_age_ms = 600; ended = [] }

abbrev hub : SseHub
hub =
    add_client "t2" 3 ann "c" 20 (add_client "t1" 2 bob "b" 10 (add_client "t1" 1 ann "a" 0 empty))

-- The writes to the first sink fail.
abbrev writes : ℕ → Bool
writes sink = not (sink == 1)

hub_runs :
    ((close_user_streams (codes "ANN") hub).1 ≡ 2)
    × ((close_user_streams (codes "ANN") hub).0.ended ≡ 3 ∷ 1 ∷ [])
    × ((close_session_streams (codes "s1") hub).1 ≡ 2)
    × ((broadcast writes "t1" hub).1 ≡ 1)
    × (length (clients_of "t1" (broadcast writes "t1" hub).0) ≡ 1)
    × ((ping_all writes 605 hub).1 ≡ 1)
unfolding operations
hub_runs = (refl, refl, refl, refl, refl, refl)

hub-IsWellFormed : IsWellFormed hub.clients
unfolding operations
hub-IsWellFormed = record {
  tenants = (refl, (refl, tt));
  ids = ((refl, (refl, tt)), ((refl, tt), tt));
}

close_user_streams_lem_example :
    (clients_of "t1" (close_user_streams (codes "ANN") hub).0
      ≡ kept (is_user (codes "ANN")) (clients_of "t1" hub))
    × ((close_user_streams (codes "ANN") hub).1 ≡ matching (is_user (codes "ANN")) hub.clients)
    × ((close_user_streams (codes "ANN") hub).0.ended
        ≡ onto (sinks (is_user (codes "ANN")) hub.clients) hub.ended)
close_user_streams_lem_example = close_user_streams_lem (codes "ANN") hub "t1" hub-IsWellFormed

ping_all-young_example :
    All
      (λ c. 605 < c.opened_at + hub.max_stream_age_ms)
      (clients_of "t1" (ping_all writes 605 hub).0)
ping_all-young_example = ping_all-young writes 605 hub "t1" hub-IsWellFormed
