-- ===== src/SseHub/Invariant.antt =====
-- The streams of services/api-gateway/src/sse-hub.ts stay well formed.
use hy_fib_wa_app.Prelude.Maps.{lookup, insert-IsUnique, delete-IsUnique, insert-All, delete-All}
use hy_fib_wa_app.Prelude.{
  ℕ, ◌+◌, ◌≡◌, refl, Bool, false, not, List, [], ◌∷◌, ◌++◌, String, str_eq, eq_iff, filter, length,
  arith, Bool-cases, Option-cases, inl, inr,
}
use hy_fib_wa_app.SseHub.{
  SseClientOwner, SseClient, Clients, SseHub, clients_of, others, put_remaining, remove_client,
  add_client, close_clients, close_entries, close_where, write_all, broadcast,
}
use hy_fib_wa_app.SseHub.Streams.{has_id, HasDistinctIds}
use hy_fib_wa_app.SseHub.Revoked.{IsWellFormed, found_distinct}

has_id-filter :
    (p : SseClient → Bool) (id : String) (cs : List SseClient)
    → has_id id cs ≡ false
    → has_id id (filter p cs) ≡ false
has_id-filter p id [] h = refl
has_id-filter p id (c ∷ cs) h = ground (arith, has_id-filter p id cs)

filter-HasDistinctIds :
    (p : SseClient → Bool) (cs : List SseClient) → HasDistinctIds cs → HasDistinctIds (filter p cs)
filter-HasDistinctIds p [] h = tt
filter-HasDistinctIds p (c ∷ cs) (f, h) =
    ground (arith, has_id-filter p c.id cs f, filter-HasDistinctIds p cs h)

has_id-append :
    (id : String) (cs : List SseClient) (c : SseClient)
    → has_id id cs ≡ false
    → str_eq c.id id ≡ false
    → has_id id (cs ++ c ∷ []) ≡ false
has_id-append id [] c h e = ground arith
has_id-append id (d ∷ cs) c h e = ground (arith, has_id-append id cs c)

append-HasDistinctIds :
    (cs : List SseClient) (c : SseClient)
    → has_id c.id cs ≡ false
    → HasDistinctIds cs
    → HasDistinctIds (cs ++ c ∷ [])
append-HasDistinctIds [] c f h = (refl, tt)
append-HasDistinctIds (d ∷ cs) c f (g, h) = (
  has_id-append d.id cs c g (ground (arith, eq_iff d.id c.id, eq_iff c.id d.id)),
  append-HasDistinctIds cs c (ground arith) h,
)

pub clients_of-HasDistinctIds :
    (tenant : String) (hub : SseHub)
    → IsWellFormed hub.clients
    → HasDistinctIds (clients_of tenant hub)
unfolding clients_of
clients_of-HasDistinctIds tenant hub w = elim (Option-cases (lookup tenant hub.clients)) [
  | inl e ↦ rw e tt
  | inr (cs, e) ↦ rw e (found_distinct hub.clients tenant w.ids e)
]

-- A stream that is added under a fresh id keeps the hub well formed.
pub add_client-IsWellFormed :
    (tenant : String) (sink : ℕ) (owner : SseClientOwner) (id : String) (now : ℕ) (hub : SseHub)
    → IsWellFormed hub.clients
    → has_id id (clients_of tenant hub) ≡ false
    → IsWellFormed (add_client tenant sink owner id now hub).clients
unfolding add_client
add_client-IsWellFormed tenant sink owner id now hub w fresh = record {
  tenants = insert-IsUnique tenant _ hub.clients w.tenants;
  ids =
      insert-All HasDistinctIds tenant _ hub.clients
        (append-HasDistinctIds (clients_of tenant hub) _ fresh
          (clients_of-HasDistinctIds tenant hub w))
        w.ids;
}

put_remaining-IsWellFormed :
    (tenant : String) (rest : List SseClient) (hub : SseHub)
    → IsWellFormed hub.clients
    → HasDistinctIds rest
    → IsWellFormed (put_remaining tenant rest hub).clients
unfolding put_remaining
put_remaining-IsWellFormed tenant [] hub w d = record {
  tenants = delete-IsUnique tenant hub.clients w.tenants;
  ids = delete-All HasDistinctIds tenant hub.clients w.ids;
}
put_remaining-IsWellFormed tenant (c ∷ rest) hub w d = record {
  tenants = insert-IsUnique tenant (c ∷ rest) hub.clients w.tenants;
  ids = insert-All HasDistinctIds tenant (c ∷ rest) hub.clients d w.ids;
}

remove_client-IsWellFormed :
    (tenant id : String) (hub : SseHub)
    → IsWellFormed hub.clients
    → IsWellFormed (remove_client tenant id hub).clients
unfolding remove_client
remove_client-IsWellFormed tenant id hub w = elim (Option-cases (lookup tenant hub.clients)) [
  | inl e ↦ rw (e, remove_client) w
  | inr (cs, e) ↦
      rw (e, remove_client)
        (put_remaining-IsWellFormed tenant (others id cs) hub w (
          filter-HasDistinctIds (λ c. not (str_eq c.id id)) cs
            (found_distinct hub.clients tenant w.ids e)))
]

close_clients-IsWellFormed :
    (tenant : String) (gone : List SseClient) (hub : SseHub)
    → IsWellFormed hub.clients
    → IsWellFormed (close_clients tenant gone hub).clients
unfolding close_clients
close_clients-IsWellFormed tenant [] hub w = w
close_clients-IsWellFormed tenant (g ∷ gone) hub w =
    close_clients-IsWellFormed tenant gone _
      (remove_client-IsWellFormed tenant g.id (record hub { ended = g.sink ∷ hub.ended }) w)

close_entries-IsWellFormed :
    (m : SseClient → Bool) (es : Clients) (hub : SseHub) (n : ℕ)
    → IsWellFormed hub.clients
    → IsWellFormed (close_entries m es hub n).0.clients
unfolding close_entries
close_entries-IsWellFormed m [] hub n w = w
close_entries-IsWellFormed m ((t, current) ∷ es) hub n w =
    close_entries-IsWellFormed m es (close_clients t (filter m current) hub)
      (n + length (filter m current)) (close_clients-IsWellFormed t (filter m current) hub w)

pub close_where-IsWellFormed :
    (m : SseClient → Bool) (hub : SseHub)
    → IsWellFormed hub.clients
    → IsWellFormed (close_where m hub).0.clients
unfolding close_where
close_where-IsWellFormed m hub w = close_entries-IsWellFormed m hub.clients hub 0 w

write_all-IsWellFormed :
    (writes : ℕ → Bool) (tenant : String) (cs : List SseClient) (hub : SseHub) (n : ℕ)
    → IsWellFormed hub.clients
    → IsWellFormed (write_all writes tenant cs hub n).0.clients
unfolding write_all
write_all-IsWellFormed writes tenant [] hub n w = w
write_all-IsWellFormed writes tenant (c ∷ cs) hub n w = elim (Bool-cases (writes c.sink)) [
  | inl y ↦ rw (y, write_all) (write_all-IsWellFormed writes tenant cs hub (n + 1) w)
  | inr b ↦
      rw (b, write_all)
        (write_all-IsWellFormed writes tenant cs (remove_client tenant c.id hub) n
          (remove_client-IsWellFormed tenant c.id hub w))
]

-- Removing a stream, ending the streams that match, and a broadcast keep the hub well formed: one
-- entry to a tenant, and no two of its streams with one id.
pub operations-IsWellFormed :
    (writes : ℕ → Bool) (m : SseClient → Bool) (tenant id : String) (hub : SseHub)
    → IsWellFormed hub.clients
    → IsWellFormed (remove_client tenant id hub).clients
      × IsWellFormed (close_where m hub).0.clients
      × IsWellFormed (broadcast writes tenant hub).0.clients
unfolding broadcast
operations-IsWellFormed writes m tenant id hub w = (
  remove_client-IsWellFormed tenant id hub w,
  close_where-IsWellFormed m hub w,
  write_all-IsWellFormed writes tenant (clients_of tenant hub) hub 0 w,
)
