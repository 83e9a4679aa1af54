-- ===== src/SseHub/Streams.antt =====
-- How the operations of services/api-gateway/src/sse-hub.ts change the streams of a tenant.
use hy_fib_wa_app.Prelude.Maps.{lookup, lookup-insert, lookup-delete}
use hy_fib_wa_app.Prelude.{
  ℕ, ◌≡◌, refl, sym, ap, ◌∙◌, Bool, false, not, List, [], ◌∷◌, String, str_eq, eq_iff, filter, any,
  arith, Bool-cases, Option-cases, inl, inr, if◌then◌else◌,
}
use hy_fib_wa_app.SseHub.{
  SseClient, SseHub, or_nil, clients_of, others, put_remaining, remove_client, close_clients,
}

pub clients_of-remove_client :
    (tenant id j : String) (hub : SseHub)
    → clients_of j (remove_client tenant id hub)
      ≡ (if str_eq tenant j then others id (clients_of tenant hub) else clients_of j hub)
unfolding remove_client clients_of
clients_of-remove_client tenant id j hub = elim (Option-cases (lookup tenant hub.clients)) [
  | inl e ↦ elim (Bool-cases (str_eq tenant j)) [
    | inl y ↦
        rw (e, y, remove_client, ap (λ t. lookup t hub.clients) (sym ((eq_iff tenant j).0 y)) ∙ e)
          refl
    | inr n ↦ rw (e, n, remove_client) refl
  ]
  | inr (current, e) ↦ rw (e, remove_client) (put_lem (others id current))
]
  where
    put_lem :
        (rest : List SseClient)
        → or_nil (lookup j (put_remaining tenant rest hub).clients)
          ≡ (if str_eq tenant j then rest else or_nil (lookup j hub.clients))
    put_lem [] = ground (arith, lookup-delete tenant j hub.clients)
    put_lem (c ∷ rest) = ground (arith, lookup-insert tenant j (c ∷ rest) hub.clients)

-- Whether an id is one of the clients'.
abbrev pub has_id : String → List SseClient → Bool
has_id id cs = any (λ c. str_eq c.id id) cs

abbrev pub HasDistinctIds : List SseClient → Type 0
HasDistinctIds [] = Unit
HasDistinctIds (c ∷ cs) = (has_id c.id cs ≡ false) × HasDistinctIds cs

-- What is left after the clients `gone` are removed by their ids.
abbrev pub without : List SseClient → List SseClient → List SseClient
without gone cs = filter (λ c. not (has_id c.id gone)) cs

pub without-nil : (cs : List SseClient) → without [] cs ≡ cs
without-nil [] = refl
without-nil (c ∷ cs) = ap (λ r. c ∷ r) (without-nil cs)

pub without-cons :
    (g : SseClient) (gone cs : List SseClient)
    → without gone (others g.id cs) ≡ without (g ∷ gone) cs
without-cons g gone [] = refl
without-cons g gone (c ∷ cs) =
    ground (arith, without-cons g gone cs, eq_iff c.id g.id, eq_iff g.id c.id)

pub same_clients :
    (j : String) (hub : SseHub) (ended : List ℕ)
    → clients_of j (record hub { ended = ended }) ≡ clients_of j hub
unfolding clients_of
same_clients j hub ended = refl

pub clients_of-close_clients :
    (tenant j : String) (gone : List SseClient) (hub : SseHub)
    → clients_of j (close_clients tenant gone hub)
      ≡ (if str_eq tenant j then without gone (clients_of tenant hub) else clients_of j hub)
unfolding close_clients
clients_of-close_clients tenant j [] hub = elim (Bool-cases (str_eq tenant j)) [
  | inl y ↦ rw y (
      ap (λ t. clients_of t hub) (sym ((eq_iff tenant j).0 y))
      ∙ sym (without-nil (clients_of tenant hub)))
  | inr n ↦ rw n refl
]
clients_of-close_clients tenant j (g ∷ gone) hub =
    let ending = record hub { ended = g.sink ∷ hub.ended } in
    let next = remove_client tenant g.id ending in
    let here : clients_of tenant next ≡ others g.id (clients_of tenant hub) =
      rw (← same_clients tenant hub (g.sink ∷ hub.ended)) (
        clients_of-remove_client tenant g.id tenant ending
        ∙ ap (λ b. if b then others g.id (clients_of tenant ending) else clients_of tenant ending)
            ((eq_iff tenant tenant).1 refl)) in
    clients_of-close_clients tenant j gone next ∙ (elim (Bool-cases (str_eq tenant j)) [
      | inl y ↦ rw (y, here) (without-cons g gone (clients_of tenant hub))
      | inr n ↦ rw n (
          clients_of-remove_client tenant g.id j ending
          ∙ ap (λ b. if b then others g.id (clients_of tenant ending) else clients_of j ending) n
          ∙ same_clients j hub (g.sink ∷ hub.ended))
    ])
