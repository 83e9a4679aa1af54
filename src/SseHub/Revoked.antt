-- ===== src/SseHub/Revoked.antt =====
-- Revoking a user, a session or an age ends its streams and no others:
-- services/api-gateway/src/sse-hub.ts.
use hy_fib_wa_app.Prelude.Maps.{lookup, IsUnique}
use hy_fib_wa_app.Prelude.{
  ℕ, ◌+◌, ◌≡◌, refl, sym, ap, subst, ◌∙◌, Bool, false, not, List, [], ◌∷◌, ◌++◌, map, Option, none,
  some, String, Text, str_eq, eq_iff, filter, length, All, All_mono, arith, Bool-cases,
  Option-cases, inl, inr, if◌then◌else◌,
}
use hy_fib_wa_app.SseHub.{
  SseClient, Clients, SseHub, clients_of, others, remove_from, put_remaining, remove_client,
  close_clients, close_entries, close_where, is_user, close_user_streams,
}
use hy_fib_wa_app.SseHub.Streams.{has_id, HasDistinctIds, without, clients_of-close_clients}

-- One entry to a tenant, and no two of its clients with one id.
pub record IsWellFormed (clients : Clients) : Type 0 where
  pub tenants : IsUnique clients
  pub ids : All (λ e. HasDistinctIds e.1) clients

abbrev pub kept : (SseClient → Bool) → List SseClient → List SseClient
kept matches cs = filter (λ c. not (matches c)) cs

pub filter_congr :
    (p q : SseClient → Bool) (cs : List SseClient)
    → All (λ c. p c ≡ q c) cs
    → filter p cs ≡ filter q cs
filter_congr p q [] h = refl
filter_congr p q (c ∷ cs) (e, h) = ground (arith, e, filter_congr p q cs h)

has_id-filter :
    (m : SseClient → Bool) (id : String) (cs : List SseClient)
    → has_id id cs ≡ false
    → has_id id (filter m cs) ≡ false
has_id-filter m id [] h = refl
has_id-filter m id (c ∷ cs) h = ground (arith, has_id-filter m id cs)

others_distinct :
    (id : String) (cs : List SseClient)
    → has_id id cs ≡ false
    → All (λ c. str_eq id c.id ≡ false) cs
others_distinct id [] h = tt
others_distinct id (c ∷ cs) h =
    ground (arith, others_distinct id cs, eq_iff id c.id, eq_iff c.id id)

has_id-matching :
    (m : SseClient → Bool) (cs : List SseClient)
    → HasDistinctIds cs
    → All (λ c. has_id c.id (filter m cs) ≡ m c) cs
has_id-matching m [] h = tt
has_id-matching m (c ∷ cs) (fresh, h) = (
  ground (arith, has_id-filter m c.id cs fresh, (eq_iff c.id c.id).1 refl),
  skip_lem (has_id-matching m cs h) (others_distinct c.id cs fresh),
)
  where
    skip_one :
        (x : SseClient)
        → str_eq c.id x.id ≡ false
        → has_id x.id (filter m cs) ≡ m x
        → has_id x.id (filter m (c ∷ cs)) ≡ m x
    skip_one x d e = ground arith

    skip_all :
        (xs : List SseClient)
        → All (λ x. has_id x.id (filter m cs) ≡ m x) xs
        → All (λ x. str_eq c.id x.id ≡ false) xs
        → All (λ x. has_id x.id (filter m (c ∷ cs)) ≡ m x) xs
    skip_all [] a b = tt
    skip_all (x ∷ xs) (a, more) (b, rest) = (skip_one x b a, skip_all xs more rest)

    skip_lem :
        All (λ x. has_id x.id (filter m cs) ≡ m x) cs
        → All (λ x. str_eq c.id x.id ≡ false) cs
        → All (λ x. has_id x.id (filter m (c ∷ cs)) ≡ m x) cs
    skip_lem a b = skip_all cs a b

pub without-matching :
    (m : SseClient → Bool) (cs : List SseClient)
    → HasDistinctIds cs
    → without (filter m cs) cs ≡ kept m cs
without-matching m cs h =
    filter_congr (λ c. not (has_id c.id (filter m cs))) (λ c. not (m c)) cs
      (All_mono _ _ (λ c e. ap not e) cs (has_id-matching m cs h))

abbrev after_entries :
    (SseClient → Bool) → Option (List SseClient) → List SseClient → List SseClient
after_entries m none cs = cs
after_entries m (some current) cs = without (filter m current) cs

clients_of-close_entries :
    (m : SseClient → Bool) (es : Clients) (hub : SseHub) (n : ℕ) (j : String)
    → IsUnique es
    → clients_of j (close_entries m es hub n).0 ≡ after_entries m (lookup j es) (clients_of j hub)
unfolding close_entries lookup
clients_of-close_entries m [] hub n j u = refl
clients_of-close_entries m ((t, current) ∷ es) hub n j (fresh, u) =
    let gone = filter m current in
    let next = close_clients t gone hub in
    clients_of-close_entries m es next (n + length gone) j u ∙ (elim (Bool-cases (str_eq t j)) [
      | inl y ↦
          let here : lookup j es ≡ none = ap (λ k. lookup k es) (sym ((eq_iff t j).0 y)) ∙ fresh in
          rw (here, y)
            (clients_of-close_clients t j gone hub
              ∙ ap (λ b. if b then without gone (clients_of t hub) else clients_of j hub) y
              ∙ ap (λ k. without gone (clients_of k hub)) ((eq_iff t j).0 y))
      | inr d ↦ rw d (
          ap (after_entries m (lookup j es)) (
            clients_of-close_clients t j gone hub
            ∙ ap (λ b. if b then without gone (clients_of t hub) else clients_of j hub) d))
    ])

-- How many clients match, in all tenants.
abbrev pub matching : (SseClient → Bool) → Clients → ℕ
matching m [] = 0
matching m ((t, current) ∷ es) = length (filter m current) + matching m es

close_entries-count :
    (m : SseClient → Bool) (es : Clients) (hub : SseHub) (n : ℕ)
    → (close_entries m es hub n).1 ≡ n + matching m es
unfolding close_entries
close_entries-count m [] hub n = omega arith
close_entries-count m ((t, current) ∷ es) hub n = omega (
  arith,
  close_entries-count m es (close_clients t (filter m current) hub) (n + length (filter m current)),
)

pub found_distinct :
    (es : Clients) (j : String) {cs : List SseClient}
    → All (λ e. HasDistinctIds e.1) es
    → lookup j es ≡ some cs
    → HasDistinctIds cs
unfolding lookup
found_distinct [] j h e = cc
found_distinct ((t, current) ∷ es) j {cs} (d, h) e = elim (Bool-cases (str_eq t j)) [
  | inl y ↦ let same : current ≡ cs = ground arith in subst HasDistinctIds same d
  | inr n ↦ found_distinct es j h (rw n at e)
]

-- Puts the elements of one list, the last first, before another.
abbrev pub onto : List ℕ → List ℕ → List ℕ
onto [] ended = ended
onto (n ∷ ns) ended = onto ns (n ∷ ended)

-- The sinks of the clients that match, in all tenants.
abbrev pub sinks : (SseClient → Bool) → Clients → List ℕ
sinks m [] = []
sinks m ((t, current) ∷ es) = map (λ c. c.sink) (filter m current) ++ sinks m es

onto-append : (xs ys zs : List ℕ) → onto (xs ++ ys) zs ≡ onto ys (onto xs zs)
onto-append [] ys zs = refl
onto-append (x ∷ xs) ys zs = onto-append xs ys (x ∷ zs)

remove_client-ended :
    (tenant id : String) (hub : SseHub) → (remove_client tenant id hub).ended ≡ hub.ended
unfolding remove_client remove_from put_remaining
remove_client-ended tenant id hub = elim (Option-cases (lookup tenant hub.clients)) [
  | inl e ↦ rw (e, remove_from) refl
  | inr (cs, e) ↦ rw (e, remove_from) (put_remaining-ended (others id cs))
]
  where
    put_remaining-ended : (cs : List SseClient) → (put_remaining tenant cs hub).ended ≡ hub.ended
    put_remaining-ended [] = refl
    put_remaining-ended (c ∷ cs) = refl

close_clients-ended :
    (tenant : String) (cs : List SseClient) (hub : SseHub)
    → (close_clients tenant cs hub).ended ≡ onto (map (λ c. c.sink) cs) hub.ended
unfolding close_clients
close_clients-ended tenant [] hub = refl
close_clients-ended tenant (c ∷ cs) hub =
    let ending : SseHub = record hub { ended = c.sink ∷ hub.ended } in
    close_clients-ended tenant cs (remove_client tenant c.id ending)
    ∙ ap (onto (map (λ c. c.sink) cs)) (remove_client-ended tenant c.id ending)

close_entries-ended :
    (m : SseClient → Bool) (es : Clients) (hub : SseHub) (n : ℕ)
    → (close_entries m es hub n).0.ended ≡ onto (sinks m es) hub.ended
unfolding close_entries
close_entries-ended m [] hub n = refl
close_entries-ended m ((t, current) ∷ es) hub n =
    let gone = filter m current in
    close_entries-ended m es (close_clients t gone hub) (n + length gone)
    ∙ ap (onto (sinks m es)) (close_clients-ended t gone hub)
    ∙ sym (onto-append (map (λ c. c.sink) gone) (sinks m es) hub.ended)

pub close_where_lem :
    (m : SseClient → Bool) (hub : SseHub) (j : String)
    → IsWellFormed hub.clients
    → (clients_of j (close_where m hub).0 ≡ kept m (clients_of j hub))
      × ((close_where m hub).1 ≡ matching m hub.clients)
unfolding close_where clients_of
close_where_lem m hub j w = (
  clients_of-close_entries m hub.clients hub 0 j w.tenants
      ∙ (elim (Option-cases (lookup j hub.clients)) [
        | inl e ↦ rw e refl
        | inr (cs, e) ↦ rw e (without-matching m cs (found_distinct hub.clients j w.ids e))
      ]),
  omega (arith, close_entries-count m hub.clients hub 0),
)

-- Revoking a user calls `end` on the sinks of exactly the streams that the user opened, in every
-- tenant, each once, takes these streams out of the hub, leaves all other streams as they are
-- and in their order, and returns how many it ended. The hub has one entry to a tenant, and no two
-- of a tenant's streams have one id.
pub close_user_streams_lem :
    (user_id : Text) (hub : SseHub) (j : String)
    → IsWellFormed hub.clients
    → (clients_of j (close_user_streams user_id hub).0 ≡ kept (is_user user_id) (clients_of j hub))
      × ((close_user_streams user_id hub).1 ≡ matching (is_user user_id) hub.clients)
      × ((close_user_streams user_id hub).0.ended
          ≡ onto (sinks (is_user user_id) hub.clients) hub.ended)
unfolding close_user_streams close_where
close_user_streams_lem user_id hub j w =
    let (left, count) = close_where_lem (is_user user_id) hub j w in
    (left, count, close_entries-ended (is_user user_id) hub.clients hub 0)
