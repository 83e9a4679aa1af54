-- ===== src/SseHub/Delivered.antt =====
-- What a broadcast of services/api-gateway/src/sse-hub.ts delivers, and the invariant of the hub.
use hy_fib_wa_app.Prelude.{
  ℕ, ◌+◌, ◌<◌, ◌≡◌, refl, sym, ap, subst, ◌∙◌, Bool, not, List, [], ◌∷◌, String, str_eq, eq_iff,
  filter, length, All, arith, Bool-cases, inl, inr, if◌then◌else◌,
}
use hy_fib_wa_app.SseHub.{
  SseClient, Clients, SseHub, clients_of, others, remove_client, write_all, broadcast, ping_entries,
  ping_all, close_expired, is_expired,
}
use hy_fib_wa_app.SseHub.Streams.{without, without-nil, without-cons, clients_of-remove_client}
use hy_fib_wa_app.SseHub.Revoked.{IsWellFormed, kept, without-matching, close_where_lem}
use hy_fib_wa_app.SseHub.Invariant.{clients_of-HasDistinctIds}

module _ (writes : ℕ → Bool) where
  abbrev pub broken : SseClient → Bool
  broken c = not (writes c.sink)

  clients_of-write_all :
      (tenant : String) (cs : List SseClient) (hub : SseHub) (n : ℕ)
      → clients_of tenant (write_all writes tenant cs hub n).0
        ≡ without (filter broken cs) (clients_of tenant hub)
  unfolding write_all
  clients_of-write_all tenant [] hub n = sym (without-nil (clients_of tenant hub))
  clients_of-write_all tenant (c ∷ cs) hub n = elim (Bool-cases (writes c.sink)) [
    | inl y ↦ rw (y, write_all) (clients_of-write_all tenant cs hub (n + 1))
    | inr b ↦
        rw (b, write_all)
          (clients_of-write_all tenant cs (remove_client tenant c.id hub) n
            ∙ ap (without (filter broken cs)) (
                clients_of-remove_client tenant c.id tenant hub
                ∙ ap (λ t. if t then others c.id (clients_of tenant hub) else clients_of tenant hub)
                    ((eq_iff tenant tenant).1 refl))
            ∙ without-cons c (filter broken cs) (clients_of tenant hub))
  ]

  write_all-count :
      (tenant : String) (cs : List SseClient) (hub : SseHub) (n : ℕ)
      → (write_all writes tenant cs hub n).1 ≡ n + length (filter (λ c. writes c.sink) cs)
  unfolding write_all
  write_all-count tenant [] hub n = omega arith
  write_all-count tenant (c ∷ cs) hub n = elim (Bool-cases (writes c.sink)) [
    | inl y ↦ rw (y, write_all) (omega (arith, write_all-count tenant cs hub (n + 1)))
    | inr b ↦
        rw (b, write_all)
          (omega (arith, write_all-count tenant cs (remove_client tenant c.id hub) n))
  ]

  -- A broadcast returns how many of the tenant's streams took the event, and drops exactly those
  -- whose write failed.
  pub broadcast_lem :
      (tenant : String) (hub : SseHub)
      → IsWellFormed hub.clients
      → ((broadcast writes tenant hub).1
          ≡ length (filter (λ c. writes c.sink) (clients_of tenant hub)))
        × (clients_of tenant (broadcast writes tenant hub).0 ≡ kept broken (clients_of tenant hub))
  unfolding broadcast
  broadcast_lem tenant hub w = (
    omega (arith, write_all-count tenant (clients_of tenant hub) hub 0),
    clients_of-write_all tenant (clients_of tenant hub) hub 0
        ∙ without-matching broken (clients_of tenant hub) (clients_of-HasDistinctIds tenant hub w),
  )

module _ {ℓ} (P : SseClient → Type ℓ) where
  filter-All : (p : SseClient → Bool) (cs : List SseClient) → All P cs → All P (filter p cs)
  filter-All p [] h = tt
  filter-All p (c ∷ cs) (h, hs) = elim (Bool-cases (p c)) [
    | inl y ↦ rw y (h, filter-All p cs hs)
    | inr n ↦ rw n (filter-All p cs hs)
  ]

  remove_client-All :
      (tenant id j : String) (hub : SseHub)
      → ((k : String) → All P (clients_of k hub))
      → All P (clients_of j (remove_client tenant id hub))
  remove_client-All tenant id j hub h =
      subst (All P) (sym (clients_of-remove_client tenant id j hub))
        (elim (Bool-cases (str_eq tenant j)) [
          | inl y ↦ rw y (filter-All (λ c. not (str_eq c.id id)) (clients_of tenant hub) (h tenant))
          | inr n ↦ rw n (h j)
        ])

  write_all-All :
      (writes : ℕ → Bool) (tenant j : String) (cs : List SseClient) (hub : SseHub) (n : ℕ)
      → ((k : String) → All P (clients_of k hub))
      → All P (clients_of j (write_all writes tenant cs hub n).0)
  unfolding write_all
  write_all-All writes tenant j [] hub n h = h j
  write_all-All writes tenant j (c ∷ cs) hub n h = elim (Bool-cases (writes c.sink)) [
    | inl y ↦ rw (y, write_all) (write_all-All writes tenant j cs hub (n + 1) h)
    | inr b ↦
        rw (b, write_all)
          (write_all-All writes tenant j cs (remove_client tenant c.id hub) n
            (λ k. remove_client-All tenant c.id k hub h))
  ]

  ping_entries-All :
      (writes : ℕ → Bool) (j : String) (es : Clients) (hub : SseHub)
      → ((k : String) → All P (clients_of k hub))
      → All P (clients_of j (ping_entries writes es hub))
  unfolding ping_entries
  ping_entries-All writes j [] hub h = h j
  ping_entries-All writes j ((t, current) ∷ es) hub h =
      ping_entries-All writes j es (write_all writes t current hub 0).0
        (λ k. write_all-All writes t k current hub 0 h)

young_of_kept :
    (now max_age : ℕ) (cs : List SseClient)
    → All (λ c. now < c.opened_at + max_age) (kept (is_expired now max_age) cs)
young_of_kept now max_age [] = tt
young_of_kept now max_age (c ∷ cs) = ground (arith, young_of_kept now max_age cs)

-- After a keep-alive sweep no stream of any tenant has reached the lifetime cap.
pub ping_all-young :
    (writes : ℕ → Bool) (now : ℕ) (hub : SseHub) (j : String)
    → IsWellFormed hub.clients
    → All
        (λ c. now < c.opened_at + hub.max_stream_age_ms)
        (clients_of j (ping_all writes now hub).0)
unfolding ping_all close_expired
ping_all-young writes now hub j w =
    let open_hub = (close_expired now hub).0 in
    ping_entries-All (λ c. now < c.opened_at + hub.max_stream_age_ms) writes j open_hub.clients
      open_hub
      (λ k.
        rw ((close_where_lem (is_expired now hub.max_stream_age_ms) hub k w).0)
          (young_of_kept now hub.max_stream_age_ms (clients_of k hub)))
