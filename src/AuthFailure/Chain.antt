-- ===== src/AuthFailure/Chain.antt =====
-- The cause chain of services/api-gateway/src/auth-failure.ts is finite and without repetition.
use hy_fib_wa_app.Prelude.{
  ℕ, zero, suc, ◌≤◌, ◌≡◌, refl, false, List, [], ◌∷◌, ◌++◌, Option, none, some, arith, ==_iff,
  length, Bool-cases, inl, inr, All, All_mono,
}
use hy_fib_wa_app.AuthFailure.{Heap, seen_has, links, chain, error_chain, max_chain_length}

abbrev pub Distinct : List ℕ → Type 0
Distinct [] = Unit
Distinct (n ∷ ns) = (seen_has ns n ≡ false) × Distinct ns

abbrev Unseen : List ℕ → ℕ → Type 0
Unseen seen n = seen_has seen n ≡ false

seen_has_of_All : (n : ℕ) (seen ns : List ℕ) → All (Unseen (n ∷ seen)) ns → seen_has ns n ≡ false
seen_has_of_All n seen [] h = refl
seen_has_of_All n seen (m ∷ ns) (h, hs) =
    ground (arith, seen_has_of_All n seen ns hs, ==_iff n m, ==_iff m n)

Unseen-drop : (n : ℕ) (seen : List ℕ) (m : ℕ) → Unseen (n ∷ seen) m → Unseen seen m
Unseen-drop n seen m h = ground arith

chain_lem :
    (heap : Heap) (room : ℕ) (seen : List ℕ) (queue : List (Option ℕ))
    → (length (chain heap room seen queue) ≤ room)
      × Distinct (chain heap room seen queue)
      × All (Unseen seen) (chain heap room seen queue)
unfolding chain
chain_lem heap zero seen queue = (omega arith, tt, tt)
chain_lem heap (suc room) seen [] = (omega arith, tt, tt)
chain_lem heap (suc room) seen (none ∷ queue) = chain_lem heap (suc room) seen queue
chain_lem heap (suc room) seen (some link ∷ queue) =
    let (short, distinct, unseen) =
      chain_lem heap room (link ∷ seen) (queue ++ links (heap link)) in
    elim (Bool-cases (seen_has seen link)) [
      | inl y ↦ rw y (chain_lem heap (suc room) seen queue)
      | inr n ↦ rw n (
        omega (arith, short),
        (seen_has_of_All link seen _ unseen, distinct),
        (n, All_mono _ _ (Unseen-drop link seen) _ unseen),
      )
    ]

-- Whatever the heap, circular or not: the chain of an error has at most eight links, none twice.
pub error_chain-Distinct :
    (heap : Heap) (error : Option ℕ)
    → (length (error_chain heap error) ≤ max_chain_length) × Distinct (error_chain heap error)
unfolding error_chain
error_chain-Distinct heap error =
    let (short, distinct, unseen) = chain_lem heap max_chain_length [] (error ∷ []) in
    (short, distinct)
