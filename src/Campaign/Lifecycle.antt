-- ===== src/Campaign/Lifecycle.antt =====
-- The audience and the life of a campaign of services/api-gateway/src/campaign.ts.
use hy_fib_wa_app.Prelude.{
  ◌+◌, ◌≡◌, ◌⊎◌, refl, true, false, not, List, [], ◌∷◌, String, filter, length, arith, All, inl,
  inr,
}
use hy_fib_wa_app.Campaign.{
  SendableContact, filter_sendable_contacts, CampaignAction, pause, resume, cancel,
  campaign_transitions, can_transition,
}

-- The legal changes of status from one to another, one action at a time.
pub data Run : String → String → Type 0 where
  stop : (s : String) → Run s s
  act :
      (s t : String) (a : CampaignAction)
      → can_transition s a ≡ true
      → Run (campaign_transitions a).to t
      → Run s t

cancellable :
    (s : String) (a : CampaignAction) → can_transition s a ≡ true → can_transition s cancel ≡ true
unfolding can_transition campaign_transitions
cancellable s pause h = ground arith
cancellable s resume h = ground arith
cancellable s cancel h = h

-- A status that cannot be cancelled is final: no legal actions lead out of it.
pub Run-final : (s t : String) → Run s t → can_transition s cancel ≡ false → t ≡ s
Run-final s t (stop u) h = refl
Run-final s t (act u v a l r) h = ground (arith, cancellable s a l)

-- A campaign that can be cancelled stays so under legal actions until it is cancelled.
pub Run-live :
    (s t : String)
    → Run s t
    → can_transition s cancel ≡ true
    → (can_transition t cancel ≡ true) ⊎ (t ≡ "cancelled")
unfolding can_transition campaign_transitions
Run-live s t (stop u) h = inl h
Run-live s t (act u v pause l r) h = Run-live "paused" v r refl
Run-live s t (act u v resume l r) h = Run-live "running" v r refl
Run-live s t (act u v cancel l r) h = inr (Run-final "cancelled" v r refl)

kept :
    (contacts : List SendableContact)
    → All (λ c. c.opted_out ≡ false) (filter (λ c. not c.opted_out) contacts)
kept [] = tt
kept (c ∷ cs) = ground (arith, kept cs)

dropped :
    (contacts : List SendableContact)
    → length contacts
      ≡ length (filter (λ c. not c.opted_out) contacts)
        + length (filter (λ c. c.opted_out) contacts)
dropped [] = omega arith
dropped (c ∷ cs) = ground (arith, dropped cs)

-- Of an audience only contacts that have not opted out remain, and those
-- dropped are counted.
pub filter_sendable_contacts_lem :
    (contacts : List SendableContact)
    → All (λ c. c.opted_out ≡ false) (filter_sendable_contacts contacts).eligible
      × ((filter_sendable_contacts contacts).suppressed
          ≡ length (filter (λ c. c.opted_out) contacts))
unfolding filter_sendable_contacts
filter_sendable_contacts_lem contacts = (kept contacts, omega (arith, dropped contacts))
