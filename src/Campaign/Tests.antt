-- ===== src/Campaign/Tests.antt =====
-- Runs of services/api-gateway/src/campaign.ts.
use hy_fib_wa_app.Prelude.{◌≡◌, refl, true, false, List, [], ◌∷◌, String}
use hy_fib_wa_app.Campaign.{
  SendableContact, pause, resume, cancel, campaign_transitions, can_transition, transition_conflict,
  legal, name,
}
use hy_fib_wa_app.Campaign.Lifecycle.{Run, stop, act}

conflicts :
    (transition_conflict "completed" pause
      ≡ "Cannot pause a campaign that is completed; it must be running or scheduled")
    × (transition_conflict "running" resume
        ≡ "Cannot resume a campaign that is running; it must be paused")
    × (transition_conflict "completed" cancel
        ≡ "Cannot cancel a campaign that is completed; it must be draft, scheduled, running or paused")
unfolding transition_conflict legal name campaign_transitions
conflicts = (refl, refl, refl)

abbrev running : String
running = "running"

abbrev completed : String
completed = "completed"

paused_and_resumed : Run "scheduled" "running"
unfolding can_transition campaign_transitions
paused_and_resumed =
    act "scheduled" "running" pause refl (act "paused" "running" resume refl (stop "running"))

abbrev audience : List SendableContact
audience =
    record { id = "1"; phone_e164 = "+31612345678"; opted_out = true }
    ∷ record { id = "2"; phone_e164 = "+31612345679"; opted_out = false }
    ∷ []
