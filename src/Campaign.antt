-- ===== src/Campaign.antt =====
-- services/api-gateway/src/campaign.ts: who of an audience may be sent to, and the statuses of a
-- campaign, which are plain text as in the database.
pub mod Lifecycle
pub mod Tests
use hy_fib_wa_app.Prelude.{ℕ, ◌-◌, Bool, not, List, [], ◌∷◌, String, str_eq, any, filter, length}
use Prim.Native.String.{◌++◌}

pub record SendableContact : Type 0 where
  pub id : String
  pub phone_e164 : String
  pub opted_out : Bool

pub record SendableSplit : Type 0 where
  pub eligible : List SendableContact
  pub suppressed : ℕ

pub filter_sendable_contacts : List SendableContact → SendableSplit
filter_sendable_contacts contacts =
    let eligible = filter (λ c. not c.opted_out) contacts in
    record { eligible = eligible; suppressed = length contacts - length eligible }

pub data CampaignAction : Type 0 where
  pause resume cancel : CampaignAction

pub record Transition : Type 0 where
  pub from : List String
  pub to : String

pub campaign_transitions : CampaignAction → Transition
campaign_transitions pause = record { from = "running" ∷ "scheduled" ∷ []; to = "paused" }
campaign_transitions resume = record { from = "paused" ∷ []; to = "running" }
campaign_transitions cancel = record {
  from = "draft" ∷ "scheduled" ∷ "running" ∷ "paused" ∷ [];
  to = "cancelled";
}

pub can_transition : String → CampaignAction → Bool
unfolding campaign_transitions
can_transition current action = any (λ s. str_eq s current) (campaign_transitions action).from

name : CampaignAction → String
name pause = "pause"
name resume = "resume"
name cancel = "cancel"

-- `a, b or c`
pub legal : List String → String
legal [] = ""
legal (s ∷ []) = s
legal (s ∷ t ∷ []) = s ++ (" or " ++ t)
legal (s ∷ t ∷ u ∷ rest) = s ++ (", " ++ legal (t ∷ u ∷ rest))

pub transition_conflict : String → CampaignAction → String
unfolding name legal campaign_transitions
transition_conflict current action =
    "Cannot "
    ++ (name action
        ++ (" a campaign that is "
            ++ (current ++ ("; it must be " ++ legal (campaign_transitions action).from))))
