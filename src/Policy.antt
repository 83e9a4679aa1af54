-- ===== src/Policy.antt =====
-- packages/policy-engine/src/index.ts: the outbound policy, with the texts of its reasons replaced by
-- a constructor each. Hours and counts are natural numbers.
pub mod Laws
pub mod Tests
use hy_fib_wa_app.Prelude.{ℕ, Bool, not, ◌&&◌, ◌||◌, Option, none, some, ltb, leb, if◌then◌else◌}

pub data MessageCategory : Type 0 where
  marketing utility authentication service : MessageCategory

pub data TemplateStatus : Type 0 where
  approved rejected pending paused : TemplateStatus

pub MessageCategory-discrete : Discrete MessageCategory
MessageCategory-discrete = hlevel

-- The fields of a template that the policy reads.
pub record Template : Type 0 where
  pub category : MessageCategory
  pub status : TemplateStatus

pub record FrequencyCap : Type 0 where
  pub max_messages : ℕ
  pub period_hours : ℕ
  pub sent_in_period : ℕ

pub record QuietHours : Type 0 where
  pub start_hour : ℕ
  pub end_hour : ℕ

pub record OutboundPolicyContext : Type 0 where
  pub has_active_consent : Bool
  pub is_inside24h_window : Bool
  pub template : Template
  pub requested_category : MessageCategory
  pub is_opted_out : Bool
  pub current_hour_local : ℕ
  pub quiet_hours : Option QuietHours
  pub frequency_cap : Option FrequencyCap
  pub country_blocked : Bool

pub data Reason : Type 0 where
  opted_out missing_consent country_routing not_approved category_mismatch in_quiet_hours : Reason
  cap_exceeded : ℕ → ℕ → Reason

pub data PolicyResult : Type 0 where
  allowed : PolicyResult
  refused : Reason → PolicyResult

abbrev is_approved : TemplateStatus → Bool
is_approved TemplateStatus.approved = Bool.true
is_approved _ = Bool.false

abbrev same_category : MessageCategory → MessageCategory → Bool
same_category marketing marketing = Bool.true
same_category utility utility = Bool.true
same_category authentication authentication = Bool.true
same_category service service = Bool.true
same_category _ _ = Bool.false

pub is_inside_quiet_hours : ℕ → QuietHours → Bool
is_inside_quiet_hours hour quiet =
    if leb start_hour end_hour
    then leb start_hour hour && ltb hour end_hour
    else leb start_hour hour || ltb hour end_hour
  where
    open quiet use {start_hour, end_hour}

in_quiet : ℕ → Option QuietHours → Bool
in_quiet hour none = Bool.false
in_quiet hour (some quiet) = is_inside_quiet_hours hour quiet

-- The last test of the policy.
check_cap : Option FrequencyCap → PolicyResult
check_cap none = allowed
check_cap (some cap) =
    if leb cap.max_messages cap.sent_in_period
    then refused (cap_exceeded cap.max_messages cap.period_hours)
    else allowed

pub evaluate_outbound_policy : OutboundPolicyContext → PolicyResult
evaluate_outbound_policy c =
    if c.is_opted_out
    then refused opted_out
    else if not c.has_active_consent
    then refused missing_consent
    else if c.country_blocked
    then refused country_routing
    else if not c.is_inside24h_window && not (is_approved c.template.status)
    then refused not_approved
    else if not (same_category c.template.category c.requested_category)
    then refused category_mismatch
    else if in_quiet c.current_hour_local c.quiet_hours
    then refused in_quiet_hours
    else check_cap c.frequency_cap
