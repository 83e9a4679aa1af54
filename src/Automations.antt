-- ===== src/Automations.antt =====
-- packages/shared-core/src/automation.ts and services/notification-worker/src/autoreply.ts: which rules
-- answer an inbound message. Regular expressions are a parameter, which is none for one that is
-- invalid.
pub mod First
pub mod Planned
pub mod Tests
use hy_fib_wa_app.Prelude.Slices.{has_part}
use hy_fib_wa_app.Prelude.{
  ℕ, Bool, true, false, not, ◌&&◌, ◌||◌, List, [], ◌∷◌, Option, none, some, Text, codes, text_eq,
  to_lower, trim, length, ◌==◌, if◌then◌else◌,
}

pub data MatchType : Type 0 where
  keyword_match contains regex any_text : MatchType

pub record AutoReplyRule : Type 0 where
  pub id : Text
  pub match_type : MatchType
  pub keyword : Option Text
  pub reply_text : Option Text
  pub enabled : Bool

abbrev pub is_given : Option Text → Bool
is_given none = false
is_given (some []) = false
is_given (some (c ∷ s)) = true

abbrev pub or_empty : Option Text → Text
or_empty none = []
or_empty (some s) = s

abbrev pub is_true : Option Bool → Bool
is_true none = false
is_true (some b) = b

abbrev pub needs_keyword : MatchType → Bool
needs_keyword any_text = false
needs_keyword keyword_match = true
needs_keyword contains = true
needs_keyword regex = true

module _ (regex_test : (pattern text : Text) → Option Bool) where
  unfoldable pub matches_type : MatchType → (pattern : Text) → (normalised : Text) → Bool
  unfolding has_part
  matches_type any_text pattern normalised = true
  matches_type keyword_match pattern normalised = text_eq normalised (to_lower (trim pattern))
  matches_type contains pattern normalised = has_part (to_lower (trim pattern)) normalised
  matches_type regex pattern normalised = is_true (regex_test pattern normalised)

  unfoldable pub rule_matches : AutoReplyRule → (normalised : Text) → Bool
  unfolding matches_type
  rule_matches rule normalised =
      rule.enabled
      && (not (needs_keyword rule.match_type) || is_given rule.keyword)
      && matches_type rule.match_type (or_empty rule.keyword) normalised

  unfoldable pub first_match : (normalised : Text) → List AutoReplyRule → Option AutoReplyRule
  unfolding rule_matches
  first_match normalised [] = none
  first_match normalised (rule ∷ rules) =
      let rest = first_match normalised rules in
      if rule_matches rule normalised then some rule else rest

  unfoldable pub match_auto_reply : Option Text → List AutoReplyRule → Option AutoReplyRule
  unfolding first_match
  match_auto_reply text rules =
      if is_given text then first_match (to_lower (trim (or_empty text))) rules else none

pub data AutomationTriggerType : Type 0 where
  new_message tag_added conversation_assigned no_reply : AutomationTriggerType

pub data AutomationActionType : Type 0 where
  sending_template assigning_agent adding_tag creating_task : AutomationActionType

pub record AutomationRule : Type 0 where
  pub trigger_type : AutomationTriggerType
  pub condition_keyword : Option Text
  pub condition_tag : Option Text
  pub action_type : AutomationActionType
  pub template_name : Option Text
  pub template_language : Option Text
  pub assignee_user_id : Option Text
  pub tag : Option Text
  pub task_title : Option Text
  pub due_in_minutes : Option ℕ
  pub enabled : Bool

pub record AutomationTriggerContext : Type 0 where
  pub message_text : Option Text
  pub added_tag : Option Text

pub data PlannedAction : Type 0 where
  send_template : (name language : Text) → PlannedAction
  assign_agent : Text → PlannedAction
  add_tag : Text → PlannedAction
  create_task : (title : Text) → (due_in_minutes : Option ℕ) → PlannedAction

abbrev trigger_index : AutomationTriggerType → ℕ
trigger_index new_message = 0
trigger_index tag_added = 1
trigger_index conversation_assigned = 2
trigger_index no_reply = 3

unfoldable pub trigger_eq : AutomationTriggerType → AutomationTriggerType → Bool
trigger_eq a b = trigger_index a == trigger_index b

unfoldable pub matches_conditions : AutomationRule → AutomationTriggerContext → Bool
unfolding has_part trigger_eq
matches_conditions rule ctx =
    if trigger_eq rule.trigger_type new_message
      && is_given rule.condition_keyword
      && not (
          has_part (to_lower (or_empty rule.condition_keyword))
            (to_lower (or_empty ctx.message_text)))
    then false
    else not (
        trigger_eq rule.trigger_type tag_added
        && is_given rule.condition_tag
        && not
            (text_eq (to_lower (or_empty ctx.added_tag)) (to_lower (or_empty rule.condition_tag))))

abbrev pub or_else : Option Text → Text → Text
or_else none default = default
or_else (some s) default = s

abbrev pub planned : Bool → PlannedAction → Option PlannedAction
planned true action = some action
planned false action = none

unfoldable pub plan_for : AutomationActionType → AutomationRule → Option PlannedAction
plan_for sending_template rule =
    planned (is_given rule.template_name)
      (send_template (or_empty rule.template_name) (or_else rule.template_language (codes "en_US")))
plan_for assigning_agent rule =
    planned (is_given rule.assignee_user_id) (assign_agent (or_empty rule.assignee_user_id))
plan_for adding_tag rule = planned (is_given rule.tag) (add_tag (or_empty rule.tag))
plan_for creating_task rule =
    some (create_task (or_else rule.task_title (codes "Follow up")) rule.due_in_minutes)

unfoldable pub plan_action : AutomationRule → Option PlannedAction
unfolding plan_for
plan_action rule = plan_for rule.action_type rule

abbrev pub push : Option PlannedAction → List PlannedAction → List PlannedAction
push none actions = actions
push (some action) actions = action ∷ actions

unfoldable pub evaluate_automation_rules :
    AutomationTriggerType → AutomationTriggerContext → List AutomationRule → List PlannedAction
unfolding matches_conditions plan_action trigger_eq
evaluate_automation_rules trigger ctx [] = []
evaluate_automation_rules trigger ctx (rule ∷ rules) =
    let rest = evaluate_automation_rules trigger ctx rules in
    if not (trigger_eq rule.trigger_type trigger) || not rule.enabled
    then rest
    else if not (matches_conditions rule ctx)
    then rest
    else push (plan_action rule) rest
