-- ===== src/Automations/Planned.antt =====
-- Which rules the actions of packages/shared-core/src/automation.ts come from.
use hy_fib_wa_app.Prelude.Slices.{has_part}
use hy_fib_wa_app.Prelude.{
  ◌≡◌, ◌≢◌, ◌⊎◌, refl, ap, subst, Bool, true, false, not, ◌||◌, List, [], ◌∷◌, ◌++◌, Option, none,
  some, Text, text_eq_iff, to_lower, arith, codes, if-cases, All, All_mono,
}
use hy_fib_wa_app.Automations.{or_else, planned, push, evaluate_automation_rules}
use hy_fib_wa_app.Automations.{
  is_given, or_empty, AutomationTriggerType, AutomationActionType, AutomationRule,
  AutomationTriggerContext, PlannedAction, trigger_eq, matches_conditions, plan_for, plan_action,
  new_message, tag_added, conversation_assigned, no_reply, sending_template, assigning_agent,
  adding_tag, creating_task, send_template, assign_agent, add_tag, create_task,
}

-- What an action needs to be carried out.
abbrev pub IsComplete : PlannedAction → Type 0
IsComplete (send_template name language) = name ≢ []
IsComplete (assign_agent user) = user ≢ []
IsComplete (add_tag tag) = tag ≢ []
IsComplete (create_task title due) = Unit

-- What a rule asks of the event: of a message, that it holds the keyword, and of a tag, that it is the
-- rule's, whatever their case.
abbrev pub MeetsConditions :
    AutomationRule → AutomationTriggerContext → AutomationTriggerType → Type 0
MeetsConditions rule ctx new_message =
    (is_given rule.condition_keyword ≡ false)
    ⊎ (has_part (to_lower (or_empty rule.condition_keyword)) (to_lower (or_empty ctx.message_text))
        ≡ true)
MeetsConditions rule ctx tag_added =
    (is_given rule.condition_tag ≡ false)
    ⊎ (to_lower (or_empty ctx.added_tag) ≡ to_lower (or_empty rule.condition_tag))
MeetsConditions rule ctx conversation_assigned = Unit
MeetsConditions rule ctx no_reply = Unit

pub record ComesFrom (trigger : AutomationTriggerType) (ctx : AutomationTriggerContext)
    (rules : List AutomationRule) (action : PlannedAction) : Type 0 where
  pub before : List AutomationRule
  pub rule : AutomationRule
  pub after : List AutomationRule
  pub split : rules ≡ before ++ rule ∷ after
  pub enabled : rule.enabled ≡ true
  pub triggered : rule.trigger_type ≡ trigger
  pub met : MeetsConditions rule ctx trigger
  pub plans : plan_action rule ≡ some action
  pub complete : IsComplete action

given-nonempty : (o : Option Text) → is_given o ≡ true → or_empty o ≢ []
given-nonempty none h = cc
given-nonempty (some []) h = cc
given-nonempty (some (c ∷ s)) h = λ e. cc

planned-some :
    (b : Bool) (action action' : PlannedAction)
    → planned b action ≡ some action'
    → (b ≡ true) × (action ≡ action')
planned-some true action action' e = (refl, cc)
planned-some false action action' e = cc

plan_for-IsComplete :
    (type : AutomationActionType) (rule : AutomationRule) (action : PlannedAction)
    → plan_for type rule ≡ some action
    → IsComplete action
unfolding plan_for
plan_for-IsComplete sending_template rule action e =
    let (g, same) = planned-some (is_given rule.template_name) _ action e in
    subst IsComplete same (given-nonempty rule.template_name g)
plan_for-IsComplete assigning_agent rule action e =
    let (g, same) = planned-some (is_given rule.assignee_user_id) _ action e in
    subst IsComplete same (given-nonempty rule.assignee_user_id g)
plan_for-IsComplete adding_tag rule action e =
    let (g, same) = planned-some (is_given rule.tag) _ action e in
    subst IsComplete same (given-nonempty rule.tag g)
plan_for-IsComplete creating_task rule action e =
    let same : create_task (or_else rule.task_title (codes "Follow up")) rule.due_in_minutes
        ≡ action =
      cc in
    subst IsComplete same tt

trigger_eq-same : (a b : AutomationTriggerType) → trigger_eq a b ≡ true → a ≡ b
unfolding trigger_eq
trigger_eq-same a b h = ground arith

conditions-met :
    (rule : AutomationRule) (ctx : AutomationTriggerContext) (trigger : AutomationTriggerType)
    → rule.trigger_type ≡ trigger
    → matches_conditions rule ctx ≡ true
    → MeetsConditions rule ctx trigger
unfolding matches_conditions trigger_eq
conditions-met rule ctx new_message t h = let k = rw (t, matches_conditions) at h in ground arith
conditions-met rule ctx tag_added t h =
    let k = rw (t, matches_conditions) at h in
    let same =
      text_eq_iff (to_lower (or_empty ctx.added_tag)) (to_lower (or_empty rule.condition_tag)) in
    ground arith
conditions-met rule ctx conversation_assigned t h = tt
conditions-met rule ctx no_reply t h = tt

module _ (trigger : AutomationTriggerType) (ctx : AutomationTriggerContext) where
  later :
      (rule : AutomationRule) (rules : List AutomationRule) (action : PlannedAction)
      → ComesFrom trigger ctx rules action
      → ComesFrom trigger ctx (rule ∷ rules) action
  later rule rules action c = record {
    before = rule ∷ c.before;
    rule = c.rule;
    after = c.after;
    split = ap (λ rs. rule ∷ rs) c.split;
    enabled = c.enabled;
    triggered = c.triggered;
    met = c.met;
    plans = c.plans;
    complete = c.complete;
  }

  pushed-All :
      (rule : AutomationRule) (rules : List AutomationRule) (o : Option PlannedAction)
      (rest : List PlannedAction)
      → plan_action rule ≡ o
      → rule.enabled ≡ true
      → rule.trigger_type ≡ trigger
      → MeetsConditions rule ctx trigger
      → All (ComesFrom trigger ctx (rule ∷ rules)) rest
      → All (ComesFrom trigger ctx (rule ∷ rules)) (push o rest)
  unfolding plan_action
  pushed-All rule rules none rest p e t m h = h
  pushed-All rule rules (some action) rest p e t m h = (
    record {
      before = [];
      rule = rule;
      after = rules;
      split = refl;
      enabled = e;
      triggered = t;
      met = m;
      plans = p;
      complete = plan_for-IsComplete rule.action_type rule action p;
    },
    h,
  )

  -- Every action that is planned comes from a rule of the list that is enabled, has the trigger and
  -- meets its conditions, is the one that the rule plans, and names what it is to send, assign or add.
  pub evaluate_automation_rules-ComesFrom :
      (rules : List AutomationRule)
      → All (ComesFrom trigger ctx rules) (evaluate_automation_rules trigger ctx rules)
  unfolding evaluate_automation_rules
  evaluate_automation_rules-ComesFrom [] = tt
  evaluate_automation_rules-ComesFrom (rule ∷ rules) =
      let rest = evaluate_automation_rules trigger ctx rules in
      let kept : All (ComesFrom trigger ctx (rule ∷ rules)) rest =
        All_mono (ComesFrom trigger ctx rules) (ComesFrom trigger ctx (rule ∷ rules))
          (later rule rules) rest (evaluate_automation_rules-ComesFrom rules) in
      if-cases (All (ComesFrom trigger ctx (rule ∷ rules)))
        (not (trigger_eq rule.trigger_type trigger) || not rule.enabled) rest _ (λ y. kept)
        (λ n.
          if-cases (All (ComesFrom trigger ctx (rule ∷ rules))) (not (matches_conditions rule ctx))
            rest _ (λ y. kept)
            (λ m.
              let same = trigger_eq-same rule.trigger_type trigger (ground arith) in
              pushed-All rule rules (plan_action rule) rest refl (ground arith) same
                (conditions-met rule ctx trigger same (ground arith)) kept))
