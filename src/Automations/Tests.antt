-- ===== src/Automations/Tests.antt =====
-- Runs of the automation rules and automatic replies.
use hy_fib_wa_app.Prelude.{text_eq}
use hy_fib_wa_app.Prelude.{
  ◌≡◌, ◌↔◌, refl, Bool, true, List, [], ◌∷◌, Option, none, some, Text, codes, to_lower, trim, All,
}
use hy_fib_wa_app.Automations.{
  MatchType, AutoReplyRule, match_auto_reply, AutomationRule, AutomationTriggerContext,
  evaluate_automation_rules, keyword_match, contains, regex, tag_added, adding_tag, creating_task,
  create_task,
}
use hy_fib_wa_app.Automations.First.{IsFirst, match_auto_reply-IsFirst}
use hy_fib_wa_app.Automations.Planned.{ComesFrom, evaluate_automation_rules-ComesFrom}

abbrev no_regex : Text → Text → Option Bool
no_regex pattern text = none

abbrev rule_of : MatchType → Text → AutoReplyRule
rule_of type pattern = record {
  id = codes "r";
  match_type = type;
  keyword = some pattern;
  reply_text = some (codes "ok");
  enabled = true;
}

abbrev replies : List AutoReplyRule
replies =
    rule_of keyword_match (codes "price")
    ∷ rule_of regex (codes "(")
    ∷ rule_of contains (codes " PRICE")
    ∷ []

answered :
    match_auto_reply no_regex (some (codes "Your prices?")) replies
    ≡ some (rule_of contains (codes " PRICE"))
unfolding match_auto_reply text_eq to_lower trim
answered = refl

-- A pattern of blanks is not empty, but nothing is left of it when it is trimmed.
blank_pattern :
    match_auto_reply no_regex (some (codes "Hello")) (rule_of contains (codes "  ") ∷ [])
    ≡ some (rule_of contains (codes "  "))
unfolding match_auto_reply to_lower trim
blank_pattern = refl

match_auto_reply-IsFirst_example :
    (match_auto_reply no_regex (some (codes "Your prices?")) replies
      ≡ some (rule_of contains (codes " PRICE")))
    ↔ IsFirst no_regex replies
        (rule_of contains (codes " PRICE"))
        (to_lower (trim (codes "Your prices?")))
match_auto_reply-IsFirst_example =
    match_auto_reply-IsFirst no_regex b'Y' (codes "our prices?") replies
      (rule_of contains (codes " PRICE"))

abbrev tag_rule : AutomationRule
tag_rule = record {
  trigger_type = tag_added;
  condition_keyword = none;
  condition_tag = some (codes "VIP");
  action_type = creating_task;
  template_name = none;
  template_language = none;
  assignee_user_id = none;
  tag = none;
  task_title = none;
  due_in_minutes = some 30;
  enabled = true;
}

abbrev tagging : AutomationTriggerContext
tagging = record { message_text = none; added_tag = some (codes "vip") }

abbrev rules : List AutomationRule
rules = record tag_rule { action_type = adding_tag } ∷ tag_rule ∷ []

follow_up :
    evaluate_automation_rules tag_added tagging rules
    ≡ create_task (codes "Follow up") (some 30) ∷ []
unfolding evaluate_automation_rules text_eq to_lower
follow_up = refl

evaluate_automation_rules-ComesFrom_example :
    All (ComesFrom tag_added tagging rules) (evaluate_automation_rules tag_added tagging rules)
evaluate_automation_rules-ComesFrom_example =
    evaluate_automation_rules-ComesFrom tag_added tagging rules
