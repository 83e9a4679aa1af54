-- ===== src/Flow/Validation/Tests.antt =====
-- Runs of the validation of packages/shared-core/src/flows.ts, and its theorem at a small flow.
use hy_fib_wa_app.Prelude.{◌≡◌, refl, [], ◌∷◌, none, codes, text_eq, trim}
use hy_fib_wa_app.Flow.{message, question, FlowDefinition}
use hy_fib_wa_app.Flow.Json.{
  Json, null, str, arr, obj, no_items, item, no_members, member, items, entries, get_member, get,
}
use hy_fib_wa_app.Flow.Validation.{
  ok, fail, throws, at_node, unknown_type, includes, usable, is_team_uuid, text_of, team_of,
  next_of, target_of, check_branch, check_branches, branches_of, check_message, check_question,
  check_add_tag, check_assign_team, check_type, check_node, named, check_nodes, keys, start_of,
  check_definition, check_object, validate_flow_definition,
}
use hy_fib_wa_app.Flow.Validation.WellFormed.{IsWellFormed, validate_flow_definition-IsWellFormed}

validator : Unit {0}
unfolding validate_flow_definition check_object check_definition start_of keys check_nodes named
    check_node check_type check_assign_team check_add_tag check_question check_message branches_of
    check_branches check_branch target_of next_of team_of text_of is_team_uuid usable includes
    text_eq trim items entries get_member get
validator = tt

abbrev ask : Json
ask = obj (
    member (codes "type") (str (codes "question")) (
      member (codes "text") (str (codes "Yes?")) (
        member (codes "branches")
          (arr (
            item
              (obj (
                member (codes "match") (str (codes " YES "))
                  (member (codes "next") (str (codes "bye")) no_members)))
              no_items))
          no_members)))

abbrev pub farewell : Json
farewell = obj (
    member (codes "type") (str (codes "message"))
      (member (codes "text") (str (codes "Bye")) no_members))

abbrev pub flow_of : Json → Json
flow_of last = obj (
    member (codes "start") (str (codes "ask")) (
      member (codes "nodes") (obj (member (codes "ask") ask (member (codes "bye") last no_members)))
        no_members))

abbrev pub survey : FlowDefinition
survey = record {
  start = codes "ask";
  nodes =
      (
        codes "ask",
        question (codes "Yes?") (record { match = codes " YES "; next = codes "bye" } ∷ []) none,
      )
      ∷ (codes "bye", message (codes "Bye") none)
      ∷ [];
}

pub survey_accepted : validate_flow_definition (flow_of farewell) ≡ ok survey
unfolding validator
survey_accepted = refl

-- A node that is null makes the validation throw.
null_node_throws : validate_flow_definition (flow_of null) ≡ throws
unfolding validator
null_node_throws = refl

bad_last :
    validate_flow_definition (flow_of (obj no_members)) ≡ fail (at_node (codes "bye") unknown_type)
unfolding validator
bad_last = refl

validate_flow_definition-IsWellFormed_example : IsWellFormed survey
validate_flow_definition-IsWellFormed_example =
    validate_flow_definition-IsWellFormed (flow_of farewell) survey survey_accepted
