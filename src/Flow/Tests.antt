-- ===== src/Flow/Tests.antt =====
-- Runs of packages/shared-core/src/flows.ts, and its theorems at a small flow.
use hy_fib_wa_app.Prelude.{
  ◌≤◌, ◌≡◌, refl, ap, [], ◌∷◌, none, some, codes, text_eq, to_lower, trim, length, All,
}
use hy_fib_wa_app.Flow.{
  FlowNode, send, waiting, done, lookup, normalize, present, choose, answered, run_node, round_at,
  round, resume, loop, advance_flow, step_cap,
}
use hy_fib_wa_app.Flow.Advance.{advance_flow-bounded, AwaitsReply, advance_flow-waiting}
use hy_fib_wa_app.Flow.Delivery.{IsGoodAction, advance_flow-IsGoodAction}
use hy_fib_wa_app.Flow.Validation.Tests.{flow_of, farewell, survey, survey_accepted}

engine : Unit {0}
unfolding advance_flow loop resume round round_at run_node answered choose present normalize lookup
    text_eq to_lower trim
engine = tt

survey_runs :
    (advance_flow survey (codes "ask") none
      ≡ record { actions = send (codes "Yes?") ∷ []; outcome = waiting (codes "ask") })
    × (advance_flow survey (codes "ask") (some (codes "yes"))
        ≡ record { actions = send (codes "Bye") ∷ []; outcome = done })
    × (advance_flow survey (codes "ask") (some (codes "maybe"))
        ≡ record { actions = []; outcome = waiting (codes "ask") })
unfolding engine
survey_runs = (refl, refl, refl)

advance_flow-bounded_example :
    length (advance_flow survey (codes "ask") (some (codes "yes"))).actions ≤ step_cap
advance_flow-bounded_example = advance_flow-bounded survey (codes "ask") (some (codes "yes"))

advance_flow-waiting_example :
    (node : FlowNode) × (lookup (codes "ask") survey.nodes ≡ some node)
    × AwaitsReply none (advance_flow survey (codes "ask") none).actions node
advance_flow-waiting_example =
    advance_flow-waiting survey (codes "ask") none (codes "ask") (ap (λ r. r.outcome) survey_runs.0)

advance_flow-IsGoodAction_example :
    All IsGoodAction (advance_flow survey (codes "ask") none).actions
advance_flow-IsGoodAction_example =
    advance_flow-IsGoodAction (flow_of farewell) survey (codes "ask") none survey_accepted
