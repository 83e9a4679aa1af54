-- ===== src/Flow.antt =====
-- packages/shared-core/src/flows.ts: flow definitions, their nodes, and one advance of a session.
-- The record of nodes is an association list of own keys; node ids and texts are UTF-16 units.
-- A lookup of a key that the record lacks ends the session, as a value inherited from
-- Object.prototype does after the remaining rounds.
pub mod Json
pub mod Advance
pub mod Delivery
pub mod Validation
pub mod Tests
use hy_fib_wa_app.Prelude.{
  ℕ, zero, suc, ◌≡◌, Bool, List, [], ◌∷◌, ◌++◌, Option, none, some, Text, codes, text_eq, to_lower,
  trim, find?, if◌then◌else◌,
}

pub record Branch : Type 0 where
  pub match : Text
  pub next : Text

pub data FlowNode : Type 0 where
  message : (text : Text) → (next : Option Text) → FlowNode
  question : (text : Text) → (branches : List Branch) → (fallback_next : Option Text) → FlowNode
  add_tag : (tag : Text) → (next : Option Text) → FlowNode
  assign_team : (team_id : Text) → (next : Option Text) → FlowNode
  end : FlowNode

abbrev pub Nodes : Type 0
Nodes = List (Text × FlowNode)

pub record FlowDefinition : Type 0 where
  pub start : Text
  pub nodes : Nodes

abbrev pub flow_max_nodes : ℕ
flow_max_nodes = 50

abbrev pub max_text : ℕ
max_text = 1024

abbrev pub max_branches : ℕ
max_branches = 10

abbrev pub step_cap : ℕ
step_cap = 10

pub data FlowAction : Type 0 where
  send : Text → FlowAction
  tag : Text → FlowAction
  team : Text → FlowAction

pub data FlowOutcome : Type 0 where
  waiting : Text → FlowOutcome
  done : FlowOutcome

pub record FlowAdvanceResult : Type 0 where
  pub actions : List FlowAction
  pub outcome : FlowOutcome

-- `definition.nodes[id]`
pub lookup : Text → Nodes → Option FlowNode
lookup id [] = none
lookup id ((key, node) ∷ nodes) = if text_eq key id then some node else lookup id nodes

-- `s.trim().toLowerCase()`
pub normalize : Text → Text
normalize s = to_lower (trim s)

-- An id that a test for truth takes for present.
pub present : Option Text → Option Text
present none = none
present (some []) = none
present (some (c ∷ s)) = some (c ∷ s)

-- Where a reply to a question leads: a branch, else the fallback.
pub choose : Text → List Branch → Option Text → Option Text
choose reply branches fallback =
    elim (find? (λ b. text_eq (normalize b.match) (normalize reply)) branches) [
      | some b ↦ some b.next
      | none ↦ present fallback
    ]

-- What one round of the loop does: the actions that it adds, and whether it returns.
pub data Round : Type 0 where
  stop : List FlowAction → FlowOutcome → Round
  move : List FlowAction → (cursor : Option Text) → (reply : Option Text) → Round

pub answered : Text → Option Text → Round
answered cursor (some target) = move [] (some target) none
answered cursor none = stop [] (waiting cursor)

pub run_node : Text → FlowNode → Option Text → Round
run_node cursor (message text next) reply = move (send text ∷ []) next reply
run_node cursor (add_tag t next) reply = move (tag t ∷ []) next reply
run_node cursor (assign_team id next) reply = move (team id ∷ []) next reply
run_node cursor end reply = stop [] done
run_node cursor (question text branches fallback) none = stop (send text ∷ []) (waiting cursor)
run_node cursor (question text branches fallback) (some reply) =
    answered cursor (choose reply branches fallback)

pub round_at : Text → Option FlowNode → Option Text → Round
round_at cursor none reply = stop [] done
round_at cursor (some node) reply = run_node cursor node reply

pub round : Nodes → Option Text → Option Text → Round
round nodes none reply = stop [] done
round nodes (some cursor) reply = round_at cursor (lookup cursor nodes) reply

-- What the loop makes of a round: it returns, or goes on with `next`.
pub resume :
    (List FlowAction → Option Text → Option Text → FlowAdvanceResult)
    → List FlowAction
    → Round
    → FlowAdvanceResult
resume next actions (stop more outcome) = record { actions = actions ++ more; outcome = outcome }
resume next actions (move more cursor reply) = next (actions ++ more) cursor reply

pub loop : Nodes → ℕ → List FlowAction → Option Text → Option Text → FlowAdvanceResult
loop nodes zero actions cursor reply = record { actions = actions; outcome = done }
loop nodes (suc steps) actions cursor reply =
    resume (loop nodes steps) actions (round nodes (present cursor) reply)

pub advance_flow : FlowDefinition → Text → Option Text → FlowAdvanceResult
advance_flow definition current_node inbound_text =
    loop definition.nodes step_cap [] (some current_node) inbound_text
