-- ===== src/Flow/Delivery.antt =====
-- What a validated flow (packages/shared-core/src/flows.ts) sends to a customer.
use hy_fib_wa_app.Prelude.{
  ℕ, zero, suc, ◌≡◌, refl, List, [], ◌∷◌, ◌++◌, Option, none, some, arith, Text, text_eq, length,
  All, All-append, Bool-cases, inl, inr, subst,
}
use hy_fib_wa_app.Flow.{
  FlowNode, message, question, add_tag, assign_team, end, Nodes, FlowDefinition, FlowAction, send,
  tag, team, FlowAdvanceResult, lookup, present, Round, stop, move, answered, run_node, round_at,
  round, resume, loop, advance_flow, step_cap, max_text,
}
use hy_fib_wa_app.Flow.Json.{Json}
use hy_fib_wa_app.Flow.Advance.{added}
use hy_fib_wa_app.Flow.Validation.{ok, validate_flow_definition}
use hy_fib_wa_app.Flow.Validation.Sound.{IsUsable, IsGoodNode}
use hy_fib_wa_app.Flow.Validation.WellFormed.{IsNode, validate_flow_definition-IsWellFormed}

-- An action whose text is neither blank nor too long, or whose team has the length of a UUID.
abbrev pub IsGoodAction : FlowAction → Type 0
IsGoodAction (send text) = IsUsable max_text text
IsGoodAction (tag text) = IsUsable 100 text
IsGoodAction (team id) = length id ≡ 36

module _ (P : Text → Type 0) where
  found_IsGoodNode :
      (nodes : Nodes) (id : Text) {n : FlowNode}
      → All (λ m. IsGoodNode P m.1) nodes
      → lookup id nodes ≡ some n
      → IsGoodNode P n
  unfolding lookup
  found_IsGoodNode [] id h e = cc
  found_IsGoodNode ((key, m) ∷ nodes) id {n} (g, h) e = elim (Bool-cases (text_eq key id)) [
    | inl y ↦ let same : m ≡ n = ground arith in subst (IsGoodNode P) same g
    | inr n ↦ found_IsGoodNode nodes id h (rw n at e)
  ]

  run_node-good :
      (cursor : Text) (n : FlowNode) (reply : Option Text)
      → IsGoodNode P n
      → All IsGoodAction (added (run_node cursor n reply))
  unfolding run_node answered
  run_node-good cursor (message t o) reply (g, e) = (g, tt)
  run_node-good cursor (add_tag t o) reply (g, e) = (g, tt)
  run_node-good cursor (assign_team t o) reply (g, e) = (g, tt)
  run_node-good cursor end reply g = tt
  run_node-good cursor (question t bs o) none g = (g.0, tt)
  run_node-good cursor (question t bs o) (some heard) g = ground arith

  round-good :
      (nodes : Nodes) (cursor reply : Option Text)
      → All (λ m. IsGoodNode P m.1) nodes
      → All IsGoodAction (added (round nodes cursor reply))
  unfolding round
  round-good nodes none reply h = tt
  round-good nodes (some id) reply h =
      elim (lookup id nodes)
          as (λ o. lookup id nodes ≡ o → All IsGoodAction (added (round_at id o reply))) [
            | none ↦ λ e. unfold round_at in tt
            | some n ↦
                λ e. unfold round_at in run_node-good id n reply (found_IsGoodNode nodes id h e)
          ]
        refl

resume-good :
    (next : List FlowAction → Option Text → Option Text → FlowAdvanceResult)
    → ((before : List FlowAction) (c p : Option Text)
        → All IsGoodAction before
        → All IsGoodAction (next before c p).actions)
    → (actions : List FlowAction) (r : Round) → All IsGoodAction actions
    → All IsGoodAction (added r)
    → All IsGoodAction (resume next actions r).actions
unfolding resume
resume-good next h actions (stop more o) old new = All-append IsGoodAction actions more old new
resume-good next h actions (move more c p) old new =
    h (actions ++ more) c p (All-append IsGoodAction actions more old new)

loop-good :
    (P : Text → Type 0) (nodes : Nodes)
    → All (λ m. IsGoodNode P m.1) nodes
    → (steps : ℕ) (actions : List FlowAction) (cursor reply : Option Text)
    → All IsGoodAction actions
    → All IsGoodAction (loop nodes steps actions cursor reply).actions
unfolding loop
loop-good P nodes h zero actions cursor reply old = old
loop-good P nodes h (suc steps) actions cursor reply old =
    resume-good (loop nodes steps) (loop-good P nodes h steps) actions
      (round nodes (present cursor) reply) old (round-good P nodes (present cursor) reply h)

-- Whatever a customer replies to a flow that the validation accepted, wherever the session stands:
-- every text that is sent is neither blank nor longer than 1024 units, every tag neither blank nor
-- longer than 100, and every team id has 36 units.
pub advance_flow-IsGoodAction :
    (v : Json) (d : FlowDefinition) (current : Text) (reply : Option Text)
    → validate_flow_definition v ≡ ok d
    → All IsGoodAction (advance_flow d current reply).actions
unfolding advance_flow
advance_flow-IsGoodAction v d current reply h =
    loop-good (IsNode d.nodes) d.nodes (validate_flow_definition-IsWellFormed v d h).nodes step_cap
      [] (some current) reply tt
