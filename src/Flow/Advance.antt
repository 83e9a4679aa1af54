-- ===== src/Flow/Advance.antt =====
-- What one advance of a session does: packages/shared-core/src/flows.ts, advanceFlow.
use hy_fib_wa_app.Prelude.{
  ℕ, zero, suc, ◌+◌, ◌≤◌, ◌≡◌, refl, sym, ap, ◌∙◌, ◌⊎◌, inl, inr, List, [], ◌∷◌, ◌++◌, Option, none,
  some, arith, Text, length, length-append, Option-cases,
}
use hy_fib_wa_app.Flow.{
  FlowNode, message, question, add_tag, assign_team, end, Nodes, FlowDefinition, FlowAction, send,
  FlowOutcome, waiting, FlowAdvanceResult, lookup, present, choose, Round, stop, move, answered,
  run_node, round_at, round, resume, loop, advance_flow, step_cap,
}

-- The actions that a round adds.
abbrev pub added : Round → List FlowAction
added (stop more outcome) = more
added (move more cursor reply) = more

round-added_le :
    (nodes : Nodes) (cursor reply : Option Text) → length (added (round nodes cursor reply)) ≤ 1
unfolding round round_at run_node answered
round-added_le nodes cursor reply = ground arith

resume-length :
    (next : List FlowAction → Option Text → Option Text → FlowAdvanceResult) (steps : ℕ)
    → ((before : List FlowAction) (c p : Option Text)
        → length (next before c p).actions ≤ length before + steps)
    → (actions : List FlowAction) (r : Round) → length (added r) ≤ 1
    → length (resume next actions r).actions ≤ length actions + suc steps
unfolding resume
resume-length next steps h actions (stop more outcome) small =
    omega (arith, length-append actions more)
resume-length next steps h actions (move more c p) small =
    omega (arith, h (actions ++ more) c p, length-append actions more)

loop-length :
    (nodes : Nodes) (steps : ℕ) (actions : List FlowAction) (cursor reply : Option Text)
    → length (loop nodes steps actions cursor reply).actions ≤ length actions + steps
unfolding loop
loop-length nodes zero actions cursor reply = omega arith
loop-length nodes (suc steps) actions cursor reply =
    resume-length (loop nodes steps) steps (loop-length nodes steps) actions
      (round nodes (present cursor) reply) (round-added_le nodes (present cursor) reply)

-- One advance takes at most as many actions as the step cap, whatever the definition: a cycle of
-- messages cannot spin.
pub advance_flow-bounded :
    (d : FlowDefinition) (current : Text) (reply : Option Text)
    → length (advance_flow d current reply).actions ≤ step_cap
unfolding advance_flow
advance_flow-bounded d current reply = loop-length d.nodes step_cap [] (some current) reply

-- A session may wait at a node: it is a question of the definition, and either it was asked last, or
-- the reply was put to it, fits no branch and has no fallback.
module _ (reply : Option Text) (actions : List FlowAction) where
  abbrev pub AwaitsReply : FlowNode → Type 0
  AwaitsReply (question text branches fallback) =
      ((before : List FlowAction) × (actions ≡ before ++ send text ∷ []))
      ⊎ ((heard : Text) × (reply ≡ some heard) × (choose heard branches fallback ≡ none))
  AwaitsReply _ = ⊥

round_at-waiting :
    (cursor : Text) (o : Option FlowNode) (reply : Option Text) (actions more : List FlowAction)
    (id : Text)
    → round_at cursor o reply ≡ stop more (waiting id)
    → (node : FlowNode) × (cursor ≡ id) × (o ≡ some node) × AwaitsReply reply (actions ++ more) node
unfolding round_at run_node answered
round_at-waiting cursor none reply actions more id e = cc
round_at-waiting cursor (some (message t n)) reply actions more id e = cc
round_at-waiting cursor (some (add_tag t n)) reply actions more id e = cc
round_at-waiting cursor (some (assign_team t n)) reply actions more id e = cc
round_at-waiting cursor (some end) reply actions more id e = cc
round_at-waiting cursor (some (question t b f)) none actions more id e =
    (question t b f, cc, refl, inl (actions, cc))
round_at-waiting cursor (some (question t b f)) (some heard) actions more id e =
    elim (Option-cases (choose heard b f)) [
      | inl n ↦ (question t b f, ground arith, refl, inr (heard, refl, n))
      | inr (target, s) ↦ ground arith
    ]

-- A reply is used once: a later round has it unchanged or not at all.
abbrev IsRest : Option Text → Option Text → Type 0
IsRest given left = (left ≡ none) ⊎ (left ≡ given)

answered-IsRest :
    (cursor : Text) (o : Option Text) (given : Option Text) (more : List FlowAction)
    (c p : Option Text)
    → answered cursor o ≡ move more c p
    → IsRest given p
unfolding answered
answered-IsRest cursor none given more c p e = cc
answered-IsRest cursor (some t) given more c p e = inl (ground arith)

round_at-IsRest :
    (cursor : Text) (o : Option FlowNode) (reply given : Option Text) (more : List FlowAction)
    (c p : Option Text)
    → IsRest given reply
    → round_at cursor o reply ≡ move more c p
    → IsRest given p
unfolding round_at run_node
round_at-IsRest cursor none reply given more c p h e = cc
round_at-IsRest cursor (some (message t n)) reply given more c p h e = ground arith
round_at-IsRest cursor (some (add_tag t n)) reply given more c p h e = ground arith
round_at-IsRest cursor (some (assign_team t n)) reply given more c p h e = ground arith
round_at-IsRest cursor (some end) reply given more c p h e = cc
round_at-IsRest cursor (some (question t b f)) none given more c p h e = cc
round_at-IsRest cursor (some (question t b f)) (some heard) given more c p h e =
    answered-IsRest cursor (choose heard b f) given more c p e

round-IsRest :
    (nodes : Nodes) (cursor reply given : Option Text) (more : List FlowAction) (c p : Option Text)
    → IsRest given reply
    → round nodes cursor reply ≡ move more c p
    → IsRest given p
unfolding round
round-IsRest nodes none reply given more c p h e = cc
round-IsRest nodes (some id) reply given more c p h e =
    round_at-IsRest id (lookup id nodes) reply given more c p h e

AwaitsReply-weaken :
    (given left : Option Text) (actions : List FlowAction) (node : FlowNode)
    → IsRest given left
    → AwaitsReply left actions node
    → AwaitsReply given actions node
AwaitsReply-weaken given left actions (question t b f) h (inl sent) = inl sent
AwaitsReply-weaken given left actions (question t b f) h (inr (heard, e, n)) =
    inr (heard, ground arith, n)
AwaitsReply-weaken given left actions (message t n) h a = elim a [ ]
AwaitsReply-weaken given left actions (add_tag t n) h a = elim a [ ]
AwaitsReply-weaken given left actions (assign_team t n) h a = elim a [ ]
AwaitsReply-weaken given left actions end h a = elim a [ ]

-- The node that a result waits at.
abbrev WaitsAtQuestion : Nodes → Option Text → FlowAdvanceResult → Type 0
WaitsAtQuestion nodes reply r =
    (id : Text)
    → r.outcome ≡ waiting id
    → (node : FlowNode) × (lookup id nodes ≡ some node) × AwaitsReply reply r.actions node

round-waiting :
    (nodes : Nodes) (cursor reply : Option Text) (actions more : List FlowAction) (id : Text)
    → round nodes cursor reply ≡ stop more (waiting id)
    → (node : FlowNode) × (lookup id nodes ≡ some node) × AwaitsReply reply (actions ++ more) node
unfolding round
round-waiting nodes none reply actions more id e = cc
round-waiting nodes (some c) reply actions more id e =
    let (node, same, found, awaits) = round_at-waiting c (lookup c nodes) reply actions more id e in
    (node, ap (λ k. lookup k nodes) (sym same) ∙ found, awaits)

-- A round's result keeps what its two cases keep.
resume_keeps :
    (P : FlowAdvanceResult → Type 0)
    (next : List FlowAction → Option Text → Option Text → FlowAdvanceResult)
    (actions : List FlowAction) (r : Round)
    → ((more : List FlowAction) (o : FlowOutcome)
        → r ≡ stop more o
        → P (record { actions = actions ++ more; outcome = o }))
    → ((more : List FlowAction) (c p : Option Text)
        → r ≡ move more c p
        → P (next (actions ++ more) c p))
    → P (resume next actions r)
unfolding resume
resume_keeps P next actions (stop more o) stops moves = stops more o refl
resume_keeps P next actions (move more c p) stops moves = moves more c p refl

loop-WaitsAtQuestion :
    (nodes : Nodes) (steps : ℕ) (actions : List FlowAction) (cursor reply given : Option Text)
    → IsRest given reply
    → WaitsAtQuestion nodes given (loop nodes steps actions cursor reply)
unfolding loop
loop-WaitsAtQuestion nodes zero actions cursor reply given h = λ id e. cc
loop-WaitsAtQuestion nodes (suc steps) actions cursor reply given h =
    resume_keeps (WaitsAtQuestion nodes given) (loop nodes steps) actions
      (round nodes (present cursor) reply)
      (λ more o e id at.
        let (node, found, awaits) =
          round-waiting nodes (present cursor) reply actions more id (e ∙ ap (stop more) at) in
        (node, found, AwaitsReply-weaken given reply (actions ++ more) node h awaits))
      (λ more c p e.
        loop-WaitsAtQuestion nodes steps (actions ++ more) c p given
          (round-IsRest nodes (present cursor) reply given more c p h e))

-- An advance that waits does so at a question of the definition. Either its text is the last that
-- was sent, or the customer's reply was put to it, fits none of its branches, and it has no fallback.
pub advance_flow-waiting :
    (d : FlowDefinition) (current : Text) (reply : Option Text) (id : Text)
    → (advance_flow d current reply).outcome ≡ waiting id
    → (node : FlowNode) × (lookup id d.nodes ≡ some node)
      × AwaitsReply reply (advance_flow d current reply).actions node
unfolding advance_flow
advance_flow-waiting d current reply id e =
    loop-WaitsAtQuestion d.nodes step_cap [] (some current) reply reply (inr refl) id e
