-- ===== src/Flow/Validation/WellFormed.antt =====
-- An accepted flow definition (packages/shared-core/src/flows.ts) is well formed.
use hy_fib_wa_app.Prelude.{
  suc, ◌≤◌, ◌≡◌, refl, sym, ◌∙◌, ap, subst, ◌≢◌, ◌&&◌, List, [], ◌∷◌, map, Option, none, some,
  arith, Text, codes, text_eq, length, All, Bool-cases, inl, inr, leb,
}
use hy_fib_wa_app.Flow.{
  Branch, FlowNode, message, question, add_tag, assign_team, end, Nodes, FlowDefinition, lookup,
  flow_max_nodes,
}
use hy_fib_wa_app.Flow.Json.{Json, str, obj, get_member}
use hy_fib_wa_app.Flow.Validation.{
  Check, ok, fail, throws, require, includes, check_node, named, check_nodes, keys, start_of,
  check_definition, check_object, validate_flow_definition, node_count,
}
use hy_fib_wa_app.Flow.Validation.Sound.{
  first_returned, ok_keeps, IsEdge, IsGoodBranch, IsGoodNode, Known, check_node-IsGoodNode,
}

module _ {P Q : Text → Type 0} (keep : (t : Text) → P t → Q t) where
  IsEdge-mono : (o : Option Text) → IsEdge P o → IsEdge Q o
  IsEdge-mono none h = tt
  IsEdge-mono (some t) h = keep t h

  branches_mono : (bs : List Branch) → All (IsGoodBranch P) bs → All (IsGoodBranch Q) bs
  branches_mono [] h = tt
  branches_mono (b ∷ bs) ((u, t), h) = ((u, keep b.next t), branches_mono bs h)

  IsGoodNode-mono : (n : FlowNode) → IsGoodNode P n → IsGoodNode Q n
  IsGoodNode-mono (message t o) (u, e) = (u, IsEdge-mono o e)
  IsGoodNode-mono (question t bs o) (u, l, m, b, e) = (u, l, m, branches_mono bs b, IsEdge-mono o e)
  IsGoodNode-mono (add_tag t o) (u, e) = (u, IsEdge-mono o e)
  IsGoodNode-mono (assign_team t o) (u, e) = (u, IsEdge-mono o e)
  IsGoodNode-mono end h = tt

  nodes_mono :
      (nodes : Nodes) → All (λ n. IsGoodNode P n.1) nodes → All (λ n. IsGoodNode Q n.1) nodes
  nodes_mono [] h = tt
  nodes_mono ((id, n) ∷ nodes) (g, h) = (IsGoodNode-mono n g, nodes_mono nodes h)

abbrev pub IsNode : Nodes → Text → Type 0
IsNode nodes id = lookup id nodes ≢ none

-- Every target names a node, and every text is within its bounds.
pub record IsWellFormed (d : FlowDefinition) : Type 0 where
  pub some_node : 1 ≤ length d.nodes
  pub few_nodes : length d.nodes ≤ flow_max_nodes
  pub start : IsNode d.nodes d.start
  pub nodes : All (λ n. IsGoodNode (IsNode d.nodes) n.1) d.nodes

ids_of : Nodes → List Text
ids_of nodes = map (λ n. n.0) nodes

named-ok : (id : Text) (c : Check _ FlowNode) {n : FlowNode} → named id c ≡ ok n → c ≡ ok n
unfolding named
named-ok id (ok m) h = ground arith
named-ok id (fail w) h = cc
named-ok id throws h = cc

check_nodes-All :
    (ids : List Text) (vs : List (Text × Json)) {nodes : Nodes}
    → check_nodes ids vs ≡ ok nodes
    → (ids_of nodes ≡ keys vs) × All (λ n. IsGoodNode (Known ids) n.1) nodes
unfolding check_nodes ids_of keys
check_nodes-All ids [] h =
    ok_keeps (λ (ns : Nodes). (ids_of ns ≡ []) × All (λ n. IsGoodNode (Known ids) n.1) ns) h
      (refl, tt)
check_nodes-All ids ((id, v) ∷ vs) h =
    let (n, first, more) = first_returned (named id (check_node ids v)) _ h in
    let (rest, others, same) = first_returned (check_nodes ids vs) _ more in
    let (same_ids, good) = check_nodes-All ids vs others in
    ok_keeps
      (λ (ns : Nodes). (ids_of ns ≡ keys ((id, v) ∷ vs)) × All (λ n. IsGoodNode (Known ids) n.1) ns)
      same (ap (λ t. id ∷ t) same_ids, (check_node-IsGoodNode ids v (named-ok id _ first), good))

IsNode_of_Known : (nodes : Nodes) (t : Text) → Known (ids_of nodes) t → IsNode nodes t
unfolding ids_of includes lookup
IsNode_of_Known [] t h = cc
IsNode_of_Known ((id, n) ∷ nodes) t h = elim (Bool-cases (text_eq id t)) [
  | inl y ↦ ground arith
  | inr n ↦ ground (arith, IsNode_of_Known nodes t)
]

length-ids_of : (nodes : Nodes) → length (ids_of nodes) ≡ length nodes
unfolding ids_of
length-ids_of [] = refl
length-ids_of (n ∷ nodes) = ap suc (length-ids_of nodes)

start_of-Known :
    (ids : List Text) (o : Option Json) {s : Text} → start_of ids o ≡ ok s → Known ids s
unfolding start_of
start_of-Known ids (some (str t)) h = ground arith
start_of-Known ids o h = cc

check_definition-IsWellFormed :
    (given : Option Json) (vs : List (Text × Json)) {d : FlowDefinition}
    → check_definition given vs ≡ ok d
    → IsWellFormed d
unfolding check_definition
check_definition-IsWellFormed given vs h =
    let (u, counted, more) =
      first_returned
        (require (leb 1 (length (keys vs)) && leb (length (keys vs)) flow_max_nodes) node_count) _
        h in
    let (start, s, last) = first_returned (start_of (keys vs) given) _ more in
    let (nodes, c, same) = first_returned (check_nodes (keys vs) vs) _ last in
    let (ids, good) = check_nodes-All (keys vs) vs c in
    let known = λ (t : Text) (k : Known (keys vs) t).
      IsNode_of_Known nodes t (subst (λ i. Known i t) (sym ids) k) in
    let counts = sym (length-ids_of nodes) ∙ ap length ids in
    ok_keeps IsWellFormed same (record {
      some_node = ground (arith, counts, counted);
      few_nodes = ground (arith, counts, counted);
      start = known start (start_of-Known (keys vs) given s);
      nodes = nodes_mono known nodes good;
    })

-- A value that the validation accepts is a well-formed definition: 1 to 50 nodes, a start and edges
-- that name nodes, texts that are neither blank nor too long, 1 to 10 branches to a question.
pub validate_flow_definition-IsWellFormed :
    (v : Json) (d : FlowDefinition) → validate_flow_definition v ≡ ok d → IsWellFormed d
unfolding validate_flow_definition check_object
validate_flow_definition-IsWellFormed (obj m) d h =
    elim (get_member (codes "nodes") m) as (λ o. check_object m o ≡ ok d → IsWellFormed d) [
      | some (obj nodes) ↦ λ e. check_definition-IsWellFormed _ _ e
      | _ ↦ λ e. cc
    ]
      h
validate_flow_definition-IsWellFormed v d h = cc
