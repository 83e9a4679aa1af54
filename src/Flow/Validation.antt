-- ===== src/Flow/Validation.antt =====
-- packages/shared-core/src/flows.ts, validateFlowDefinition: a parsed JSON value is taken for a flow
-- definition, refused with the node and the reason, or makes the code throw. Reading a property of
-- null throws; the messages are constructors.
pub mod Sound
pub mod WellFormed
pub mod Tests
use hy_fib_wa_app.Prelude.{
  ℕ, suc, ◌≡◌, Bool, true, false, not, ◌&&◌, ◌||◌, List, [], ◌∷◌, map, Option, none, some, Text,
  codes, text_eq, trim, length, any, all, ltb, leb, ◌==◌, if◌then◌else◌,
}
use hy_fib_wa_app.Flow.{
  Branch, FlowNode, message, question, add_tag, assign_team, end, Nodes, FlowDefinition,
  flow_max_nodes, max_text, max_branches,
}
use hy_fib_wa_app.Flow.Json.{Json, null, str, arr, obj, Members, items, entries, get_member, get}

pub data Why : Type 0 where
  bad_text bad_next bad_branches bad_match bad_branch_target bad_fallback bad_tag : Why
  bad_team unknown_type : Why

pub data FlowError : Type 0 where
  not_an_object nodes_not_an_object node_count no_start : FlowError
  at_node : Text → Why → FlowError

-- A check returns, fails with an error, or throws.
pub data Check {ℓ κ} (E : Type κ) (A : Type ℓ) : Type (ℓ ⊔ κ) where
  ok : A → Check E A
  fail : E → Check E A
  throws : Check E A

-- Goes on with the value of a check that returns.
infixl 5 ◌>>=◌
abbrev pub ◌>>=◌ {ℓ μ κ} :
    {E : Type κ} {A : Type ℓ} {B : Type μ} → Check E A → (A → Check E B) → Check E B
throws >>= next = throws
fail reason >>= next = fail reason
ok value >>= next = next value

infixl 5 ◌>>◌
abbrev pub ◌>>◌ {κ ℓ} :
    {Reason : Type κ} {A : Type ℓ} → Check Reason (Unit {0}) → Check Reason A → Check Reason A
check >> later = check >>= (λ done. later)

abbrev pub require : {Reason : Type 0} → Bool → Reason → Check Reason (Unit {0})
require false reason = fail reason
require true reason = ok tt

-- `ids.includes(target)`
pub includes : List Text → Text → Bool
includes ids target = any (λ id. text_eq id target) ids

is_blank : Text → Bool
is_blank s = length (trim s) == 0

-- A text of at most `most` units that is not blank.
pub usable : ℕ → Text → Bool
unfolding is_blank
usable most s = not (is_blank s) && leb (length s) most

text_of : ℕ → Why → Option Json → Check Why Text
text_of most why (some (str s)) = if usable most s then ok s else fail why
text_of most why _ = fail why

-- `/^[0-9a-f-]{36}$/i`
is_uuid_unit : ℕ → Bool
is_uuid_unit c =
    (leb b'0' c && leb c b'9')
    || (leb b'a' c && leb c b'f')
    || (leb b'A' c && leb c b'F')
    || c == b'-'

pub is_team_uuid : Text → Bool
unfolding is_uuid_unit
is_team_uuid s = length s == 36 && all is_uuid_unit s

team_of : Option Json → Check Why Text
team_of (some (str s)) = if is_team_uuid s then ok s else fail bad_team
team_of _ = fail bad_team

-- An edge that may be left out.
next_of : List Text → Why → Option Json → Check Why (Option Text)
next_of ids why none = ok none
next_of ids why (some (str s)) = if includes ids s then ok (some s) else fail why
next_of ids why (some _) = fail why

target_of : List Text → Option Json → Check Why Text
target_of ids (some (str s)) = if includes ids s then ok s else fail bad_branch_target
target_of ids _ = fail bad_branch_target

check_branch : List Text → Json → Check Why Branch
check_branch ids null = throws
check_branch ids branch = do
  let given = get (codes "match") branch
  let aim = get (codes "next") branch
  match ← text_of 100 bad_match given
  next ← target_of ids aim
  ok (record { match = match; next = next })

check_branches : List Text → List Json → Check Why (List Branch)
check_branches ids [] = ok []
check_branches ids (b ∷ bs) = do
  branch ← check_branch ids b
  rest ← check_branches ids bs
  ok (branch ∷ rest)

branches_of : List Text → Option Json → Check Why (List Branch)
branches_of ids (some (arr vs)) = do
  require (leb 1 (length (items vs)) && leb (length (items vs)) max_branches) bad_branches
  check_branches ids (items vs)
branches_of ids _ = fail bad_branches

check_message : List Text → Json → Check Why FlowNode
check_message ids node = do
  text ← text_of max_text bad_text (get (codes "text") node)
  next ← next_of ids bad_next (get (codes "next") node)
  ok (message text next)

check_question : List Text → Json → Check Why FlowNode
check_question ids node = do
  text ← text_of max_text bad_text (get (codes "text") node)
  branches ← branches_of ids (get (codes "branches") node)
  fallback ← next_of ids bad_fallback (get (codes "fallbackNext") node)
  ok (question text branches fallback)

check_add_tag : List Text → Json → Check Why FlowNode
check_add_tag ids node = do
  tag ← text_of 100 bad_tag (get (codes "tag") node)
  next ← next_of ids bad_next (get (codes "next") node)
  ok (add_tag tag next)

check_assign_team : List Text → Json → Check Why FlowNode
check_assign_team ids node = do
  team ← team_of (get (codes "teamId") node)
  next ← next_of ids bad_next (get (codes "next") node)
  ok (assign_team team next)

-- The `switch` on `node.type`.
check_type : List Text → Json → Option Json → Check Why FlowNode
check_type ids node (some (str type)) =
    if text_eq type (codes "message")
    then check_message ids node
    else if text_eq type (codes "question")
    then check_question ids node
    else if text_eq type (codes "add_tag")
    then check_add_tag ids node
    else if text_eq type (codes "assign_team")
    then check_assign_team ids node
    else if text_eq type (codes "end")
    then ok end
    else fail unknown_type
check_type ids node _ = fail unknown_type

pub check_node : List Text → Json → Check Why FlowNode
check_node ids null = throws
check_node ids node = check_type ids node (get (codes "type") node)

named : Text → Check Why FlowNode → Check FlowError FlowNode
named id (ok node) = ok node
named id (fail why) = fail (at_node id why)
named id throws = throws

check_nodes : List Text → List (Text × Json) → Check FlowError Nodes
check_nodes ids [] = ok []
check_nodes ids ((id, v) ∷ vs) = do
  node ← named id (check_node ids v)
  rest ← check_nodes ids vs
  ok ((id, node) ∷ rest)

keys : List (Text × Json) → List Text
keys entries = map (λ e. e.0) entries

start_of : List Text → Option Json → Check FlowError Text
start_of ids (some (str s)) = if includes ids s then ok s else fail no_start
start_of ids _ = fail no_start

check_definition : Option Json → List (Text × Json) → Check FlowError FlowDefinition
check_definition given nodes = do
  require (leb 1 (length (keys nodes)) && leb (length (keys nodes)) flow_max_nodes) node_count
  start ← start_of (keys nodes) given
  checked ← check_nodes (keys nodes) nodes
  ok (record { start = start; nodes = checked })

check_object : Members → Option Json → Check FlowError FlowDefinition
check_object value (some (obj nodes)) =
    check_definition (get_member (codes "start") value) (entries nodes)
check_object value _ = fail nodes_not_an_object

pub validate_flow_definition : Json → Check FlowError FlowDefinition
validate_flow_definition (obj value) = check_object value (get_member (codes "nodes") value)
validate_flow_definition _ = fail not_an_object
