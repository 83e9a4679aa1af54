-- ===== src/Flow/Validation/Sound.antt =====
-- What packages/shared-core/src/flows.ts has established when validateFlowDefinition accepts.
use hy_fib_wa_app.Prelude.{
  ℕ, suc, ◌≤◌, ◌≡◌, refl, ap, true, List, [], ◌∷◌, Option, none, some, arith, Text, codes, text_eq,
  trim, length, ◌&&◌, All, Bool-cases, inl, inr, leb, subst,
}
use hy_fib_wa_app.Flow.{
  Branch, FlowNode, message, question, add_tag, assign_team, end, max_text, max_branches,
}
use hy_fib_wa_app.Flow.Json.{Json, null, str, arr, items, get}
use hy_fib_wa_app.Flow.Validation.{
  Why, Check, ok, fail, throws, ◌>>=◌, require, includes, usable, text_of, is_team_uuid, team_of,
  next_of, target_of, check_branch, check_branches, branches_of, check_message, check_question,
  check_add_tag, check_assign_team, check_type, check_node, bad_branches, max_text, bad_text,
  bad_next, bad_fallback, bad_tag, bad_match,
}

-- A check that goes on and returns had a first part that returned.
pub first_returned {ℓ κ} :
    {E : Type 0} {A : Type ℓ} {B : Type κ} (check : Check E A) (next : A → Check E B) {result : B}
    → (check >>= next) ≡ ok result
    → (value : A) × (check ≡ ok value) × (next value ≡ ok result)
first_returned throws next returned = cc
first_returned (fail reason) next returned = cc
first_returned (ok value) next returned = (value, refl, returned)

pub ok_keeps :
    {E A : Type 0} (P : A → Type 0) {a b : A} → ◌≡◌ {A = Check E A} (ok a) (ok b) → P a → P b
ok_keeps {E} {A} P {a} {b} e h = let same : a ≡ b = cc in subst P same h

abbrev pub IsUsable : ℕ → Text → Type 0
IsUsable most s = (1 ≤ length (trim s)) × (length s ≤ most)

-- A target that may be left out, among ids of which `P` holds.
abbrev pub IsEdge : (Text → Type 0) → Option Text → Type 0
IsEdge P none = Unit
IsEdge P (some t) = P t

abbrev pub IsGoodBranch : (Text → Type 0) → Branch → Type 0
IsGoodBranch P b = IsUsable 100 b.match × P b.next

-- A node whose texts are usable and whose targets satisfy `P`.
abbrev pub IsGoodNode : (Text → Type 0) → FlowNode → Type 0
IsGoodNode P (message text next) = IsUsable max_text text × IsEdge P next
IsGoodNode P (question text branches fallback) =
    IsUsable max_text text
    × (1 ≤ length branches)
    × (length branches ≤ max_branches)
    × All (IsGoodBranch P) branches
    × IsEdge P fallback
IsGoodNode P (add_tag tag next) = IsUsable 100 tag × IsEdge P next
IsGoodNode P (assign_team team next) = (length team ≡ 36) × IsEdge P next
IsGoodNode P end = Unit

usable-IsUsable : (most : ℕ) (s : Text) → usable most s ≡ true → IsUsable most s
unfolding usable
usable-IsUsable most s h = ground arith

text_of-IsUsable :
    (most : ℕ) (why : Why) (o : Option Json) {s : Text}
    → text_of most why o ≡ ok s
    → IsUsable most s
unfolding text_of
text_of-IsUsable most why (some (str t)) h = ground (arith, usable-IsUsable most t)
text_of-IsUsable most why o h = cc

module _ (ids : List Text) where
  abbrev pub Known : Text → Type 0
  Known t = includes ids t ≡ true

  next_of-IsEdge :
      (why : Why) (o : Option Json) {n : Option Text} → next_of ids why o ≡ ok n → IsEdge Known n
  unfolding next_of
  next_of-IsEdge why none h = ground arith
  next_of-IsEdge why (some (str t)) {n} h = ground arith
  next_of-IsEdge why (some v) h = cc

  target_of-Known : (o : Option Json) {t : Text} → target_of ids o ≡ ok t → Known t
  unfolding target_of
  target_of-Known (some (str t)) h = ground arith
  target_of-Known o h = cc

  check_branch-IsGoodBranch :
      (v : Json) {b : Branch} → check_branch ids v ≡ ok b → IsGoodBranch Known b
  unfolding check_branch
  check_branch-IsGoodBranch null h = cc
  check_branch-IsGoodBranch v {b} h =
      let (match, m, rest) = first_returned (text_of 100 bad_match (get (codes "match") v)) _ h in
      let (next, n, same) = first_returned (target_of ids (get (codes "next") v)) _ rest in
      ground (
        arith,
        text_of-IsUsable 100 bad_match (get (codes "match") v) m,
        target_of-Known (get (codes "next") v) n,
        same,
      )

  check_branches-All :
      (vs : List Json) {bs : List Branch}
      → check_branches ids vs ≡ ok bs
      → (length bs ≡ length vs) × All (IsGoodBranch Known) bs
  unfolding check_branches
  check_branches-All [] h =
      ok_keeps (λ (bs : List Branch). (length bs ≡ 0) × All (IsGoodBranch Known) bs) h (refl, tt)
  check_branches-All (v ∷ vs) h =
      let (b, first, more) = first_returned (check_branch ids v) _ h in
      let (rest, others, same) = first_returned (check_branches ids vs) _ more in
      let (same_length, good) = check_branches-All vs others in
      ok_keeps (λ (bs : List Branch). (length bs ≡ length (v ∷ vs)) × All (IsGoodBranch Known) bs)
        same (ap suc same_length, (check_branch-IsGoodBranch v first, good))

  branches_of-All :
      (o : Option Json) {bs : List Branch}
      → branches_of ids o ≡ ok bs
      → (1 ≤ length bs) × (length bs ≤ max_branches) × All (IsGoodBranch Known) bs
  unfolding branches_of
  branches_of-All (some (arr vs)) {bs} h =
      let (u, counted, more) =
        first_returned
          (require (leb 1 (length (items vs)) && leb (length (items vs)) max_branches) bad_branches)
          _ h in
      let (same, good) = check_branches-All (items vs) more in
      (ground (arith, same, counted), ground (arith, same, counted), good)
  branches_of-All o h = cc

  check_message-IsGoodNode :
      (v : Json) {n : FlowNode} → check_message ids v ≡ ok n → IsGoodNode Known n
  unfolding check_message
  check_message-IsGoodNode v h =
      let (text, t, more) = first_returned (text_of max_text bad_text (get (codes "text") v)) _ h in
      let (next, e, same) = first_returned (next_of ids bad_next (get (codes "next") v)) _ more in
      ok_keeps (IsGoodNode Known) same
        (text_of-IsUsable max_text bad_text _ t, next_of-IsEdge bad_next _ e)

  check_question-IsGoodNode :
      (v : Json) {n : FlowNode} → check_question ids v ≡ ok n → IsGoodNode Known n
  unfolding check_question
  check_question-IsGoodNode v h =
      let (text, t, more) = first_returned (text_of max_text bad_text (get (codes "text") v)) _ h in
      let (bs, b, last) = first_returned (branches_of ids (get (codes "branches") v)) _ more in
      let (next, e, same) =
        first_returned (next_of ids bad_fallback (get (codes "fallbackNext") v)) _ last in
      let (some_branch, few, good) = branches_of-All _ b in
      ok_keeps (IsGoodNode Known) same (
        text_of-IsUsable max_text bad_text _ t,
        some_branch,
        few,
        good,
        next_of-IsEdge bad_fallback _ e,
      )

  check_add_tag-IsGoodNode :
      (v : Json) {n : FlowNode} → check_add_tag ids v ≡ ok n → IsGoodNode Known n
  unfolding check_add_tag
  check_add_tag-IsGoodNode v h =
      let (text, t, more) = first_returned (text_of 100 bad_tag (get (codes "tag") v)) _ h in
      let (next, e, same) = first_returned (next_of ids bad_next (get (codes "next") v)) _ more in
      ok_keeps (IsGoodNode Known) same
        (text_of-IsUsable 100 bad_tag _ t, next_of-IsEdge bad_next _ e)

  team_of-length : (o : Option Json) {s : Text} → team_of o ≡ ok s → length s ≡ 36
  unfolding team_of is_team_uuid
  team_of-length (some (str t)) h = ground arith
  team_of-length o h = cc

  check_assign_team-IsGoodNode :
      (v : Json) {n : FlowNode} → check_assign_team ids v ≡ ok n → IsGoodNode Known n
  unfolding check_assign_team
  check_assign_team-IsGoodNode v h =
      let (id, t, more) = first_returned (team_of (get (codes "teamId") v)) _ h in
      let (next, e, same) = first_returned (next_of ids bad_next (get (codes "next") v)) _ more in
      ok_keeps (IsGoodNode Known) same (team_of-length _ t, next_of-IsEdge bad_next _ e)

  check_type-IsGoodNode :
      (v : Json) (type : Option Json) {n : FlowNode}
      → check_type ids v type ≡ ok n
      → IsGoodNode Known n
  unfolding check_type
  check_type-IsGoodNode v (some (str type)) {n} h =
      elim (Bool-cases (text_eq type (codes "message"))) [
        | inl y ↦ check_message-IsGoodNode v (rw y at h)
        | inr n1 ↦ elim (Bool-cases (text_eq type (codes "question"))) [
          | inl y ↦ check_question-IsGoodNode v (rw (n1, y) at h)
          | inr n2 ↦ elim (Bool-cases (text_eq type (codes "add_tag"))) [
            | inl y ↦ check_add_tag-IsGoodNode v (rw (n1, n2, y) at h)
            | inr n3 ↦ elim (Bool-cases (text_eq type (codes "assign_team"))) [
              | inl y ↦ check_assign_team-IsGoodNode v (rw (n1, n2, n3, y) at h)
              | inr n4 ↦ elim (Bool-cases (text_eq type (codes "end"))) [
                | inl y ↦ ok_keeps (IsGoodNode Known) (rw (n1, n2, n3, n4, y) at h) tt
                | inr n5 ↦ let none_fits = rw (n1, n2, n3, n4, n5) at h in cc
              ]
            ]
          ]
        ]
      ]
  check_type-IsGoodNode v type h = cc

  pub check_node-IsGoodNode :
      (v : Json) {n : FlowNode} → check_node ids v ≡ ok n → IsGoodNode Known n
  unfolding check_node
  check_node-IsGoodNode null h = cc
  check_node-IsGoodNode v h = check_type-IsGoodNode v (get (codes "type") v) h
