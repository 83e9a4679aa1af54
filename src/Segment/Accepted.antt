-- ===== src/Segment/Accepted.antt =====
-- What services/api-gateway/src/segment-definition.ts accepts.
use hy_fib_wa_app.Prelude.{
  ◌≡◌, ◌≤◌, refl, sym, subst, Bool, true, List, [], ◌∷◌, Option, none, some, Text, codes, arith,
  length, All, All_mono, Bool-cases, Option-cases, inl, inr,
}
use hy_fib_wa_app.Flow.Json.{Json, Members, null, bool, num, str, arr, obj, items, get_member}
use hy_fib_wa_app.Segment.{
  check_campaign, no_definition, check_definition, validate_segment_definition,
}
use hy_fib_wa_app.Segment.{
  ◌>>=◌, CampaignClause, SegmentDefinition, SegmentError, Checked, ◌>>=◌, recipient_statuses,
  max_tags, max_text, is_one_of, is_uuid, is_short, texts_of, given_texts, check_texts,
  check_country, check_id, few_tags, some_statuses, check_clause, bad_tags, bad_statuses, good, bad,
}

>>=-good :
    {A B : Type 0} (m : Checked A) (f : A → Checked B) (b : B)
    → (m >>= f) ≡ good b
    → (a : A) × (m ≡ good a) × (f a ≡ good b)
unfolding ◌>>=◌
>>=-good (good a) f b h = (a, refl, h)
>>=-good (bad error) f b h = cc

abbrev pub IsShort : Text → Type 0
IsShort s = (1 ≤ length s) × (length s ≤ max_text)

abbrev pub IsStatus : Text → Type 0
IsStatus s = is_one_of recipient_statuses s ≡ true

abbrev pub AreTags : Option (List Text) → Type 0
AreTags none = Unit
AreTags (some tags) = (length tags ≤ max_tags) × All IsShort tags

abbrev pub AreStatuses : Option (List Text) → Type 0
AreStatuses none = Unit
AreStatuses (some statuses) = (1 ≤ length statuses) × All IsStatus statuses

abbrev pub IsCountry : Option Text → Type 0
IsCountry none = Unit
IsCountry (some country) = IsShort country

abbrev pub IsClause : Option CampaignClause → Type 0
IsClause none = Unit
IsClause (some clause) = (is_uuid clause.id ≡ true) × AreStatuses clause.statuses

pub record IsSegment (definition : SegmentDefinition) : Type 0 where
  pub tags : AreTags definition.tags
  pub country : IsCountry definition.country
  pub campaign : IsClause definition.campaign

texts_of-All :
    (test : Text → Bool) (vs : List Json) (texts : List Text)
    → texts_of test vs ≡ some texts
    → All (λ s. test s ≡ true) texts
unfolding texts_of
texts_of-All test [] texts h =
    let same : [] ≡ texts = cc in subst (All (λ s. test s ≡ true)) same tt
texts_of-All test (str s ∷ vs) texts h = elim (Bool-cases (test s)) [
  | inr n ↦ absurd (refused (rw (n, texts_of) at h))
  | inl y ↦ elim (Option-cases (texts_of test vs)) [
    | inl e ↦ absurd (refused (rw (y, e, texts_of) at h))
    | inr (rest, e) ↦
        let same : s ∷ rest ≡ texts = cc (rw (y, e, texts_of) at h) in
        subst (All (λ s. test s ≡ true)) same (y, texts_of-All test vs rest e)
  ]
]
  where
    refused : {texts : List Text} → ◌≡◌ {A = Option (List Text)} none (some texts) → ⊥
    refused e = cc
texts_of-All test (null ∷ vs) texts h = cc
texts_of-All test (bool b ∷ vs) texts h = cc
texts_of-All test (num n ∷ vs) texts h = cc
texts_of-All test (arr i ∷ vs) texts h = cc
texts_of-All test (obj m ∷ vs) texts h = cc

given_texts-fit :
    (fits : List Text → Bool) (error : SegmentError) (o : Option (List Text))
    (result : Option (List Text))
    → given_texts fits error o ≡ good result
    → (texts : List Text) × (o ≡ some texts) × (result ≡ some texts) × (fits texts ≡ true)
given_texts-fit fits error none result h = cc
given_texts-fit fits error (some texts) result h = (texts, refl, ground arith, ground arith)

-- What is said of the texts of an array that is accepted, for a predicate on such arrays.
check_texts-fit :
    (P : Option (List Text) → Type 0) (test : Text → Bool) (fits : List Text → Bool)
    (error : SegmentError) (o : Option Json) (result : Option (List Text))
    → P none
    → ((texts : List Text) → fits texts ≡ true → All (λ s. test s ≡ true) texts → P (some texts))
    → check_texts test fits error o ≡ good result
    → P result
unfolding check_texts
check_texts-fit P test fits error none result p q h =
    let same : none ≡ result = cc in subst P same p
check_texts-fit P test fits error (some (arr vs)) result p q h =
    let (texts, read, same, fit) = given_texts-fit fits error (texts_of test (items vs)) result h in
    subst P (sym same) (q texts fit (texts_of-All test (items vs) texts read))
check_texts-fit P test fits error (some null) result p q h = cc
check_texts-fit P test fits error (some (bool b)) result p q h = cc
check_texts-fit P test fits error (some (num n)) result p q h = cc
check_texts-fit P test fits error (some (str s)) result p q h = cc
check_texts-fit P test fits error (some (obj m)) result p q h = cc

IsShort-of_test : (s : Text) → is_short s ≡ true → IsShort s
IsShort-of_test s h = (ground arith, ground arith)

tags_fit :
    (o : Option Json) (result : Option (List Text))
    → check_texts is_short few_tags bad_tags o ≡ good result
    → AreTags result
tags_fit o result h =
    check_texts-fit AreTags is_short few_tags bad_tags o result tt
      (λ texts fit short. (ground arith, All_mono _ IsShort IsShort-of_test texts short)) h

statuses_fit :
    (o : Option Json) (result : Option (List Text))
    → check_texts (is_one_of recipient_statuses) some_statuses bad_statuses o ≡ good result
    → AreStatuses result
statuses_fit o result h =
    check_texts-fit AreStatuses (is_one_of recipient_statuses) some_statuses bad_statuses o result
      tt (λ texts fit known. (ground arith, known)) h

check_country-IsCountry :
    (o : Option Json) (result : Option Text) → check_country o ≡ good result → IsCountry result
unfolding check_country
check_country-IsCountry none result h = let same : none ≡ result = cc in subst IsCountry same tt
check_country-IsCountry (some (str s)) result h =
    let short : is_short s ≡ true = ground arith in
    let same : some s ≡ result = ground arith in subst IsCountry same (IsShort-of_test s short)
check_country-IsCountry (some null) result h = cc
check_country-IsCountry (some (bool b)) result h = cc
check_country-IsCountry (some (num n)) result h = cc
check_country-IsCountry (some (arr i)) result h = cc
check_country-IsCountry (some (obj m)) result h = cc

check_id-is_uuid : (o : Option Json) (id : Text) → check_id o ≡ good id → is_uuid id ≡ true
unfolding check_id
check_id-is_uuid none id h = cc
check_id-is_uuid (some (str s)) id h =
    let good_id : is_uuid s ≡ true = ground arith in
    let same : s ≡ id = ground arith in subst (λ t. is_uuid t ≡ true) same good_id
check_id-is_uuid (some null) id h = cc
check_id-is_uuid (some (bool b)) id h = cc
check_id-is_uuid (some (num n)) id h = cc
check_id-is_uuid (some (arr i)) id h = cc
check_id-is_uuid (some (obj m)) id h = cc

check_clause-IsClause :
    (members : Members) (result : Option CampaignClause)
    → check_clause members ≡ good result
    → IsClause result
unfolding check_clause
check_clause-IsClause members result h =
    let (checked, k, h1) = >>=-good _ _ result h in
    let (id, i, h2) = >>=-good _ _ result h1 in
    let (statuses, s, h3) = >>=-good _ _ result h2 in
    let (clicked, c, h4) = >>=-good _ _ result h3 in
    let same : some (record { id = id; statuses = statuses; clicked = clicked }) ≡ result = cc in
    subst IsClause same (
      check_id-is_uuid (get_member (codes "id") members) id i,
      statuses_fit (get_member (codes "statuses") members) statuses s,
    )

check_campaign-IsClause :
    (o : Option Json) (result : Option CampaignClause)
    → check_campaign o ≡ good result
    → IsClause result
unfolding check_campaign
check_campaign-IsClause none result h = let same : none ≡ result = cc in subst IsClause same tt
check_campaign-IsClause (some (obj members)) result h = check_clause-IsClause members result h
check_campaign-IsClause (some null) result h = cc
check_campaign-IsClause (some (bool b)) result h = cc
check_campaign-IsClause (some (num n)) result h = cc
check_campaign-IsClause (some (str s)) result h = cc
check_campaign-IsClause (some (arr i)) result h = cc

check_definition-IsSegment :
    (members : Members) (definition : SegmentDefinition)
    → check_definition members ≡ good definition
    → IsSegment definition
unfolding check_definition
check_definition-IsSegment members definition h =
    let (checked, k, h1) = >>=-good _ _ definition h in
    let (tags, t, h2) = >>=-good _ _ definition h1 in
    let (country, c, h3) = >>=-good _ _ definition h2 in
    let (has_consent, f, h4) = >>=-good _ _ definition h3 in
    let (opted_in_only, g, h5) = >>=-good _ _ definition h4 in
    let (campaign, p, h6) = >>=-good _ _ definition h5 in
    let found : SegmentDefinition = record {
      tags = tags;
      country = country;
      has_consent = has_consent;
      opted_in_only = opted_in_only;
      campaign = campaign;
    } in
    let same : found ≡ definition = cc in
    subst IsSegment same (record {
      tags = tags_fit (get_member (codes "tags") members) tags t;
      country = check_country-IsCountry (get_member (codes "country") members) country c;
      campaign = check_campaign-IsClause (get_member (codes "campaign") members) campaign p;
    })

-- A definition that the API accepts has 50 tags at most and a country, each of 1 to 100 units, and a
-- campaign with a UUID whose statuses, one or more, are those of a recipient, where it has these.
pub validate_segment_definition-IsSegment :
    (value : Option Json) (definition : SegmentDefinition)
    → validate_segment_definition value ≡ good definition
    → IsSegment definition
unfolding validate_segment_definition no_definition
validate_segment_definition-IsSegment none definition h =
    let same : no_definition ≡ definition = cc in
    subst IsSegment same (record { tags = tt; country = tt; campaign = tt })
validate_segment_definition-IsSegment (some (obj members)) definition h =
    check_definition-IsSegment members definition h
validate_segment_definition-IsSegment (some null) definition h = cc
validate_segment_definition-IsSegment (some (bool b)) definition h = cc
validate_segment_definition-IsSegment (some (num n)) definition h = cc
validate_segment_definition-IsSegment (some (str s)) definition h = cc
validate_segment_definition-IsSegment (some (arr i)) definition h = cc
