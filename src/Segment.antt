-- ===== src/Segment.antt =====
-- services/api-gateway/src/segment-definition.ts: the definition of an audience that arrives over the API.
-- The messages are constructors.
pub mod Accepted
pub mod Tests
use hy_fib_wa_app.Prelude.Slices.{split_on}
use hy_fib_wa_app.Prelude.{
  ℕ, Bool, true, false, not, ◌&&◌, ◌||◌, List, [], ◌∷◌, Option, none, some, Text, codes, text_eq,
  any, all, length, leb, ltb, ◌==◌, if◌then◌else◌,
}
use hy_fib_wa_app.Flow.Json.{
  Json, Items, Members, null, bool, num, str, arr, obj, items, entries, get_member,
}

pub record CampaignClause : Type 0 where
  pub id : Text
  pub statuses : Option (List Text)
  pub clicked : Option Bool

pub record SegmentDefinition : Type 0 where
  pub tags : Option (List Text)
  pub country : Option Text
  pub has_consent : Option Bool
  pub opted_in_only : Option Bool
  pub campaign : Option CampaignClause

pub data SegmentError : Type 0 where
  not_an_object unknown_key bad_tags bad_country bad_flag : SegmentError
  campaign_not_an_object unknown_campaign_key bad_campaign_id bad_statuses bad_clicked :
      SegmentError

pub data Checked (A : Type 0) : Type 0 where
  good : A → Checked A
  bad : SegmentError → Checked A

infixl 20 ◌>>=◌
unfoldable pub ◌>>=◌ : {A B : Type 0} → Checked A → (A → Checked B) → Checked B
good a >>= f = f a
bad error >>= f = bad error

unfoldable pub known_keys : List Text
known_keys =
    codes "tags"
    ∷ codes "country"
    ∷ codes "hasConsent"
    ∷ codes "optedInOnly"
    ∷ codes "campaign"
    ∷ []

unfoldable pub campaign_keys : List Text
campaign_keys = codes "id" ∷ codes "statuses" ∷ codes "clicked" ∷ []

unfoldable pub recipient_statuses : List Text
recipient_statuses =
    codes "pending"
    ∷ codes "policy_skipped"
    ∷ codes "sent"
    ∷ codes "delivered"
    ∷ codes "read"
    ∷ codes "failed"
    ∷ codes "cancelled"
    ∷ []

abbrev pub max_tags : ℕ
max_tags = 50

abbrev pub max_text : ℕ
max_text = 100

abbrev pub is_one_of : List Text → Text → Bool
is_one_of set s = any (λ known. text_eq known s) set

is_hex : ℕ → Bool
is_hex c = (leb b'0' c && leb c b'9') || (leb b'a' c && leb c b'f') || (leb b'A' c && leb c b'F')

is_group : (digits : ℕ) → Text → Bool
unfolding is_hex
is_group digits s = length s == digits && all is_hex s

is_uuid_parts : List Text → Bool
unfolding is_group
is_uuid_parts (a ∷ b ∷ c ∷ d ∷ e ∷ []) =
    is_group 8 a && is_group 4 b && is_group 4 c && is_group 4 d && is_group 12 e
is_uuid_parts _ = false

-- `UUID_RE`
unfoldable pub is_uuid : Text → Bool
unfolding is_uuid_parts split_on
is_uuid s = is_uuid_parts (split_on b'-' s)

-- A text of 1 to 100 units.
abbrev pub is_short : Text → Bool
is_short s = leb 1 (length s) && leb (length s) max_text

-- The texts of an array, if all its items are texts that pass a test.
unfoldable pub texts_of : (test : Text → Bool) → List Json → Option (List Text)
texts_of test [] = some []
texts_of test (str s ∷ vs) =
    let rest = texts_of test vs in
    if test s then (elim rest [ none ↦ none | some texts ↦ some (s ∷ texts) ]) else none
texts_of test (v ∷ vs) = none

abbrev pub given_texts :
    (fits : List Text → Bool) → SegmentError → Option (List Text) → Checked (Option (List Text))
given_texts fits error none = bad error
given_texts fits error (some texts) = if fits texts then good (some texts) else bad error

unfoldable pub check_texts :
    (test : Text → Bool)
    → (fits : List Text → Bool) → SegmentError
    → Option Json
    → Checked (Option (List Text))
unfolding texts_of
check_texts test fits error none = good none
check_texts test fits error (some (arr vs)) = given_texts fits error (texts_of test (items vs))
check_texts test fits error (some v) = bad error

unfoldable pub check_flag : SegmentError → Option Json → Checked (Option Bool)
check_flag error none = good none
check_flag error (some (bool b)) = good (some b)
check_flag error (some v) = bad error

unfoldable pub check_country : Option Json → Checked (Option Text)
check_country none = good none
check_country (some (str s)) = if is_short s then good (some s) else bad bad_country
check_country (some v) = bad bad_country

unfoldable pub check_id : Option Json → Checked Text
check_id (some (str s)) = if is_uuid s then good s else bad bad_campaign_id
check_id _ = bad bad_campaign_id

unfoldable pub check_keys :
    (known : List Text) → SegmentError → List (Text × Json) → Checked (Unit {0})
check_keys known error [] = good tt
check_keys known error ((key, v) ∷ more) =
    let rest = check_keys known error more in if is_one_of known key then rest else bad error

abbrev pub few_tags : List Text → Bool
few_tags texts = leb (length texts) max_tags

abbrev pub some_statuses : List Text → Bool
some_statuses texts = leb 1 (length texts)

unfoldable pub check_clause : Members → Checked (Option CampaignClause)
unfolding check_keys check_id check_texts check_flag recipient_statuses campaign_keys
check_clause members =
    check_keys campaign_keys unknown_campaign_key (entries members) >>= λ checked.
    check_id (get_member (codes "id") members) >>= λ id.
    check_texts (is_one_of recipient_statuses) some_statuses bad_statuses
      (get_member (codes "statuses") members)
    >>= λ statuses. check_flag bad_clicked (get_member (codes "clicked") members) >>= λ clicked.
        good (some (record { id = id; statuses = statuses; clicked = clicked }))

unfoldable pub check_campaign : Option Json → Checked (Option CampaignClause)
unfolding check_clause
check_campaign none = good none
check_campaign (some (obj members)) = check_clause members
check_campaign (some v) = bad campaign_not_an_object

unfoldable pub no_definition : SegmentDefinition
no_definition = record {
  tags = none;
  country = none;
  has_consent = none;
  opted_in_only = none;
  campaign = none;
}

unfoldable pub check_definition : Members → Checked SegmentDefinition
unfolding check_keys check_texts check_country check_flag check_campaign known_keys
check_definition members = check_keys known_keys unknown_key (entries members) >>= λ checked.
    check_texts is_short few_tags bad_tags (get_member (codes "tags") members) >>= λ tags.
    check_country (get_member (codes "country") members) >>= λ country.
    check_flag bad_flag (get_member (codes "hasConsent") members) >>= λ has_consent.
    check_flag bad_flag (get_member (codes "optedInOnly") members) >>= λ opted_in_only.
    check_campaign (get_member (codes "campaign") members) >>= λ campaign. good (record {
      tags = tags;
      country = country;
      has_consent = has_consent;
      opted_in_only = opted_in_only;
      campaign = campaign;
    })

unfoldable pub validate_segment_definition : Option Json → Checked SegmentDefinition
unfolding check_definition no_definition
validate_segment_definition none = good no_definition
validate_segment_definition (some (obj members)) = check_definition members
validate_segment_definition (some v) = bad not_an_object
