-- ===== src/Csv.antt =====
-- services/api-gateway/src/csv.ts: the reading of a CSV line, and the lines of the two exports.
pub mod RoundTrip
pub mod Import
pub mod Tests
use hy_fib_wa_app.Prelude.{
  ℕ, Bool, true, false, ◌||◌, List, [], ◌∷◌, ◌++◌, map, Option, none, some, Text, codes, any, ◌==◌,
  if◌then◌else◌,
}

-- The loop of `parseCsvLine`: the fields so far, `cur` and `inQuote`.
pub scan : List Text → Text → Bool → Text → List Text
scan fields cur in_quote [] = fields ++ cur ∷ []
scan fields cur true (ch ∷ []) =
    let closed = scan fields cur false [] in
    let plain = scan fields (cur ++ ch ∷ []) true [] in if ch == b'"' then closed else plain
scan fields cur true (ch ∷ ch' ∷ line) =
    let escaped = scan fields (cur ++ b'"' ∷ []) true line in
    let closed = scan fields cur false (ch' ∷ line) in
    let plain = scan fields (cur ++ ch ∷ []) true (ch' ∷ line) in
    if ch == b'"' then if ch' == b'"' then escaped else closed else plain
scan fields cur false (ch ∷ line) =
    let quoted = scan fields cur true line in
    let next = scan (fields ++ cur ∷ []) [] false line in
    let plain = scan fields (cur ++ ch ∷ []) false line in
    if ch == b'"' then quoted else if ch == b',' then next else plain

pub parse_csv_line : Text → List Text
parse_csv_line line = scan [] [] false line

-- `s.replace(/"/g, '""')`
pub escape : Text → Text
escape [] = []
escape (c ∷ s) = if c == b'"' then b'"' ∷ b'"' ∷ escape s else c ∷ escape s

-- `/[",\n\r]/.test(s)`
pub needs_quotes : Text → Bool
needs_quotes s = any (λ c. c == b'"' || c == b',' || c == 10 || c == 13) s

pub quote : Text → Text
quote s = if needs_quotes s then b'"' ∷ (escape s ++ b'"' ∷ []) else s

pub csv_cell : Option Text → Text
csv_cell none = quote []
csv_cell (some s) = quote s

-- `xs.join(separator)`
unfoldable pub join : Text → List Text → Text
join separator [] = []
join separator (x ∷ []) = x
join separator (x ∷ y ∷ xs) = x ++ (separator ++ join separator (y ∷ xs))

pub record ExportableContact : Type 0 where
  pub phone_e164 : Text
  pub first_name : Option Text
  pub last_name : Option Text
  pub country : Option Text
  pub timezone : Option Text
  pub tags : List Text
  pub opted_out : Bool

pub contact_cells : ExportableContact → List Text
contact_cells c =
    csv_cell (some c.phone_e164)
    ∷ csv_cell c.first_name
    ∷ csv_cell c.last_name
    ∷ csv_cell c.country
    ∷ csv_cell c.timezone
    ∷ csv_cell (some (join (codes "|") c.tags))
    ∷ (if c.opted_out then codes "false" else codes "true")
    ∷ []

pub contact_line : ExportableContact → Text
contact_line c = join (codes ",") (contact_cells c)

pub serialize_contacts_csv : List ExportableContact → Text
serialize_contacts_csv contacts = join (10 ∷ []) (
    codes "phone_e164,first_name,last_name,country,timezone,tags,consent"
    ∷ map contact_line contacts)

pub record ExportableCampaignRecipient : Type 0 where
  pub phone_e164 : Text
  pub status : Text
  pub error : Option Text
  pub skip_reason : Option Text
  pub sent_at : Option Text
  pub delivered_at : Option Text
  pub read_at : Option Text
  pub external_message_id : Option Text

pub recipient_cells : ExportableCampaignRecipient → List Text
recipient_cells r =
    csv_cell (some r.phone_e164)
    ∷ csv_cell (some r.status)
    ∷ csv_cell r.error
    ∷ csv_cell r.skip_reason
    ∷ csv_cell r.sent_at
    ∷ csv_cell r.delivered_at
    ∷ csv_cell r.read_at
    ∷ csv_cell r.external_message_id
    ∷ []

pub recipient_line : ExportableCampaignRecipient → Text
recipient_line r = join (codes ",") (recipient_cells r)

pub serialize_campaign_recipients_csv : List ExportableCampaignRecipient → Text
serialize_campaign_recipients_csv recipients = join (10 ∷ []) (
    codes "phone_e164,status,error,skip_reason,sent_at,delivered_at,read_at,external_message_id"
    ∷ map recipient_line recipients)
