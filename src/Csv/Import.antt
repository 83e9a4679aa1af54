-- ===== src/Csv/Import.antt =====
-- services/api-gateway/src/csv.ts, parseCsv: the rows of an import, from the text of the file. Columns
-- and cells that are missing are none; the messages are constructors.
pub mod Bounds
pub mod Tests
use hy_fib_wa_app.Prelude.{
  ℕ, zero, suc, ◌+◌, Bool, true, false, not, ◌&&◌, List, [], ◌∷◌, ◌++◌, map, Option, none, some,
  Text, codes, text_eq, to_lower, trim, is_space, any, all, filter, length, take, leb, ◌==◌,
  if◌then◌else◌,
}
use hy_fib_wa_app.Csv.{parse_csv_line}

pub record ParsedCsvRow : Type 0 where
  pub phone_e164 : Text
  pub first_name : Option Text
  pub last_name : Option Text
  pub country : Option Text
  pub timezone : Option Text
  pub tags : Option (List Text)
  pub consent : Option Bool

pub data CsvError : Type 0 where
  csv_is_empty no_phone_column truncated : CsvError
  phone_is_empty : (row : ℕ) → CsvError
  not_e164 : (row : ℕ) → Text → CsvError

pub record ParsedCsv : Type 0 where
  pub rows : List ParsedCsvRow
  pub errors : List CsvError

abbrev pub max_csv_rows : ℕ
max_csv_rows = 50_000

abbrev pub max_tag_length : ℕ
max_tag_length = 100

abbrev is_line_feed : Text → Bool
is_line_feed [] = false
is_line_feed (c ∷ s) = c == 10

-- `text.split(/\r?\n/)`, with the line so far.
pub split_lines : Text → Text → List Text
split_lines cur [] = cur ∷ []
split_lines cur (c ∷ s) =
    let broken = cur ∷ split_lines [] s in
    let dropped = split_lines cur s in
    let kept = split_lines (cur ++ c ∷ []) s in
    if c == 10 then broken else if c == 13 && is_line_feed s then dropped else kept

abbrev pub is_present : Text → Bool
is_present s = leb 1 (length s)

-- `s.replace(/\s+/g, "_")`; the flag tells that the unit before is white space.
pub underscores : Bool → Text → Text
underscores spaced [] = []
underscores spaced (c ∷ s) =
    let in_run = underscores true s in
    let after = underscores false s in
    if is_space c then (if spaced then in_run else b'_' ∷ in_run) else c ∷ after

pub header_name : Text → Text
header_name h = underscores false (to_lower (trim h))

abbrev next_index : Option ℕ → Option ℕ
next_index none = none
next_index (some i) = some (suc i)

-- `headers.indexOf(name)`
pub index_of : Text → List Text → Option ℕ
index_of name [] = none
index_of name (h ∷ hs) =
    let later = index_of name hs in if text_eq h name then some zero else next_index later

abbrev or_else : Option ℕ → Option ℕ → Option ℕ
or_else none other = other
or_else (some i) other = some i

-- The columns but for the phone's.
pub record Columns : Type 0 where
  pub phone : ℕ
  pub first : Option ℕ
  pub last : Option ℕ
  pub country : Option ℕ
  pub timezone : Option ℕ
  pub tags : Option ℕ
  pub consent : Option ℕ

-- `fields[i]?.trim()`
pub field : List Text → ℕ → Option Text
field [] i = none
field (f ∷ fields) zero = some (trim f)
field (f ∷ fields) (suc i) = field fields i

-- `i !== -1 ? fields[i]?.trim() : undefined`
pub raw_cell : List Text → Option ℕ → Option Text
raw_cell fields none = none
raw_cell fields (some i) = field fields i

-- `... || undefined`
pub given : Option Text → Option Text
given none = none
given (some []) = none
given (some (c ∷ s)) = some (c ∷ s)

is_digit : ℕ → Bool
is_digit c = leb b'0' c && leb c b'9'

-- `/^\+[1-9]\d{7,14}$/`
pub is_e164 : Text → Bool
is_e164 [] = false
is_e164 (c ∷ []) = false
is_e164 (c ∷ d ∷ s) =
    c == b'+' && leb b'1' d && leb d b'9' && leb 7 (length s) && leb (length s) 14 && all is_digit s

-- `s.split("|")`, with the part so far.
pub split_tags : Text → Text → List Text
split_tags cur [] = cur ∷ []
split_tags cur (c ∷ s) =
    let next = cur ∷ split_tags [] s in
    let same = split_tags (cur ++ c ∷ []) s in if c == b'|' then next else same

abbrev or_none : List Text → Option (List Text)
or_none [] = none
or_none (t ∷ ts) = some (t ∷ ts)

pub parse_tags : Option Text → Option (List Text)
parse_tags none = none
parse_tags (some raw) =
    or_none (filter is_present (map (λ t. take max_tag_length (trim t)) (split_tags [] raw)))

pub is_truthy : Text → Bool
is_truthy s =
    any (λ t. text_eq t s) (codes "1" ∷ codes "true" ∷ codes "yes" ∷ codes "y" ∷ codes "on" ∷ [])

pub parse_consent : Option Text → Option Bool
parse_consent none = none
parse_consent (some raw) = some (is_truthy (to_lower raw))

pub data Line : Type 0 where
  row : ParsedCsvRow → Line
  skipped : CsvError → Line

pub parse_fields : Columns → (number : ℕ) → List Text → Option Text → Line
parse_fields columns number fields none = skipped (phone_is_empty number)
parse_fields columns number fields (some phone) =
    if is_e164 phone
    then row (record {
      phone_e164 = phone;
      first_name = given (raw_cell fields columns.first);
      last_name = given (raw_cell fields columns.last);
      country = given (raw_cell fields columns.country);
      timezone = given (raw_cell fields columns.timezone);
      tags = parse_tags (given (raw_cell fields columns.tags));
      consent = parse_consent (raw_cell fields columns.consent);
    })
    else skipped (not_e164 number phone)

pub parse_line : Columns → (number : ℕ) → Text → Line
parse_line columns number line =
    let fields = parse_csv_line line in
    parse_fields columns number fields (given (field fields columns.phone))

pub add_line : Line → ParsedCsv → ParsedCsv
add_line (row r) parsed = record parsed { rows = parsed.rows ++ r ∷ [] }
add_line (skipped e) parsed = record parsed { errors = parsed.errors ++ e ∷ [] }

-- The loop over the lines after the header.
pub parse_lines : Columns → (number : ℕ) → List Text → ParsedCsv → ParsedCsv
parse_lines columns number [] parsed = parsed
parse_lines columns number (line ∷ lines) parsed =
    let rest =
      parse_lines columns (number + 1) lines (add_line (parse_line columns number line) parsed) in
    if leb max_csv_rows (length parsed.rows)
    then record parsed { errors = parsed.errors ++ truncated ∷ [] }
    else rest

abbrev failed : CsvError → ParsedCsv
failed e = record { rows = []; errors = e ∷ [] }

pub parse_body : List Text → List Text → Option ℕ → ParsedCsv
parse_body headers lines none = failed no_phone_column
parse_body headers lines (some phone) =
    let columns : Columns = record {
      phone = phone;
      first =
          or_else (index_of (codes "first_name") headers) (index_of (codes "firstname") headers);
      last = or_else (index_of (codes "last_name") headers) (index_of (codes "lastname") headers);
      country = index_of (codes "country") headers;
      timezone = index_of (codes "timezone") headers;
      tags = index_of (codes "tags") headers;
      consent = index_of (codes "consent") headers;
    } in
    parse_lines columns 2 lines (record { rows = []; errors = [] })

pub parse_raw_lines : List Text → ParsedCsv
parse_raw_lines [] = failed csv_is_empty
parse_raw_lines (header ∷ lines) =
    let headers = map header_name (parse_csv_line header) in
    parse_body headers lines
      (or_else (index_of (codes "phone_e164") headers) (index_of (codes "phone") headers))

pub parse_csv : Text → ParsedCsv
parse_csv text = parse_raw_lines (filter (λ l. is_present (trim l)) (split_lines [] text))
