-- ===== src/Csv/Import/Tests.antt =====
-- Imports through services/api-gateway/src/csv.ts.
use hy_fib_wa_app.Prelude.{
  ◌≡◌, refl, true, false, [], ◌∷◌, ◌++◌, none, some, Text, codes, text_eq, to_lower, trim, is_space,
}
use hy_fib_wa_app.Csv.{
  scan, parse_csv_line, escape, needs_quotes, quote, csv_cell, join, ExportableContact,
  contact_cells, contact_line, serialize_contacts_csv,
}
use hy_fib_wa_app.Csv.Import.{
  phone_is_empty, not_e164, no_phone_column, split_lines, underscores, header_name, index_of, field,
  raw_cell, given, is_e164, is_digit, split_tags, parse_tags, is_truthy, parse_consent,
  parse_fields, parse_line, add_line, parse_lines, parse_body, parse_raw_lines, parse_csv,
}

reading : Unit {0}
unfolding scan parse_csv_line split_lines underscores header_name index_of field raw_cell given
    is_e164 is_digit split_tags parse_tags is_truthy parse_consent parse_fields parse_line add_line
    parse_lines parse_body parse_raw_lines parse_csv text_eq to_lower trim is_space
reading = tt

abbrev sheet : Text
sheet =
    codes "Phone,First  Name,Tags,Consent"
    ++ (13 ∷ 10 ∷ codes " +31612345678 ,Ann,a| b |,YES")
    ++ (10 ∷ codes "0612,Bob")
    ++ (10 ∷ codes ",Cy")

sheet_rows : parse_csv sheet ≡ record {
  rows =
      record {
        phone_e164 = codes "+31612345678";
        first_name = some (codes "Ann");
        last_name = none;
        country = none;
        timezone = none;
        tags = some (codes "a" ∷ codes "b" ∷ []);
        consent = some true;
      }
      ∷ [];
  errors = not_e164 3 (codes "0612") ∷ phone_is_empty 4 ∷ [];
}
unfolding reading
sheet_rows = refl

no_phone : parse_csv (codes "name") ≡ record { rows = []; errors = no_phone_column ∷ [] }
unfolding reading
no_phone = refl

abbrev two_line_contact : ExportableContact
two_line_contact = record {
  phone_e164 = codes "+31612345678";
  first_name = some (codes "A" ++ (10 ∷ codes "n"));
  last_name = none;
  country = none;
  timezone = none;
  tags = [];
  opted_out = false;
}

-- An exported contact whose name holds a line break comes back cut in two.
line_break_lost : parse_csv (serialize_contacts_csv (two_line_contact ∷ [])) ≡ record {
  rows =
      record {
        phone_e164 = codes "+31612345678";
        first_name = some (codes "A");
        last_name = none;
        country = none;
        timezone = none;
        tags = none;
        consent = none;
      }
      ∷ [];
  errors = not_e164 3 (codes "n,,,,,true") ∷ [];
}
unfolding scan parse_csv_line split_lines underscores header_name index_of field raw_cell given
    is_e164 is_digit split_tags parse_tags is_truthy parse_consent parse_fields parse_line add_line
    parse_lines parse_body parse_raw_lines parse_csv text_eq to_lower trim is_space escape
    needs_quotes quote csv_cell join contact_cells contact_line serialize_contacts_csv
line_break_lost = refl
