-- ===== src/Csv/Tests.antt =====
-- Runs of services/api-gateway/src/csv.ts, and its theorems at a contact with a quoted name.
use hy_fib_wa_app.Prelude.{◌≡◌, refl, false, [], ◌∷◌, none, some, codes}
use hy_fib_wa_app.Csv.{
  scan, parse_csv_line, escape, needs_quotes, quote, csv_cell, join, ExportableContact,
  contact_cells, contact_line,
}
use hy_fib_wa_app.Csv.RoundTrip.{contact_values, parse_csv_line-contact_line}

abbrev ann : ExportableContact
ann = record {
  phone_e164 = codes "+4912345678";
  first_name = some (codes "Ann, \"A\"");
  last_name = none;
  country = some (codes "DE");
  timezone = none;
  tags = codes "vip" ∷ codes "new" ∷ [];
  opted_out = false;
}

line_written : contact_line ann ≡ codes "+4912345678,\"Ann, \"\"A\"\"\",,DE,,vip|new,true"
unfolding contact_line contact_cells csv_cell quote needs_quotes escape join
line_written = refl

lines_read :
    (parse_csv_line (codes "a,\"b,\"\"c\"\"\",") ≡ codes "a" ∷ codes "b,\"c\"" ∷ [] ∷ [])
    × (parse_csv_line (codes "a\"b\"c") ≡ codes "abc" ∷ [])
unfolding parse_csv_line scan
lines_read = (refl, refl)

parse_csv_line-contact_line_example : parse_csv_line (contact_line ann) ≡ contact_values ann
parse_csv_line-contact_line_example = parse_csv_line-contact_line ann
