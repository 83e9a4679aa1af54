-- ===== src/Csv/Import/Bounds.antt =====
-- What an import through services/api-gateway/src/csv.ts can bring in.
use hy_fib_wa_app.Prelude.{
  ℕ, ◌+◌, ◌≤◌, ◌≡◌, true, false, List, [], ◌∷◌, Option, none, some, Text, length, length-append,
  leb, All, All-append, arith, Bool-cases, inl, inr,
}
use hy_fib_wa_app.Csv.Import.{
  ParsedCsvRow, ParsedCsv, max_csv_rows, Columns, is_e164, Line, row, skipped, parse_fields,
  parse_line, add_line, parse_lines, parse_body, parse_raw_lines, parse_csv,
}

abbrev pub HasPhone : ParsedCsvRow → Type 0
HasPhone r = is_e164 r.phone_e164 ≡ true

pub record IsImportable (parsed : ParsedCsv) : Type 0 where
  pub phones : All HasPhone parsed.rows
  pub count : length parsed.rows ≤ max_csv_rows

abbrev IsGoodLine : Line → Type 0
IsGoodLine (row r) = HasPhone r
IsGoodLine (skipped e) = Unit

parse_fields-IsGoodLine :
    (columns : Columns) (number : ℕ) (fields : List Text) (phone : Option Text)
    → IsGoodLine (parse_fields columns number fields phone)
unfolding parse_fields
parse_fields-IsGoodLine columns number fields none = tt
parse_fields-IsGoodLine columns number fields (some phone) = elim (Bool-cases (is_e164 phone)) [
  | inl y ↦ rw (y, parse_fields) y
  | inr n ↦ rw (n, parse_fields) tt
]

add_line-IsImportable :
    (line : Line) (parsed : ParsedCsv)
    → IsGoodLine line
    → IsImportable parsed
    → leb max_csv_rows (length parsed.rows) ≡ false
    → IsImportable (add_line line parsed)
unfolding add_line
add_line-IsImportable (skipped e) parsed good h room = record { phones = h.phones; count = h.count }
add_line-IsImportable (row r) parsed good h room = record {
  phones = All-append HasPhone parsed.rows (r ∷ []) h.phones (good, tt);
  count = ground (arith, length-append parsed.rows (r ∷ []));
}

parse_lines-IsImportable :
    (columns : Columns) (number : ℕ) (lines : List Text) (parsed : ParsedCsv)
    → IsImportable parsed
    → IsImportable (parse_lines columns number lines parsed)
unfolding parse_lines parse_line
parse_lines-IsImportable columns number [] parsed h = h
parse_lines-IsImportable columns number (line ∷ lines) parsed h =
    elim (Bool-cases (leb max_csv_rows (length parsed.rows))) [
      | inl y ↦ rw (y, parse_lines) (record { phones = h.phones; count = h.count })
      | inr n ↦
          rw (n, parse_lines)
            (parse_lines-IsImportable columns (number + 1) lines _
              (add_line-IsImportable _ parsed (parse_fields-IsGoodLine columns number _ _) h n))
    ]

parse_body-IsImportable :
    (headers lines : List Text) (phone : Option ℕ) → IsImportable (parse_body headers lines phone)
unfolding parse_body
parse_body-IsImportable headers lines none = record { phones = tt; count = omega arith }
parse_body-IsImportable headers lines (some phone) =
    parse_lines-IsImportable _ 2 lines _ (record { phones = tt; count = omega arith })

parse_raw_lines-IsImportable : (lines : List Text) → IsImportable (parse_raw_lines lines)
unfolding parse_raw_lines
parse_raw_lines-IsImportable [] = record { phones = tt; count = omega arith }
parse_raw_lines-IsImportable (header ∷ lines) = parse_body-IsImportable _ lines _

-- Whatever the file holds, an import brings in at most 50000 rows, and the phone number of each is a
-- valid E.164 number.
pub parse_csv-IsImportable : (text : Text) → IsImportable (parse_csv text)
unfolding parse_csv
parse_csv-IsImportable text = parse_raw_lines-IsImportable _
