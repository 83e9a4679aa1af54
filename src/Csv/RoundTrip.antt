-- ===== src/Csv/RoundTrip.antt =====
-- A line that services/api-gateway/src/csv.ts writes is read back by its parser.
use hy_fib_wa_app.Prelude.{
  ℕ, ◌≡◌, refl, sym, ap, ◌∙◌, Bool, true, false, List, [], ◌∷◌, ◌++◌, map, Option, none, some,
  arith, Text, codes, ◌==◌, ==_iff, Bool-cases, inl, inr, if◌then◌else◌,
}
use mathlib.Core.List.{append-nil, append_assoc}
use hy_fib_wa_app.Csv.{
  scan, parse_csv_line, escape, needs_quotes, quote, csv_cell, join, ExportableContact,
  contact_cells, contact_line,
}

snoc-append : (xs ys : Text) (c : ℕ) → (xs ++ c ∷ []) ++ ys ≡ xs ++ c ∷ ys
snoc-append xs ys c = append_assoc xs (c ∷ []) ys

-- What may follow a cell: nothing, or the comma before the next.
abbrev CellEnd : Text → Type 0
CellEnd [] = Unit
CellEnd (c ∷ s) = c ≡ b','

scan-close :
    (fields : List Text) (cur rest : Text)
    → CellEnd rest
    → scan fields cur true (b'"' ∷ rest) ≡ scan fields cur false rest
unfolding scan
scan-close fields cur [] h = refl
scan-close fields cur (c ∷ rest) h = let other : (c == b'"') ≡ false = ground arith in rw other refl

scan-plain_quoted :
    (fields : List Text) (cur s : Text) (c : ℕ)
    → (c == b'"') ≡ false
    → scan fields cur true (c ∷ s) ≡ scan fields (cur ++ c ∷ []) true s
unfolding scan
scan-plain_quoted fields cur [] c h = rw h refl
scan-plain_quoted fields cur (d ∷ s) c h = rw h refl

scan-escaped :
    (fields : List Text) (cur s : Text)
    → scan fields cur true (b'"' ∷ b'"' ∷ s) ≡ scan fields (cur ++ b'"' ∷ []) true s
unfolding scan
scan-escaped fields cur s = refl

scan-open :
    (fields : List Text) (cur s : Text) → scan fields cur false (b'"' ∷ s) ≡ scan fields cur true s
unfolding scan
scan-open fields cur s = refl

scan-comma :
    (fields : List Text) (cur s : Text)
    → scan fields cur false (b',' ∷ s) ≡ scan (fields ++ cur ∷ []) [] false s
unfolding scan
scan-comma fields cur s = refl

scan-plain :
    (fields : List Text) (cur s : Text) (c : ℕ)
    → (c == b'"') ≡ false
    → (c == b',') ≡ false
    → scan fields cur false (c ∷ s) ≡ scan fields (cur ++ c ∷ []) false s
unfolding scan
scan-plain fields cur s c h k = rw (h, k) refl

scan-escape :
    (fields : List Text) (cur s rest : Text)
    → CellEnd rest
    → scan fields cur true (escape s ++ b'"' ∷ rest) ≡ scan fields (cur ++ s) false rest
unfolding escape
scan-escape fields cur [] rest h = rw (append-nil cur) (scan-close fields cur rest h)
scan-escape fields cur (c ∷ s) rest h = elim (Bool-cases (c == b'"')) [
  | inl y ↦ rw y (
      scan-escaped fields cur (escape s ++ b'"' ∷ rest)
      ∙ scan-escape fields (cur ++ b'"' ∷ []) s rest h
      ∙ ap (λ t. scan fields t false rest)
          (snoc-append cur s b'"' ∙ ap (λ d. cur ++ d ∷ s) (sym ((==_iff c b'"').0 y))))
  | inr n ↦ rw n (
      scan-plain_quoted fields cur (escape s ++ b'"' ∷ rest) c n
      ∙ scan-escape fields (cur ++ c ∷ []) s rest h
      ∙ ap (λ t. scan fields t false rest) (snoc-append cur s c))
]

scan-unquoted :
    (fields : List Text) (cur s rest : Text)
    → needs_quotes s ≡ false
    → scan fields cur false (s ++ rest) ≡ scan fields (cur ++ s) false rest
unfolding needs_quotes
scan-unquoted fields cur [] rest h = rw (append-nil cur) refl
scan-unquoted fields cur (c ∷ s) rest h =
    scan-plain fields cur (s ++ rest) c (ground arith) (ground arith)
    ∙ scan-unquoted fields (cur ++ c ∷ []) s rest (ground arith)
    ∙ ap (λ t. scan fields t false rest) (snoc-append cur s c)

scan-quote :
    (fields : List Text) (s rest : Text)
    → CellEnd rest
    → scan fields [] false (quote s ++ rest) ≡ scan fields s false rest
unfolding quote
scan-quote fields s rest h = elim (Bool-cases (needs_quotes s)) [
  | inl y ↦ rw y (
      ap (λ t. scan fields [] false (b'"' ∷ t)) (append_assoc (escape s) (b'"' ∷ []) rest)
      ∙ scan-open fields [] (escape s ++ b'"' ∷ rest)
      ∙ scan-escape fields [] s rest h)
  | inr n ↦ rw n (scan-unquoted fields [] s rest n)
]

scan-end : (fields : List Text) (cur : Text) → scan fields cur false [] ≡ fields ++ cur ∷ []
unfolding scan
scan-end fields cur = refl

scan-join :
    (fields : List Text) (x : Text) (xs : List Text)
    → scan fields [] false (join (b',' ∷ []) (map quote (x ∷ xs))) ≡ fields ++ x ∷ xs
unfolding join
scan-join fields x [] =
    ap (λ t. scan fields [] false t) (sym (append-nil (quote x)))
    ∙ scan-quote fields x [] tt
    ∙ scan-end fields x
scan-join fields x (y ∷ xs) =
    scan-quote fields x (b',' ∷ join (b',' ∷ []) (map quote (y ∷ xs))) refl
    ∙ scan-comma fields x (join (b',' ∷ []) (map quote (y ∷ xs)))
    ∙ scan-join (fields ++ x ∷ []) y xs
    ∙ append_assoc fields (x ∷ []) (y ∷ xs)

-- Cells that are escaped, joined by commas and parsed are the values that were written, whatever
-- quotes, commas and line breaks they hold.
pub parse_csv_line-join :
    (x : Text) (xs : List Text)
    → parse_csv_line (join (b',' ∷ []) (map (λ v. csv_cell (some v)) (x ∷ xs))) ≡ x ∷ xs
unfolding parse_csv_line csv_cell
parse_csv_line-join x xs = scan-join [] x xs

-- `s ?? ""`
abbrev pub or_empty : Option Text → Text
or_empty none = []
or_empty (some s) = s

abbrev pub consent_cell : Bool → Text
consent_cell opted_out = if opted_out then codes "false" else codes "true"

csv_cell-or_empty : (o : Option Text) → csv_cell o ≡ quote (or_empty o)
unfolding csv_cell
csv_cell-or_empty none = refl
csv_cell-or_empty (some s) = refl

consent_quote : (b : Bool) → consent_cell b ≡ quote (consent_cell b)
unfolding quote needs_quotes
consent_quote true = refl
consent_quote false = refl

-- The values of a contact in the order of the header; a missing one is empty.
abbrev pub contact_values : ExportableContact → List Text
contact_values c =
    c.phone_e164
    ∷ or_empty c.first_name
    ∷ or_empty c.last_name
    ∷ or_empty c.country
    ∷ or_empty c.timezone
    ∷ join (codes "|") c.tags
    ∷ consent_cell c.opted_out
    ∷ []

contact_cells-quote : (c : ExportableContact) → contact_cells c ≡ map quote (contact_values c)
unfolding contact_cells
contact_cells-quote c = cc (
  csv_cell-or_empty (some c.phone_e164),
  csv_cell-or_empty c.first_name,
  csv_cell-or_empty c.last_name,
  csv_cell-or_empty c.country,
  csv_cell-or_empty c.timezone,
  csv_cell-or_empty (some (join (codes "|") c.tags)),
  consent_quote c.opted_out,
)

-- A contact's line of the export, parsed, gives the contact's values back in the order of the header.
pub parse_csv_line-contact_line :
    (c : ExportableContact) → parse_csv_line (contact_line c) ≡ contact_values c
unfolding contact_line parse_csv_line
parse_csv_line-contact_line c =
    ap (λ cells. scan [] [] false (join (codes ",") cells)) (contact_cells-quote c)
    ∙ scan-join [] c.phone_e164 _
