-- ===== src/OutboundUrl/Parsing.antt =====
-- The parsers of packages/shared-core/src/outbound-url.ts: an IPv4 address as its value, an IPv6 address
-- as its groups.
use hy_fib_wa_app.Prelude.Slices.{split_on, split_on_pair, has_unit, split_last}
use hy_fib_wa_app.Prelude.{
  ℕ, zero, suc, ◌+◌, ◌-◌, ◌*◌, ◌/◌, ◌%◌, Bool, not, ◌&&◌, ◌||◌, List, [], ◌∷◌, ◌++◌, Option, none,
  some, Text, to_lower, all, length, leb, ltb, ◌==◌, if◌then◌else◌,
}

abbrev pub Groups : Type 0
Groups = List ℕ

abbrev pub is_digit : ℕ → Bool
is_digit c = leb b'0' c && leb c b'9'

-- `Number(s)` of decimal digits.
unfoldable pub decimal : ℕ → Text → ℕ
decimal value [] = value
decimal value (c ∷ s) = decimal (value * 10 + (c - b'0')) s

-- `/^\d{1,3}$/`
unfoldable pub is_octet_text : Text → Bool
is_octet_text part = leb 1 (length part) && leb (length part) 3 && all is_digit part

unfoldable pub add_octets : ℕ → List Text → Option ℕ
unfolding is_octet_text decimal
add_octets value [] = some value
add_octets value (part ∷ parts) =
    let rest = add_octets (value * 256 + decimal 0 part) parts in
    if not (is_octet_text part) then none else if ltb 255 (decimal 0 part) then none else rest

unfoldable pub parse_ipv4 : Text → Option ℕ
unfolding add_octets split_on
parse_ipv4 address =
    let parts = split_on b'.' address in if length parts == 4 then add_octets 0 parts else none

hex_digit : ℕ → ℕ
hex_digit d = if ltb d 10 then b'0' + d else b'a' + d - 10

-- `n.toString(16)`, of at most `digits` digits.
unfoldable pub to_hex : (digits : ℕ) → ℕ → Text
unfolding hex_digit
to_hex zero n = []
to_hex (suc digits) n =
    let more = to_hex digits (n / 16) ++ hex_digit (n % 16) ∷ [] in
    if ltb n 16 then hex_digit n ∷ [] else more

is_hex : ℕ → Bool
is_hex c = is_digit c || (leb b'a' c && leb c b'f')

-- `/^[0-9a-f]{1,4}$/`
unfoldable pub is_group_text : Text → Bool
unfolding is_hex
is_group_text group = leb 1 (length group) && leb (length group) 4 && all is_hex group

-- `parseInt(s, 16)`
unfoldable pub hexadecimal : ℕ → Text → ℕ
hexadecimal value [] = value
hexadecimal value (c ∷ s) =
    hexadecimal (value * 16 + (if is_digit c then c - b'0' else c + 10 - b'a')) s

unfoldable pub read_groups : List Text → Option Groups
unfolding is_group_text hexadecimal
read_groups [] = some []
read_groups (group ∷ groups) =
    let rest = read_groups groups in
    if is_group_text group
    then elim rest [ none ↦ none | some values ↦ some (hexadecimal 0 group ∷ values) ]
    else none

unfoldable pub parse_groups : Text → Option Groups
unfolding read_groups split_on
parse_groups [] = some []
parse_groups (c ∷ part) = read_groups (split_on b':' (c ∷ part))

unfoldable pub zeros : ℕ → Groups
zeros zero = []
zeros (suc n) = 0 ∷ zeros n

-- The halves round a "::", and the zeros that it stands for.
unfoldable pub join_halves : Groups → Groups → Option Groups
unfolding zeros
join_halves head tail =
    if leb (length head + length tail) 7
    then some (head ++ (zeros (8 - length head - length tail) ++ tail))
    else none

unfoldable pub parse_halves : List Text → Option Groups
unfolding parse_groups join_halves
parse_halves [] = none
parse_halves (one ∷ []) = elim (parse_groups one) [
  | none ↦ none
  | some head ↦ if length head == 8 then some head else none
]
parse_halves (one ∷ two ∷ []) = elim (parse_groups one) [
  | none ↦ none
  | some head ↦ elim (parse_groups two) [ none ↦ none | some tail ↦ join_halves head tail ]
]
parse_halves (one ∷ two ∷ three ∷ more) = none

-- A dotted quad at the end, rewritten as two groups.
unfoldable pub without_quad : Text → Option Text
unfolding split_last has_unit parse_ipv4 to_hex
without_quad text =
    let (before, trailer) = split_last b':' text in
    if has_unit b'.' trailer
    then elim (parse_ipv4 trailer) [
      | none ↦ none
      | some v4 ↦ some (before ++ (to_hex 4 (v4 / 65536) ++ b':' ∷ to_hex 4 (v4 % 65536)))
    ]
    else some text

unfoldable pub parse_ipv6 : Text → Option Groups
unfolding without_quad parse_halves split_on_pair
parse_ipv6 address = elim (without_quad (to_lower address)) [
  | none ↦ none
  | some text ↦ parse_halves (split_on_pair b':' b':' text)
]
