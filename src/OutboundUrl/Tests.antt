-- ===== src/OutboundUrl/Tests.antt =====
-- Runs of the outbound URL guard, with an `isIP` that tells a literal by its separators.
use hy_fib_wa_app.Prelude.{trim}
use hy_fib_wa_app.Prelude.{to_lower}
use hy_fib_wa_app.Prelude.{text_eq}
use hy_fib_wa_app.OutboundUrl.Address.{is_floor_ipv6}
use hy_fib_wa_app.OutboundUrl.Address.{is_blocked_ipv4}
use hy_fib_wa_app.OutboundUrl.Address.{in_ipv4_ranges}
use hy_fib_wa_app.Prelude.Slices.{has_unit, split_on}
use hy_fib_wa_app.Prelude.{
  ℕ, ◌+◌, ◌*◌, ◌^◌, ◌≡◌, refl, true, false, all, any, List, [], ◌∷◌, Option, none, some, Text,
  codes, ◌==◌, if◌then◌else◌, All,
}
use hy_fib_wa_app.OutboundUrl.Parsing.{is_octet_text, parse_ipv4, parse_ipv6}
use hy_fib_wa_app.OutboundUrl.Address.{
  without_zone, is_private_or_reserved_address, is_hard_blocked_address,
}
use hy_fib_wa_app.OutboundUrl.Names.{OutboundAllowlist, CompiledAllowlist, strip_dot}
use hy_fib_wa_app.OutboundUrl.Allowlist.{
  is_ipv4_loopback, admits_ipv4, compile_allowlist, is_allowlisted_address,
  is_embedded_ipv4_loopback,
}
use hy_fib_wa_app.OutboundUrl.Guard.{
  Url, host_of, ResolvedAddress, distinct, LookupOptions, usable, hand_over, address_remedy,
  is_blocked, validate_host, validate_parsed, compiled_allowlist, validate_trimmed,
  validate_outbound_url, blocked_answer, answer_with, guarded_lookup, address_entry,
  reserved_address, accepted, refused, resolved, blocked,
}
use hy_fib_wa_app.OutboundUrl.Floor.{is_hard_blocked_address-private}
use hy_fib_wa_app.OutboundUrl.Safe.{
  IsSafeUrl, IsVetted, guarded_lookup-IsOpen, validate_outbound_url-IsSafeUrl,
}
use hy_fib_wa_app.OutboundUrl.Loopback.{is_loopback_range, is_allowlisted_address-loopback}

is_literal : Text → ℕ
unfolding has_unit is_octet_text split_on
is_literal s = if has_unit b':' s then 6 else if all is_octet_text (split_on b'.' s) then 4 else 0

parse_ipv4_metadata :
    parse_ipv4 (codes "169.254.169.254") ≡ some (169 * 2 ^ 24 + 254 * 2 ^ 16 + 169 * 2 ^ 8 + 254)
unfolding parse_ipv4
parse_ipv4_metadata = refl

parse_ipv4_octal : parse_ipv4 (codes "010.0.0.1") ≡ some (10 * 2 ^ 24 + 1)
unfolding parse_ipv4
parse_ipv4_octal = refl

parse_ipv6_short :
    parse_ipv6 (codes "64:ff9b::1.2.3.4")
    ≡ some (0x64 ∷ 0xff9b ∷ 0 ∷ 0 ∷ 0 ∷ 0 ∷ 0x102 ∷ 0x304 ∷ [])
unfolding parse_ipv6 to_lower
parse_ipv6_short = refl

parse_ipv6_twice : parse_ipv6 (codes "1::2::3") ≡ none
unfolding parse_ipv6 to_lower
parse_ipv6_twice = refl

abbrev mapped_metadata : Text
mapped_metadata = codes "::ffff:169.254.169.254"

mapped_metadata-hard : is_hard_blocked_address is_literal mapped_metadata ≡ true
unfolding is_hard_blocked_address is_literal without_zone parse_ipv6 to_lower is_floor_ipv6
mapped_metadata-hard = refl

is_hard_blocked_address-private_example :
    is_private_or_reserved_address is_literal mapped_metadata ≡ true
is_hard_blocked_address-private_example =
    is_hard_blocked_address-private is_literal mapped_metadata mapped_metadata-hard

abbrev hook : Url
hook = record {
  protocol = codes "https:";
  username = [];
  password = [];
  hostname = codes "10.1.2.3";
}

abbrev parse_hook : Text → Option Url
parse_hook text = some hook

abbrev private_network : OutboundAllowlist
private_network = record { hosts = []; host_suffixes = []; cidrs = codes "10.1.0.0/16" ∷ [] }

abbrev private_range : CompiledAllowlist
private_range = record {
  hosts = [];
  host_suffixes = [];
  v4 = (record { start = 10 * 2 ^ 24 + 2 ^ 16; size = 2 ^ 16; loopback_only = false }) ∷ [];
  v6 = [];
}

private_network-compiled :
    compiled_allowlist is_literal (some private_network) ≡ some (some private_range)
unfolding compiled_allowlist compile_allowlist is_literal parse_ipv4
private_network-compiled = refl

hook-accepted :
    validate_outbound_url is_literal parse_hook
      (codes " https://10.1.2.3/in ")
      (some private_network)
    ≡ some (accepted hook)
unfolding validate_outbound_url compiled_allowlist compile_allowlist is_literal validate_trimmed
    validate_parsed validate_host is_blocked is_allowlisted_address is_private_or_reserved_address
    is_hard_blocked_address host_of admits_ipv4 strip_dot parse_ipv4 trim text_eq without_zone
    is_blocked_ipv4
hook-accepted = refl

hook-refused :
    validate_outbound_url is_literal parse_hook (codes "https://10.1.2.3/in") none
    ≡ some (refused reserved_address (some address_entry))
unfolding validate_outbound_url compiled_allowlist is_literal validate_trimmed validate_parsed
    validate_host is_blocked is_allowlisted_address is_private_or_reserved_address
    is_hard_blocked_address host_of strip_dot address_remedy is_embedded_ipv4_loopback trim text_eq
    without_zone parse_ipv4 is_blocked_ipv4
hook-refused = refl

validate_outbound_url-IsSafeUrl_example : IsSafeUrl is_literal (some private_range) hook
validate_outbound_url-IsSafeUrl_example =
    validate_outbound_url-IsSafeUrl is_literal parse_hook (codes " https://10.1.2.3/in ")
      (some private_network) (some private_range) hook private_network-compiled hook-accepted

abbrev answer_of : Text → ResolvedAddress
answer_of ip = record { address = ip; family = 4 }

abbrev any_one : LookupOptions
any_one = record { family = 0; wants_all = false }

abbrev two_answers : List ResolvedAddress
two_answers = answer_of (codes "10.1.0.7") ∷ answer_of (codes "93.184.216.34") ∷ []

abbrev first_answer : List ResolvedAddress
first_answer = answer_of (codes "10.1.0.7") ∷ []

two_answers-resolved :
    guarded_lookup is_literal
      (is_blocked is_literal (some private_range))
      any_one
      (some two_answers)
    ≡ resolved first_answer
unfolding guarded_lookup is_literal is_blocked is_allowlisted_address is_private_or_reserved_address
    is_hard_blocked_address answer_with hand_over usable admits_ipv4 distinct without_zone
    parse_ipv4 is_blocked_ipv4
two_answers-resolved = refl

mixed_answer-blocked :
    guarded_lookup is_literal (is_blocked is_literal none) any_one (some two_answers)
    ≡ blocked (codes "10.1.0.7" ∷ []) 0 (some address_entry)
unfolding guarded_lookup is_literal is_blocked is_allowlisted_address is_private_or_reserved_address
    is_hard_blocked_address answer_with blocked_answer distinct address_remedy
    is_embedded_ipv4_loopback without_zone parse_ipv4 is_blocked_ipv4
mixed_answer-blocked = refl

guarded_lookup-IsOpen_example :
    All (IsVetted is_literal (some private_range)) first_answer
    × All (IsVetted is_literal (some private_range)) two_answers
guarded_lookup-IsOpen_example =
    guarded_lookup-IsOpen is_literal (some private_range) any_one two_answers first_answer
      two_answers-resolved

abbrev loopback_network : OutboundAllowlist
loopback_network = record { hosts = []; host_suffixes = []; cidrs = codes "127.0.0.1" ∷ [] }

abbrev loopback_only : CompiledAllowlist
loopback_only = record {
  hosts = [];
  host_suffixes = [];
  v4 = (record { start = 127 * 2 ^ 24 + 1; size = 1; loopback_only = true }) ∷ [];
  v6 = [];
}

abbrev localhost : Text
localhost = codes "127.0.0.1"

loopback_network-compiled : compile_allowlist is_literal loopback_network ≡ some loopback_only
unfolding compile_allowlist is_literal parse_ipv4
loopback_network-compiled = refl

localhost-literal : (is_literal (without_zone localhost) == 4) ≡ true
unfolding is_literal without_zone
localhost-literal = refl

localhost-parsed : parse_ipv4 (without_zone localhost) ≡ some (127 * 2 ^ 24 + 1)
unfolding parse_ipv4 without_zone
localhost-parsed = refl

localhost-loopback : is_ipv4_loopback (127 * 2 ^ 24 + 1) ≡ true
unfolding is_ipv4_loopback
localhost-loopback = refl

localhost-allowlisted : is_allowlisted_address is_literal localhost (some loopback_only) ≡ true
unfolding is_literal is_allowlisted_address is_hard_blocked_address admits_ipv4 without_zone
    parse_ipv4 in_ipv4_ranges
localhost-allowlisted = refl

is_allowlisted_address-loopback_example :
    any (is_loopback_range (127 * 2 ^ 24 + 1)) loopback_only.v4 ≡ true
is_allowlisted_address-loopback_example =
    is_allowlisted_address-loopback is_literal loopback_network loopback_only localhost
      (127 * 2 ^ 24 + 1) loopback_network-compiled localhost-literal localhost-parsed
      localhost-loopback localhost-allowlisted
