-- ===== src/OutboundUrl/Allowlist.antt =====
-- The operator's allow list of packages/shared-core/src/outbound-url.ts. A malformed entry makes the
-- code throw, which is `none`. That a list is compiled once for each object is left out.
use hy_fib_wa_app.OutboundUrl.Names.{
  CompiledAllowlist, OutboundAllowlist, Range4, Range6, normalise_names,
}
use hy_fib_wa_app.Prelude.Slices.{split_on, has_unit}
use hy_fib_wa_app.Prelude.{
  ℕ, ◌+◌, ◌-◌, ◌*◌, ◌/◌, ◌%◌, ◌^◌, min, Bool, true, false, not, ◌&&◌, ◌||◌, List, [], ◌∷◌, Option,
  none, some, Text, any, all, find?, leb, ltb, ◌==◌, if◌then◌else◌,
}
use hy_fib_wa_app.OutboundUrl.Parsing.{Groups, parse_ipv4, parse_ipv6, decimal, is_octet_text}
use hy_fib_wa_app.OutboundUrl.Address.{group, embedded_ipv4, without_zone, is_hard_blocked_address}

abbrev pub ipv4_loopback_start : ℕ
ipv4_loopback_start = 127 * 2 ^ 24

abbrev pub ipv4_loopback_end : ℕ
ipv4_loopback_end = 128 * 2 ^ 24

-- How many bits of the group at `index` lie in a prefix, and the size of what lies below them.
abbrev network_bits : ℕ → ℕ → ℕ
network_bits prefix index = min 16 (prefix - index * 16)

abbrev below : ℕ → ℕ → ℕ
below prefix index = 2 ^ (16 - network_bits prefix index)

abbrev indices : List ℕ
indices = 0 ∷ 1 ∷ 2 ∷ 3 ∷ 4 ∷ 5 ∷ 6 ∷ 7 ∷ []

unfoldable pub ipv6_in_prefix : Groups → (base : Groups) → (prefix : ℕ) → Bool
ipv6_in_prefix groups base prefix =
    all (λ i. group groups i / below prefix i == group base i / below prefix i) indices

-- The test with `requireZeroHostBits`.
unfoldable pub has_zero_host_bits : Groups → (prefix : ℕ) → Bool
has_zero_host_bits groups prefix = all (λ i. group groups i % below prefix i == 0) indices

pub data ParsedCidr : Type 0 where
  cidr4 : (value prefix : ℕ) → ParsedCidr
  cidr6 : (groups : Groups) → (prefix : ℕ) → ParsedCidr

unfoldable pub is_ipv6_loopback : Groups → Bool
is_ipv6_loopback groups =
    all (λ i. group groups i == 0) (0 ∷ 1 ∷ 2 ∷ 3 ∷ 4 ∷ 5 ∷ 6 ∷ []) && group groups 7 == 1

unfoldable pub is_ipv4_loopback : ℕ → Bool
is_ipv4_loopback value = leb ipv4_loopback_start value && ltb value ipv4_loopback_end

unfoldable pub embeds_loopback : Groups → Bool
unfolding is_ipv4_loopback embedded_ipv4
embeds_loopback groups = elim (embedded_ipv4 groups) [
  | none ↦ false
  | some value ↦ is_ipv4_loopback value
]

abbrev first_part : List Text → Text
first_part [] = []
first_part (part ∷ parts) = part

-- The prefix length that follows a '/', or all the bits; none if it is malformed.
unfoldable pub parse_prefix : (bits : ℕ) → List Text → Option ℕ
unfolding is_octet_text decimal
parse_prefix bits [] = none
parse_prefix bits (address ∷ []) = some bits
parse_prefix bits (address ∷ text ∷ []) =
    if is_octet_text text && leb (decimal 0 text) bits then some (decimal 0 text) else none
parse_prefix bits (address ∷ text ∷ extra ∷ more) = none

unfoldable pub cidr_of_ipv4 : Option ℕ → Option ℕ → Option ParsedCidr
cidr_of_ipv4 (some value) (some prefix) =
    if value % 2 ^ (32 - prefix) == 0 then some (cidr4 value prefix) else none
cidr_of_ipv4 _ _ = none

unfoldable pub cidr_of_ipv6 : Option Groups → Option ℕ → Option ParsedCidr
unfolding has_zero_host_bits
cidr_of_ipv6 (some groups) (some prefix) =
    if has_zero_host_bits groups prefix then some (cidr6 groups prefix) else none
cidr_of_ipv6 _ _ = none

abbrev pub ipv6_transition_prefixes : List (Groups × ℕ)
ipv6_transition_prefixes =
    (0 ∷ 0 ∷ 0 ∷ 0 ∷ 0 ∷ 0xffff ∷ 0 ∷ 0 ∷ [], 96)
    ∷ (0 ∷ 0 ∷ 0 ∷ 0 ∷ 0xffff ∷ 0 ∷ 0 ∷ 0 ∷ [], 96)
    ∷ (0 ∷ 0 ∷ 0 ∷ 0 ∷ 0 ∷ 0 ∷ 0 ∷ 0 ∷ [], 96)
    ∷ (0x64 ∷ 0xff9b ∷ 0 ∷ 0 ∷ 0 ∷ 0 ∷ 0 ∷ 0 ∷ [], 96)
    ∷ (0x64 ∷ 0xff9b ∷ 1 ∷ 0 ∷ 0 ∷ 0 ∷ 0 ∷ 0 ∷ [], 48)
    ∷ (0x2002 ∷ 0 ∷ 0 ∷ 0 ∷ 0 ∷ 0 ∷ 0 ∷ 0 ∷ [], 16)
    ∷ []

unfoldable pub transition_of : Groups → Option (Groups × ℕ)
unfolding embedded_ipv4 ipv6_in_prefix
transition_of groups = elim (embedded_ipv4 groups) [
  | none ↦ none
  | some value ↦ find? (λ form. ipv6_in_prefix groups form.0 form.1) ipv6_transition_prefixes
]

unfoldable pub fits_transition : Range6 → Option (Groups × ℕ) → Bool
unfolding ipv6_in_prefix
fits_transition range none = true
fits_transition range (some (form, prefix)) =
    leb prefix range.prefix && ipv6_in_prefix range.groups form prefix

unfoldable pub admits_ipv4 : CompiledAllowlist → Option ℕ → Bool
unfolding is_ipv4_loopback
admits_ipv4 allowlist none = false
admits_ipv4 allowlist (some value) =
    any
      (λ range.
        leb range.start value
        && ltb value (range.start + range.size)
        && (not (is_ipv4_loopback value) || range.loopback_only))
      allowlist.v4

unfoldable pub admits_ipv6 : CompiledAllowlist → Option Groups → Bool
unfolding is_ipv6_loopback embeds_loopback transition_of fits_transition ipv6_in_prefix
admits_ipv6 allowlist none = false
admits_ipv6 allowlist (some groups) =
    any
      (λ range.
        ipv6_in_prefix groups range.groups range.prefix
        && (not (is_ipv6_loopback groups || embeds_loopback groups) || range.loopback_only)
        && fits_transition range (transition_of groups))
      allowlist.v6

abbrev pub with_cidr : ParsedCidr → CompiledAllowlist → CompiledAllowlist
with_cidr (cidr4 value prefix) compiled =
    let size = 2 ^ (32 - prefix) in
    let range : Range4 = record {
      start = value;
      size = size;
      loopback_only = leb ipv4_loopback_start value && leb (value + size) ipv4_loopback_end;
    } in
    record compiled { v4 = range ∷ compiled.v4 }
with_cidr (cidr6 groups prefix) compiled =
    let range : Range6 = record {
      groups = groups;
      prefix = prefix;
      loopback_only = prefix == 128 && is_ipv6_loopback groups;
    } in
    record compiled { v6 = range ∷ compiled.v6 }

unfoldable pub with_each : Option ParsedCidr → Option CompiledAllowlist → Option CompiledAllowlist
with_each (some cidr) (some compiled) = some (with_cidr cidr compiled)
with_each _ _ = none

module _ (is_ip : Text → ℕ) where
  unfoldable pub parse_allowlist_cidr : Text → Option ParsedCidr
  unfolding cidr_of_ipv4 cidr_of_ipv6 parse_prefix
  parse_allowlist_cidr entry =
      let parts = split_on b'/' entry in
      let address = first_part parts in
      if has_unit b'%' address
      then none
      else if is_ip address == 4
      then cidr_of_ipv4 (parse_ipv4 address) (parse_prefix 32 parts)
      else if is_ip address == 6
      then cidr_of_ipv6 (parse_ipv6 address) (parse_prefix 128 parts)
      else none

  -- The ranges of the entries, added in order before those of `compiled`.
  unfoldable pub compile_cidrs : List Text → CompiledAllowlist → Option CompiledAllowlist
  unfolding parse_allowlist_cidr with_each
  compile_cidrs [] compiled = some compiled
  compile_cidrs (entry ∷ entries) compiled =
      with_each (parse_allowlist_cidr entry) (compile_cidrs entries compiled)

  unfoldable pub compile_names :
      Option (List Text) → Option (List Text) → List Text → Option CompiledAllowlist
  unfolding compile_cidrs
  compile_names (some hosts) (some host_suffixes) cidrs =
      compile_cidrs cidrs
        (record { hosts = hosts; host_suffixes = host_suffixes; v4 = []; v6 = [] })
  compile_names _ _ cidrs = none

  unfoldable pub compile_allowlist : OutboundAllowlist → Option CompiledAllowlist
  unfolding compile_names normalise_names
  compile_allowlist allowlist =
      compile_names (normalise_names allowlist.hosts) (normalise_names allowlist.host_suffixes)
        allowlist.cidrs

  unfoldable pub is_allowlisted_address : Text → Option CompiledAllowlist → Bool
  is_allowlisted_address ip none = false
  is_allowlisted_address ip (some allowlist) =
      let address = without_zone ip in
      if is_hard_blocked_address is_ip ip
      then false
      else if is_ip address == 4
      then admits_ipv4 allowlist (parse_ipv4 address)
      else admits_ipv6 allowlist (parse_ipv6 address)

  -- The IPv6 spellings of an IPv4 loopback address.
  unfoldable pub is_embedded_ipv4_loopback : Text → Bool
  unfolding embeds_loopback
  is_embedded_ipv4_loopback ip =
      let address = without_zone ip in
      if is_ip address == 6
      then elim (parse_ipv6 address) [ none ↦ false | some groups ↦ embeds_loopback groups ]
      else false
