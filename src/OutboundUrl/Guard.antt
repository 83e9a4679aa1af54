-- ===== src/OutboundUrl/Guard.antt =====
-- The save-time policy and the guarded lookup of packages/shared-core/src/outbound-url.ts. The URL
-- parser and the resolver are parameters; a promise that is rejected is `none`. The messages are
-- constructors, and the connection that follows is left out.
use hy_fib_wa_app.Prelude.Slices.{split_on, has_unit, has_suffix, drop}
use hy_fib_wa_app.Prelude.{
  ℕ, ◌-◌, map, Bool, true, false, not, ◌&&◌, ◌||◌, List, [], ◌∷◌, Option, none, some, Text, codes,
  text_eq, to_lower, trim, any, all, filter, take, length, ltb, ◌==◌, if◌then◌else◌,
}
use hy_fib_wa_app.OutboundUrl.Address.{is_private_or_reserved_address, is_hard_blocked_address}
use hy_fib_wa_app.OutboundUrl.Names.{
  OutboundAllowlist, CompiledAllowlist, strip_dot, is_allowlistable_host_name, is_allowlisted_host,
}
use hy_fib_wa_app.OutboundUrl.Allowlist.{
  is_allowlisted_address, is_embedded_ipv4_loopback, compile_allowlist,
}

abbrev pub outbound_url_max_length : ℕ
outbound_url_max_length = 2048

abbrev pub max_named_addresses : ℕ
max_named_addresses = 8

unfoldable pub internal_name_suffixes : List Text
internal_name_suffixes =
    codes "localhost"
    ∷ codes "localdomain"
    ∷ codes "local"
    ∷ codes "internal"
    ∷ codes "home.arpa"
    ∷ codes "lan"
    ∷ codes "home"
    ∷ codes "corp"
    ∷ []

-- What the code reads of a parsed URL.
pub record Url : Type 0 where
  pub protocol : Text
  pub username : Text
  pub password : Text
  pub hostname : Text

pub data Remedy : Type 0 where
  host_entry address_entry : Remedy

pub data UrlError : Type 0 where
  required too_long invalid bad_protocol credentials no_host empty_label : UrlError
  reserved_address internal_name : UrlError

pub data OutboundUrlValidation : Type 0 where
  accepted : Url → OutboundUrlValidation
  refused : UrlError → Option Remedy → OutboundUrlValidation

unfoldable pub is_internal_host_name : Text → Bool
is_internal_host_name host =
    let name = to_lower host in
    not (has_unit b'.' name)
    || any (λ suffix. text_eq name suffix || has_suffix (b'.' ∷ suffix) name) internal_name_suffixes

abbrev pub is_bracketed : Text → Bool
is_bracketed [] = false
is_bracketed (c ∷ s) = c == b'['

-- `s.slice(1, -1)`
abbrev pub inner : Text → Text
inner s = take (length s - 2) (drop 1 s)

-- The host that the checks are on, and whether it was in brackets.
unfoldable pub host_of : Url → Text
host_of url = if is_bracketed url.hostname then inner url.hostname else strip_dot url.hostname

abbrev pub is_empty : Text → Bool
is_empty s = length s == 0

abbrev pub remedy_if : Bool → Remedy → Option Remedy
remedy_if true remedy = some remedy
remedy_if false remedy = none

-- What a lookup passes on: addresses, a refusal that names some of them, or a failure.
pub record ResolvedAddress : Type 0 where
  pub address : Text
  pub family : ℕ

pub data LookupResult : Type 0 where
  resolved : List ResolvedAddress → LookupResult
  blocked : (named : List Text) → (unnamed : ℕ) → Option Remedy → LookupResult
  not_found resolver_failed : LookupResult

-- `[...new Set(xs)]`
unfoldable pub distinct : List Text → List Text
distinct [] = []
distinct (x ∷ xs) = x ∷ filter (λ y. not (text_eq y x)) (distinct xs)

abbrev pub addresses : List ResolvedAddress → List Text
addresses answers = map (λ a. a.address) answers

-- What a socket asks for: a family, 0 for any, and whether it wants all the addresses.
pub record LookupOptions : Type 0 where
  pub family : ℕ
  pub wants_all : Bool

unfoldable pub usable : LookupOptions → List ResolvedAddress → List ResolvedAddress
usable options answers =
    if options.family == 0 then answers else filter (λ a. a.family == options.family) answers

abbrev pub first_only : List ResolvedAddress → List ResolvedAddress
first_only [] = []
first_only (a ∷ rest) = a ∷ []

unfoldable pub hand_over : LookupOptions → List ResolvedAddress → LookupResult
hand_over options [] = not_found
hand_over options (a ∷ rest) =
    resolved (if options.wants_all then a ∷ rest else first_only (a ∷ rest))

module _ (is_ip : Text → ℕ) where
  unfoldable pub address_remedy : Text → Option Remedy
  address_remedy ip =
      remedy_if (not (is_hard_blocked_address is_ip ip || is_embedded_ipv4_loopback is_ip ip))
        address_entry

  abbrev pub is_remediable : Text → Bool
  is_remediable ip = elim (address_remedy ip) [ none ↦ false | some remedy ↦ true ]

  -- Whether an address may not be connected to, where no test is injected.
  unfoldable pub is_blocked : Option CompiledAllowlist → Text → Bool
  is_blocked allowlist ip =
      is_private_or_reserved_address is_ip ip && not (is_allowlisted_address is_ip ip allowlist)

  -- The checks on the host.
  unfoldable pub validate_host : Option CompiledAllowlist → Url → OutboundUrlValidation
  validate_host allowlist url =
      let name = host_of url in
      if is_empty name
      then refused no_host none
      else if not (is_bracketed url.hostname) && any is_empty (split_on b'.' name)
      then refused empty_label none
      else if not (is_ip name == 0)
      then (if is_blocked allowlist name
          then refused reserved_address (address_remedy name)
          else accepted url)
      else if is_internal_host_name name && not (is_allowlisted_host name allowlist)
      then refused internal_name (remedy_if (is_allowlistable_host_name name) host_entry)
      else accepted url

  unfoldable pub validate_parsed : Option CompiledAllowlist → Option Url → OutboundUrlValidation
  validate_parsed allowlist none = refused invalid none
  validate_parsed allowlist (some url) =
      if not (text_eq url.protocol (codes "http:")) && not (text_eq url.protocol (codes "https:"))
      then refused bad_protocol none
      else if not (is_empty url.username) || not (is_empty url.password)
      then refused credentials none
      else validate_host allowlist url

  -- The allow list compiled, none where it is malformed.
  unfoldable pub compiled_allowlist : Option OutboundAllowlist → Option (Option CompiledAllowlist)
  compiled_allowlist none = some none
  compiled_allowlist (some allowlist) = elim (compile_allowlist is_ip allowlist) [
    | none ↦ none
    | some compiled ↦ some (some compiled)
  ]

  unfoldable pub validate_trimmed :
      (Text → Option Url) → Text → Option CompiledAllowlist → OutboundUrlValidation
  validate_trimmed parse trimmed allowlist =
      if is_empty trimmed
      then refused required none
      else if ltb outbound_url_max_length (length trimmed)
      then refused too_long none
      else validate_parsed allowlist (parse trimmed)

  -- For an input that is a string. None where the allow list is malformed.
  unfoldable pub validate_outbound_url :
      (parse : Text → Option Url) → Text → Option OutboundAllowlist → Option OutboundUrlValidation
  validate_outbound_url parse input allowlist = elim (compiled_allowlist allowlist) [
    | none ↦ none
    | some compiled ↦ some (validate_trimmed parse (trim input) compiled)
  ]

  -- The refusal of an answer that holds refused addresses.
  unfoldable pub blocked_answer : List Text → LookupResult
  blocked_answer refusals =
      let named = take max_named_addresses refusals in
      let unnamed = length refusals - length named in
      blocked named unnamed (remedy_if (unnamed == 0 && all is_remediable refusals) address_entry)

  unfoldable pub answer_with : List Text → LookupOptions → List ResolvedAddress → LookupResult
  answer_with [] options answers = hand_over options (usable options answers)
  answer_with (ip ∷ refusals) options answers = blocked_answer (ip ∷ refusals)

  -- The lookup of a name, for the answer of the resolver.
  unfoldable pub guarded_lookup :
      (blocks : Text → Bool)
      → LookupOptions
      → (answer : Option (List ResolvedAddress)) → LookupResult
  guarded_lookup blocks options none = resolver_failed
  guarded_lookup blocks options (some answers) =
      let refusals = distinct (filter blocks (addresses answers)) in
      answer_with refusals options answers
