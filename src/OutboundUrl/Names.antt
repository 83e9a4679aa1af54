-- ===== src/OutboundUrl/Names.antt =====
-- The types of the allow list of packages/shared-core/src/outbound-url.ts, and its host names.
use hy_fib_wa_app.Prelude.Slices.{split_on, has_suffix}
use hy_fib_wa_app.Prelude.{
  ℕ, Bool, true, false, ◌&&◌, ◌||◌, List, [], ◌∷◌, Option, none, some, Text, text_eq, to_lower, any,
  all, length, leb, ◌==◌, if◌then◌else◌,
}
use hy_fib_wa_app.OutboundUrl.Parsing.{Groups}

pub record OutboundAllowlist : Type 0 where
  pub hosts : List Text
  pub host_suffixes : List Text
  pub cidrs : List Text

pub record Range4 : Type 0 where
  pub start : ℕ
  pub size : ℕ
  pub loopback_only : Bool

pub record Range6 : Type 0 where
  pub groups : Groups
  pub prefix : ℕ
  pub loopback_only : Bool

pub record CompiledAllowlist : Type 0 where
  pub hosts : List Text
  pub host_suffixes : List Text
  pub v4 : List Range4
  pub v6 : List Range6

abbrev pub max_host_name_length : ℕ
max_host_name_length = 253

abbrev pub max_label_length : ℕ
max_label_length = 63

-- `s.replace(/\.$/, "")`
unfoldable pub strip_dot : Text → Text
strip_dot [] = []
strip_dot (c ∷ []) = if c == b'.' then [] else c ∷ []
strip_dot (c ∷ d ∷ s) = c ∷ strip_dot (d ∷ s)

is_name_unit : ℕ → Bool
is_name_unit c = (leb b'a' c && leb c b'z') || (leb b'0' c && leb c b'9') || c == b'_' || c == b'-'

-- One label of `/^[a-z0-9_-]+(?:\.[a-z0-9_-]+)*$/`, of at most 63 units.
is_label : Text → Bool
unfolding is_name_unit
is_label label =
    leb 1 (length label) && all is_name_unit label && leb (length label) max_label_length

unfoldable pub normalise_allowlisted_name : Text → Option Text
unfolding strip_dot is_label split_on
normalise_allowlisted_name entry =
    let name = strip_dot (to_lower entry) in
    if all is_label (split_on b'.' name) && leb (length name) max_host_name_length
    then some name
    else none

unfoldable pub is_allowlistable_host_name : Text → Bool
unfolding normalise_allowlisted_name
is_allowlistable_host_name host = elim (normalise_allowlisted_name host) [
  | none ↦ false
  | some name ↦ true
]

unfoldable pub is_allowlisted_host : Text → Option CompiledAllowlist → Bool
unfolding has_suffix
is_allowlisted_host host none = false
is_allowlisted_host host (some allowlist) =
    any (λ listed. text_eq listed (to_lower host)) allowlist.hosts
    || any (λ suffix. has_suffix (b'.' ∷ suffix) (to_lower host)) allowlist.host_suffixes

-- `names.map(normaliseAllowlistedName)`
unfoldable pub normalise_names : List Text → Option (List Text)
unfolding normalise_allowlisted_name
normalise_names [] = some []
normalise_names (entry ∷ entries) =
    let rest = normalise_names entries in
    elim (normalise_allowlisted_name entry) [
      | none ↦ none
      | some name ↦ elim rest [ none ↦ none | some names ↦ some (name ∷ names) ]
    ]
