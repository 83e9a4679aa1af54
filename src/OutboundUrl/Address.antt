-- ===== src/OutboundUrl/Address.antt =====
-- The address tests of packages/shared-core/src/outbound-url.ts. An IPv4 address is its value, an
-- IPv6 address its groups, which are of 16 bits: where the code compares them under a mask of leading
-- bits, the model compares quotients by a power of two. `isIP` of node:net is a parameter.
use hy_fib_wa_app.OutboundUrl.Parsing.{Groups, parse_ipv4, parse_ipv6}
use hy_fib_wa_app.Prelude.Slices.{until}
use hy_fib_wa_app.Prelude.{
  ℕ, zero, suc, ◌+◌, ◌-◌, ◌*◌, ◌/◌, ◌^◌, Bool, true, false, not, ◌&&◌, ◌||◌, List, [], ◌∷◌, Option,
  none, some, Text, any, leb, ltb, ◌==◌, if◌then◌else◌,
}

-- A range is its first address and its prefix length.
abbrev pub Ranges : Type 0
Ranges = List (ℕ × ℕ)

abbrev quad : ℕ → ℕ → ℕ → ℕ → ℕ
quad a b c d = ((a * 256 + b) * 256 + c) * 256 + d

abbrev pub blocked_ipv4_ranges : Ranges
blocked_ipv4_ranges =
    (quad 0 0 0 0, 8)
    ∷ (quad 10 0 0 0, 8)
    ∷ (quad 100 64 0 0, 10)
    ∷ (quad 127 0 0 0, 8)
    ∷ (quad 169 254 0 0, 16)
    ∷ (quad 172 16 0 0, 12)
    ∷ (quad 192 0 0 0, 24)
    ∷ (quad 192 0 2 0, 24)
    ∷ (quad 192 88 99 0, 24)
    ∷ (quad 192 168 0 0, 16)
    ∷ (quad 198 18 0 0, 15)
    ∷ (quad 198 51 100 0, 24)
    ∷ (quad 203 0 113 0, 24)
    ∷ (quad 224 0 0 0, 4)
    ∷ (quad 240 0 0 0, 4)
    ∷ []

abbrev pub hard_floor_ipv4_ranges : Ranges
hard_floor_ipv4_ranges =
    (quad 0 0 0 0, 8)
    ∷ (quad 169 254 0 0, 16)
    ∷ (quad 224 0 0 0, 4)
    ∷ (quad 240 0 0 0, 4)
    ∷ (quad 100 100 100 200, 32)
    ∷ (quad 192 0 0 192, 32)
    ∷ []

-- fd00:ec2::254, fd20:ce::254 and fd00:c1::a9fe:a9fe
abbrev pub hard_floor_ipv6_addresses : List Groups
hard_floor_ipv6_addresses =
    (0xfd00 ∷ 0xec2 ∷ 0 ∷ 0 ∷ 0 ∷ 0 ∷ 0 ∷ 0x254 ∷ [])
    ∷ (0xfd20 ∷ 0xce ∷ 0 ∷ 0 ∷ 0 ∷ 0 ∷ 0 ∷ 0x254 ∷ [])
    ∷ (0xfd00 ∷ 0xc1 ∷ 0 ∷ 0 ∷ 0 ∷ 0 ∷ 0xa9fe ∷ 0xa9fe ∷ [])
    ∷ []

abbrev in_range : ℕ → ℕ × ℕ → Bool
in_range value (start, prefix) = leb start value && ltb value (start + 2 ^ (32 - prefix))

unfoldable pub in_ipv4_ranges : ℕ → Ranges → Bool
in_ipv4_ranges value ranges = any (in_range value) ranges

unfoldable pub is_blocked_ipv4 : ℕ → Bool
unfolding in_ipv4_ranges
is_blocked_ipv4 value = in_ipv4_ranges value blocked_ipv4_ranges

-- `groups[index] ?? 0`
abbrev pub group : Groups → ℕ → ℕ
group [] i = 0
group (g ∷ gs) zero = g
group (g ∷ gs) (suc i) = group gs i

unfoldable pub is_nat64 : Groups → Bool
is_nat64 gs =
    group gs 0 == 0x64
    && group gs 1 == 0xff9b
    && group gs 2 == 0
    && group gs 3 == 0
    && group gs 4 == 0
    && group gs 5 == 0

unfoldable pub is_blocked_ipv6 : Groups → Bool
unfolding is_nat64 is_blocked_ipv4
is_blocked_ipv6 gs =
    if is_nat64 gs
    then is_blocked_ipv4 (group gs 6 * 65536 + group gs 7)
    else if not (group gs 0 / 0x2000 == 1)
    then true
    else if group gs 0 == 0x2001 && ltb (group gs 1) 0x200
    then true
    else if group gs 0 == 0x2001 && group gs 1 == 0xdb8
    then true
    else if group gs 0 == 0x3fff && group gs 1 / 0x1000 == 0
    then true
    else if group gs 0 == 0x2002
    then is_blocked_ipv4 (group gs 1 * 65536 + group gs 2)
    else false

unfoldable pub embedded_ipv4 : Groups → Option ℕ
unfolding is_nat64
embedded_ipv4 gs =
    let tail = group gs 6 * 65536 + group gs 7 in
    let zero_prefix = group gs 0 == 0 && group gs 1 == 0 && group gs 2 == 0 && group gs 3 == 0 in
    if zero_prefix && group gs 4 == 0 && (group gs 5 == 0xffff || group gs 5 == 0)
    then (if group gs 5 == 0 && tail == 1 then none else some tail)
    else if zero_prefix && group gs 4 == 0xffff && group gs 5 == 0
    then some tail
    else if is_nat64 gs || (group gs 0 == 0x64 && group gs 1 == 0xff9b && group gs 2 == 1)
    then some tail
    else if group gs 0 == 0x2002
    then some (group gs 1 * 65536 + group gs 2)
    else none

-- `address` without the zone that a '%' starts.
unfoldable pub without_zone : Text → Text
unfolding until
without_zone ip = until b'%' ip

-- `floor.every((group, index) => group === groups[index])`
unfoldable pub same_groups : Groups → Groups → Bool
same_groups [] gs = true
same_groups (f ∷ floor) [] = false
same_groups (f ∷ floor) (g ∷ gs) = f == g && same_groups floor gs

unfoldable pub is_floor_ipv4 : Option ℕ → Bool
unfolding in_ipv4_ranges
is_floor_ipv4 none = false
is_floor_ipv4 (some value) = in_ipv4_ranges value hard_floor_ipv4_ranges

unfoldable pub is_floor_ipv6 : Groups → Bool
unfolding same_groups is_floor_ipv4 embedded_ipv4
is_floor_ipv6 gs =
    group gs 0 / 0x40 == 0x3fa
    || group gs 0 / 0x100 == 0xff
    || any (λ floor. same_groups floor gs) hard_floor_ipv6_addresses
    || is_floor_ipv4 (embedded_ipv4 gs)

-- A test that what does not parse passes.
abbrev pub fails_or {ℓ} : {A : Type ℓ} → (A → Bool) → Option A → Bool
fails_or test none = true
fails_or test (some x) = test x

-- `isIP` answers 4, 6, or 0 for a text that is no address.
module _ (is_ip : Text → ℕ) where
  -- A test of the parsed address that every other text passes.
  unfoldable pub test_address : (ℕ → Bool) → (Groups → Bool) → Text → Bool
  test_address v4 v6 ip =
      let address = without_zone ip in
      if is_ip address == 4
      then fails_or v4 (parse_ipv4 address)
      else if is_ip address == 6
      then fails_or v6 (parse_ipv6 address)
      else true

  unfoldable pub is_private_or_reserved_address : Text → Bool
  unfolding test_address
  is_private_or_reserved_address ip = test_address is_blocked_ipv4 is_blocked_ipv6 ip

  unfoldable pub is_hard_blocked_address : Text → Bool
  unfolding test_address
  is_hard_blocked_address ip =
      test_address (λ value. in_ipv4_ranges value hard_floor_ipv4_ranges) is_floor_ipv6 ip
