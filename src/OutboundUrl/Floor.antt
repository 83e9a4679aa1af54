-- ===== src/OutboundUrl/Floor.antt =====
-- The hard floor of packages/shared-core/src/outbound-url.ts lies within the addresses that it refuses
-- by default.
use hy_fib_wa_app.Prelude.{
  ℕ, ◌+◌, ◌*◌, ◌/◌, ◌≡◌, ◌⊎◌, refl, Bool, true, false, [], ◌∷◌, Option, none, some, Text, arith,
  ◌==◌, any, subst, if◌then◌else◌, Bool-cases, inl, inr,
}
use hy_fib_wa_app.OutboundUrl.Parsing.{Groups, parse_ipv4, parse_ipv6}
use hy_fib_wa_app.OutboundUrl.Address.{
  group, in_ipv4_ranges, hard_floor_ipv4_ranges, is_blocked_ipv4, is_blocked_ipv6, is_floor_ipv4,
  is_floor_ipv6, is_nat64, embedded_ipv4, same_groups, hard_floor_ipv6_addresses, test_address,
  fails_or, without_zone, is_hard_blocked_address, is_private_or_reserved_address,
}

pub floor-blocked_ipv4 :
    (value : ℕ) → in_ipv4_ranges value hard_floor_ipv4_ranges ≡ true → is_blocked_ipv4 value ≡ true
unfolding in_ipv4_ranges is_blocked_ipv4
floor-blocked_ipv4 value h = ground arith

same_groups-first : (f : ℕ) (floor gs : Groups) → same_groups (f ∷ floor) gs ≡ true → group gs 0 ≡ f
unfolding same_groups
same_groups-first f floor [] h = cc
same_groups-first f floor (g ∷ gs) h = ground arith

-- What the test for a floor address of its own reads.
floor-listed :
    (gs : Groups)
    → any (λ floor. same_groups floor gs) hard_floor_ipv6_addresses ≡ true
    → (group gs 0 ≡ 0xfd00) ⊎ (group gs 0 ≡ 0xfd20)
floor-listed gs h = ground (
  arith,
  same_groups-first 0xfd00 (0xec2 ∷ 0 ∷ 0 ∷ 0 ∷ 0 ∷ 0 ∷ 0x254 ∷ []) gs,
  same_groups-first 0xfd20 (0xce ∷ 0 ∷ 0 ∷ 0 ∷ 0 ∷ 0 ∷ 0x254 ∷ []) gs,
  same_groups-first 0xfd00 (0xc1 ∷ 0 ∷ 0 ∷ 0 ∷ 0 ∷ 0xa9fe ∷ 0xa9fe ∷ []) gs,
)

is_nat64-first : (gs : Groups) → is_nat64 gs ≡ true → group gs 0 ≡ 0x64
unfolding is_nat64
is_nat64-first gs h = ground arith

-- The address that is embedded where the first group is that of NAT64, and where it is global unicast.
embedded-nat64 :
    (gs : Groups) → is_nat64 gs ≡ true → embedded_ipv4 gs ≡ some (group gs 6 * 65536 + group gs 7)
unfolding embedded_ipv4
embedded-nat64 gs h = let first = is_nat64-first gs h in rw (h, first, embedded_ipv4) refl

embedded-unicast :
    (gs : Groups)
    → is_nat64 gs ≡ false
    → group gs 0 / 0x2000 ≡ 1
    → embedded_ipv4 gs
      ≡ (if group gs 0 == 0x2002 then some (group gs 1 * 65536 + group gs 2) else none)
unfolding embedded_ipv4
embedded-unicast gs h u =
    let zero : (group gs 0 == 0) ≡ false = ground arith in
    let nat : (group gs 0 == 0x64) ≡ false = ground arith in rw (h, zero, nat, embedded_ipv4) refl

unicast :
    (gs : Groups)
    → is_nat64 gs ≡ false
    → group gs 0 / 0x2000 ≡ 1
    → is_floor_ipv4 (if group gs 0 == 0x2002 then some (group gs 1 * 65536 + group gs 2) else none)
      ≡ true
    → is_blocked_ipv6 gs ≡ true
unfolding is_floor_ipv4 is_blocked_ipv6
unicast gs n u h = elim (Bool-cases (group gs 0 == 0x2002)) [
  | inl y ↦
      let e : in_ipv4_ranges (group gs 1 * 65536 + group gs 2) hard_floor_ipv4_ranges ≡ true =
        subst
          (λ t. is_floor_ipv4 (if t then some (group gs 1 * 65536 + group gs 2) else none) ≡ true) y
          h in
      ground (arith, floor-blocked_ipv4 (group gs 1 * 65536 + group gs 2) e)
  | inr x ↦ cc (
      subst (λ t. is_floor_ipv4 (if t then some (group gs 1 * 65536 + group gs 2) else none) ≡ true)
        x h)
]

floor-embedded : (gs : Groups) → is_floor_ipv4 (embedded_ipv4 gs) ≡ true → is_blocked_ipv6 gs ≡ true
unfolding in_ipv4_ranges is_floor_ipv4 is_blocked_ipv6
floor-embedded gs h = elim (Bool-cases (is_nat64 gs)) [
  | inl n ↦
      let e : in_ipv4_ranges (group gs 6 * 65536 + group gs 7) hard_floor_ipv4_ranges ≡ true =
        subst (λ o. is_floor_ipv4 o ≡ true) (embedded-nat64 gs n) h in
      rw (n, is_blocked_ipv6) (floor-blocked_ipv4 (group gs 6 * 65536 + group gs 7) e)
  | inr n ↦ elim (Bool-cases (group gs 0 / 0x2000 == 1)) [
    | inl u ↦
        unicast gs n (ground arith)
          (subst (λ o. is_floor_ipv4 o ≡ true) (embedded-unicast gs n (ground arith)) h)
    | inr u ↦ rw (n, u, is_blocked_ipv6) refl
  ]
]

pub floor-blocked_ipv6 : (gs : Groups) → is_floor_ipv6 gs ≡ true → is_blocked_ipv6 gs ≡ true
unfolding is_floor_ipv6 is_blocked_ipv6 is_nat64
floor-blocked_ipv6 gs h = elim (Bool-cases (is_floor_ipv4 (embedded_ipv4 gs))) [
  | inl e ↦ floor-embedded gs e
  | inr e ↦ beyond gs (ground (arith, floor-listed gs))
]
  where
    beyond :
        (gs : Groups)
        → (group gs 0 / 0x40 ≡ 0x3fa)
          ⊎ (group gs 0 / 0x100 ≡ 0xff)
          ⊎ (group gs 0 ≡ 0xfd00)
          ⊎ (group gs 0 ≡ 0xfd20)
        → is_blocked_ipv6 gs ≡ true
    beyond gs h = ground arith

fails_or_mono {ℓ} :
    {A : Type ℓ} (p q : A → Bool)
    → ((x : A) → p x ≡ true → q x ≡ true)
    → (o : Option A) → fails_or p o ≡ true
    → fails_or q o ≡ true
fails_or_mono p q h none e = refl
fails_or_mono p q h (some x) e = h x e

-- The hard floor lies within what is refused by default: whatever `isIP` answers, every text that
-- is hard-blocked is a private or reserved address as well.
pub is_hard_blocked_address-private :
    (is_ip : Text → ℕ) (ip : Text)
    → is_hard_blocked_address is_ip ip ≡ true
    → is_private_or_reserved_address is_ip ip ≡ true
unfolding is_hard_blocked_address is_private_or_reserved_address test_address
is_hard_blocked_address-private is_ip ip h = ground (
  arith,
  fails_or_mono (λ value. in_ipv4_ranges value hard_floor_ipv4_ranges) is_blocked_ipv4
      floor-blocked_ipv4 (parse_ipv4 (without_zone ip)),
  fails_or_mono is_floor_ipv6 is_blocked_ipv6 floor-blocked_ipv6 (parse_ipv6 (without_zone ip)),
)
