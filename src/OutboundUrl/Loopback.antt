-- ===== src/OutboundUrl/Loopback.antt =====
-- Which entries of the allow list of packages/shared-core/src/outbound-url.ts open IPv4 loopback.
use hy_fib_wa_app.Prelude.{
  ℕ, ◌+◌, ◌≤◌, ◌≡◌, ◌⊎◌, refl, Bool, true, false, ◌&&◌, List, [], ◌∷◌, Option, none, some, Text,
  arith, ◌==◌, leb, ltb, any, All, subst, ◌-◌, ◌^◌,
}
use hy_fib_wa_app.OutboundUrl.Parsing.{parse_ipv4}
use hy_fib_wa_app.OutboundUrl.Address.{without_zone}
use hy_fib_wa_app.OutboundUrl.Names.{OutboundAllowlist, CompiledAllowlist, Range4, normalise_names}
use hy_fib_wa_app.OutboundUrl.Allowlist.{
  ParsedCidr, cidr4, cidr6, ipv4_loopback_start, ipv4_loopback_end, is_ipv4_loopback, admits_ipv4,
  with_cidr, parse_allowlist_cidr, compile_cidrs, compile_names, compile_allowlist, with_each,
  is_allowlisted_address,
}

-- A range that says that it is all loopback is.
abbrev IsHonest : Range4 → Type 0
IsHonest range =
    (range.loopback_only ≡ false)
    ⊎ ((ipv4_loopback_start ≤ range.start) × (range.start + range.size ≤ ipv4_loopback_end))

with_cidr-All :
    (cidr : ParsedCidr) (compiled : CompiledAllowlist)
    → All IsHonest compiled.v4
    → All IsHonest (with_cidr cidr compiled).v4
with_cidr-All (cidr4 value prefix) compiled h = (honest value (2 ^ (32 - prefix)), h)
  where
    honest :
        (value size : ℕ)
        → ((leb ipv4_loopback_start value && leb (value + size) ipv4_loopback_end) ≡ false)
          ⊎ ((ipv4_loopback_start ≤ value) × (value + size ≤ ipv4_loopback_end))
    honest value size = ground arith
with_cidr-All (cidr6 groups prefix) compiled h = h

with_each-All :
    (parsed : Option ParsedCidr) (rest : Option CompiledAllowlist) (result : CompiledAllowlist)
    → ((compiled : CompiledAllowlist) → rest ≡ some compiled → All IsHonest compiled.v4)
    → with_each parsed rest ≡ some result
    → All IsHonest result.v4
unfolding with_each
with_each-All (some cidr) (some compiled) result h e =
    let same : with_cidr cidr compiled ≡ result = cc in
    subst (λ c. All IsHonest c.v4) same (with_cidr-All cidr compiled (h compiled refl))
with_each-All (some cidr) none result h e = ground arith
with_each-All none rest result h e = ground arith

-- Whether a range of loopback addresses only holds an address.
abbrev pub is_loopback_range : ℕ → Range4 → Bool
is_loopback_range value range =
    leb ipv4_loopback_start range.start
    && leb (range.start + range.size) ipv4_loopback_end
    && leb range.start value
    && ltb value (range.start + range.size)

admits_ipv4-loopback :
    (compiled : CompiledAllowlist) (ranges : List Range4) (value : ℕ)
    → All IsHonest ranges
    → is_ipv4_loopback value ≡ true
    → admits_ipv4 (record compiled { v4 = ranges }) (some value) ≡ true
    → any (is_loopback_range value) ranges ≡ true
unfolding admits_ipv4
admits_ipv4-loopback compiled [] value h l e = e
admits_ipv4-loopback compiled (range ∷ ranges) value h l e =
    ground (arith, admits_ipv4-loopback compiled ranges value)

module _ (is_ip : Text → ℕ) where
  compile_cidrs-All :
      (entries : List Text) (compiled result : CompiledAllowlist)
      → All IsHonest compiled.v4
      → compile_cidrs is_ip entries compiled ≡ some result
      → All IsHonest result.v4
  unfolding compile_cidrs
  compile_cidrs-All [] compiled result h e =
      let same : compiled ≡ result = cc in subst (λ c. All IsHonest c.v4) same h
  compile_cidrs-All (entry ∷ entries) compiled result h e =
      with_each-All (parse_allowlist_cidr is_ip entry) (compile_cidrs is_ip entries compiled) result
        (λ rest. compile_cidrs-All entries compiled rest h) e

  compile_names-All :
      (hosts suffixes : Option (List Text)) (cidrs : List Text) (compiled : CompiledAllowlist)
      → compile_names is_ip hosts suffixes cidrs ≡ some compiled
      → All IsHonest compiled.v4
  unfolding compile_names
  compile_names-All (some hosts) (some suffixes) cidrs compiled e =
      compile_cidrs-All cidrs _ compiled tt e
  compile_names-All (some hosts) none cidrs compiled e = ground arith
  compile_names-All none suffixes cidrs compiled e = ground arith

  -- An IPv4 loopback address is let through only by an entry that lies within 127.0.0.0/8 and holds
  -- it: no broad range such as 0.0.0.0/0 opens loopback.
  pub is_allowlisted_address-loopback :
      (given : OutboundAllowlist) (compiled : CompiledAllowlist) (ip : Text) (value : ℕ)
      → compile_allowlist is_ip given ≡ some compiled
      → (is_ip (without_zone ip) == 4) ≡ true
      → parse_ipv4 (without_zone ip) ≡ some value
      → is_ipv4_loopback value ≡ true
      → is_allowlisted_address is_ip ip (some compiled) ≡ true
      → any (is_loopback_range value) compiled.v4 ≡ true
  unfolding is_allowlisted_address compile_allowlist
  is_allowlisted_address-loopback given compiled ip value c v p l h =
      let given_All : All IsHonest compiled.v4 =
        compile_names-All (normalise_names given.hosts) (normalise_names given.host_suffixes)
          given.cidrs compiled c in
      let admitted : admits_ipv4 compiled (parse_ipv4 (without_zone ip)) ≡ true = ground arith in
      admits_ipv4-loopback compiled compiled.v4 value given_All l
        (subst (λ o. admits_ipv4 compiled o ≡ true) p admitted)
