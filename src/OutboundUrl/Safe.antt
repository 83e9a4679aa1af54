-- ===== src/OutboundUrl/Safe.antt =====
-- What the guard of packages/shared-core/src/outbound-url.ts lets through, whatever `isIP`, the URL
-- parser and the resolver answer.
use hy_fib_wa_app.Prelude.{
  ℕ, ◌≡◌, ◌⊎◌, refl, subst, Bool, true, false, List, [], ◌∷◌, Option, none, some, Text, codes,
  text_eq_iff, trim, arith, ◌==◌, filter, length, All, filter_keeps, Bool-cases, inl, inr,
}
use hy_fib_wa_app.OutboundUrl.Address.{is_private_or_reserved_address, is_hard_blocked_address}
use hy_fib_wa_app.OutboundUrl.Names.{OutboundAllowlist, CompiledAllowlist, is_allowlisted_host}
use hy_fib_wa_app.OutboundUrl.Allowlist.{is_allowlisted_address}
use hy_fib_wa_app.OutboundUrl.Guard.{
  Url, accepted, is_internal_host_name, host_of, ResolvedAddress, resolved, distinct, LookupOptions,
  usable, hand_over, is_blocked, validate_host, validate_parsed, validate_trimmed,
  validate_outbound_url, compiled_allowlist, guarded_lookup, answer_with, addresses, blocked_answer,
}
use hy_fib_wa_app.OutboundUrl.Floor.{is_hard_blocked_address-private}

module _ (is_ip : Text → ℕ) where
  -- An address that is not blocked.
  pub record IsOpen (allowlist : Option CompiledAllowlist) (ip : Text) : Type 0 where
    pub off_floor : is_hard_blocked_address is_ip ip ≡ false
    pub public_or_listed :
        (is_private_or_reserved_address is_ip ip ≡ false)
        ⊎ (is_allowlisted_address is_ip ip allowlist ≡ true)

  allowlisted-off_floor :
      (allowlist : Option CompiledAllowlist) (ip : Text)
      → is_allowlisted_address is_ip ip allowlist ≡ true
      → is_hard_blocked_address is_ip ip ≡ false
  unfolding is_allowlisted_address
  allowlisted-off_floor none ip h = cc
  allowlisted-off_floor (some allowlist) ip h = ground arith

  IsOpen-of_unblocked :
      (allowlist : Option CompiledAllowlist) (ip : Text)
      → is_blocked is_ip allowlist ip ≡ false
      → IsOpen allowlist ip
  unfolding is_blocked
  IsOpen-of_unblocked allowlist ip h = record {
    off_floor =
        ground
          (arith, is_hard_blocked_address-private is_ip ip, allowlisted-off_floor allowlist ip);
    public_or_listed = ground arith;
  }

  validate_host-same :
      (allowlist : Option CompiledAllowlist) (url url' : Url)
      → validate_host is_ip allowlist url ≡ accepted url'
      → url ≡ url'
  unfolding validate_host
  validate_host-same allowlist url url' h = ground arith

  validate_host-literal :
      (allowlist : Option CompiledAllowlist) (url url' : Url)
      → validate_host is_ip allowlist url ≡ accepted url'
      → (is_ip (host_of url) == 0) ≡ false
      → is_blocked is_ip allowlist (host_of url) ≡ false
  unfolding validate_host
  validate_host-literal allowlist url url' h n = ground arith

  validate_host-name :
      (allowlist : Option CompiledAllowlist) (url url' : Url)
      → validate_host is_ip allowlist url ≡ accepted url'
      → (is_ip (host_of url) == 0) ≡ true
      → (is_internal_host_name (host_of url) ≡ false)
        ⊎ (is_allowlisted_host (host_of url) allowlist ≡ true)
  unfolding validate_host
  validate_host-name allowlist url url' h n = ground arith

  -- A host, by whether it is a name.
  abbrev pub IsSafeHost : Option CompiledAllowlist → Text → Bool → Type 0
  IsSafeHost allowlist host true =
      (is_internal_host_name host ≡ false) ⊎ (is_allowlisted_host host allowlist ≡ true)
  IsSafeHost allowlist host false = IsOpen allowlist host

  pub record IsSafeUrl (allowlist : Option CompiledAllowlist) (url : Url) : Type 0 where
    pub scheme : (url.protocol ≡ codes "http:") ⊎ (url.protocol ≡ codes "https:")
    pub no_username : length url.username ≡ 0
    pub no_password : length url.password ≡ 0
    pub host : IsSafeHost allowlist (host_of url) (is_ip (host_of url) == 0)

  validate_host-IsSafeHost :
      (allowlist : Option CompiledAllowlist) (url url' : Url)
      → validate_host is_ip allowlist url ≡ accepted url'
      → IsSafeHost allowlist (host_of url) (is_ip (host_of url) == 0)
  validate_host-IsSafeHost allowlist url url' h = elim (Bool-cases (is_ip (host_of url) == 0)) [
    | inl y ↦ rw y (validate_host-name allowlist url url' h y)
    | inr n ↦
        rw n (
          IsOpen-of_unblocked allowlist (host_of url)
            (validate_host-literal allowlist url url' h n))
  ]

  validate_parsed-IsSafeUrl :
      (allowlist : Option CompiledAllowlist) (o : Option Url) (url : Url)
      → validate_parsed is_ip allowlist o ≡ accepted url
      → IsSafeUrl allowlist url
  unfolding validate_parsed
  validate_parsed-IsSafeUrl allowlist none url h = cc
  validate_parsed-IsSafeUrl allowlist (some given) url h =
      let inside : validate_host is_ip allowlist given ≡ accepted url = ground arith in
      subst (IsSafeUrl allowlist) (validate_host-same allowlist given url inside) (record {
        scheme = ground (
          arith,
          text_eq_iff given.protocol (codes "http:"),
          text_eq_iff given.protocol (codes "https:"),
        );
        no_username = ground arith;
        no_password = ground arith;
        host = validate_host-IsSafeHost allowlist given url inside;
      })

  validate_trimmed-parsed :
      (parse : Text → Option Url) (input : Text) (allowlist : Option CompiledAllowlist) (url : Url)
      → validate_trimmed is_ip parse input allowlist ≡ accepted url
      → validate_parsed is_ip allowlist (parse input) ≡ accepted url
  unfolding validate_trimmed
  validate_trimmed-parsed parse input allowlist url h = ground arith

  -- A URL that the save-time policy accepts is http or https, without credentials. If its host is an
  -- IP literal, that is off the hard floor, and public or on the allow list; if a name, that is no
  -- internal one, or on the allow list.
  pub validate_outbound_url-IsSafeUrl :
      (parse : Text → Option Url) (input : Text) (given : Option OutboundAllowlist)
      (allowlist : Option CompiledAllowlist) (url : Url)
      → compiled_allowlist is_ip given ≡ some allowlist
      → validate_outbound_url is_ip parse input given ≡ some (accepted url)
      → IsSafeUrl allowlist url
  unfolding validate_outbound_url
  validate_outbound_url-IsSafeUrl parse input given allowlist url c h =
      let trimmed : validate_trimmed is_ip parse (trim input) allowlist ≡ accepted url =
        ground arith in
      validate_parsed-IsSafeUrl allowlist (parse (trim input)) url
        (validate_trimmed-parsed parse (trim input) allowlist url trimmed)

  distinct-nil : (xs : List Text) → distinct xs ≡ [] → xs ≡ []
  unfolding distinct
  distinct-nil [] h = refl
  distinct-nil (x ∷ xs) h = cc

  abbrev pub IsVetted : Option CompiledAllowlist → ResolvedAddress → Type 0
  IsVetted allowlist a = IsOpen allowlist a.address

  filter-nil :
      (allowlist : Option CompiledAllowlist) (answers : List ResolvedAddress)
      → filter (is_blocked is_ip allowlist) (addresses answers) ≡ []
      → All (IsVetted allowlist) answers
  filter-nil allowlist [] h = tt
  filter-nil allowlist (a ∷ answers) h = elim (Bool-cases (is_blocked is_ip allowlist a.address)) [
    | inl y ↦ absurd (kept_first a y h)
    | inr n ↦
        (IsOpen-of_unblocked allowlist a.address n, filter-nil allowlist answers (ground arith))
  ]
    where
      kept_first :
          (a : ResolvedAddress)
          → is_blocked is_ip allowlist a.address ≡ true
          → filter (is_blocked is_ip allowlist) (addresses (a ∷ answers)) ≡ []
          → ⊥
      kept_first a y h = ground arith

  usable-All :
      (P : ResolvedAddress → Type 0) (options : LookupOptions) (answers : List ResolvedAddress)
      → All P answers
      → All P (usable options answers)
  unfolding usable
  usable-All P options answers h = elim (Bool-cases (options.family == 0)) [
    | inl y ↦ rw (y, usable) h
    | inr n ↦ rw (n, usable) (filter_keeps P (λ a. a.family == options.family) answers h)
  ]

  hand_over-All :
      (P : ResolvedAddress → Type 0) (options : LookupOptions)
      (answers given : List ResolvedAddress)
      → All P answers
      → hand_over options answers ≡ resolved given
      → All P given
  unfolding hand_over
  hand_over-All P options [] given h e = cc
  hand_over-All P options (a ∷ rest) given h e = elim (Bool-cases options.wants_all) [
    | inl y ↦ let same : a ∷ rest ≡ given = ground arith in subst (All P) same h
    | inr n ↦ let same : a ∷ [] ≡ given = ground arith in subst (All P) same (h.0, tt)
  ]

  answer_with-nil :
      (refusals : List Text) (options : LookupOptions) (answers given : List ResolvedAddress)
      → answer_with is_ip refusals options answers ≡ resolved given
      → (refusals ≡ []) × (hand_over options (usable options answers) ≡ resolved given)
  unfolding answer_with blocked_answer
  answer_with-nil [] options answers given e = (refl, e)
  answer_with-nil (ip ∷ refusals) options answers given e = cc

  -- Every address that the guarded lookup hands to a socket is off the hard floor, and public or on
  -- the allow list; and it hands over none of an answer that holds a blocked one.
  pub guarded_lookup-IsOpen :
      (allowlist : Option CompiledAllowlist) (options : LookupOptions)
      (answers given : List ResolvedAddress)
      → guarded_lookup is_ip (is_blocked is_ip allowlist) options (some answers) ≡ resolved given
      → All (IsVetted allowlist) given × All (IsVetted allowlist) answers
  unfolding guarded_lookup
  guarded_lookup-IsOpen allowlist options answers given h =
      let blocks = is_blocked is_ip allowlist in
      let (none_blocked, handed) =
        answer_with-nil (distinct (filter blocks (addresses answers))) options answers given h in
      let vetted = filter-nil allowlist answers (distinct-nil _ none_blocked) in
      (
        hand_over-All (IsVetted allowlist) options (usable options answers) given
            (usable-All (IsVetted allowlist) options answers vetted) handed,
        vetted,
      )
