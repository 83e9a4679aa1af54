-- ===== src/Authorization/Grants.antt =====
-- What a caller that services/api-gateway/src/authorization.ts lets grant roles must itself hold.
use hy_fib_wa_app.Prelude.{
  ◌≡◌, ◌≢◌, refl, ◌⊎◌, inl, inr, true, false, List, [], ◌∷◌, arith, Text, All, any_mono, All-of_all,
  All-of_filter_nil, All_mono, Bool-cases,
}
use hy_fib_wa_app.Auth.{
  Role, platform_owner, role_eq, AuthContext, normalize_roles, has_any_role, expand,
}
use hy_fib_wa_app.Auth.Roles.{role_eq_iff, collect-All, All-of_normalize}
use hy_fib_wa_app.Authorization.{
  user_admin_roles, AccessDecision, allowed, is_api_key_caller, can_grant_role, is_ungrantable,
  ungrantable_roles, ◌>>◌, refuse_roles, authorize_role_grant,
}

pub >>-eq-allowed : (m k : AccessDecision) → (m >> k) ≡ allowed → (m ≡ allowed) × (k ≡ allowed)
>>-eq-allowed m k h = ground arith

-- The caller is a signed-in administrator, and has `platform_owner` if the role is that one.
pub record CanGrant (auth : AuthContext) (role : Role) : Type 0 where
  pub signed_in : is_api_key_caller auth ≡ false
  pub owner : (role ≢ platform_owner) ⊎ (has_any_role auth (platform_owner ∷ []) ≡ true)
  pub admin : has_any_role auth user_admin_roles ≡ true

admin_of_owner :
    (auth : AuthContext)
    → has_any_role auth (platform_owner ∷ []) ≡ true
    → has_any_role auth user_admin_roles ≡ true
unfolding has_any_role
admin_of_owner auth h = any_mono _ _ (λ r e. ground arith) auth.roles h

pub can_grant_role-CanGrant :
    (auth : AuthContext) (role : Role) → can_grant_role auth role ≡ true → CanGrant auth role
unfolding can_grant_role
can_grant_role-CanGrant auth role h = elim (Bool-cases (role_eq role platform_owner)) [
  | inl y ↦
      let owner : has_any_role auth (platform_owner ∷ []) ≡ true = ground arith in
      record { signed_in = ground arith; owner = inr owner; admin = admin_of_owner auth owner }
  | inr n ↦ record {
    signed_in = ground arith;
    owner = inl (λ e. cc (n, (role_eq_iff role platform_owner).1 e));
    admin = ground arith;
  }
]

-- A name that may be granted stands for roles that may each be granted.
grantable-All :
    (auth : AuthContext) (raw : Text)
    → is_ungrantable auth raw ≡ false
    → All (CanGrant auth) (expand raw)
unfolding is_ungrantable
grantable-All auth raw h = All-of_normalize (CanGrant auth) raw (
    All_mono _ _ (can_grant_role-CanGrant auth) (normalize_roles (raw ∷ []))
      (All-of_all (can_grant_role auth) (normalize_roles (raw ∷ [])) (ground arith)))

refuse_roles-nil : (roles : List Text) → refuse_roles roles ≡ allowed → roles ≡ []
unfolding refuse_roles
refuse_roles-nil [] h = refl
refuse_roles-nil (r ∷ roles) h = cc

-- A caller that may give a user some role names may grant every role that a session of that user
-- resolves them to: it is no API key, it is an administrator, and it is a platform owner if one of
-- them is platform_owner.
pub authorize_role_grant-CanGrant :
    (auth : AuthContext) (roles : List Text)
    → authorize_role_grant auth roles ≡ allowed
    → All (CanGrant auth) (normalize_roles roles)
unfolding authorize_role_grant ungrantable_roles normalize_roles
authorize_role_grant-CanGrant auth roles h =
    let (gate, none_refused) = >>-eq-allowed _ _ h in
    let fine = All-of_filter_nil (is_ungrantable auth) roles (refuse_roles-nil _ none_refused) in
    collect-All (CanGrant auth) [] roles tt (All_mono _ _ (grantable-All auth) roles fine)
