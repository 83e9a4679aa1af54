-- ===== src/Auth.antt =====
-- packages/auth/src/index.ts: roles, the names that expand to them, and the caller of a request.
pub mod Roles
pub mod Token
use hy_fib_wa_app.Prelude.{
  ℕ, Bool, List, [], ◌∷◌, ◌++◌, Option, none, some, Text, codes, text_eq, to_lower, trim, length,
  any, ◌==◌, if◌then◌else◌,
}

-- packages/shared-core/src/index.ts
pub data Role : Type 0 where
  platform_owner tenant_admin marketing_manager sales_agent support_agent analyst : Role
  compliance_auditor : Role

role_index : Role → ℕ
role_index platform_owner = 0
role_index tenant_admin = 1
role_index marketing_manager = 2
role_index sales_agent = 3
role_index support_agent = 4
role_index analyst = 5
role_index compliance_auditor = 6

unfoldable pub role_eq : Role → Role → Bool
unfolding role_index
role_eq a b = role_index a == role_index b

-- `allowed.includes(role)`
unfoldable pub holds : List Role → Role → Bool
unfolding role_eq
holds roles role = any (λ r. role_eq r role) roles

pub record AuthContext : Type 0 where
  pub subject : Text
  pub tenant_id : Option Text
  pub roles : List Role
  pub email : Option Text

-- `KNOWN_ROLES` and `CRM_ROLE_BUNDLES`, by name.
unfoldable pub bundles : List (Text × List Role)
bundles =
    (codes "platform_owner", platform_owner ∷ [])
    ∷ (codes "tenant_admin", tenant_admin ∷ [])
    ∷ (codes "marketing_manager", marketing_manager ∷ [])
    ∷ (codes "sales_agent", sales_agent ∷ [])
    ∷ (codes "support_agent", support_agent ∷ [])
    ∷ (codes "analyst", analyst ∷ [])
    ∷ (codes "compliance_auditor", compliance_auditor ∷ [])
    ∷ (
      codes "owner",
      platform_owner ∷ tenant_admin ∷ marketing_manager ∷ sales_agent ∷ support_agent ∷ [],
    )
    ∷ (codes "admin", tenant_admin ∷ marketing_manager ∷ [])
    ∷ (codes "agent", sales_agent ∷ support_agent ∷ [])
    ∷ (codes "viewer", analyst ∷ compliance_auditor ∷ [])
    ∷ []

unfoldable pub bundle_of : List (Text × List Role) → Text → List Role
bundle_of [] name = []
bundle_of ((key, roles) ∷ table) name = if text_eq key name then roles else bundle_of table name

-- The roles that one raw name stands for; none for an unknown or empty name.
unfoldable pub expand : Text → List Role
unfolding bundle_of bundles text_eq trim to_lower
expand raw = bundle_of bundles (to_lower (trim raw))

-- `normalized.add(role)`
unfoldable pub add : Role → List Role → List Role
unfolding holds
add role set = if holds set role then set else set ++ role ∷ []

unfoldable pub add_all : List Role → List Role → List Role
unfolding add
add_all [] set = set
add_all (role ∷ roles) set = add_all roles (add role set)

unfoldable pub collect : List Role → List Text → List Role
unfolding add_all expand
collect set [] = set
collect set (raw ∷ raws) = collect (add_all (expand raw) set) raws

unfoldable pub normalize_roles : List Text → List Role
unfolding collect
normalize_roles raws = collect [] raws

unfoldable pub has_any_role : AuthContext → List Role → Bool
unfolding holds
has_any_role ctx allowed = any (λ role. holds allowed role) ctx.roles
