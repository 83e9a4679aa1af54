-- ===== src/Authorization.antt =====
-- services/api-gateway/src/authorization.ts: who may manage users and credentials. A refusal's text
-- and detail are a constructor of `Refusal`, with the names that the detail lists.
pub mod Grants
pub mod Managing
pub mod Tests
use hy_fib_wa_app.Prelude.{
  ℕ, Bool, true, false, not, ◌&&◌, ◌||◌, List, [], ◌∷◌, Option, none, some, Text, codes, text_eq,
  to_lower, filter, all, any, if◌then◌else◌, ◌==◌, length,
}
use hy_fib_wa_app.Auth.{
  Role, platform_owner, tenant_admin, marketing_manager, support_agent, role_eq, AuthContext,
  normalize_roles, has_any_role,
}

abbrev pub contact_writer_roles : List Role
contact_writer_roles = platform_owner ∷ tenant_admin ∷ marketing_manager ∷ []

abbrev pub order_writer_roles : List Role
order_writer_roles = platform_owner ∷ tenant_admin ∷ marketing_manager ∷ support_agent ∷ []

pub can_create_contact : AuthContext → Bool
can_create_contact auth = has_any_role auth contact_writer_roles

pub can_create_order : AuthContext → Bool
can_create_order auth = has_any_role auth order_writer_roles

abbrev pub api_key_subject_prefix : Text
api_key_subject_prefix = codes "apikey:"

abbrev pub user_admin_roles : List Role
user_admin_roles = platform_owner ∷ tenant_admin ∷ []

pub data Refusal : Type 0 where
  insufficient_role api_key_forbidden cannot_change_own_status only_own_password : Refusal
  account_suspended account_disabled account_not_active : Refusal
  role_not_grantable : List Text → Refusal
  user_not_manageable : List Role → Refusal

pub data AccessDecision : Type 0 where
  allowed : AccessDecision
  refused : Refusal → AccessDecision

pub record ManagedUser : Type 0 where
  pub id : Text
  pub roles : List Text

-- `a.startsWith(b)`
unfoldable pub starts_with : Text → Text → Bool
starts_with s [] = true
starts_with [] (d ∷ t) = false
starts_with (c ∷ s) (d ∷ t) = c == d && starts_with s t

pub is_same_user_id : Text → Text → Bool
is_same_user_id a b = text_eq (to_lower a) (to_lower b)

pub is_api_key_caller : AuthContext → Bool
is_api_key_caller auth = starts_with auth.subject api_key_subject_prefix

-- The roles of which a caller needs one to grant `role`.
abbrev pub granting_roles : Role → List Role
granting_roles role = if role_eq role platform_owner then platform_owner ∷ [] else user_admin_roles

pub can_grant_role : AuthContext → Role → Bool
can_grant_role auth role =
    if is_api_key_caller auth then false else has_any_role auth (granting_roles role)

pub is_ungrantable : AuthContext → Text → Bool
is_ungrantable auth role =
    let effective = normalize_roles (role ∷ []) in
    length effective == 0 || not (all (can_grant_role auth) effective)

pub ungrantable_roles : AuthContext → List Text → List Text
ungrantable_roles auth roles = filter (is_ungrantable auth) roles

pub authorize_human_caller : AuthContext → AccessDecision
authorize_human_caller auth = if is_api_key_caller auth then refused api_key_forbidden else allowed

pub authorize_identity_admin : AuthContext → AccessDecision
authorize_identity_admin auth =
    if not (has_any_role auth user_admin_roles)
    then refused insufficient_role
    else authorize_human_caller auth

-- `if (!gate.ok) return gate`
infixl 5 ◌>>◌
abbrev pub ◌>>◌ : AccessDecision → AccessDecision → AccessDecision
allowed >> next = next
refused why >> next = refused why

abbrev pub refuse_if : Bool → Refusal → AccessDecision
refuse_if true why = refused why
refuse_if false why = allowed

pub refuse_roles : List Text → AccessDecision
refuse_roles [] = allowed
refuse_roles (role ∷ roles) = refused (role_not_grantable (role ∷ roles))

pub authorize_role_grant : AuthContext → List Text → AccessDecision
authorize_role_grant auth roles = do
  authorize_identity_admin auth
  refuse_roles (ungrantable_roles auth roles)

pub refuse_target : List Role → AccessDecision
refuse_target [] = allowed
refuse_target (role ∷ roles) = refused (user_not_manageable (role ∷ roles))

pub authorize_manage : AuthContext → ManagedUser → AccessDecision
authorize_manage auth target =
    refuse_target (filter (λ role. not (can_grant_role auth role)) (normalize_roles target.roles))

abbrev pub is_given : Option Text → Bool
is_given none = false
is_given (some status) = true

pub grant_if_given : AuthContext → Option (List Text) → AccessDecision
grant_if_given auth none = allowed
grant_if_given auth (some roles) = authorize_role_grant auth roles

pub authorize_user_update :
    AuthContext → ManagedUser → Option (List Text) → Option Text → AccessDecision
authorize_user_update auth target roles status = do
  authorize_identity_admin auth
  refuse_if (is_given status && is_same_user_id auth.subject target.id) cannot_change_own_status
  authorize_manage auth target
  grant_if_given auth roles

pub authorize_password_set : AuthContext → ManagedUser → AccessDecision
authorize_password_set auth target =
    if is_api_key_caller auth
    then refused api_key_forbidden
    else if is_same_user_id auth.subject target.id
    then allowed
    else if not (has_any_role auth user_admin_roles)
    then refused only_own_password
    else authorize_manage auth target

abbrev pub active_account_status : Text
active_account_status = codes "active"

pub inactive_account_message : Text → Refusal
inactive_account_message status =
    if text_eq status (codes "suspended")
    then account_suspended
    else if text_eq status (codes "disabled")
    then account_disabled
    else account_not_active

pub authorize_account_status : Option Text → AccessDecision
authorize_account_status none = refused account_not_active
authorize_account_status (some status) =
    if text_eq status active_account_status
    then allowed
    else refused (inactive_account_message status)
