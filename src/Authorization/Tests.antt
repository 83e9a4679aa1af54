-- ===== src/Authorization/Tests.antt =====
-- Decisions of services/api-gateway/src/authorization.ts, and its theorems at callers.
use hy_fib_wa_app.Prelude.{◌≡◌, refl, [], ◌∷◌, none, some, codes, text_eq, to_lower, All}
use hy_fib_wa_app.Auth.{platform_owner, tenant_admin, AuthContext, normalize_roles, has_any_role}
use hy_fib_wa_app.Authorization.{
  ManagedUser, allowed, refused, api_key_forbidden, cannot_change_own_status, role_not_grantable,
  user_not_manageable, account_suspended, starts_with, is_same_user_id, is_api_key_caller,
  can_grant_role, is_ungrantable, ungrantable_roles, authorize_human_caller,
  authorize_identity_admin, refuse_roles, authorize_role_grant, refuse_target, authorize_manage,
  grant_if_given, authorize_user_update, authorize_password_set, authorize_account_status,
  inactive_account_message,
}
use hy_fib_wa_app.Authorization.Grants.{CanGrant, authorize_role_grant-CanGrant}
use hy_fib_wa_app.Authorization.Managing.{MayUpdate, authorize_user_update-MayUpdate}

decisions : Unit {0}
unfolding authorize_user_update authorize_password_set authorize_role_grant grant_if_given
    authorize_manage refuse_target refuse_roles authorize_identity_admin authorize_human_caller
    ungrantable_roles is_ungrantable can_grant_role is_api_key_caller is_same_user_id starts_with
    normalize_roles has_any_role text_eq to_lower authorize_account_status inactive_account_message
decisions = tt

abbrev admin : AuthContext
admin = record { subject = codes "u1"; tenant_id = none; roles = tenant_admin ∷ []; email = none }

abbrev agent : ManagedUser
agent = record { id = codes "u2"; roles = codes "Agent" ∷ [] }

abbrev owner : ManagedUser
owner = record { id = codes "u3"; roles = codes "owner" ∷ [] }

admin_grants : authorize_role_grant admin (codes " Agent " ∷ []) ≡ allowed
unfolding decisions
admin_grants = refl

admin_updates :
    authorize_user_update admin agent (some (codes "viewer" ∷ [])) (some (codes "suspended"))
    ≡ allowed
unfolding decisions
admin_updates = refl

admin_sets : authorize_password_set admin agent ≡ allowed
unfolding decisions
admin_sets = refl

refusals :
    (authorize_role_grant admin (codes "owner" ∷ [])
      ≡ refused (role_not_grantable (codes "owner" ∷ [])))
    × (authorize_password_set admin owner ≡ refused (user_not_manageable (platform_owner ∷ [])))
    × (authorize_password_set (record admin { subject = codes "apikey:7" }) agent
        ≡ refused api_key_forbidden)
    × (authorize_user_update admin (record agent { id = codes "U1" }) none (some (codes "active"))
        ≡ refused cannot_change_own_status)
    × (authorize_account_status (some (codes "suspended")) ≡ refused account_suspended)
unfolding decisions
refusals = (refl, refl, refl, refl, refl)

authorize_role_grant-CanGrant_example :
    All (CanGrant admin) (normalize_roles (codes " Agent " ∷ []))
authorize_role_grant-CanGrant_example =
    authorize_role_grant-CanGrant admin (codes " Agent " ∷ []) admin_grants

authorize_user_update-MayUpdate_example :
    MayUpdate admin agent (some (codes "viewer" ∷ [])) (some (codes "suspended"))
authorize_user_update-MayUpdate_example =
    authorize_user_update-MayUpdate admin agent (some (codes "viewer" ∷ []))
      (some (codes "suspended")) admin_updates
