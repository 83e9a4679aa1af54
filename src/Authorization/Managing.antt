-- ===== src/Authorization/Managing.antt =====
-- Who may change an account or its password: services/api-gateway/src/authorization.ts.
use hy_fib_wa_app.Prelude.{
  ◌≡◌, ◌≢◌, refl, ◌↔◌, ◌⊎◌, inl, inr, true, false, not, ◌&&◌, List, [], ◌∷◌, Option, none, some,
  arith, Text, text_eq, text_eq_iff, to_lower, All, All-of_filter_nil, All_mono, Bool-cases,
}
use hy_fib_wa_app.Auth.{Role, AuthContext, normalize_roles, has_any_role}
use hy_fib_wa_app.Authorization.{
  user_admin_roles, ManagedUser, allowed, is_same_user_id, is_api_key_caller, can_grant_role,
  authorize_human_caller, authorize_identity_admin, refuse_if, is_given, refuse_target,
  authorize_manage, grant_if_given, authorize_user_update, authorize_password_set,
  active_account_status, authorize_account_status, cannot_change_own_status,
}
use hy_fib_wa_app.Authorization.Grants.{
  CanGrant, can_grant_role-CanGrant, authorize_role_grant-CanGrant,
}

refuse_target-nil : (roles : List Role) → refuse_target roles ≡ allowed → roles ≡ []
unfolding refuse_target
refuse_target-nil [] h = refl
refuse_target-nil (r ∷ roles) h = cc

-- Whoever may manage an account could grant every role that it holds.
authorize_manage-CanGrant :
    (auth : AuthContext) (target : ManagedUser)
    → authorize_manage auth target ≡ allowed
    → All (CanGrant auth) (normalize_roles target.roles)
unfolding authorize_manage
authorize_manage-CanGrant auth target h =
    All_mono _ _
      (λ r (e : not (can_grant_role auth r) ≡ false). can_grant_role-CanGrant auth r (ground arith))
      (normalize_roles target.roles)
      (All-of_filter_nil (λ r. not (can_grant_role auth r)) (normalize_roles target.roles)
        (refuse_target-nil _ h))

-- The roles of an update, none if it leaves them alone.
abbrev pub new_roles : Option (List Text) → List Text
new_roles none = []
new_roles (some roles) = roles

grant_if_given-CanGrant :
    (auth : AuthContext) (roles : Option (List Text))
    → grant_if_given auth roles ≡ allowed
    → All (CanGrant auth) (normalize_roles (new_roles roles))
unfolding grant_if_given
grant_if_given-CanGrant auth none h = unfold normalize_roles in tt
grant_if_given-CanGrant auth (some roles) h = authorize_role_grant-CanGrant auth roles h

-- What an update that is let through shows of the caller.
pub record MayUpdate (auth : AuthContext) (target : ManagedUser) (roles : Option (List Text))
    (status : Option Text) : Type 0 where
  pub signed_in : is_api_key_caller auth ≡ false
  pub admin : has_any_role auth user_admin_roles ≡ true
  pub other_status : (status ≡ none) ⊎ (to_lower auth.subject ≢ to_lower target.id)
  pub manageable : All (CanGrant auth) (normalize_roles target.roles)
  pub grantable : All (CanGrant auth) (normalize_roles (new_roles roles))

identity_admin-allowed :
    (auth : AuthContext)
    → authorize_identity_admin auth ≡ allowed
    → (is_api_key_caller auth ≡ false) × (has_any_role auth user_admin_roles ≡ true)
unfolding authorize_identity_admin authorize_human_caller
identity_admin-allowed auth h = (ground arith, ground arith)

other_status_of :
    (auth : AuthContext) (target : ManagedUser) (status : Option Text)
    → refuse_if (is_given status && is_same_user_id auth.subject target.id) cannot_change_own_status
      ≡ allowed
    → (status ≡ none) ⊎ (to_lower auth.subject ≢ to_lower target.id)
unfolding is_same_user_id
other_status_of auth target none h = inl refl
other_status_of auth target (some s) h =
    inr (λ e. cc ((text_eq_iff (to_lower auth.subject) (to_lower target.id)).1 e, h))

-- An update of an account that is let through comes from a signed-in administrator and not from an
-- API key, changes the status of no one but another user, and neither the roles that the account
-- holds nor those that it is given are beyond the caller: platform_owner only by a platform owner.
pub authorize_user_update-MayUpdate :
    (auth : AuthContext) (target : ManagedUser) (roles : Option (List Text)) (status : Option Text)
    → authorize_user_update auth target roles status ≡ allowed
    → MayUpdate auth target roles status
unfolding authorize_user_update
authorize_user_update-MayUpdate auth target roles status h =
    let gate : authorize_identity_admin auth ≡ allowed = ground arith in
    let own : refuse_if (is_given status && is_same_user_id auth.subject target.id)
          cannot_change_own_status
        ≡ allowed =
      ground arith in
    let managed : authorize_manage auth target ≡ allowed = ground arith in
    let given : grant_if_given auth roles ≡ allowed = ground arith in
    record {
      signed_in = (identity_admin-allowed auth gate).0;
      admin = (identity_admin-allowed auth gate).1;
      other_status = other_status_of auth target status own;
      manageable = authorize_manage-CanGrant auth target managed;
      grantable = grant_if_given-CanGrant auth roles given;
    }

-- A password is set by no API key, and only by its user or by an administrator that could grant
-- every role which the user holds.
pub authorize_password_set-allowed :
    (auth : AuthContext) (target : ManagedUser)
    → authorize_password_set auth target ≡ allowed
    → (is_api_key_caller auth ≡ false)
      × ((to_lower auth.subject ≡ to_lower target.id)
          ⊎ ((has_any_role auth user_admin_roles ≡ true)
              × All (CanGrant auth) (normalize_roles target.roles)))
unfolding authorize_password_set is_same_user_id
authorize_password_set-allowed auth target h =
    let signed_in : is_api_key_caller auth ≡ false = ground arith in
    (
      signed_in,
      elim (Bool-cases (text_eq (to_lower auth.subject) (to_lower target.id))) [
        | inl y ↦ inl ((text_eq_iff _ _).0 y)
        | inr n ↦ inr (ground arith, authorize_manage-CanGrant auth target (ground arith))
      ],
    )

-- Exactly an account whose status is "active" signs in or keeps a session.
pub authorize_account_status-allowed_iff :
    (status : Option Text)
    → (authorize_account_status status ≡ allowed) ↔ (status ≡ some active_account_status)
unfolding authorize_account_status
authorize_account_status-allowed_iff none = ground arith
authorize_account_status-allowed_iff (some s) = ground (arith, text_eq_iff s active_account_status)
