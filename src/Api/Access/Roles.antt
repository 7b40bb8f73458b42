-- ===== src/Api/Access/Roles.antt =====
-- src/api.ts: what a principal that passes the checks of admins and owners has.
use scheduleos.Base.{
  ◌≡◌, refl, subst, Bool, true, false, not, ◌||◌, Option, none, some, Result, ok, err, >>=-eq-ok,
  ok-injective, str_eq, eq_iff, Bool-cases, inl, inr,
}
use scheduleos.Domain.{Scope}
use scheduleos.Api.{ApiError}
use scheduleos.Api.Access.{
  AuthPrincipal, StaticAuthRole, Workspace, is_admin, is_owner, outside,
  require_authenticated_principal, require_auth_admin, require_auth_owner,
}

pub refused : {A : Type 0} {e : ApiError} {a : A} → ¬ (◌≡◌ {A = Result ApiError A} (err e) (ok a))
refused h = cc

neither-not : (a b : Bool) → (not a || not b) ≡ false → (a ≡ true) × (b ≡ true)
neither-not true true h = (refl, refl)
neither-not false b h = cc
neither-not true false h = cc

-- The principal is there, manages the workspace, and has the role.
pub record Manages (principal : Option AuthPrincipal) (workspace : Workspace)
    (authenticated : AuthPrincipal) : Type 0 where
  pub there : principal ≡ some authenticated
  pub tenant : authenticated.scope.tenant_id ≡ workspace.0
  pub place : authenticated.scope.workspace_id ≡ workspace.1
  pub role : is_admin authenticated.role ≡ true

inside :
    (scope : Scope) (workspace : Workspace)
    → outside scope (some workspace) ≡ false
    → (scope.tenant_id ≡ workspace.0) × (scope.workspace_id ≡ workspace.1)
inside scope (tenant, place) h =
    let (t, w) = neither-not (str_eq scope.tenant_id tenant) (str_eq scope.workspace_id place) h in
    ((eq_iff scope.tenant_id tenant).0 t, (eq_iff scope.workspace_id place).0 w)

pub require_auth_admin-Manages :
    (principal : Option AuthPrincipal) (workspace : Workspace) (authenticated : AuthPrincipal)
    → require_auth_admin principal (some workspace) ≡ ok authenticated
    → Manages principal workspace authenticated
unfolding require_auth_admin require_authenticated_principal
require_auth_admin-Manages none workspace a h = absurd (refused h)
require_auth_admin-Manages (some p) workspace a h =
    elim (Bool-cases (outside p.scope (some workspace))) [
      | inl e ↦ absurd (refused (rw e at h))
      | inr e ↦ elim (Bool-cases (is_admin p.role)) [
        | inr k ↦ absurd (refused (rw (e, k) at h))
        | inl k ↦ subst (Manages (some p) workspace) (ok-injective (rw (e, k) at h)) (record {
          there = refl;
          tenant = (inside p.scope workspace e).0;
          place = (inside p.scope workspace e).1;
          role = k;
        })
      ]
    ]

-- A principal that the check of owners returns manages the workspace and is an owner.
pub require_auth_owner-Manages :
    (principal : Option AuthPrincipal) (workspace : Workspace) (authenticated : AuthPrincipal)
    → require_auth_owner principal workspace ≡ ok authenticated
    → Manages principal workspace authenticated × (authenticated.role ≡ some StaticAuthRole.owner)
unfolding require_auth_owner
require_auth_owner-Manages principal workspace a h =
    let (p, e, h') = >>=-eq-ok (require_auth_admin principal (some workspace)) _ h in
    let m = require_auth_admin-Manages principal workspace p e in
    elim (Bool-cases (is_owner p.role)) [
      | inr k ↦ absurd (refused (rw k at h'))
      | inl k ↦
          subst (λ x. Manages principal workspace x × (x.role ≡ some StaticAuthRole.owner))
            (ok-injective (rw k at h')) (m, owner_role p.role k)
    ]
  where
    owner_role :
        (role : Option StaticAuthRole) → is_owner role ≡ true → role ≡ some StaticAuthRole.owner
    owner_role none e = cc
    owner_role (some StaticAuthRole.owner) e = refl
    owner_role (some StaticAuthRole.admin) e = cc
    owner_role (some StaticAuthRole.editor) e = cc
    owner_role (some StaticAuthRole.viewer) e = cc
