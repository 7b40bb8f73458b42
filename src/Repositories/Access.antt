-- ===== src/Repositories/Access.antt =====
-- src/repositories.ts: `matchesScope` and `assertCanAccess` against equality of scopes.
use scheduleos.Base.{
  ◌≡◌, refl, Bool, true, false, ◌&&◌, str_eq, eq_iff, Bool-cases, inl, inr, ok, err, Result,
}
use scheduleos.Domain.{Scope}
use scheduleos.Repositories.{RepositoryError, user, no_access, matches_scope, assert_can_access}

pub matches_scope_refl : (s : Scope) → matches_scope s s ≡ true
unfolding matches_scope
matches_scope_refl s =
    rw
      (
        (eq_iff s.tenant_id s.tenant_id).1 refl,
        (eq_iff s.workspace_id s.workspace_id).1 refl,
        (eq_iff s.user_id s.user_id).1 refl,
      )
      refl

both-true : (a b c : Bool) → (a && (b && c)) ≡ true → (a ≡ true) × (b ≡ true) × (c ≡ true)
both-true true true true h = (refl, refl, refl)
both-true false b c h = cc
both-true true false c h = cc
both-true true true false h = cc

pub matches_scope-eq : (a b : Scope) → matches_scope a b ≡ true → a ≡ b
unfolding matches_scope
matches_scope-eq a b h =
    let (t, w, u) = both-true (str_eq a.tenant_id b.tenant_id) _ _ h in
    let t' = (eq_iff a.tenant_id b.tenant_id).0 t in
    let w' = (eq_iff a.workspace_id b.workspace_id).0 w in
    let u' = (eq_iff a.user_id b.user_id).0 u in cc

denied :
    {done : Unit {0}} → ¬ (◌≡◌ {A = Result RepositoryError (Unit {0})} (err no_access) (ok done))
denied h = cc

-- A user that passes the check of access has the scope that is asked for.
pub assert_can_access-eq :
    (actor scope : Scope) {done : Unit {0}}
    → assert_can_access (user actor) scope ≡ ok done
    → actor ≡ scope
unfolding assert_can_access
assert_can_access-eq actor scope h = elim (Bool-cases (matches_scope actor scope)) [
  | inl e ↦ matches_scope-eq actor scope e
  | inr e ↦ absurd (denied (rw e at h))
]
