-- ===== src/Api/Passwords/SignedOut.antt =====
-- src/api.ts: revoking every live session of an account.
use scheduleos.Base.{
  ◌≡◌, refl, sym, ◌∙◌, ap, subst, Bool, true, false, not, List, [], ◌∷◌, ◌++◌, Option, none, some,
  ok, ok-injective, >>=-eq-ok, String, str_eq, eq_iff, All, All-imp, All-both, All-append,
  All-filter, Any, Bool-cases, inl, inr, filter, find,
}
use mathlib.Core.Option.{some-injective}
use scheduleos.Domain.{Instant, iso, Scope}
use scheduleos.Records.{AuthSession}
use scheduleos.Repositories.{ApiStore, RepositoryActor, matches_scope, assert_can_access}
use scheduleos.Repositories.Tables.{find-holds, or_not_found}
use scheduleos.Repositories.Auth.{is_session, list_sessions, get_session, revoke_session}
use scheduleos.Api.{Response}
use scheduleos.Api.Handlers.{continue-ok, perform, query, perform-ok, query-ok}
use scheduleos.Api.Sessions.{is_live}
use scheduleos.Api.Passwords.{revoke_each, revoke_live_sessions}

-- Sessions with one id are of one tenant: that which the function gives.
abbrev pub HasTenants : (String → String) → List AuthSession → Type 0
HasTenants tenant_of sessions =
    All (λ (s : AuthSession). s.scope.tenant_id ≡ tenant_of s.id) sessions

-- No session of the scope is live.
abbrev pub SignedOut : Scope → Instant → List AuthSession → Type 0
SignedOut scope now sessions =
    All (λ (s : AuthSession). matches_scope s.scope scope ≡ true → is_live now s ≡ false) sessions

-- The live sessions of the scope are among those that are still to be revoked.
abbrev Covered : Scope → Instant → List AuthSession → List AuthSession → Type 0
Covered scope now todo sessions =
    All
      (λ (s : AuthSession).
        matches_scope s.scope scope ≡ true
        → is_live now s ≡ true
        → Any (λ (t : AuthSession). t.id ≡ s.id) todo)
      sessions

pub find-All :
    {A : Type 0} (P : A → Type 0) (p : A → Bool) (xs : List A) {x : A}
    → All P xs
    → find p xs ≡ some x
    → P x
find-All P p [] h e = cc
find-All P p (y ∷ ys) h e = elim (Bool-cases (p y)) [
  | inl k ↦ subst P (some-injective y _ (rw k at e)) h.0
  | inr k ↦ find-All P p ys h.1 (rw k at e)
]

contra : ◌≡◌ {A = Bool} false true → ⊥
contra h = cc

-- What a revocation leaves: the session that it found in its place.
record Revocation (id : String) (now : Instant) (sessions sessions' : List AuthSession)
    : Type 0 where
  found : AuthSession
  holds : find (λ (s : AuthSession). str_eq s.id id) sessions ≡ some found
  left :
      sessions'
      ≡ filter (λ (s : AuthSession). not (is_session found.scope.tenant_id found.id s)) sessions
        ++ record found { revoked_at = some (iso now) } ∷ []

pub or_not_found-ok :
    {A : Type 0} (message : String) (o : Option A) {a : A}
    → or_not_found message o ≡ ok a
    → o ≡ some a
or_not_found-ok message none h = cc
or_not_found-ok message (some x) h = ap some (ok-injective h)

revoke_session-Revocation :
    (actor : RepositoryActor) (id : String) (now : Instant) (store store' : ApiStore)
    (revoked : AuthSession)
    → revoke_session actor id (iso now) store ≡ ok (revoked, store')
    → Revocation id now store.auth_sessions store'.auth_sessions
unfolding revoke_session get_session
revoke_session-Revocation actor id now store store' revoked h =
    let (session, read, h₁) = >>=-eq-ok (get_session actor id store) _ h in
    let (found, looked, h₂) =
      >>=-eq-ok
        (or_not_found "Auth session not found."
          (find (λ (s : AuthSession). str_eq s.id id) store.auth_sessions))
        _ read in
    let (done, access, h₃) = >>=-eq-ok (assert_can_access actor found.scope) _ h₂ in
    let same : found ≡ session = ok-injective h₃ in
    record {
      found = session;
      holds = or_not_found-ok _ _ looked ∙ ap some same;
      left = sym (ap (λ (x : AuthSession × ApiStore). (x.1).auth_sessions) (ok-injective h₁));
    }

module _ (tenant_of : String → String) (scope : Scope) (now : Instant) where
  -- Revoking one of the sessions leaves the others to be revoked.
  Covered-step :
      (t : AuthSession) (todo sessions sessions' : List AuthSession)
      → HasTenants tenant_of sessions
      → Covered scope now (t ∷ todo) sessions
      → Revocation t.id now sessions sessions'
      → HasTenants tenant_of sessions' × Covered scope now todo sessions'
  unfolding is_live
  Covered-step t todo sessions sessions' tenants covered r =
      let f = r.found in
      let f_id : f.id ≡ t.id =
        (eq_iff f.id t.id).0
          (find-holds (λ (s : AuthSession). str_eq s.id t.id) sessions r.holds) in
      let f_tenant : f.scope.tenant_id ≡ tenant_of f.id =
        find-All (λ (s : AuthSession). s.scope.tenant_id ≡ tenant_of s.id)
          (λ (s : AuthSession). str_eq s.id t.id) sessions tenants r.holds in
      let others = λ (s : AuthSession). not (is_session f.scope.tenant_id f.id s) in
      let T = λ (s : AuthSession). s.scope.tenant_id ≡ tenant_of s.id in
      let C = λ (todo' : List AuthSession) (s : AuthSession).
        matches_scope s.scope scope ≡ true
        → is_live now s ≡ true
        → Any (λ (u : AuthSession). u.id ≡ s.id) todo' in
      let kept_tenants =
        All-imp _ T (filter others sessions) (λ s h. h.0) (All-filter T others sessions tenants) in
      let kept_covered =
        All-filter (λ s. T s × C (t ∷ todo) s) others sessions
          (All-both T (C (t ∷ todo)) sessions tenants covered) in
      (
        subst (HasTenants tenant_of) (sym r.left)
            (All-append T (filter others sessions) _ kept_tenants (f_tenant, tt)),
        subst (Covered scope now todo) (sym r.left) (
            All-append (C todo) (filter others sessions) _
              (All-imp _ (C todo) (filter others sessions)
                (λ s h mine live. still t todo f s f_id f_tenant ((h.0).0) h.1 ((h.0).1 mine live))
                kept_covered)
              (λ mine live. cc, tt)),
      )
    where
      still :
          (t : AuthSession) (todo : List AuthSession) (f s : AuthSession)
          → f.id ≡ t.id
          → f.scope.tenant_id ≡ tenant_of f.id
          → s.scope.tenant_id ≡ tenant_of s.id
          → not (is_session f.scope.tenant_id f.id s) ≡ true
          → Any (λ (u : AuthSession). u.id ≡ s.id) (t ∷ todo)
          → Any (λ (u : AuthSession). u.id ≡ s.id) todo
      still t todo f s f_id f_tenant s_tenant other (inr later) = later
      still t todo f s f_id f_tenant s_tenant other (inl here) =
          let id : s.id ≡ f.id = sym here ∙ sym f_id in
          let tenant : s.scope.tenant_id ≡ f.scope.tenant_id =
            s_tenant ∙ ap tenant_of id ∙ sym f_tenant in
          absurd (
            contra (
              rw ((eq_iff s.scope.tenant_id f.scope.tenant_id).1 tenant, (eq_iff s.id f.id).1 id) at
                other))

  covered-none :
      (sessions : List AuthSession) → Covered scope now [] sessions → SignedOut scope now sessions
  covered-none sessions h =
      All-imp _ _ sessions
        (λ s k mine. elim (Bool-cases (is_live now s)) [
          | inl live ↦ absurd (k mine live)
          | inr dead ↦ dead
        ])
        h

  revoke_each-SignedOut :
      (actor : RepositoryActor) (todo : List AuthSession) (store store' : ApiStore)
      (revoked : List AuthSession)
      → HasTenants tenant_of store.auth_sessions
      → Covered scope now todo store.auth_sessions
      → revoke_each actor now todo store ≡ (ok revoked, store')
      → SignedOut scope now store'.auth_sessions
  unfolding revoke_each
  revoke_each-SignedOut actor [] store store' revoked tenants covered h =
      subst (λ (x : ApiStore). SignedOut scope now x.auth_sessions)
        (ap (λ (x : Response (List AuthSession)). x.1) h) (covered-none store.auth_sessions covered)
  revoke_each-SignedOut actor (t ∷ todo) store store' revoked tenants covered h =
      let (first, s₁, r₁, h₁) =
        continue-ok (perform (revoke_session actor t.id (iso now)) store) _ h in
      let ran = perform-ok (revoke_session actor t.id (iso now)) store s₁ r₁ in
      let (rest, s₂, r₂, h₂) = continue-ok (revoke_each actor now todo s₁) _ h₁ in
      let (tenants', covered') =
        Covered-step t todo store.auth_sessions s₁.auth_sessions tenants covered
          (revoke_session-Revocation actor t.id now store s₁ first ran) in
      subst (λ (x : ApiStore). SignedOut scope now x.auth_sessions)
        (ap (λ (x : Response (List AuthSession)). x.1) h₂)
        (revoke_each-SignedOut actor todo s₁ s₂ rest tenants' covered' r₂)

Any-more :
    {A : Type 0} (P : A → Type 0) (p : A → Bool) (x : A) (xs : List A)
    → Any P (filter p xs)
    → Any P (filter p (x ∷ xs))
Any-more P p x xs h = elim (Bool-cases (p x)) [ inl e ↦ rw e (inr h) | inr e ↦ rw e h ]

filter-Covered :
    (scope : Scope) (now : Instant) (sessions : List AuthSession)
    → Covered scope now
        (filter (is_live now) (filter (λ (s : AuthSession). matches_scope s.scope scope) sessions))
        sessions
filter-Covered scope now [] = tt
filter-Covered scope now (s ∷ sessions) =
    let mine = λ (s : AuthSession). matches_scope s.scope scope in
    (
      λ m live. rw (m, live) (inl refl),
      All-imp _ _ sessions
          (λ (u : AuthSession) h m live. elim (Bool-cases (mine s)) [
            | inl e ↦ rw e (
                Any-more (λ (t : AuthSession). t.id ≡ u.id) (is_live now) s (filter mine sessions)
                  (h m live))
            | inr e ↦ rw e (h m live)
          ])
          (filter-Covered scope now sessions),
    )

-- Where ids tell the tenants of sessions, no session of the scope is live once they are revoked.
pub revoke_live_sessions-SignedOut :
    (tenant_of : String → String) (actor : RepositoryActor) (scope : Scope) (now : Instant)
    (store store' : ApiStore) (revoked : List AuthSession)
    → HasTenants tenant_of store.auth_sessions
    → revoke_live_sessions actor scope now store ≡ (ok revoked, store')
    → SignedOut scope now store'.auth_sessions
unfolding revoke_live_sessions list_sessions
revoke_live_sessions-SignedOut tenant_of actor scope now store store' revoked tenants h =
    let (sessions, s₁, r₁, h₁) = continue-ok (query (list_sessions actor scope) store) _ h in
    let (listed, e₁) = query-ok (list_sessions actor scope) store s₁ r₁ in
    let (done, access, h₂) = >>=-eq-ok (assert_can_access actor scope) _ listed in
    let all = filter-Covered scope now store.auth_sessions in
    let covered =
      subst
        (λ (xs : List AuthSession). Covered scope now (filter (is_live now) xs) store.auth_sessions)
        (ok-injective h₂) all in
    revoke_each-SignedOut tenant_of scope now actor (filter (is_live now) sessions) store store'
      revoked tenants covered
      (subst
        (λ (x : ApiStore).
          revoke_each actor now (filter (is_live now) sessions) x ≡ (ok revoked, store'))
        e₁ h₁)
