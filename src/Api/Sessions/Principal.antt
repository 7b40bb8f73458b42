-- ===== src/Api/Sessions/Principal.antt =====
-- src/api.ts: whom the token of a session signs in.
use scheduleos.Base.{
  ◌≡◌, refl, sym, ◌∙◌, ap, subst, ◌<◌, Bool, true, false, ◌&&◌, not, Option, none, some, Result, ok,
  err, ok-injective, >>=-eq-ok, ltb→lt, String, str_eq, eq_iff, Bool-cases, Option-cases, inl, inr,
  find,
}
use mathlib.Core.Option.{some-injective}
use scheduleos.Domain.{Instant, Timestamp, iso, Scope}
use scheduleos.Records.{AuthUser, UserStatus, MembershipStatus, WorkspaceMembership, AuthSession}
use scheduleos.Repositories.{ApiStore, RepositoryError, system}
use scheduleos.Repositories.Tables.{find-holds}
use scheduleos.Repositories.Auth.{get_user, get_membership, upsert_session}
use scheduleos.Api.{Platform, calling, is_after}
use scheduleos.Api.Access.{
  AuthPrincipal, AuthMethod, is_active_user, is_active_membership, is_active_auth_subject,
  static_role_for_membership,
}
use scheduleos.Api.Access.Roles.{refused}
use scheduleos.Api.Sessions.{
  has_token_hash, is_unset, is_live, principal_of_session, principal_of_found,
  session_principal_from_token,
}

-- What stands behind a principal that a token signs in.
pub record SignedIn (platform : Platform) (token : String) (now : Instant) (store : ApiStore)
    (principal : AuthPrincipal) : Type 0 where
  pub session : AuthSession
  pub found :
      find (has_token_hash (platform.sha256_hex token) now) store.auth_sessions ≡ some session
  pub hashed : session.session_token_hash ≡ platform.sha256_hex token
  pub live : is_live now session ≡ true
  pub not_revoked : session.revoked_at ≡ none
  pub end : Instant
  pub ends : session.expires_at ≡ iso end
  pub later : now < end
  pub subject : AuthUser
  pub user : get_user system session.scope.tenant_id session.scope.user_id store ≡ ok subject
  pub active : subject.status ≡ UserStatus.active
  pub membership : WorkspaceMembership
  pub member : get_membership system session.scope store ≡ ok membership
  pub member_active : membership.status ≡ MembershipStatus.active
  pub scope : principal.scope ≡ session.scope
  pub role : principal.role ≡ some (static_role_for_membership membership.role)

both-true : (a b : Bool) → (a && b) ≡ true → (a ≡ true) × (b ≡ true)
both-true true true h = (refl, refl)
both-true false b h = cc
both-true true false h = cc

-- A live session is not revoked and ends later.
live-facts :
    (now : Instant) (session : AuthSession)
    → is_live now session ≡ true
    → (session.revoked_at ≡ none) × ((end : Instant) × (session.expires_at ≡ iso end) × (now < end))
unfolding is_live is_after
live-facts now session h =
    let (free, ahead) = both-true _ _ h in
    (unset-none session.revoked_at free, after session.expires_at refl ahead)
  where
    unset-none : (o : Option Timestamp) → is_unset o ≡ true → o ≡ none
    unset-none none k = refl
    unset-none (some t) k = cc

    after :
        (t : Timestamp)
        → session.expires_at ≡ t
        → is_after t now ≡ true
        → (end : Instant) × (session.expires_at ≡ iso end) × (now < end)
    after (iso end) e k = (end, e, ltb→lt _ _ k)
    after Timestamp.malformed e k = cc

calling-ok : {A : Type 0} (r : Result RepositoryError A) {a : A} → calling r ≡ ok a → r ≡ ok a
calling-ok (ok x) h = ap ok (ok-injective h)
calling-ok (err e) h = absurd (refused h)

active_user-eq : (s : UserStatus) → not (is_active_user s) ≡ false → s ≡ UserStatus.active
active_user-eq UserStatus.active h = refl
active_user-eq UserStatus.disabled h = cc

active_membership-eq :
    (s : MembershipStatus) → is_active_membership s ≡ true → s ≡ MembershipStatus.active
active_membership-eq MembershipStatus.active h = refl
active_membership-eq MembershipStatus.suspended h = cc

-- An active subject has an active user and an active membership.
active-both :
    (scope : Scope) (store : ApiStore)
    → is_active_auth_subject system scope store ≡ ok true
    → ((u : AuthUser) × (get_user system scope.tenant_id scope.user_id store ≡ ok u)
        × (u.status ≡ UserStatus.active))
      × ((m : WorkspaceMembership) × (get_membership system scope store ≡ ok m)
          × (m.status ≡ MembershipStatus.active))
unfolding is_active_auth_subject
active-both scope store h =
    let (u, called, h₁) =
      >>=-eq-ok (calling (get_user system scope.tenant_id scope.user_id store)) _ h in
    elim (Bool-cases (not (is_active_user u.status))) [
      | inl e ↦ absurd (false-true (ok-injective (rw e at h₁)))
      | inr e ↦
          let (m, member, h₂) =
            >>=-eq-ok (calling (get_membership system scope store)) _ (rw e at h₁) in
          (
            (
              u,
              calling-ok (get_user system scope.tenant_id scope.user_id store) called,
              active_user-eq u.status e,
            ),
            (
              m,
              calling-ok (get_membership system scope store) member,
              active_membership-eq m.status (ok-injective h₂),
            ),
          )
    ]
  where
    false-true : ◌≡◌ {A = Bool} false true → ⊥
    false-true k = cc

none-some : {p : AuthPrincipal} → ◌≡◌ {A = Option AuthPrincipal} none (some p) → ⊥
none-some k = cc

-- What a session that signs a principal in has shown.
session-SignedIn :
    (platform : Platform) (auth_method : AuthMethod) (token : String) (now : Instant)
    (store store' : ApiStore) (session : AuthSession) (principal : AuthPrincipal)
    → find (has_token_hash (platform.sha256_hex token) now) store.auth_sessions ≡ some session
    → principal_of_session auth_method session now store ≡ ok (some principal, store')
    → SignedIn platform token now store principal
unfolding principal_of_session
session-SignedIn platform auth_method token now store store' session principal found h =
    let (active, asked, h₁) = >>=-eq-ok (is_active_auth_subject system session.scope store) _ h in
    elim (Bool-cases (not active)) [
      | inl e ↦ absurd (
          none-some (ap (λ (x : Option AuthPrincipal × ApiStore). x.0) (ok-injective (rw e at h₁))))
      | inr e ↦
          let ((u, user, user_active), (m, member, member_active)) =
            active-both session.scope store (asked ∙ ap ok (not-false active e)) in
          let (m', member', h₂) =
            >>=-eq-ok (calling (get_membership system session.scope store)) _ (rw e at h₁) in
          let (seen, saved, h₃) = >>=-eq-ok (calling (upsert_session system _ store)) _ h₂ in
          let same : m' ≡ m =
            ok-injective
              (sym (calling-ok (get_membership system session.scope store) member') ∙ member) in
          let is_it : some principal
              ≡ some (record {
                scope = session.scope;
                role = some (static_role_for_membership m'.role);
                session_id = some session.id;
                auth_method = some auth_method;
              }) =
            sym (ap (λ (x : Option AuthPrincipal × ApiStore). x.0) (ok-injective h₃)) in
          let principal_is = some-injective _ _ is_it in
          let holds = both-true (str_eq session.session_token_hash (platform.sha256_hex token)) _ (
            find-holds (has_token_hash (platform.sha256_hex token) now) store.auth_sessions
              found) in
          let facts = live-facts now session holds.1 in
          record {
            session = session;
            found = found;
            hashed = (eq_iff session.session_token_hash (platform.sha256_hex token)).0 holds.0;
            live = holds.1;
            not_revoked = facts.0;
            end = facts.1.0;
            ends = facts.1.1;
            later = facts.1.2;
            subject = u;
            user = user;
            active = user_active;
            membership = m;
            member = member;
            member_active = member_active;
            scope = ap (λ (p : AuthPrincipal). p.scope) principal_is;
            role =
                ap (λ (p : AuthPrincipal). p.role) principal_is
                ∙ ap (λ (x : WorkspaceMembership). some (static_role_for_membership x.role)) same;
          }
    ]
  where
    not-false : (b : Bool) → not b ≡ false → b ≡ true
    not-false true k = refl
    not-false false k = cc

-- A principal that a token signs in is that of a session with the token's hash that is neither revoked
-- nor expired, the first such in the store: its user and its membership are active, and it has the
-- session's scope and the role of the membership.
pub session_principal_from_token-SignedIn :
    (platform : Platform) (auth_method : AuthMethod) (token : String) (now : Instant)
    (store store' : ApiStore) (principal : AuthPrincipal)
    → session_principal_from_token platform auth_method token now store
      ≡ ok (some principal, store')
    → SignedIn platform token now store principal
unfolding session_principal_from_token
session_principal_from_token-SignedIn platform auth_method token now store store' principal h =
    let p = has_token_hash (platform.sha256_hex token) now in
    elim (Option-cases (find p store.auth_sessions)) [
      | inl e ↦ absurd (
          none-some (
            ap (λ (x : Option AuthPrincipal × ApiStore). x.0)
              (ok-injective (
                subst
                  (λ (o : Option AuthSession).
                    principal_of_found auth_method o now store ≡ ok (some principal, store'))
                  e h))))
      | inr (session, e) ↦
          session-SignedIn platform auth_method token now store store' session principal e (
            subst
              (λ (o : Option AuthSession).
                principal_of_found auth_method o now store ≡ ok (some principal, store'))
              e h)
    ]
