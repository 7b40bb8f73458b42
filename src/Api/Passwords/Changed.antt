-- ===== src/Api/Passwords/Changed.antt =====
-- src/api.ts: the handler that resets a password, and what it leaves in the store.
use scheduleos.Base.{
  Any, Option-cases, ltb→le, ◌<◌, ◌≤◌, Result, err, ◌≡◌, refl, sym, ◌∙◌, ap, subst, not, List, [],
  ◌∷◌, Option, none, some, ℕ, ok, ok-injective, >>=-eq-ok, String, eq_iff, inl, inr, find, ltb,
}
use scheduleos.Domain.{Instant, iso, Scope}
use scheduleos.Records.{AuthUser, AuthSession, AuthPasswordResetToken, AuditEvent}
use scheduleos.Repositories.{ApiStore, RepositoryActor, RepositoryError, system}
use scheduleos.Repositories.Tables.{find-put, find-holds}
use scheduleos.Repositories.Keyed.{append_audit_event}
use scheduleos.Repositories.Auth.{
  is_user, get_user, upsert_user, get_session, revoke_session, list_sessions,
}
use scheduleos.Api.{Platform, Response}
use scheduleos.Api.Handlers.{
  continue-ok, perform, query, check, required, throw_if, perform-ok, query-ok, check-ok,
  required-ok, throw_if-ok,
}
use scheduleos.Api.Access.{assert_active_auth_subject, is_active_user}
use scheduleos.Api.Passwords.{
  PasswordChange, with_credential, consume_valid_password_reset_token, revoke_each,
  revoke_live_sessions, reset_password,
}
use scheduleos.Api.Passwords.Token.{IsUsed, both-true, usable-facts, consume-Consumed}
use scheduleos.Api.Passwords.SignedOut.{HasTenants, SignedOut, revoke_live_sessions-SignedOut}

-- What a password's reset has checked and what it leaves.
pub record PasswordReset (platform : Platform) (scope : Scope) (reset_token : String)
    (password_length : ℕ) (credential_hash : String) (now : Instant) (store store' : ApiStore)
    (saved : AuthUser) : Type 0 where
  pub token : AuthPasswordResetToken
  pub listed : Any (λ (t : AuthPasswordResetToken). t ≡ token) store.auth_password_reset_tokens
  pub of_scope : token.scope ≡ scope
  pub hashed : token.token_hash ≡ platform.sha256_hex reset_token
  pub unused : token.used_at ≡ none
  pub end : Instant
  pub ends : token.expires_at ≡ iso end
  pub ahead : now < end
  pub used : IsUsed token.id now store'
  pub long : 12 ≤ password_length
  pub of_user : (saved.tenant_id ≡ scope.tenant_id) × (saved.id ≡ scope.user_id)
  pub credential : saved.credential_hash ≡ some credential_hash
  pub stored : find (is_user saved.tenant_id saved.id) store'.auth_users ≡ some saved
  pub signed_out : SignedOut scope now store'.auth_sessions

-- The users and the reset tokens, which revoking sessions leaves.
abbrev rest_of : ApiStore → List AuthUser × List AuthPasswordResetToken
rest_of store = (store.auth_users, store.auth_password_reset_tokens)

revoke_session-rest_of :
    (actor : RepositoryActor) (id : String) (now : Instant) (store store' : ApiStore)
    {s : AuthSession}
    → revoke_session actor id (iso now) store ≡ ok (s, store')
    → rest_of store' ≡ rest_of store
unfolding revoke_session
revoke_session-rest_of actor id now store store' h =
    let (session, read, h₁) = >>=-eq-ok (get_session actor id store) _ h in
    sym (ap (λ (x : AuthSession × ApiStore). rest_of x.1) (ok-injective h₁))

revoke_each-rest_of :
    (actor : RepositoryActor) (now : Instant) (todo : List AuthSession) (store store' : ApiStore)
    (revoked : List AuthSession)
    → revoke_each actor now todo store ≡ (ok revoked, store')
    → rest_of store' ≡ rest_of store
unfolding revoke_each
revoke_each-rest_of actor now [] store store' revoked h =
    sym (ap (λ (x : Response (List AuthSession)). rest_of x.1) h)
revoke_each-rest_of actor now (t ∷ todo) store store' revoked h =
    let (first, s₁, r₁, h₁) =
      continue-ok (perform (revoke_session actor t.id (iso now)) store) _ h in
    let (rest, s₂, r₂, h₂) = continue-ok (revoke_each actor now todo s₁) _ h₁ in
    sym (ap (λ (x : Response (List AuthSession)). rest_of x.1) h₂)
    ∙ revoke_each-rest_of actor now todo s₁ s₂ rest r₂
    ∙ revoke_session-rest_of actor t.id now store s₁
        (perform-ok (revoke_session actor t.id (iso now)) store s₁ r₁)

revoke_live_sessions-rest_of :
    (actor : RepositoryActor) (scope : Scope) (now : Instant) (store store' : ApiStore)
    (revoked : List AuthSession)
    → revoke_live_sessions actor scope now store ≡ (ok revoked, store')
    → rest_of store' ≡ rest_of store
unfolding revoke_live_sessions
revoke_live_sessions-rest_of actor scope now store store' revoked h =
    let (sessions, s₁, r₁, h₁) = continue-ok (query (list_sessions actor scope) store) _ h in
    let (listed, e₁) = query-ok (list_sessions actor scope) store s₁ r₁ in
    revoke_each-rest_of actor now _ s₁ store' revoked h₁ ∙ ap (λ (x : ApiStore). rest_of x) e₁

-- Storing a user leaves the sessions.
upsert_user-stored :
    (user saved : AuthUser) (store store' : ApiStore)
    → upsert_user system user store ≡ ok (saved, store')
    → (saved ≡ user)
      × (store'.auth_sessions ≡ store.auth_sessions)
      × (find (is_user user.tenant_id user.id) store'.auth_users ≡ some user)
      × (store'.auth_password_reset_tokens ≡ store.auth_password_reset_tokens)
unfolding upsert_user
upsert_user-stored user saved store store' h =
    let p = is_user user.tenant_id user.id in
    let same = ok-injective h in
    (
      sym (ap (λ (x : AuthUser × ApiStore). x.0) same),
      sym (ap (λ (x : AuthUser × ApiStore). (x.1).auth_sessions) same),
      subst (λ (x : ApiStore). find p x.auth_users ≡ some user)
          (ap (λ (x : AuthUser × ApiStore). x.1) same)
          (find-put p p user store.auth_users
            (rw ((eq_iff user.tenant_id user.tenant_id).1 refl, (eq_iff user.id user.id).1 refl)
              refl)
            (λ x k. k)),
      sym (ap (λ (x : AuthUser × ApiStore). (x.1).auth_password_reset_tokens) same),
    )

-- A user that is read has the tenant and the id that are asked for.
get_user-same :
    (tenant_id id : String) (store : ApiStore) (subject : AuthUser)
    → get_user system tenant_id id store ≡ ok subject
    → (subject.tenant_id ≡ tenant_id) × (subject.id ≡ id)
unfolding get_user
get_user-same tenant_id id store subject h =
    elim (Option-cases (find (is_user tenant_id id) store.auth_users)) [
      | inl e ↦ absurd (refused (rw e at h))
      | inr (u, e) ↦
          let same : u ≡ subject = ok-injective (rw e at h) in
          let (tenant, own) =
            both-true _ _ (find-holds (is_user tenant_id id) store.auth_users e) in
          subst (λ (x : AuthUser). (x.tenant_id ≡ tenant_id) × (x.id ≡ id)) same
            ((eq_iff u.tenant_id tenant_id).0 tenant, (eq_iff u.id id).0 own)
    ]
  where
    refused :
        {e : RepositoryError} {u : AuthUser}
        → ¬ (◌≡◌ {A = Result RepositoryError AuthUser} (err e) (ok u))
    refused k = cc

-- Appending an event leaves the users and the sessions.
append-rest :
    (event saved : AuditEvent) (store store' : ApiStore)
    → append_audit_event system event store ≡ ok (saved, store')
    → (store'.auth_sessions ≡ store.auth_sessions) × (rest_of store' ≡ rest_of store)
unfolding append_audit_event
append-rest event saved store store' h = (
  sym (ap (λ (x : AuditEvent × ApiStore). (x.1).auth_sessions) (ok-injective h)),
  sym (ap (λ (x : AuditEvent × ApiStore). rest_of x.1) (ok-injective h)),
)

-- A reset that returns was given a password of at least 12 characters, and the store held a token of
-- the scope with the hash of the one given, neither used nor expired. Afterwards a token of that token's
-- id is marked as used at that instant, the scope's user is stored with the new credential and, where
-- ids tell the tenants of sessions, no session of the scope is live.
pub reset_password-PasswordReset :
    (tenant_of : String → String) (platform : Platform) (scope : Scope) (reset_token : String)
    (password_length : ℕ) (credential_hash : String) (now : Instant) (store store' : ApiStore)
    (saved : AuthUser) (revoked : List AuthSession) (event : AuditEvent)
    → HasTenants tenant_of store.auth_sessions
    → reset_password platform scope reset_token password_length credential_hash now store
      ≡ (ok (saved, revoked, event), store')
    → PasswordReset platform scope reset_token password_length credential_hash now store store'
        saved
unfolding reset_password
reset_password-PasswordReset tenant_of platform scope reset_token password_length credential_hash
      now store store' saved revoked event tenants h =
    let (u₀, s₀, r₀, h₀) = continue-ok (throw_if (ltb password_length 12) _ store) _ h in
    let (long, e₀) = throw_if-ok (ltb password_length 12) _ store s₀ r₀ in
    let (o, s₁, r₁, h₁) =
      continue-ok (consume_valid_password_reset_token platform scope reset_token now s₀) _ h₀ in
    let (t, s₂, r₂, h₂) = continue-ok (required _ o s₁) _ h₁ in
    let (o_is, e₂) = required-ok _ o s₁ s₂ r₂ in
    let consumed = consume-Consumed platform scope reset_token now s₀ s₁ t (
      subst
        (λ (x : Option AuthPasswordResetToken).
          consume_valid_password_reset_token platform scope reset_token now s₀ ≡ (ok x, s₁))
        o_is r₁) in
    let facts = usable-facts (platform.sha256_hex reset_token) now consumed.token consumed.usable in
    let (subject, s₃, r₃, h₃) =
      continue-ok (query (get_user system scope.tenant_id scope.user_id) s₂) _ h₂ in
    let (read, e₃) = query-ok (get_user system scope.tenant_id scope.user_id) s₂ s₃ r₃ in
    let (u₄, s₄, r₄, h₄) = continue-ok (throw_if (not (is_active_user subject.status)) _ s₃) _ h₃ in
    let (active, e₄) = throw_if-ok (not (is_active_user subject.status)) _ s₃ s₄ r₄ in
    let (u₅, s₅, r₅, h₅) =
      continue-ok (check (assert_active_auth_subject system scope s₄) s₄) _ h₄ in
    let (checked, e₅) = check-ok (assert_active_auth_subject system scope s₄) s₄ s₅ r₅ in
    let new = with_credential subject credential_hash now in
    let (user, s₆, r₆, h₆) = continue-ok (perform (upsert_user system new) s₅) _ h₅ in
    let (user_is, sessions₆, stored, tokens₆) =
      upsert_user-stored new user s₅ s₆ (perform-ok (upsert_user system new) s₅ s₆ r₆) in
    let (gone, s₇, r₇, h₇) = continue-ok (revoke_live_sessions system scope now s₆) _ h₆ in
    let (appended, s₈, r₈, h₈) = continue-ok (perform (append_audit_event system _) s₇) _ h₇ in
    let (sessions₈, rest₈) =
      append-rest _ appended s₇ s₈ (perform-ok (append_audit_event system _) s₇ s₈ r₈) in
    let same_sessions : s₆.auth_sessions ≡ store.auth_sessions =
      sessions₆
      ∙ ap (λ (x : ApiStore). x.auth_sessions) (e₅ ∙ e₄ ∙ e₃ ∙ e₂)
      ∙ consumed.sessions
      ∙ ap (λ (x : ApiStore). x.auth_sessions) e₀ in
    let out =
      revoke_live_sessions-SignedOut tenant_of system scope now s₆ s₇ gone
        (subst (HasTenants tenant_of) (sym same_sessions) tenants) r₇ in
    let last : s₈ ≡ store' = ap (λ (x : Response PasswordChange). x.1) h₈ in
    let result : user ≡ saved =
      ap (λ (x : PasswordChange). x.0)
        (ok-injective (ap (λ (x : Response PasswordChange). x.0) h₈)) in
    let rest : rest_of s₈ ≡ rest_of s₆ =
      rest₈ ∙ revoke_live_sessions-rest_of system scope now s₆ s₇ gone r₇ in
    let users = ap (λ (x : List AuthUser × List AuthPasswordResetToken). x.0) rest in
    let tokens =
      ap (λ (x : List AuthUser × List AuthPasswordResetToken). x.1) rest
      ∙ tokens₆
      ∙ ap (λ (x : ApiStore). x.auth_password_reset_tokens) (e₅ ∙ e₄ ∙ e₃ ∙ e₂) in
    subst
      (λ (x : AuthUser × ApiStore).
        PasswordReset platform scope reset_token password_length credential_hash now store x.1 x.0)
      (pair (sym user_is ∙ result) last)
      (record {
        token = consumed.token;
        listed =
            subst
              (λ (x : ApiStore).
                Any (λ (t : AuthPasswordResetToken). t ≡ consumed.token)
                  x.auth_password_reset_tokens)
              e₀ consumed.listed;
        of_scope = consumed.of_scope;
        hashed = facts.0;
        unused = facts.1;
        end = facts.2.0;
        ends = facts.2.1;
        ahead = facts.2.2;
        used =
            subst
              (Any (λ (t : AuthPasswordResetToken).
                (t.id ≡ consumed.token.id) × (t.used_at ≡ some (iso now))))
              (sym tokens) consumed.used;
        long = ltb→le _ _ long;
        of_user = get_user-same scope.tenant_id scope.user_id s₂ subject read;
        credential = refl;
        stored =
            subst (λ (us : List AuthUser). find (is_user new.tenant_id new.id) us ≡ some new)
              (sym users) stored;
        signed_out = subst (SignedOut scope now) (sym sessions₈) out;
      })
  where
    pair :
        {a b : AuthUser} {s t : ApiStore}
        → a ≡ b
        → s ≡ t
        → ◌≡◌ {A = AuthUser × ApiStore} (a, s) (b, t)
    pair e k = cc
