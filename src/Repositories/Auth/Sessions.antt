-- ===== src/Repositories/Auth/Sessions.antt =====
-- src/repositories.ts: what revoking a session leaves in the store.
use scheduleos.Base.{
  ◌≡◌, refl, subst, true, some, ok, >>=-eq-ok, ok-injective, find, String, eq_iff,
}
use scheduleos.Domain.{Timestamp}
use scheduleos.Records.{AuthSession}
use scheduleos.Repositories.{ApiStore, RepositoryActor}
use scheduleos.Repositories.Tables.{find-put}
use scheduleos.Repositories.Auth.{is_session, get_session, revoke_session}

-- The session that is revoked: one that the actor may read, and what the store holds in its place.
pub record Revoked (actor : RepositoryActor) (session_id : String) (revoked_at : Timestamp)
    (state state' : ApiStore) (revoked : AuthSession) : Type 0 where
  pub session : AuthSession
  pub read : get_session actor session_id state ≡ ok session
  pub marked : revoked ≡ record session { revoked_at = some revoked_at }
  pub stored :
      find (is_session session.scope.tenant_id session.id) state'.auth_sessions ≡ some revoked

is_session_refl : (s : AuthSession) → is_session s.scope.tenant_id s.id s ≡ true
is_session_refl s =
    rw ((eq_iff s.scope.tenant_id s.scope.tenant_id).1 refl, (eq_iff s.id s.id).1 refl) refl

-- A call that revokes a session returns the session that the actor may read under that id, marked as
-- revoked at the given time and otherwise the same, and the store holds it in place of the session of
-- that tenant and id.
pub revoke_session-Revoked :
    (actor : RepositoryActor) (session_id : String) (revoked_at : Timestamp)
    (state state' : ApiStore) (revoked : AuthSession)
    → revoke_session actor session_id revoked_at state ≡ ok (revoked, state')
    → Revoked actor session_id revoked_at state state' revoked
unfolding revoke_session
revoke_session-Revoked actor session_id revoked_at state state' revoked h =
    let (session, read, h') = >>=-eq-ok (get_session actor session_id state) _ h in
    let new : AuthSession = record session { revoked_at = some revoked_at } in
    let p = is_session session.scope.tenant_id session.id in
    subst (λ (x : AuthSession × ApiStore). Revoked actor session_id revoked_at state x.1 x.0)
      (ok-injective h')
      (record {
        session = session;
        read = read;
        marked = refl;
        stored = find-put p p new state.auth_sessions (is_session_refl session) (λ x k. k);
      })
