-- ===== src/Api/Sessions/Created.antt =====
-- src/api.ts: the sessions that are created, and when they end.
use scheduleos.Base.{
  ◌≡◌, refl, subst, ◌+◌, ◌-◌, ◌*◌, ◌≤◌, ◌<◌, Option, none, some, ok, ok-injective, >>=-eq-ok, ltb,
  leb, arith, leb→lt, ltb→le, String, Bool-cases, inl, inr,
}
use scheduleos.Domain.{Instant, Timestamp, iso, Scope}
use scheduleos.Records.{AuthSession}
use scheduleos.Api.{Platform}
use scheduleos.Api.Access.Roles.{refused}
use scheduleos.Api.Sessions.{
  SessionSecrets, create_auth_session, default_auth_session_ttl_ms, max_auth_session_ttl_ms,
  requested_auth_session_expiry,
}

requested_auth_session_expiry-bounds :
    (requested : Option Timestamp) (now expires_at : Instant)
    → requested_auth_session_expiry requested now ≡ ok expires_at
    → (now < expires_at) × (expires_at ≤ now + max_auth_session_ttl_ms)
unfolding requested_auth_session_expiry
requested_auth_session_expiry-bounds none now e h =
    let same : now + default_auth_session_ttl_ms ≡ e = ok-injective h in
    (omega (arith, same), omega (arith, same))
requested_auth_session_expiry-bounds (some Timestamp.malformed) now e h = absurd (refused h)
requested_auth_session_expiry-bounds (some (iso t)) now e h = elim (Bool-cases (leb t now)) [
  | inl past ↦ absurd (refused (rw past at h))
  | inr ahead ↦ elim (Bool-cases (ltb max_auth_session_ttl_ms (t - now))) [
    | inl far ↦ absurd (refused (rw (ahead, far) at h))
    | inr near ↦
        let same : t ≡ e = ok-injective (rw (ahead, near) at h) in
        let after = leb→lt t now ahead in
        let within = ltb→le max_auth_session_ttl_ms (t - now) near in
        (omega (arith, same, after), omega (arith, same, after, within))
  ]
]

-- A session of a scope, made now, with its token: it is neither revoked nor over, it ends within 30
-- days, and it keeps the hash of the token and not the token.
pub record Created (platform : Platform) (scope : Scope) (now : Instant) (session : AuthSession)
    (token : String) : Type 0 where
  pub of_scope : session.scope ≡ scope
  pub hashed : session.session_token_hash ≡ platform.sha256_hex token
  pub created : session.created_at ≡ iso now
  pub not_revoked : session.revoked_at ≡ none
  pub end : Instant
  pub ends : session.expires_at ≡ iso end
  pub later : now < end
  pub within : end ≤ now + 30 * (24 * (60 * (60 * 1000)))

-- A session that is created, whatever expiry the request asks for, is of the scope asked for, keeps
-- the hash of its token, is not revoked, and ends after now and at most 30 days from now.
pub create_auth_session-Created :
    (platform : Platform) (secrets : SessionSecrets) (scope : Scope) (requested : Option Timestamp)
    (now : Instant) (session : AuthSession) (token : String)
    → create_auth_session platform secrets scope requested now ≡ ok (session, token)
    → Created platform scope now session token
unfolding create_auth_session
create_auth_session-Created platform secrets scope requested now session token h =
    let (end, asked, h₁) = >>=-eq-ok (requested_auth_session_expiry requested now) _ h in
    let bounds = requested_auth_session_expiry-bounds requested now end asked in
    subst (λ (x : AuthSession × String). Created platform scope now x.0 x.1) (ok-injective h₁)
      (record {
        of_scope = refl;
        hashed = refl;
        created = refl;
        not_revoked = refl;
        end = end;
        ends = refl;
        later = bounds.0;
        within = omega (arith, bounds.1);
      })
