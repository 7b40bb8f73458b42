-- ===== src/Api/Retention/Cleanup/Confirmed.antt =====
-- src/api.ts: the handler of the cleanup, and what it asks of the request.
use scheduleos.Base.{
  ◌≡◌, refl, sym, ◌∙◌, ap, ◌⊎◌, inl, inr, Bool, true, false, Option, none, some, Result, ok, err,
  >>=-eq-ok, ok-injective, String, eq_iff, Bool-cases,
}
use scheduleos.Domain.{Instant, Timestamp, iso}
use scheduleos.Records.{AuditEvent}
use scheduleos.Policies.{
  RetentionError, timed_scoped_confirmation, require_destructive_confirmation, is_provided,
}
use scheduleos.Repositories.{ApiStore}
use scheduleos.Api.{Platform}
use scheduleos.Api.Access.{AuthPrincipal, require_auth_admin, workspace_of}
use scheduleos.Api.Access.Roles.{Manages, require_auth_admin-Manages, refused}
use scheduleos.Api.Retention.{LocalRetentionCleanupResult}
use scheduleos.Api.Retention.Cleanup.{
  RetentionCleanupRequest, is_dry_run, valid_as_of, confirm_cleanup, of_retention,
  cleanup_local_store_retention, append_cleanup_event, retention_cleanup,
}
use scheduleos.Api.Retention.Cleanup.Safe.{cleanup-unchanged}

-- The request names an instant and repeats the text that stands for its scope and that instant.
pub record Confirmed (platform : Platform) (request : RetentionCleanupRequest) : Type 0 where
  pub as_of : Instant
  pub read : request.as_of ≡ iso as_of
  pub applied : request.apply ≡ some true
  pub repeated :
      request.confirm
      ≡ some (timed_scoped_confirmation request.scope (platform.to_iso_string as_of))

provided-eq :
    (o : Option String) (required : String) → is_provided o required ≡ true → o ≡ some required
provided-eq none required h = cc
provided-eq (some text) required h = ap some ((eq_iff text required).0 h)

confirm_cleanup-eq :
    (request : RetentionCleanupRequest) (required : String) {done : Unit {0}}
    → confirm_cleanup request false required ≡ ok done
    → request.confirm ≡ some required
unfolding confirm_cleanup require_destructive_confirmation
confirm_cleanup-eq request required h = elim (Bool-cases (is_provided request.confirm required)) [
  | inl e ↦ provided-eq request.confirm required e
  | inr e ↦ absurd (refused (rw e at h))
]

valid_as_of-eq : (t : Timestamp) (i : Instant) → valid_as_of t ≡ ok i → t ≡ iso i
valid_as_of-eq (iso t) i h = ap iso (ok-injective h)
valid_as_of-eq Timestamp.malformed i h = absurd (refused h)

applied-eq : (apply : Option Bool) → is_dry_run apply ≡ false → apply ≡ some true
applied-eq none h = cc
applied-eq (some false) h = cc
applied-eq (some true) h = refl

dry-unchanged :
    (platform : Platform) (now : Instant) (p : AuthPrincipal) (request : RetentionCleanupRequest)
    (store store' : ApiStore) {event : Option AuditEvent}
    → append_cleanup_event platform now p request.scope true store ≡ ok (event, store')
    → store' ≡ store
unfolding append_cleanup_event
dry-unchanged platform now p request store store' h =
    sym (ap (λ (x : Option AuditEvent × ApiStore). x.1) (ok-injective h))

of_retention-eq :
    {A : Type 0} (r : Result RetentionError A) {a : A} → of_retention r ≡ ok a → r ≡ ok a
of_retention-eq (ok x) h = ap ok (ok-injective h)
of_retention-eq (err e) h = absurd (refused h)

-- What the steps of the handler show, by whether the run is dry.
decided :
    (platform : Platform) (now t : Instant) (p : AuthPrincipal) (request : RetentionCleanupRequest)
    (store store' : ApiStore) (required : String) (dry_run : Bool) {done : Unit {0}}
    {cleaned : LocalRetentionCleanupResult × ApiStore} {event : Option AuditEvent}
    → is_dry_run request.apply ≡ dry_run
    → confirm_cleanup request dry_run required ≡ ok done
    → of_retention (cleanup_local_store_retention request.scope t dry_run required store)
      ≡ ok cleaned
    → append_cleanup_event platform now p request.scope dry_run cleaned.1 ≡ ok (event, store')
    → (store' ≡ store) ⊎ ((request.apply ≡ some true) × (request.confirm ≡ some required))
decided platform now t p request store store' required true {cleaned = cleaned} e confirmed ran
      appended =
    inl (
      dry-unchanged platform now p request cleaned.1 store' appended
      ∙ cleanup-unchanged request.scope t required store cleaned.1 cleaned.0
          (of_retention-eq _ ran))
decided platform now t p request store store' required false e confirmed ran appended =
    inr (applied-eq request.apply e, confirm_cleanup-eq request required confirmed)

-- Where the handler of a cleanup returns, the principal is an admin or an owner of the workspace that
-- the request names; and it has left the store as it was, or the request asks to apply the cleanup and
-- repeats the confirmation that stands for its scope and its instant.
pub retention_cleanup-Confirmed :
    (platform : Platform) (now : Instant) (principal : Option AuthPrincipal)
    (request : RetentionCleanupRequest) (store store' : ApiStore)
    (result : LocalRetentionCleanupResult) (event : Option AuditEvent)
    → retention_cleanup platform now principal request store ≡ ok ((result, event), store')
    → ((p : AuthPrincipal) × Manages principal (workspace_of request.scope) p)
      × ((store' ≡ store) ⊎ Confirmed platform request)
unfolding retention_cleanup
retention_cleanup-Confirmed platform now principal request store store' result event h =
    let (p, admin, h₁) =
      >>=-eq-ok (require_auth_admin principal (some (workspace_of request.scope))) _ h in
    let (t, read, h₂) = >>=-eq-ok (valid_as_of request.as_of) _ h₁ in
    let required = timed_scoped_confirmation request.scope (platform.to_iso_string t) in
    let (done, confirmed, h₃) =
      >>=-eq-ok (confirm_cleanup request (is_dry_run request.apply) required) _ h₂ in
    let (cleaned, ran, h₄) =
      >>=-eq-ok
        (of_retention
          (cleanup_local_store_retention request.scope t (is_dry_run request.apply) required store))
        _ h₃ in
    let (appended, event_is, h₅) =
      >>=-eq-ok
        (append_cleanup_event platform now p request.scope (is_dry_run request.apply) cleaned.1) _
        h₄ in
    let final : appended.1 ≡ store' =
      ap (λ (x : (LocalRetentionCleanupResult × Option AuditEvent) × ApiStore). x.1)
        (ok-injective h₅) in
    (
      (p, require_auth_admin-Manages principal (workspace_of request.scope) p admin),
      elim (decided platform now t p request store appended.1 required (is_dry_run request.apply)
          refl confirmed ran event_is) [
            | inl e ↦ inl (sym final ∙ e)
            | inr (applied, repeated) ↦ inr (record {
              as_of = t;
              read = valid_as_of-eq request.as_of t read;
              applied = applied;
              repeated = repeated;
            })
          ],
    )
