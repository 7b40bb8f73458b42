-- ===== src/Api/Login/Guesses.antt =====
-- src/api.ts: a run of failed logins of one account, one after the other.
use scheduleos.Base.{
  ◌≡◌, refl, sym, subst, ◌+◌, ◌-◌, ◌≤◌, ◌<◌, ◌==◌, ℕ, zero, suc, Bool, true, false, not, Option,
  some, List, [], ◌∷◌, All, All-append, All-filter, All-imp, Result, ok, err, find, filter, ltb,
  arith, eq_iff, String,
}
use scheduleos.Domain.{Instant, Timestamp, iso, Scope}
use scheduleos.Records.{AuthLoginAttemptWindow, AuthSession, AuditEvent}
use scheduleos.Repositories.{ApiStore, matches_scope}
use scheduleos.Repositories.Access.{matches_scope_refl}
use scheduleos.Repositories.Tables.{put, find-put_own}
use scheduleos.Repositories.Auth.{is_window, get_login_attempt_window, upsert_login_attempt_window}
use scheduleos.Api.{ApiError, api_error, auth_attempt_limited_error, Platform}
use scheduleos.Api.Sessions.{SessionSecrets}
use scheduleos.Api.Login.{
  LoginBackoffConfig, AuthSessionLoginRequest, locked_for, failed_window, login_attempt_window_id,
  enforce_on, enforce_login_attempt_backoff, record_failed_login_attempt, has_valid_credentials,
  invalid_credentials, refuse_login, log_in,
}
use scheduleos.Api.Login.Window.{Phase, fresh, counting, locked, failed_window-Phase, not_over}

abbrev pub LoginAnswer : Type 0
LoginAnswer = Result ApiError (AuthSession × String × AuditEvent)

abbrev pub is_too_many : ApiError → Bool
is_too_many (api_error status code message) = status == 429
is_too_many _ = false

-- The answer refuses to compare the password.
abbrev pub is_held_off : LoginAnswer → Bool
is_held_off (ok done) = false
is_held_off (err thrown) = is_too_many thrown

-- One attempt to log in: what the request says, the random texts it would use, and when it comes.
pub record Guess : Type 0 where
  pub expires_at : Option Timestamp
  pub password : String
  pub secrets : SessionSecrets
  pub at : Instant

abbrev pub request_of : Scope → Guess → AuthSessionLoginRequest
request_of scope guess = record {
  scope = scope;
  expires_at = guess.expires_at;
  password = guess.password;
}

-- The answers to a run of attempts at one account.
unfoldable pub answers :
    Platform → LoginBackoffConfig → Scope → List Guess → ApiStore → List LoginAnswer
answers platform config scope [] store = []
answers platform config scope (guess ∷ guesses) store =
    let answer = log_in platform config guess.secrets (request_of scope guess) guess.at store in
    answer.0 ∷ answers platform config scope guesses answer.1

abbrev pub window_of : Scope → ApiStore → Option AuthLoginAttemptWindow
window_of scope store =
    find (λ (window : AuthLoginAttemptWindow). matches_scope window.scope scope)
      store.auth_login_attempt_windows

-- The windows of the account are told by its id.
abbrev pub HasOwnIds : Scope → ApiStore → Type 0
HasOwnIds scope store =
    All
      (λ (window : AuthLoginAttemptWindow).
        matches_scope window.scope scope ≡ true → window.id ≡ login_attempt_window_id scope)
      store.auth_login_attempt_windows

-- The store with the window of a failure.
abbrev after_failure : LoginBackoffConfig → Scope → Instant → ApiStore → ApiStore
after_failure config scope now store = record store {
  auth_login_attempt_windows =
      put (is_window scope (login_attempt_window_id scope))
        (failed_window config scope now (window_of scope store)) store.auth_login_attempt_windows;
}

record_failed_lem :
    (config : LoginBackoffConfig) (scope : Scope) (now : Instant) (store : ApiStore)
    → record_failed_login_attempt config scope now store ≡ ok (after_failure config scope now store)
unfolding record_failed_login_attempt get_login_attempt_window upsert_login_attempt_window
    failed_window
record_failed_lem config scope now store = refl

window_of-after_failure :
    (config : LoginBackoffConfig) (scope : Scope) (now : Instant) (store : ApiStore)
    → HasOwnIds scope store
    → window_of scope (after_failure config scope now store)
      ≡ some (failed_window config scope now (window_of scope store))
unfolding failed_window
window_of-after_failure config scope now store own =
    find-put_own (λ window. matches_scope window.scope scope)
      (is_window scope (login_attempt_window_id scope))
      (failed_window config scope now (window_of scope store)) store.auth_login_attempt_windows
      (matches_scope_refl scope)
      (All-imp _ _ store.auth_login_attempt_windows
        (λ w h e. rw (e, (eq_iff w.id (login_attempt_window_id scope)).1 (h e)) refl) own)

after_failure-HasOwnIds :
    (config : LoginBackoffConfig) (scope : Scope) (now : Instant) (store : ApiStore)
    → HasOwnIds scope store
    → HasOwnIds scope (after_failure config scope now store)
unfolding failed_window
after_failure-HasOwnIds config scope now store own =
    let Own : AuthLoginAttemptWindow → Type 0 =
      λ w. matches_scope w.scope scope ≡ true → w.id ≡ login_attempt_window_id scope in
    let others =
      λ (w : AuthLoginAttemptWindow). not (is_window scope (login_attempt_window_id scope) w) in
    let rest = filter others store.auth_login_attempt_windows in
    All-append Own rest (failed_window config scope now (window_of scope store) ∷ [])
      (All-imp (λ w. Own w × (others w ≡ true)) Own rest (λ w h. h.0)
        (All-filter Own others store.auth_login_attempt_windows own))
      (λ _. refl, tt)

-- Where attempts are left, the password is compared.
enforce-passes :
    (config : LoginBackoffConfig) (scope : Scope) (first now : Instant) (store : ApiStore)
    (left : ℕ)
    → now < first + config.window_ms
    → Phase config first (window_of scope store) (suc left)
    → enforce_login_attempt_backoff config scope now store ≡ ok store
unfolding enforce_login_attempt_backoff get_login_attempt_window enforce_on locked_for
enforce-passes config scope first now store left h (fresh _ e total) = rw e refl
enforce-passes config scope first now store left h (counting w started _ e at started_le lock sum) =
    rw (e, lock, not_over config first now started w.window_started_at at h started_le) refl

locked_for_holds :
    (until now : Instant) → now < until → locked_for (some (iso until)) now ≡ some (until - now)
unfolding locked_for
locked_for_holds until now h = let holds : ltb now until ≡ true = ground (arith, h) in rw holds refl

enforce-refuses :
    (config : LoginBackoffConfig) (scope : Scope) (first now : Instant) (store : ApiStore)
    → now < first + config.window_ms
    → Phase config first (window_of scope store) zero
    → (ms : ℕ) × (enforce_login_attempt_backoff config scope now store
        ≡ err (auth_attempt_limited_error ms))
unfolding enforce_login_attempt_backoff get_login_attempt_window enforce_on
enforce-refuses config scope first now store h (locked w until e lock until_le) =
    let holds : locked_for w.locked_until now ≡ some (until - now) =
      rw lock (locked_for_holds until now (omega (arith, h, until_le))) in
    (until - now, rw e (rw (holds, enforce_on) refl))

-- A store in which the account's credentials are what they were, its windows have its id, and its
-- window is in a phase.
pub record Goes (config : LoginBackoffConfig) (scope : Scope) (first : Instant)
    (store store' : ApiStore) (left : ℕ) : Type 0 where
  pub own : HasOwnIds scope store'
  pub users : store'.auth_users ≡ store.auth_users
  pub memberships : store'.workspace_memberships ≡ store.workspace_memberships
  pub phase : Phase config first (window_of scope store') left

module _ (platform : Platform) (config : LoginBackoffConfig) (secrets : SessionSecrets)
    (request : AuthSessionLoginRequest) (now : Instant) (store : ApiStore) where
  log_in_refused :
      (e : ApiError)
      → enforce_login_attempt_backoff config request.scope now store ≡ err e
      → log_in platform config secrets request now store ≡ (err e, store)
  unfolding log_in
  log_in_refused e h = rw (h, log_in) refl

  refuse_login_lem :
      (recorded : ApiStore)
      → record_failed_login_attempt config request.scope now store ≡ ok recorded
      → refuse_login config request.scope now store ≡ (err invalid_credentials, recorded)
  unfolding refuse_login
  refuse_login_lem recorded k = rw (k, refuse_login) refl

  log_in_wrong :
      (recorded : ApiStore)
      → enforce_login_attempt_backoff config request.scope now store ≡ ok store
      → has_valid_credentials platform request store ≡ false
      → record_failed_login_attempt config request.scope now store ≡ ok recorded
      → log_in platform config secrets request now store ≡ (err invalid_credentials, recorded)
  unfolding log_in
  log_in_wrong recorded h bad k = rw (h, log_in, bad, refuse_login_lem recorded k) refl

-- An attempt at an account that is locked, with whatever password, is held off and changes nothing.
pub log_in-held_off :
    (platform : Platform) (config : LoginBackoffConfig) (secrets : SessionSecrets)
    (request : AuthSessionLoginRequest) (first now : Instant) (store : ApiStore)
    → now < first + config.window_ms
    → Phase config first (window_of request.scope store) zero
    → (ms : ℕ) × (log_in platform config secrets request now store
        ≡ (err (auth_attempt_limited_error ms), store))
log_in-held_off platform config secrets request first now store h phase =
    let (ms, refused) = enforce-refuses config request.scope first now store h phase in
    (
      ms,
      log_in_refused platform config secrets request now store (auth_attempt_limited_error ms)
          refused,
    )

-- A wrong guess where attempts are left is answered as such, and uses up one of them.
pub log_in-compared :
    (platform : Platform) (config : LoginBackoffConfig) (secrets : SessionSecrets)
    (request : AuthSessionLoginRequest) (first now : Instant) (store : ApiStore) (left : ℕ)
    → first ≤ now
    → now < first + config.window_ms
    → has_valid_credentials platform request store ≡ false
    → HasOwnIds request.scope store
    → Phase config first (window_of request.scope store) (suc left)
    → let answer = log_in platform config secrets request now store in
      (answer.0 ≡ err invalid_credentials) × Goes config request.scope first store answer.1 left
log_in-compared platform config secrets request first now store left h k bad own phase =
    let (rest, used, next) =
      failed_window-Phase config request.scope first now (window_of request.scope store) left h k
        phase in
    let stored = window_of-after_failure config request.scope now store own in
    let same : rest ≡ left = omega (arith, used) in
    rw
      (log_in_wrong platform config secrets request now store
        (after_failure config request.scope now store)
        (enforce-passes config request.scope first now store left k phase) bad
        (record_failed_lem config request.scope now store))
      (
        refl,
        record {
          own = after_failure-HasOwnIds config request.scope now store own;
          users = refl;
          memberships = refl;
          phase =
              subst
                (λ n.
                  Phase config first
                    (window_of request.scope (after_failure config request.scope now store)) n)
                same (subst (λ o. Phase config first o rest) (sym stored) next);
        },
      )

pub same_credentials :
    (platform : Platform) (request : AuthSessionLoginRequest) (store store' : ApiStore)
    → store'.auth_users ≡ store.auth_users
    → store'.workspace_memberships ≡ store.workspace_memberships
    → has_valid_credentials platform request store' ≡ has_valid_credentials platform request store
unfolding has_valid_credentials
same_credentials platform request store store' users memberships = rw (users, memberships) refl
