-- ===== src/Api/Login/LockedOut.antt =====
-- src/api.ts: what a run of wrong guesses at an account leaves of later attempts.
use scheduleos.Base.{
  ◌≡◌, ◌∙◌, subst, ◌+◌, ◌-◌, ◌≤◌, ◌<◌, ℕ, zero, suc, false, not, none, List, [], ◌∷◌, All, All-imp,
  err, filter, length, arith,
}
use scheduleos.Domain.{Instant, Scope}
use scheduleos.Repositories.{ApiStore}
use scheduleos.Api.{auth_attempt_limited_error, Platform}
use scheduleos.Api.Login.{LoginBackoffConfig, has_valid_credentials, log_in}
use scheduleos.Api.Login.Window.{Phase, fresh}
use scheduleos.Api.Login.Guesses.{
  LoginAnswer, is_held_off, Guess, request_of, answers, window_of, HasOwnIds, Goes, log_in-held_off,
  log_in-compared, same_credentials,
}

-- The guess comes before the end of the window that opens at `first`, and is wrong.
abbrev pub IsWrong : Platform → LoginBackoffConfig → Scope → Instant → ApiStore → Guess → Type 0
IsWrong platform config scope first store guess =
    (first ≤ guess.at)
    × (guess.at < first + config.window_ms)
    × (has_valid_credentials platform (request_of scope guess) store ≡ false)

-- The store that a run of attempts leaves.
unfoldable pub after_guesses :
    Platform → LoginBackoffConfig → Scope → List Guess → ApiStore → ApiStore
after_guesses platform config scope [] store = store
after_guesses platform config scope (guess ∷ guesses) store =
    after_guesses platform config scope guesses
      ((log_in platform config guess.secrets (request_of scope guess) guess.at store).1)

-- How many of the answers do not hold the attempt off.
abbrev pub not_held_off : List LoginAnswer → ℕ
not_held_off given = length (filter (λ answer. not (is_held_off answer)) given)

-- What a run of wrong guesses leaves of a number of attempts.
record Used (platform : Platform) (config : LoginBackoffConfig) (scope : Scope) (first : Instant)
    (guesses : List Guess) (store : ApiStore) (left : ℕ) : Type 0 where
  goes :
      Phase config first
        (window_of scope (after_guesses platform config scope guesses store))
        (left - length guesses)
  used : not_held_off (answers platform config scope guesses store) + (left - length guesses) ≡ left

module _ (platform : Platform) (config : LoginBackoffConfig) (scope : Scope) (first : Instant) where
  still-IsWrong :
      (guesses : List Guess) (store store' : ApiStore) (left : ℕ)
      → Goes config scope first store store' left
      → All (IsWrong platform config scope first store) guesses
      → All (IsWrong platform config scope first store') guesses
  still-IsWrong guesses store store' left g h =
      All-imp _ _ guesses
        (λ x k. (
          k.0,
          k.1,
          same_credentials platform (request_of scope x) store store' g.users g.memberships ∙ k.2,
        ))
        h

  answers-Used :
      (guesses : List Guess) (store : ApiStore) (left : ℕ)
      → HasOwnIds scope store
      → Phase config first (window_of scope store) left
      → All (IsWrong platform config scope first store) guesses
      → Used platform config scope first guesses store left
  unfolding answers after_guesses auth_attempt_limited_error
  answers-Used [] store left own phase h = record {
    goes = subst (Phase config first (window_of scope store)) (omega arith) phase;
    used = omega arith;
  }
  answers-Used (guess ∷ guesses) store zero own phase h =
      let (ms, e) =
        log_in-held_off platform config guess.secrets (request_of scope guess) first guess.at store
          (h.0).1 phase in
      let rest = answers-Used guesses store zero own phase h.1 in
      let used = rest.used in
      record {
        goes = rw (after_guesses, e) (subst (Phase config first _) (omega arith) rest.goes);
        used = rw (answers, e) (omega (arith, used));
      }
  answers-Used (guess ∷ guesses) store (suc left) own phase h =
      let answer = log_in platform config guess.secrets (request_of scope guess) guess.at store in
      let (wrong, g) =
        log_in-compared platform config guess.secrets (request_of scope guess) first guess.at store
          left (h.0).0 (h.0).1 (h.0).2 own phase in
      let rest =
        answers-Used guesses answer.1 left g.own g.phase
          (still-IsWrong guesses store answer.1 left g h.1) in
      let used = rest.used in
      record {
        goes = subst (Phase config first _) (omega arith) rest.goes;
        used = rw (answers, wrong) (omega (arith, used));
      }

-- After a run of wrong guesses at the password of an account that had no window before, all within one
-- window of time and at least as many as configured, which is not 0, exactly the configured number of
-- them were not held off, and any further attempt in that time, with whatever password, is held off
-- with the status 429 and changes nothing.
pub log_in-locked_out :
    (platform : Platform) (config : LoginBackoffConfig) (scope : Scope) (first : Instant)
    (guesses : List Guess) (store : ApiStore) (last : Guess) (limit : ℕ)
    → config.max_failed_attempts ≡ suc limit
    → config.max_failed_attempts ≤ length guesses
    → HasOwnIds scope store
    → window_of scope store ≡ none
    → All (IsWrong platform config scope first store) guesses
    → last.at < first + config.window_ms
    → let left = after_guesses platform config scope guesses store in
      (not_held_off (answers platform config scope guesses store) ≡ config.max_failed_attempts)
      × ((ms : ℕ) × (log_in platform config last.secrets (request_of scope last) last.at left
            ≡ (err (auth_attempt_limited_error ms), left)))
log_in-locked_out platform config scope first guesses store last limit total many own none_yet h
      until =
    let run =
      answers-Used platform config scope first guesses store (suc limit) own
        (fresh limit none_yet total) h in
    let used = run.used in
    let none_left : suc limit - length guesses ≡ zero = omega (arith, total, many) in
    (
      omega (arith, total, many, used),
      log_in-held_off platform config last.secrets (request_of scope last) first last.at
          (after_guesses platform config scope guesses store) until
          (subst (Phase config first _) none_left run.goes),
    )
