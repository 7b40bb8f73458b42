-- ===== src/Api/Login/Window.antt =====
-- src/api.ts: the window of attempts of one account, from one failed login to the next.
use scheduleos.Base.{
  ◌≡◌, refl, sym, ◌∙◌, ap, subst, ◌+◌, ◌≤◌, ◌<◌, ℕ, zero, suc, true, false, Option, none, some, leb,
  if◌then◌else◌, arith, lt→leb,
}
use scheduleos.Domain.{Instant, Timestamp, iso, Scope}
use scheduleos.Records.{AuthLoginAttemptWindow}
use scheduleos.Api.Login.{LoginBackoffConfig, is_window_over, failure_in, failed_window}

-- What is known of an account's window while the attempts come from `first` until `first` and the
-- length of a window: how many more passwords will be compared.
pub data Phase (config : LoginBackoffConfig) (first : Instant)
    (found : Option AuthLoginAttemptWindow) : ℕ → Type 0 where
  fresh :
      (left : ℕ)
      → found ≡ none
      → config.max_failed_attempts ≡ suc left
      → Phase config first found (suc left)
  counting :
      (window : AuthLoginAttemptWindow) (started : Instant) (left : ℕ)
      → found ≡ some window
      → window.window_started_at ≡ iso started
      → first ≤ started
      → window.locked_until ≡ none
      → window.failed_count + suc left ≡ config.max_failed_attempts
      → Phase config first found (suc left)
  locked :
      (window : AuthLoginAttemptWindow) (until : Instant)
      → found ≡ some window
      → window.locked_until ≡ some (iso until)
      → first + config.window_ms ≤ until
      → Phase config first found zero

abbrev pub Next : LoginBackoffConfig → Instant → AuthLoginAttemptWindow → ℕ → Type 0
Next config first window left =
    (rest : ℕ) × (left ≡ suc rest) × Phase config first (some window) rest

-- The window after a failure in a window that is not over.
counted :
    (config : LoginBackoffConfig) (first now started : Instant) (count left : ℕ)
    (window : AuthLoginAttemptWindow)
    → first ≤ now
    → first ≤ started
    → window.window_started_at ≡ iso started
    → window.failed_count ≡ count
    → window.locked_until
      ≡ (if leb config.max_failed_attempts count then some (iso (now + config.window_ms)) else none)
    → count + left ≡ config.max_failed_attempts
    → Next config first window (suc left)
counted config first now started count zero window first_le started_le started_is count_is lock_is
      sum =
    let full : leb config.max_failed_attempts count ≡ true = ground (arith, sum) in
    (
      zero,
      refl,
      locked window (now + config.window_ms) refl (rw full at lock_is) (omega (arith, first_le)),
    )
counted config first now started count (suc left) window first_le started_le started_is count_is
      lock_is sum =
    let more : leb config.max_failed_attempts count ≡ false =
      lt→leb config.max_failed_attempts count (omega (arith, sum)) in
    (
      suc left,
      refl,
      counting window started left refl started_is started_le (rw more at lock_is)
          (ap (λ n. n + suc left) count_is ∙ sum),
    )

pub not_over :
    (config : LoginBackoffConfig) (first now started : Instant) (at : Timestamp)
    → at ≡ iso started
    → now < first + config.window_ms
    → first ≤ started
    → is_window_over at now config.window_ms ≡ false
unfolding is_window_over
not_over config first now started at e h k =
    rw e (lt→leb (started + config.window_ms) now (omega (arith, h, k)))

-- A failure before the end of the first attempt's window uses up one of the attempts that are left.
pub failed_window-Phase :
    (config : LoginBackoffConfig) (scope : Scope) (first now : Instant)
    (found : Option AuthLoginAttemptWindow) (left : ℕ)
    → first ≤ now
    → now < first + config.window_ms
    → Phase config first found (suc left)
    → Next config first (failed_window config scope now found) (suc left)
unfolding failed_window failure_in
failed_window-Phase config scope first now found left h k (fresh _ e total) =
    subst (λ o. Next config first (failed_window config scope now o) (suc left)) (sym e)
      (counted config first now now 1 left (failed_window config scope now none) h h refl refl refl
        (omega (arith, total)))
failed_window-Phase config scope first now found left h k
      (counting w started _ e at started_le lock sum) =
    let over = not_over config first now started w.window_started_at at k started_le in
    subst (λ o. Next config first (failed_window config scope now o) (suc left)) (sym e)
      (counted config first now started (w.failed_count + 1) left
        (failed_window config scope now (some w)) h started_le (rw over at) (rw over refl)
        (rw over refl) (omega (arith, sum)))
