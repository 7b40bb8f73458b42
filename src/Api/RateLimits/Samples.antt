-- ===== src/Api/RateLimits/Samples.antt =====
-- Runs of requests at which the limit on their rate applies.
use scheduleos.Base.{
  ◌≡◌, refl, [], ◌∷◌, none, List, arith, true, false, some, err, str_eq, if◌then◌else◌,
}
use scheduleos.Repositories.{empty_store}
use scheduleos.Api.RateLimits.{Buckets, Limits, count_with, enforce_rate_limit}
use scheduleos.Api.{rate_limited_error}
use scheduleos.Api.RateLimits.Retry.{TellsWhen, enforce_rate_limit-TellsWhen}
use scheduleos.Api.RateLimits.Limit.{Request, in_memory, let_through, asked, min, let_through-limit}

abbrev no_buckets : Buckets
no_buckets key = none

-- Three requests of one key within a second, and two of another.
abbrev run : List Request
run = ("a", 100) ∷ ("b", 150) ∷ ("a", 500) ∷ ("b", 5000) ∷ ("a", 1099) ∷ []

run_lets_two_through : let_through (in_memory 2 1000) "a" run (no_buckets, empty_store) ≡ 2
unfolding let_through enforce_rate_limit count_with
run_lets_two_through = refl

differ : ¬ (false ≡ true)
differ e = cc

let_through-limit_example :
    let_through (in_memory 2 1000) "a" run (no_buckets, empty_store) ≡ min (asked "a" run) 2
let_through-limit_example =
    let_through-limit 1 999 100 "a" run no_buckets empty_store
      (
        (λ e. (omega arith, omega arith)),
        (
          (λ e. (omega arith, omega arith)),
          (
            (λ e. (omega arith, omega arith)),
            ((λ e. absurd (differ e)), ((λ e. (omega arith, omega arith)), tt)),
          ),
        ),
      )
      refl

abbrev full_limits : Limits
full_limits = (
  (λ key. if str_eq "a" key then some (record { window_started_at = 100; count = 2 }) else none),
  empty_store,
)

refused_runs :
    enforce_rate_limit (some (in_memory 2 60000)) none "" "a" 500 full_limits
    ≡ (err (rate_limited_error 59600), full_limits)
unfolding enforce_rate_limit count_with
refused_runs = refl

enforce_rate_limit-TellsWhen_example :
    TellsWhen (in_memory 2 60000) "a" 500 full_limits (rate_limited_error 59600)
enforce_rate_limit-TellsWhen_example =
    enforce_rate_limit-TellsWhen 1 59999 "a" 500 full_limits full_limits (rate_limited_error 59600)
      refused_runs
