-- ===== src/Api/RateLimits/Retry.antt =====
-- src/api.ts: what a request that goes over the limit is told.
use scheduleos.Base.{
  ◌*◌, ◌/◌, join, decimal, [], ◌∷◌, ◌≡◌, refl, ap, subst, ◌≤◌, ◌<◌, ◌+◌, ◌-◌, ℕ, suc, true, false,
  Option, none, some, Result, ok, err, leb, lt→leb, leb→lt, String, arith, Bool-cases, inl, inr,
}
use scheduleos.Domain.{Instant}
use scheduleos.Api.{ApiError, api_error, rate_limited_error}
use scheduleos.Api.RateLimits.{
  RateLimitConfig, RateLimitBucket, Buckets, Limits, count_with, count_in_bucket,
  enforce_rate_limit,
}
use scheduleos.Api.RateLimits.Limit.{in_memory, is_let_through}

-- A request of the key is refused before a time has passed, and let through from then on.
abbrev RefusedFor : ℕ → ℕ → String → Instant → Buckets → ℕ → Type 0
RefusedFor max window key now buckets ms =
    ((later : Instant)
      → now ≤ later
      → later < now + ms
      → is_let_through (count_in_bucket max window key later buckets).0 ≡ false)
    × ((later : Instant)
        → now + ms ≤ later
        → is_let_through (count_in_bucket max window key later buckets).0 ≡ true)

passed : (thrown : ApiError) → ¬ (◌≡◌ {A = Result ApiError (Unit {0})} (ok tt) (err thrown))
passed thrown k = cc

thrown-eq : (a b : ApiError) → ◌≡◌ {A = Result ApiError (Unit {0})} (err a) (err b) → b ≡ a
thrown-eq a b k = cc

le→leb : (a b : ℕ) → a ≤ b → leb a b ≡ true
le→leb a b h = ground arith

module _ (max window : ℕ) (key : String) (now : Instant) (buckets : Buckets)
    (thrown : ApiError) where
  -- A bucket that is full refuses until its window is over.
  full-RefusedFor :
      (bucket : RateLimitBucket)
      → buckets key ≡ some bucket
      → leb (bucket.window_started_at + window) now ≡ false
      → leb max bucket.count ≡ true
      → RefusedFor max window key now buckets ((bucket.window_started_at + window) - now)
  unfolding count_with
  full-RefusedFor bucket e k l =
      let open_until = leb→lt _ _ k in
      (
        (λ later from until.
            let going_on : leb (bucket.window_started_at + window) later ≡ false =
              lt→leb _ _ (omega (arith, from, until, open_until)) in
            rw (e, going_on, l) refl),
        (λ later from.
            let over : leb (bucket.window_started_at + window) later ≡ true =
              le→leb _ _ (omega (arith, from, open_until)) in
            rw (e, over) refl),
      )

  count_with-RefusedFor :
      (bucket : Option RateLimitBucket)
      → buckets key ≡ bucket
      → (count_with max window key now bucket buckets).0 ≡ err thrown
      → (ms : ℕ) × ((thrown ≡ rate_limited_error ms)
          × RefusedFor max window key now (count_with max window key now bucket buckets).1 ms)
  unfolding count_with
  count_with-RefusedFor none e h = absurd (passed thrown h)
  count_with-RefusedFor (some bucket) e h =
      elim (Bool-cases (leb (bucket.window_started_at + window) now)) [
        | inl k ↦ absurd (passed thrown (rw k at h))
        | inr k ↦ elim (Bool-cases (leb max bucket.count)) [
          | inr l ↦ absurd (passed thrown (rw (k, l) at h))
          | inl l ↦
              rw (k, l)
                (
                  (bucket.window_started_at + window) - now,
                  (thrown-eq _ thrown (rw (k, l) at h), full-RefusedFor bucket e k l),
                )
        ]
      ]

-- The text of the error names a number of seconds. A request of the key that comes next, counted in
-- memory with what the refused one leaves, is let through once that many seconds have passed, and is
-- refused while more than a second of them is left.
abbrev pub TellsWhen : RateLimitConfig → String → Instant → Limits → ApiError → Type 0
TellsWhen config key now limits thrown =
    (told : ℕ) × ((thrown
        ≡ api_error 429 "RATE_LIMITED"
            (join ("Too many requests. Retry after " ∷ decimal told ∷ " seconds." ∷ [])))
      × (((later : Instant)
            → now ≤ later
            → later + 1000 ≤ now + told * 1000
            → is_let_through (enforce_rate_limit (some config) none "" key later limits).0 ≡ false)
          × ((later : Instant)
              → now + told * 1000 ≤ later
              → is_let_through (enforce_rate_limit (some config) none "" key later limits).0
                ≡ true)))

-- The number of whole seconds that a time is rounded up to.
seconds_up :
    (ms later : ℕ) (now : Instant)
    → (later + 1000 ≤ now + ((ms + 999) / 1000) * 1000 → later < now + ms)
      × (now + ((ms + 999) / 1000) * 1000 ≤ later → now + ms ≤ later)
seconds_up ms later now = (λ h. omega (arith, h), λ h. omega (arith, h))

-- A request that is refused, where requests are counted in memory and the limit and the window are not
-- 0, is told a number of seconds: the next request of its key is let through once they have passed,
-- and is refused if it comes a second or more before that.
pub enforce_rate_limit-TellsWhen :
    (max window : ℕ) (key : String) (now : Instant) (limits left : Limits) (thrown : ApiError)
    → enforce_rate_limit (some (in_memory (suc max) (suc window))) none "" key now limits
      ≡ (err thrown, left)
    → TellsWhen (in_memory (suc max) (suc window)) key now left thrown
unfolding enforce_rate_limit rate_limited_error decimal scheduleos.Api.seconds
enforce_rate_limit-TellsWhen max window key now (buckets, store) left thrown h =
    let (ms, (thrown_is, refused)) =
      count_with-RefusedFor (suc max) (suc window) key now buckets thrown (buckets key) refl
        (ap (λ (a : Result ApiError (Unit {0}) × Limits). a.0) h) in
    let same = ap (λ (a : Result ApiError (Unit {0}) × Limits). (a.1).0) h in
    let known = subst (λ b. RefusedFor (suc max) (suc window) key now b ms) same refused in
    (
      (ms + 999) / 1000,
      (
        thrown_is,
        (
          λ later from until. known.0 later from ((seconds_up ms later now).0 until),
          λ later from. known.1 later ((seconds_up ms later now).1 from),
        ),
      ),
    )
