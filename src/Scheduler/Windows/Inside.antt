-- ===== src/Scheduler/Windows/Inside.antt =====
-- src/scheduler.ts: `subtractBusyBlock` and `buildWorkingWindows`, which instants are left, and where
-- the windows lie.
use scheduleos.Base.{
  ◌≤◌, ◌<◌, ◌≡◌, refl, sym, subst, All-imp, All-flat_map, inl, inr, ltb→lt, Bool, true, false, ◌&&◌,
  ◌||◌, not, List, [], ◌∷◌, ◌++◌, arith, leb, ltb, ok, traverse, All, any, Bool-cases, flat_map,
  String, ◌==◌, All-append, ok-injective, >>=-eq-ok,
}
use scheduleos.Domain.{Instant, WorkingHours, BreakWindow}
use scheduleos.Scheduler.Dates.{max_date, min_date}
use scheduleos.Scheduler.Slots.{BusyBlock}
use scheduleos.Scheduler.Slots.Sorted.{covers}
use scheduleos.Scheduler.Windows.{
  LocalDate, TimeZones, subtract_busy_block, break_block, subtract_break_windows, weekday,
  local_time_to_utc, working_day_windows, day_windows, days_windows, build_working_windows,
}

-- Subtracting a busy block leaves the instants of the window that the block does not cover, and no
-- other.
pub subtract_busy_block-covers :
    (t : Instant) (window busy : BusyBlock)
    → any (covers t) (subtract_busy_block window busy) ≡ (covers t window && not (covers t busy))
unfolding subtract_busy_block
subtract_busy_block-covers t window busy = ground arith

any-append :
    (p : BusyBlock → Bool) (xs ys : List BusyBlock) → any p (xs ++ ys) ≡ (any p xs || any p ys)
any-append p [] ys = refl
any-append p (x ∷ xs) ys = ground (arith, any-append p xs ys)

-- Subtracting one busy block from each window.
subtract_each-covers :
    (t : Instant) (windows : List BusyBlock) (busy : BusyBlock)
    → any (covers t) (flat_map (λ window. subtract_busy_block window busy) windows)
      ≡ (any (covers t) windows && not (covers t busy))
subtract_each-covers t [] busy = refl
subtract_each-covers t (w ∷ windows) busy =
    rw
      (
        any-append (covers t) (subtract_busy_block w busy) _,
        subtract_busy_block-covers t w busy,
        subtract_each-covers t windows busy,
      )
      (ground arith)

clipped-covers :
    (t start end range_start range_end : Instant)
    → covers t (record { start = max_date start range_start; end = min_date end range_end })
      ≡ ((leb start t && ltb t end) && (leb range_start t && ltb t range_end))
clipped-covers t start end range_start range_end = ground arith

empty-covers : (t : Instant) (b : BusyBlock) → ltb b.start b.end ≡ false → covers t b ≡ false
empty-covers t b e = ground (arith, e)

le-max_date : (a b : Instant) → b ≤ max_date a b
le-max_date a b = ground arith

min_date-le : (a b : Instant) → min_date a b ≤ b
min_date-le a b = ground arith

-- The window lies in the range, and ends after it starts.
unfoldable pub IsWindowOf : Instant → Instant → BusyBlock → Type 0
IsWindowOf range_start range_end w =
    (range_start ≤ w.start) × (w.start < w.end) × (w.end ≤ range_end)

subtract_busy_block-inside :
    (range_start range_end : Instant) (window busy : BusyBlock)
    → IsWindowOf range_start range_end window
    → All (IsWindowOf range_start range_end) (subtract_busy_block window busy)
unfolding subtract_busy_block IsWindowOf
subtract_busy_block-inside range_start range_end window busy h = ground arith

module _ (zones : TimeZones) where
  subtract_break_windows-covers :
      (date : LocalDate) (timezone : String) (breaks : List BreakWindow)
      (available : List BusyBlock) (blocks : List BusyBlock)
      → traverse (break_block zones date timezone) breaks ≡ ok blocks
      → (left : List BusyBlock) × (subtract_break_windows zones date timezone breaks available
          ≡ ok left)
        × ((t : Instant)
            → any (covers t) left ≡ (any (covers t) available && not (any (covers t) blocks)))
  unfolding subtract_break_windows
  subtract_break_windows-covers date timezone [] available blocks e =
      (available, refl, λ t. rw (sym (ok-injective e)) (ground arith))
  subtract_break_windows-covers date timezone (b ∷ breaks) available blocks e =
      let (block, eb, e₁) = >>=-eq-ok (break_block zones date timezone b) _ e in
      let (blocks', es, e₂) = >>=-eq-ok (traverse (break_block zones date timezone) breaks) _ e₁ in
      let available' = flat_map (λ window. subtract_busy_block window block) available in
      let (left, el, covered) =
        subtract_break_windows-covers date timezone breaks available' blocks' es in
      (
        left,
        rw (eb, el),
        λ t.
            rw (sym (ok-injective e₂), covered t, subtract_each-covers t available block)
              (ground arith),
      )

  -- On a working day whose times can all be read, `day_windows` returns windows, and an instant lies
  -- in one of them exactly when it lies between the local start and end of work, in the range, and
  -- in none of the breaks.
  pub day_windows-covers :
      (hours : WorkingHours) (range_start range_end : Instant) (date : LocalDate)
      (start end : Instant) (breaks : List BusyBlock)
      → any (λ day. day == weekday date) hours.days_of_week ≡ true
      → local_time_to_utc zones date hours.start_time hours.timezone ≡ ok start
      → local_time_to_utc zones date hours.end_time hours.timezone ≡ ok end
      → traverse (break_block zones date hours.timezone) hours.break_windows ≡ ok breaks
      → (windows : List BusyBlock) × (day_windows zones hours range_start range_end date
          ≡ ok windows)
        × ((t : Instant)
            → any (covers t) windows ≡ (
                (leb start t && ltb t end)
                && (leb range_start t && ltb t range_end)
                && not (any (covers t) breaks)))
  unfolding day_windows working_day_windows
  day_windows-covers hours range_start range_end date start end breaks d es ee eb =
      let window : BusyBlock = record {
        start = max_date start range_start;
        end = min_date end range_end;
      } in
      let (left, el, covered) =
        subtract_break_windows-covers date hours.timezone hours.break_windows (window ∷ []) breaks
          eb in
      elim (Bool-cases (ltb window.start window.end)) [
        | inl e ↦ (
          left,
          rw (d, es, ee, e, el),
          λ t. rw (covered t, clipped-covers t start end range_start range_end) (ground arith),
        )
        | inr e ↦ (
          [],
          rw (d, es, ee, e),
          λ t.
              rw (sym (clipped-covers t start end range_start range_end), empty-covers t window e)
                refl,
        )
      ]

  subtract_break_windows-inside :
      (date : LocalDate) (timezone : String) (breaks : List BreakWindow)
      (range_start range_end : Instant) (available left : List BusyBlock)
      → subtract_break_windows zones date timezone breaks available ≡ ok left
      → All (IsWindowOf range_start range_end) available
      → All (IsWindowOf range_start range_end) left
  unfolding subtract_break_windows
  subtract_break_windows-inside date timezone [] range_start range_end available left e h =
      subst (All _) (ok-injective e) h
  subtract_break_windows-inside date timezone (b ∷ breaks) range_start range_end available left e
        h =
      let (block, _, e₁) = >>=-eq-ok (break_block zones date timezone b) _ e in
      subtract_break_windows-inside date timezone breaks range_start range_end _ left e₁ (
        All-flat_map _ _ available
          (All-imp _ _ available (λ w. subtract_busy_block-inside range_start range_end w block) h))

  working_day_windows-inside :
      (hours : WorkingHours) (range_start range_end : Instant) (date : LocalDate)
      (windows : List BusyBlock)
      → working_day_windows zones hours range_start range_end date ≡ ok windows
      → All (IsWindowOf range_start range_end) windows
  unfolding working_day_windows IsWindowOf
  working_day_windows-inside hours range_start range_end date windows e =
      let (start, _, e₁) =
        >>=-eq-ok (local_time_to_utc zones date hours.start_time hours.timezone) _ e in
      let (end, _, e₂) =
        >>=-eq-ok (local_time_to_utc zones date hours.end_time hours.timezone) _ e₁ in
      let window : BusyBlock = record {
        start = max_date start range_start;
        end = min_date end range_end;
      } in
      elim (Bool-cases (ltb window.start window.end)) [
        | inl t ↦
            subtract_break_windows-inside date hours.timezone hours.break_windows range_start
              range_end (window ∷ []) windows (rw t at e₂)
              ((le-max_date start range_start, ltb→lt _ _ t, min_date-le end range_end), tt)
        | inr t ↦ subst (All _) (ok-injective (rw t at e₂)) tt
      ]

  day_windows-inside :
      (hours : WorkingHours) (range_start range_end : Instant) (date : LocalDate)
      (windows : List BusyBlock)
      → day_windows zones hours range_start range_end date ≡ ok windows
      → All (IsWindowOf range_start range_end) windows
  unfolding day_windows
  day_windows-inside hours range_start range_end date windows e =
      elim (Bool-cases (any (λ day. day == weekday date) hours.days_of_week)) [
        | inl t ↦ working_day_windows-inside hours range_start range_end date windows (rw t at e)
        | inr t ↦ subst (All _) (ok-injective (rw t at e)) tt
      ]

  days_windows-inside :
      (hours : WorkingHours) (range_start range_end : Instant) (dates : List LocalDate)
      (windows : List BusyBlock)
      → days_windows zones hours range_start range_end dates ≡ ok windows
      → All (IsWindowOf range_start range_end) windows
  unfolding days_windows
  days_windows-inside hours range_start range_end [] windows e = subst (All _) (ok-injective e) tt
  days_windows-inside hours range_start range_end (date ∷ dates) windows e =
      let (ws, day, e₁) = >>=-eq-ok (day_windows zones hours range_start range_end date) _ e in
      let (rest, days, e₂) =
        >>=-eq-ok (days_windows zones hours range_start range_end dates) _ e₁ in
      subst (All _) (ok-injective e₂) (
        All-append _ ws rest (day_windows-inside hours range_start range_end date ws day)
          (days_windows-inside hours range_start range_end dates rest days))

  -- Every window of `build_working_windows`, when it returns, lies in the range and ends after it
  -- starts.
  pub build_working_windows-inside :
      (hours : WorkingHours) (range_start range_end : Instant) (windows : List BusyBlock)
      → build_working_windows zones hours range_start range_end ≡ ok windows
      → All (IsWindowOf range_start range_end) windows
  unfolding build_working_windows
  build_working_windows-inside hours range_start range_end windows =
      days_windows-inside hours range_start range_end _ windows
