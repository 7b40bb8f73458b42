-- ===== src/Scheduler/Capacity.antt =====
-- src/scheduler.ts: the time that is left free, and why a task with a deadline did not fit.
pub mod Free
use scheduleos.Base.{
  ◌+◌, ◌-◌, ◌*◌, ℕ, List, [], ◌∷◌, map, Option, none, some, Result, ok, ◌>>=◌, leb, ltb, ◌||◌,
  if◌then◌else◌, sort_by, filter,
}
use scheduleos.Domain.{Instant, SchedulingTask, Reason}
use scheduleos.Scheduler.Dates.{Error, minute_ms, min_date, parse_iso}
use scheduleos.Scheduler.Slots.{BusyBlock, compare_busy_blocks}

-- The inner loop over the sorted busy blocks, and what follows it for the window.
sweep_free : Instant → Instant → List BusyBlock → ℕ
sweep_free window_end cursor [] = if ltb cursor window_end then window_end - cursor else 0
sweep_free window_end cursor (busy ∷ rest) =
    let skipped = sweep_free window_end cursor rest in
    let gap = if ltb cursor busy.start then busy.start - cursor else 0 in
    let counted =
      gap + sweep_free window_end (if ltb cursor busy.end then busy.end else cursor) rest in
    if leb busy.end cursor || leb window_end busy.start then skipped else counted

-- `calculateAvailableMinutes` in milliseconds: the source divides each gap by 60,000.
unfoldable pub calculate_available_ms : List BusyBlock → List BusyBlock → ℕ
unfolding sweep_free sort_by
calculate_available_ms [] busy_blocks = 0
calculate_available_ms (window ∷ windows) busy_blocks =
    sweep_free window.end window.start (sort_by compare_busy_blocks busy_blocks)
    + calculate_available_ms windows busy_blocks

abbrev until : Instant → BusyBlock → BusyBlock
until deadline window = record { start = window.start; end = min_date window.end deadline }

unfoldable pub classify_deadline_failure :
    SchedulingTask → List BusyBlock → List BusyBlock → Result Error Reason
unfolding calculate_available_ms
classify_deadline_failure task working_windows busy_blocks = elim task.deadline [
  | none ↦ ok Reason.no_contiguous_slot
  | some text ↦ do
    deadline ← parse_iso text "task.deadline"
    let before_deadline =
        calculate_available_ms
          (filter (λ (window : BusyBlock). ltb window.start window.end)
            (map (until deadline) working_windows))
          busy_blocks
    ok (
        if ltb before_deadline (task.remaining_duration_minutes * minute_ms)
        then Reason.deadline_at_risk
        else Reason.no_contiguous_slot)
]
