-- ===== src/Scheduler/Place.antt =====
-- src/scheduler.ts: `scheduleTask` places one task, whole or split into blocks.
pub mod Blocks
pub mod Ends
use scheduleos.Base.{
  ◌+◌, ◌-◌, ℕ, zero, suc, Bool, true, false, List, [], ◌∷◌, ◌++◌, Option, none, some, Result, ok,
  err, ◌>>=◌, leb, ltb, if◌then◌else◌, sort_by, String, decimal, join,
}
use scheduleos.Domain.{
  Instant, iso, Daypart, SchedulingTask, Scope, TimeBlock, BlockStatus, Timestamp,
}
use scheduleos.Scheduler.Dates.{Error, diverges, parse_optional, parse_iso, max_date, min_date}
use scheduleos.Scheduler.Slots.{BusyBlock, compare_busy_blocks, find_slot}

unfoldable pub time_block_to_busy_block : TimeBlock → Result Error BusyBlock
time_block_to_busy_block block = do
  start ← parse_iso block.start "block.start"
  end ← parse_iso block.end "block.end"
  ok (record { start = start; end = end })

-- `input` gives the new block its scope.
unfoldable pub to_time_block : SchedulingTask → Scope → Instant → Instant → ℕ → TimeBlock
to_time_block task input start end sequence = record {
  id = join ("block_" ∷ task.id ∷ "_" ∷ decimal sequence ∷ []);
  task_id = task.id;
  scope = input;
  start = iso start;
  end = iso end;
  status = BlockStatus.proposed;
  locked = false;
}

abbrev min : ℕ → ℕ → ℕ
min a b = if ltb b a then b else a

abbrev max : ℕ → ℕ → ℕ
max a b = if ltb a b then b else a

-- `x ?? fallback`
abbrev or_else : Option ℕ → ℕ → ℕ
or_else none fallback = fallback
or_else (some x) fallback = x

-- The three limits on the length of a block, with their defaults.
pub record BlockLimits : Type 0 where
  pub minimum : ℕ
  pub maximum : ℕ
  pub preferred : ℕ

unfoldable pub block_limits : SchedulingTask → BlockLimits
block_limits task =
    let remaining = task.remaining_duration_minutes in
    let maximum = or_else task.maximum_block_minutes remaining in
    record {
      minimum = or_else task.minimum_block_minutes (min 30 remaining);
      maximum = maximum;
      preferred = or_else task.preferred_block_minutes maximum;
    }

unfoldable pub requested_duration : BlockLimits → ℕ → ℕ
requested_duration limits remaining =
    let duration = min (min limits.maximum limits.preferred) remaining in
    if leb remaining limits.minimum then remaining else max duration limits.minimum

-- One call of `scheduleTask`, its dates read: `none` is the source's `null`.
pub record PlaceInput : Type 0 where
  pub task : SchedulingTask
  pub input : Scope
  pub working_windows : List BusyBlock
  pub earliest : Instant
  pub latest : Instant

-- The blocks of a loop that went on after one more.
abbrev prepend :
    TimeBlock → Result Error (Option (List TimeBlock)) → Result Error (Option (List TimeBlock))
prepend block (ok (some blocks)) = ok (some (block ∷ blocks))
prepend block r = r

module _ (p : PlaceInput) (limits : BlockLimits) where
  -- `while (remaining > 0)`, on fuel. `busy` is `tentativeBusyBlocks` and `sequence` the number of
  -- the next block.
  pub split_loop : ℕ → ℕ → List BusyBlock → ℕ → Result Error (Option (List TimeBlock))
  unfolding requested_duration
  split_loop fuel zero busy sequence = ok (some [])
  split_loop zero (suc r) busy sequence = err diverges
  split_loop (suc fuel) (suc r) busy sequence =
      let requested = requested_duration limits (suc r) in
      elim (find_slot p.working_windows busy requested p.earliest p.latest
        p.task.preferred_dayparts) [
          | none ↦ ok none
          | some slot ↦ prepend (to_time_block p.task p.input slot.start slot.end sequence) (
              split_loop fuel (suc r - requested) (sort_by compare_busy_blocks (busy ++ slot ∷ []))
                (sequence + 1))
        ]

-- The body of `scheduleTask` behind the reading of the dates.
pub place_task : PlaceInput → List BusyBlock → Result Error (Option (List TimeBlock))
unfolding split_loop block_limits
place_task p sorted_busy =
    let remaining = p.task.remaining_duration_minutes in
    let split = split_loop p (block_limits p.task) remaining remaining sorted_busy 1 in
    let whole =
      find_slot p.working_windows sorted_busy remaining p.earliest p.latest
        p.task.preferred_dayparts in
    if leb p.latest p.earliest then ok none else if p.task.splittable then split else elim whole [
      | none ↦ ok none
      | some slot ↦ ok (some (to_time_block p.task p.input slot.start slot.end 1 ∷ []))
    ]

abbrev pub from_range : Option Instant → Instant → Instant
from_range none range_start = range_start
from_range (some t) range_start = max_date t range_start

abbrev pub to_range : Option Instant → Instant → Instant
to_range none range_end = range_end
to_range (some t) range_end = min_date t range_end

abbrev pub place_input :
    SchedulingTask
    → Scope
    → List BusyBlock
    → Option Instant
    → Option Instant
    → Instant
    → Instant
    → PlaceInput
place_input task input working_windows earliest deadline range_start range_end = record {
  task = task;
  input = input;
  working_windows = working_windows;
  earliest = from_range earliest range_start;
  latest = to_range deadline range_end;
}

unfoldable pub schedule_task :
    SchedulingTask
    → Scope
    → List BusyBlock
    → List BusyBlock
    → Instant
    → Instant
    → Result Error (Option (List TimeBlock))
unfolding place_task
schedule_task task input working_windows busy_blocks range_start range_end = do
  earliest ← parse_optional task.earliest_start "task.earliestStart"
  deadline ← parse_optional task.deadline "task.deadline"
  place_task (place_input task input working_windows earliest deadline range_start range_end)
      (sort_by compare_busy_blocks busy_blocks)
