-- ===== src/Scheduler/Place/Ends.antt =====
-- src/scheduler.ts: when the loop of `scheduleTask` ends, and what a call of it returns.
use scheduleos.Base.{
  ◌+◌, ◌-◌, ◌≤◌, ◌<◌, ℕ, zero, suc, ◌≡◌, refl, ◌⊎◌, inl, inr, List, [], ◌∷◌, ◌++◌, Option, none,
  some, Result, ok, err, arith, leb, ltb, sort_by, Option-cases, subst, ◌≢◌, Bool-cases, >>=-eq-ok,
}
use native.Mathlib.Nat.{le_refl}
use scheduleos.Domain.{Instant, Scope, TimeBlock, SchedulingTask}
use scheduleos.Scheduler.Dates.{Error, parse_optional}
use scheduleos.Scheduler.Slots.{BusyBlock, compare_busy_blocks}
use scheduleos.Scheduler.Slots.Sorted.{IsSorted, sort_busy_blocks-IsSorted}
use scheduleos.Scheduler.Slots.Sound.{find_slot-IsPlaced}
use scheduleos.Scheduler.Place.{
  BlockLimits, requested_duration, PlaceInput, split_loop, place_task, prepend, to_time_block,
  block_limits, place_input, schedule_task,
}
use scheduleos.Scheduler.Place.Blocks.{
  CanProgress, slot_for, requested_duration-positive, split_loop-Round, split_loop-Placement,
  Placement, IsPlaced-IsBlockOf, total_ms,
}

-- Where a round can ask for nothing, it asks for nothing whatever remains.
CanProgress-cases : (l : BlockLimits) → CanProgress l ⊎ ((r : ℕ) → requested_duration l (suc r) ≡ 0)
unfolding requested_duration
CanProgress-cases l = elim (Bool-cases (ltb 0 l.minimum)) [
  | inl e ↦ inl (inl (ground arith))
  | inr e ↦ elim (Bool-cases (ltb 0 l.maximum)) [
    | inr f ↦ inr (λ r. ground arith)
    | inl f ↦ elim (Bool-cases (ltb 0 l.preferred)) [
      | inr g ↦ inr (λ r. ground arith)
      | inl g ↦ inl (inr (ground arith, ground arith))
    ]
  ]
]

prepend_total :
    (block : TimeBlock) (r : Result Error (Option (List TimeBlock)))
    → ((o : Option (List TimeBlock)) × (r ≡ ok o))
    → (o : Option (List TimeBlock)) × (prepend block r ≡ ok o)
prepend_total block (ok none) h = (none, refl)
prepend_total block (ok (some bs)) h = (some (block ∷ bs), refl)
prepend_total block (err e) (o, h) = cc

module _ (p : PlaceInput) (l : BlockLimits) where
  -- With progress, as much fuel as minutes remain is enough: the loop ends.
  split_loop_total :
      (progress : CanProgress l) (fuel remaining : ℕ) (busy : List BusyBlock) (sequence : ℕ)
      → remaining ≤ fuel
      → (o : Option (List TimeBlock)) × (split_loop p l fuel remaining busy sequence ≡ ok o)
  unfolding split_loop
  split_loop_total progress fuel zero busy sequence h = (some [], refl)
  split_loop_total progress zero (suc r) busy sequence h = absurd (omega arith)
  split_loop_total progress (suc fuel) (suc r) busy sequence h =
      let requested = requested_duration l (suc r) in
      let positive = requested_duration-positive l (suc r) progress (omega arith) in
      elim (Option-cases (slot_for p l busy requested)) [
        | inl e ↦ (none, rw (e, split_loop))
        | inr (slot, e) ↦
            let (o, ends) =
              prepend_total (to_time_block p.task p.input slot.start slot.end sequence) _ (
                split_loop_total progress fuel (suc r - requested)
                  (sort_by compare_busy_blocks (busy ++ slot ∷ [])) (sequence + 1) (omega arith)) in
            (o, rw (e, split_loop) ends)
      ]

  -- Where each round asks for nothing, no number of rounds places the task.
  pub split_loop-stuck :
      ((r : ℕ) → requested_duration l (suc r) ≡ 0)
      → (fuel r : ℕ) (busy : List BusyBlock) (sequence : ℕ) (blocks : List TimeBlock)
      → split_loop p l fuel (suc r) busy sequence ≢ ok (some blocks)
  unfolding split_loop
  split_loop-stuck idle zero r busy sequence blocks h = cc
  split_loop-stuck idle (suc fuel) r busy sequence blocks h =
      let round = split_loop-Round p l fuel r busy sequence blocks h in
      split_loop-stuck idle fuel r (sort_by compare_busy_blocks (busy ++ round.slot ∷ []))
        (sequence + 1) round.rest
        (rw (same (requested_duration l (suc r)) (idle r)) at round.went_on)
    where
      same : (n : ℕ) → n ≡ 0 → suc r - n ≡ suc r
      same n e = omega arith

place_task_total :
    (p : PlaceInput) (busy : List BusyBlock)
    → CanProgress (block_limits p.task)
    → (o : Option (List TimeBlock)) × (place_task p busy ≡ ok o)
unfolding place_task
place_task_total p busy progress =
    let minutes = p.task.remaining_duration_minutes in
    let split =
      split_loop_total p (block_limits p.task) progress minutes minutes busy 1 (le_refl _) in
    elim (Bool-cases (leb p.latest p.earliest)) [
      | inl e ↦ (none, ground arith)
      | inr e ↦ elim (Bool-cases p.task.splittable) [
        | inl f ↦ (split.0, ground (arith, split.1))
        | inr f ↦ elim (Option-cases (slot_for p (block_limits p.task) busy minutes)) [
          | inl g ↦ (none, ground arith)
          | inr (slot, g) ↦
              (some (to_time_block p.task p.input slot.start slot.end 1 ∷ []), ground arith)
        ]
      ]
    ]

module _ (p : PlaceInput) (busy : List BusyBlock) (sorted : IsSorted busy)
    (positive : 0 < p.task.remaining_duration_minutes) where
  split-Placement :
      (fuel minutes sequence : ℕ) (blocks : List TimeBlock)
      → 0 < minutes
      → split_loop p (block_limits p.task) fuel minutes busy sequence ≡ ok (some blocks)
      → Placement p busy minutes blocks
  split-Placement fuel zero sequence blocks h e = absurd (omega arith)
  split-Placement fuel (suc r) sequence blocks h e =
      elim (CanProgress-cases (block_limits p.task)) [
        | inl progress ↦
            split_loop-Placement p (block_limits p.task) progress fuel (suc r) busy sequence blocks
              sorted e
        | inr idle ↦
            absurd (split_loop-stuck p (block_limits p.task) idle fuel r busy sequence blocks e)
      ]

  whole-Placement :
      (slot : BusyBlock)
      → slot_for p (block_limits p.task) busy p.task.remaining_duration_minutes ≡ some slot
      → Placement p busy p.task.remaining_duration_minutes
          (to_time_block p.task p.input slot.start slot.end 1 ∷ [])
  unfolding to_time_block total_ms
  whole-Placement slot g =
      let minutes = p.task.remaining_duration_minutes in
      let placed =
        find_slot-IsPlaced p.working_windows busy minutes p.earliest p.latest
          p.task.preferred_dayparts slot sorted positive g in
      record {
        each = (IsPlaced-IsBlockOf p (block_limits p.task) busy _ 1 slot placed, tt);
        apart = (tt, tt);
        total = omega (arith, placed.long);
      }

  place_task-Placement :
      (blocks : List TimeBlock)
      → place_task p busy ≡ ok (some blocks)
      → Placement p busy p.task.remaining_duration_minutes blocks
  unfolding place_task
  place_task-Placement blocks h =
      let minutes = p.task.remaining_duration_minutes in
      elim (Bool-cases (leb p.latest p.earliest)) [
        | inl e ↦ absurd (ground arith)
        | inr e ↦ elim (Bool-cases p.task.splittable) [
          | inl f ↦ split-Placement minutes minutes 1 blocks positive (ground arith)
          | inr f ↦ elim (Option-cases (slot_for p (block_limits p.task) busy minutes)) [
            | inl g ↦ absurd (ground arith)
            | inr (slot, g) ↦
                subst (Placement p busy minutes) (ground arith) (whole-Placement slot g)
          ]
        ]
      ]

-- A successful call of `scheduleTask`: the dates that it read, and where its blocks lie.
pub record Scheduled (task : SchedulingTask) (input : Scope) (windows busy : List BusyBlock)
    (range_start range_end : Instant) (blocks : List TimeBlock) : Type 0 where
  pub earliest : Option Instant
  pub deadline : Option Instant
  pub earliest_read : parse_optional task.earliest_start "task.earliestStart" ≡ ok earliest
  pub deadline_read : parse_optional task.deadline "task.deadline" ≡ ok deadline
  pub placement :
      Placement
        (place_input task input windows earliest deadline range_start range_end)
        (sort_by compare_busy_blocks busy)
        task.remaining_duration_minutes
        blocks

module _ (task : SchedulingTask) (input : Scope) (windows busy : List BusyBlock)
    (range_start range_end : Instant) where
  -- The blocks that `scheduleTask` returns for a task with time remaining: each lies in a working
  -- window, between the range's start or a later earliest start and the range's end or an earlier
  -- deadline, and overlaps no busy block and no other of them; together they take exactly the
  -- remaining time; and each is an unlocked proposal for the task, in the scope of the input.
  pub schedule_task-Scheduled :
      (blocks : List TimeBlock)
      → 0 < task.remaining_duration_minutes
      → schedule_task task input windows busy range_start range_end ≡ ok (some blocks)
      → Scheduled task input windows busy range_start range_end blocks
  unfolding schedule_task
  schedule_task-Scheduled blocks positive h =
      let (earliest, earliest_read, h₁) =
        >>=-eq-ok (parse_optional task.earliest_start "task.earliestStart") _ h in
      let (deadline, deadline_read, h₂) =
        >>=-eq-ok (parse_optional task.deadline "task.deadline") _ h₁ in
      record {
        earliest = earliest;
        deadline = deadline;
        earliest_read = earliest_read;
        deadline_read = deadline_read;
        placement =
            place_task-Placement
              (place_input task input windows earliest deadline range_start range_end)
              (sort_by compare_busy_blocks busy) (sort_busy_blocks-IsSorted busy) positive blocks
              h₂;
      }

  -- With well-formed dates, and unless the limits on a splittable task's blocks let a round ask for
  -- no time, `scheduleTask` returns: blocks, or `null`.
  pub schedule_task_total :
      {earliest deadline : Option Instant}
      → parse_optional task.earliest_start "task.earliestStart" ≡ ok earliest
      → parse_optional task.deadline "task.deadline" ≡ ok deadline
      → CanProgress (block_limits task)
      → (o : Option (List TimeBlock)) × (schedule_task task input windows busy range_start range_end
          ≡ ok o)
  unfolding schedule_task
  schedule_task_total {earliest} {deadline} e d progress =
      let p = place_input task input windows earliest deadline range_start range_end in
      let sorted = sort_by compare_busy_blocks busy in
      rw (e, d, schedule_task) (place_task_total p sorted progress)
