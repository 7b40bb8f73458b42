-- ===== src/Scheduler/Plan/Step.antt =====
-- src/scheduler.ts: the loop of `createSchedule` and the conflicts between blocks.
use scheduleos.Base.{
  ◌<◌, ◌≤◌, ◌≡◌, ◌≢◌, sym, ◌∙◌, subst, ap, inl, inr, true, false, not, List, [], ◌∷◌, ◌++◌, Option,
  none, some, Result, ok, >>=-eq-ok, ok-injective, arith, sort_by, String, str_eq, eq_iff, traverse,
  traverse-All, All, Any, All-imp, All-append, All-append_left, All-append_right, All-of_sort_by,
  All-of_filter, All-both, All-swap, Pairwise, Pairwise-append, Option-cases,
}
use mathlib.Core.Option.{some-injective}
use mathlib.Core.List.{append_assoc}
use scheduleos.Domain.{Instant, iso, Timestamp, SchedulingTask, TimeBlock, BlockStatus, Reason}
use scheduleos.Scheduler.Dates.{
  Error, parse_optional, min_date-le_left, min_date-le_right, max_date-le_left, max_date-le_right,
}
use scheduleos.Scheduler.Slots.{BusyBlock, Disjoint, compare_busy_blocks}
use scheduleos.Scheduler.Place.{
  PlaceInput, from_range, to_range, time_block_to_busy_block, schedule_task, place_input,
}
use scheduleos.Scheduler.Capacity.{classify_deadline_failure}
use scheduleos.Scheduler.Place.Blocks.{span, IsBlockOf}
use scheduleos.Scheduler.Place.Ends.{Scheduled, schedule_task-Scheduled}
use scheduleos.Scheduler.Plan.{
  Progress, PlanContext, get_invalid_reason, other_blocks, reject, accept, give_up, plan_valid_task,
  plan_task, plan_tasks,
}

-- A block that the plan gives to a task of the input: the task passes the validity checks, the
-- block lies in a working window, in the range and within the task's own dates, and overlaps no
-- fixed busy block.
pub record IsPlanned (tasks : List SchedulingTask) (ctx : PlanContext) (b : TimeBlock)
    : Type 0 where
  pub task : SchedulingTask
  pub listed : Any (λ t. t ≡ task) tasks
  pub valid : get_invalid_reason task ctx.scope ≡ none
  pub task_id : b.task_id ≡ task.id
  pub scope : b.scope ≡ ctx.scope
  pub status : b.status ≡ BlockStatus.proposed
  pub unlocked : b.locked ≡ false
  pub reads : time_block_to_busy_block b ≡ ok (span b)
  pub inside : Any (λ w. (w.start ≤ (span b).start) × (span b).end ≤ w.end) ctx.working_windows
  pub from : ctx.range_start ≤ (span b).start
  pub to : (span b).end ≤ ctx.range_end
  pub after_earliest : (t : Instant) → task.earliest_start ≡ some (iso t) → t ≤ (span b).start
  pub before_deadline : (t : Instant) → task.deadline ≡ some (iso t) → (span b).end ≤ t
  pub free : All (Disjoint (span b)) ctx.fixed_busy

abbrev pub Apart : TimeBlock → TimeBlock → Type 0
Apart a b = Disjoint (span a) (span b)

-- The block is of none of these tasks.
abbrev pub Other : List SchedulingTask → TimeBlock → Type 0
Other tasks b = All (λ (t : SchedulingTask). b.task_id ≢ t.id) tasks

-- The blocks so far: the locked ones, and those of the tasks planned so far, which do not overlap.
pub record IsConsistent (tasks : List SchedulingTask) (ctx : PlanContext) (locked : List TimeBlock)
    (rest : List SchedulingTask) (p : Progress) : Type 0 where
  pub placed : List TimeBlock
  pub split : p.blocks ≡ locked ++ placed
  pub planned : All (IsPlanned tasks ctx) placed
  pub apart : Pairwise Apart placed
  pub others : All (Other rest) placed

le-from_range : (o : Option Instant) (t : Instant) → t ≤ from_range o t
le-from_range none t = omega arith
le-from_range (some s) t = max_date-le_right s t

to_range-le : (o : Option Instant) (t : Instant) → to_range o t ≤ t
to_range-le none t = omega arith
to_range-le (some s) t = min_date-le_right s t

from_range-some : (t : Instant) (o : Option Instant) (u : Instant) → o ≡ some t → t ≤ from_range o u
from_range-some t none u e = cc
from_range-some t (some s) u e = omega (arith, max_date-le_left s u, some-injective _ _ e)

to_range-some : (t : Instant) (o : Option Instant) (u : Instant) → o ≡ some t → to_range o u ≤ t
to_range-some t none u e = cc
to_range-some t (some s) u e = omega (arith, min_date-le_left s u, some-injective _ _ e)

read_some :
    (t : Instant) {text : Option Timestamp} (o : Option Instant) (field : String)
    → text ≡ some (iso t)
    → parse_optional text field ≡ ok o
    → o ≡ some t
read_some t o field e h = ok-injective (sym (rw e at h))

module _ (tasks : List SchedulingTask) (ctx : PlanContext) (task : SchedulingTask)
    (listed : Any (λ t. t ≡ task) tasks) (valid : get_invalid_reason task ctx.scope ≡ none) where
  remaining_positive : 0 < task.remaining_duration_minutes
  unfolding get_invalid_reason
  remaining_positive = ground arith

  module _ (others : List TimeBlock) (busy : List BusyBlock) (blocks : List TimeBlock)
      (read : traverse time_block_to_busy_block others ≡ ok busy)
      (found : Scheduled task ctx.scope ctx.working_windows
        (ctx.fixed_busy ++ busy)
        ctx.range_start
        ctx.range_end
        blocks) where
    abbrev place : PlaceInput
    place =
        place_input task ctx.scope ctx.working_windows found.earliest found.deadline ctx.range_start
          ctx.range_end

    -- The sorted busy blocks of the call, taken apart again.
    free_of :
        (b : TimeBlock)
        → IsBlockOf place (sort_by compare_busy_blocks (ctx.fixed_busy ++ busy)) b
        → All (Disjoint (span b)) (ctx.fixed_busy ++ busy)
    free_of b k =
        All-of_sort_by (Disjoint (span b)) compare_busy_blocks (ctx.fixed_busy ++ busy) k.free

    IsBlockOf-IsPlanned :
        (b : TimeBlock)
        → IsBlockOf place (sort_by compare_busy_blocks (ctx.fixed_busy ++ busy)) b
        → IsPlanned tasks ctx b
    IsBlockOf-IsPlanned b k = record {
      task = task;
      listed = listed;
      valid = valid;
      task_id = k.task_id;
      scope = k.scope;
      status = k.status;
      unlocked = k.unlocked;
      reads = k.reads;
      inside = k.inside;
      from = omega (arith, le-from_range found.earliest ctx.range_start, k.after);
      to = omega (arith, to_range-le found.deadline ctx.range_end, k.before);
      after_earliest = λ t e. omega (
        arith,
        k.after,
        from_range-some t found.earliest ctx.range_start
            (read_some t found.earliest "task.earliestStart" e found.earliest_read),
      );
      before_deadline = λ t e. omega (
        arith,
        k.before,
        to_range-some t found.deadline ctx.range_end
            (read_some t found.deadline "task.deadline" e found.deadline_read),
      );
      free = All-append_left (Disjoint (span b)) ctx.fixed_busy busy (free_of b k);
    }

    -- A new block overlaps none of the other tasks' blocks.
    Apart-of :
        (b : TimeBlock)
        → IsBlockOf place (sort_by compare_busy_blocks (ctx.fixed_busy ++ busy)) b
        → All (λ c. time_block_to_busy_block c ≡ ok (span c) → Apart b c) others
    Apart-of b k =
        All-imp (λ c. (s : BusyBlock) → time_block_to_busy_block c ≡ ok s → Disjoint (span b) s)
          (λ c. time_block_to_busy_block c ≡ ok (span c) → Apart b c) others (λ c h. h (span c))
          (traverse-All time_block_to_busy_block (Disjoint (span b)) others read
            (All-append_right (Disjoint (span b)) ctx.fixed_busy busy (free_of b k)))

Apart-sym : (a b : TimeBlock) → Apart a b → Apart b a
Apart-sym a b (inl h) = inr h
Apart-sym a b (inr h) = inl h

module _ (tasks : List SchedulingTask) (ctx : PlanContext) (locked : List TimeBlock)
    (task : SchedulingTask) (rest : List SchedulingTask) (listed : Any (λ t. t ≡ task) tasks)
    (distinct : All (λ (t : SchedulingTask). task.id ≢ t.id) rest) where
  -- To push to the other lists changes nothing here.
  IsConsistent-skip :
      (p p' : Progress)
      → p'.blocks ≡ p.blocks
      → IsConsistent tasks ctx locked (task ∷ rest) p
      → IsConsistent tasks ctx locked rest p'
  IsConsistent-skip p p' e h = record {
    placed = h.placed;
    split = e ∙ h.split;
    planned = h.planned;
    apart = h.apart;
    others = All-imp (Other (task ∷ rest)) (Other rest) h.placed (λ b k. k.1) h.others;
  }

  module _ (p : Progress) (h : IsConsistent tasks ctx locked (task ∷ rest) p)
      (valid : get_invalid_reason task ctx.scope ≡ none) (busy : List BusyBlock)
      (blocks : List TimeBlock)
      (read : traverse time_block_to_busy_block (other_blocks ctx task p) ≡ ok busy)
      (found : Scheduled task ctx.scope ctx.working_windows
        (ctx.fixed_busy ++ busy)
        ctx.range_start
        ctx.range_end
        blocks) where
    abbrev New : TimeBlock → Type 0
    New =
        IsBlockOf
          (place_input task ctx.scope ctx.working_windows found.earliest found.deadline
            ctx.range_start ctx.range_end)
          (sort_by compare_busy_blocks (ctx.fixed_busy ++ busy))

    abbrev Met : TimeBlock → TimeBlock → Type 0
    Met b c =
        not (str_eq c.task_id task.id) ≡ true → time_block_to_busy_block c ≡ ok (span c) → Apart b c

    -- A new block overlaps no block that was placed before.
    Apart-of_placed : (b : TimeBlock) → New b → All (λ c. Apart c b) h.placed
    unfolding other_blocks
    Apart-of_placed b k =
        let against =
          All-of_filter (λ c. time_block_to_busy_block c ≡ ok (span c) → Apart b c)
            (λ c. not (str_eq c.task_id task.id)) p.blocks
            (Apart-of tasks ctx task listed valid (other_blocks ctx task p) busy blocks read found b
              k) in
        let on_placed =
          All-append_right (Met b) locked h.placed (subst (All (Met b)) h.split against) in
        All-imp (λ c. Met b c × (IsPlanned tasks ctx c × Other (task ∷ rest) c)) (λ c. Apart c b)
          h.placed
          (λ c (met, (planned, other)). Apart-sym b c (met (not-same c other) planned.reads))
          (All-both (Met b) (λ c. IsPlanned tasks ctx c × Other (task ∷ rest) c) h.placed on_placed
            (All-both (IsPlanned tasks ctx) (Other (task ∷ rest)) h.placed h.planned h.others))
      where
        not-same : (c : TimeBlock) → Other (task ∷ rest) c → not (str_eq c.task_id task.id) ≡ true
        not-same c other = ground (arith, eq_iff c.task_id task.id, other.0)

    IsConsistent-accept : IsConsistent tasks ctx locked rest (accept ctx task blocks p)
    unfolding accept
    IsConsistent-accept = record {
      placed = h.placed ++ blocks;
      split = rw h.split (append_assoc locked h.placed blocks);
      planned = All-append (IsPlanned tasks ctx) h.placed blocks h.planned (
          All-imp New (IsPlanned tasks ctx) blocks
            (IsBlockOf-IsPlanned tasks ctx task listed valid (other_blocks ctx task p) busy blocks
              read found)
            found.placement.each);
      apart = Pairwise-append Apart h.placed blocks h.apart found.placement.apart (
          All-swap Apart blocks h.placed (
            All-imp New (λ b. All (λ c. Apart c b) h.placed) blocks Apart-of_placed
              found.placement.each));
      others =
          All-append (Other rest) h.placed blocks
            (All-imp (Other (task ∷ rest)) (Other rest) h.placed (λ b k. k.1) h.others)
            (All-imp New (Other rest) blocks
              (λ b k.
                All-imp (λ (t : SchedulingTask). task.id ≢ t.id)
                  (λ (t : SchedulingTask). b.task_id ≢ t.id) rest
                  (λ t ne same. ne (sym k.task_id ∙ same)) distinct)
              found.placement.each);
    }

  give_up-blocks : (p p' : Progress) → give_up ctx task p ≡ ok p' → p'.blocks ≡ p.blocks
  unfolding give_up
  give_up-blocks p p' e =
      let (busy, read, e₁) = >>=-eq-ok (traverse time_block_to_busy_block p.blocks) _ e in
      let (reason, classified, e₂) =
        >>=-eq-ok (classify_deadline_failure task ctx.working_windows (ctx.fixed_busy ++ busy)) _
          e₁ in
      ap (λ (q : Progress). q.blocks) (sym (ok-injective e₂))

  plan_valid_task-IsConsistent :
      (p p' : Progress)
      → get_invalid_reason task ctx.scope ≡ none
      → IsConsistent tasks ctx locked (task ∷ rest) p
      → plan_valid_task ctx task p ≡ ok p'
      → IsConsistent tasks ctx locked rest p'
  unfolding plan_valid_task
  plan_valid_task-IsConsistent p p' valid h e =
      let (busy, read, e₁) =
        >>=-eq-ok (traverse time_block_to_busy_block (other_blocks ctx task p)) _ e in
      let (found, called, e₂) =
        >>=-eq-ok
          (schedule_task task ctx.scope ctx.working_windows (ctx.fixed_busy ++ busy) ctx.range_start
            ctx.range_end)
          _ e₁ in
      go busy read found called e₂
    where
      go :
          (busy : List BusyBlock)
          → traverse time_block_to_busy_block (other_blocks ctx task p) ≡ ok busy
          → (found : Option (List TimeBlock))
          → schedule_task task ctx.scope ctx.working_windows
              (ctx.fixed_busy ++ busy)
              ctx.range_start
              ctx.range_end
            ≡ ok found
          → (elim found [
            | none ↦ give_up ctx task p
            | some task_blocks ↦ ok (accept ctx task task_blocks p)
          ])
            ≡ ok p'
          → IsConsistent tasks ctx locked rest p'
      go busy read none called e = IsConsistent-skip p p' (give_up-blocks p p' e) h
      go busy read (some blocks) called e =
          subst (IsConsistent tasks ctx locked rest) (ok-injective e) (
            IsConsistent-accept p h valid busy blocks read (
              schedule_task-Scheduled task ctx.scope ctx.working_windows (ctx.fixed_busy ++ busy)
                ctx.range_start ctx.range_end blocks
                (remaining_positive tasks ctx task listed valid) called))

  reject-blocks :
      (p p' : Progress) (reason : Reason)
      → ◌≡◌ {A = Result Error Progress} (ok (reject ctx task reason p)) (ok p')
      → p'.blocks ≡ p.blocks
  unfolding reject
  reject-blocks p p' reason e = ap (λ (q : Progress). q.blocks) (sym (ok-injective e))

  plan_task-IsConsistent :
      (p p' : Progress)
      → IsConsistent tasks ctx locked (task ∷ rest) p
      → plan_task ctx task p ≡ ok p'
      → IsConsistent tasks ctx locked rest p'
  unfolding plan_task
  plan_task-IsConsistent p p' h e = elim (Option-cases (get_invalid_reason task ctx.scope)) [
    | inl valid ↦ plan_valid_task-IsConsistent p p' valid h (rw (valid, plan_task) at e)
    | inr (reason, invalid) ↦
        IsConsistent-skip p p' (reject-blocks p p' reason (rw (invalid, plan_task) at e)) h
  ]

-- The loop over tasks of the input whose ids differ.
pub plan_tasks-IsConsistent :
    (tasks : List SchedulingTask) (ctx : PlanContext) (locked : List TimeBlock)
    (ordered : List SchedulingTask) (p p' : Progress)
    → All (λ task. Any (λ t. t ≡ task) tasks) ordered
    → Pairwise (λ (a b : SchedulingTask). a.id ≢ b.id) ordered
    → IsConsistent tasks ctx locked ordered p
    → plan_tasks ctx ordered p ≡ ok p'
    → IsConsistent tasks ctx locked [] p'
unfolding plan_tasks
plan_tasks-IsConsistent tasks ctx locked [] p p' listed distinct h e =
    subst (IsConsistent tasks ctx locked []) (ok-injective e) h
plan_tasks-IsConsistent tasks ctx locked (task ∷ rest) p p' listed distinct h e =
    let (q, went, e₁) = >>=-eq-ok (plan_task ctx task p) (plan_tasks ctx rest) e in
    plan_tasks-IsConsistent tasks ctx locked rest q p' listed.1 distinct.1
      (plan_task-IsConsistent tasks ctx locked task rest listed.0 distinct.0 p q h went) e₁
