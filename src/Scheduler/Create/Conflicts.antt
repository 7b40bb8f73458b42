-- ===== src/Scheduler/Create/Conflicts.antt =====
-- src/scheduler.ts: the plan of `createSchedule` and conflicts between its blocks.
use scheduleos.Base.{
  ◌≡◌, refl, sym, ◌∙◌, subst, ap, inl, inr, List, [], ◌∷◌, ◌++◌, Option, none, some, ok, ◌>>=◌,
  >>=-eq-ok, ok-injective, arith, sort_by, filter, traverse, traverse-All, All, Any, All-imp,
  All-append_left, All-append_right, All-of_sort_by, All-both, Pairwise, Permᴰ, sort_by_throwing,
  sort_by_throwing-perm,
}
use mathlib.Core.List.{append-nil}
use scheduleos.Domain.{SchedulingTask, TimeBlock, CalendarEvent, SchedulePlan}
use scheduleos.Scheduler.Dates.{parse_iso}
use scheduleos.Scheduler.Slots.{BusyBlock, Disjoint, compare_busy_blocks}
use scheduleos.Scheduler.Place.{time_block_to_busy_block}
use scheduleos.Scheduler.Place.Blocks.{span}
use scheduleos.Scheduler.Order.{order_tasks_for_scheduling}
use scheduleos.Scheduler.Order.Distinct.{order_tasks-IsOrdering}
use scheduleos.Scheduler.Windows.{TimeZones, build_working_windows}
use scheduleos.Scheduler.Plan.{Progress, PlanContext, plan_tasks}
use scheduleos.Scheduler.Plan.Step.{IsPlanned, Apart, plan_tasks-IsConsistent}
use scheduleos.Scheduler.Create.{
  CreateScheduleInput, Start, is_locked_block, event_to_busy_block, events_to_busy_blocks,
  start_schedule, first_progress, compare_block_starts, final_warnings, or_diverges, finish,
  create_schedule,
}

abbrev locked_blocks : CreateScheduleInput → List TimeBlock
locked_blocks input = filter is_locked_block input.existing_blocks

-- The block overlaps nothing that the event makes busy.
abbrev pub ClearOf : TimeBlock → CalendarEvent → Type 0
ClearOf b event =
    (busy : List BusyBlock) → event_to_busy_block event ≡ ok busy → All (Disjoint (span b)) busy

-- The blocks of the plan: the locked ones of the input, and new ones that overlap no locked block,
-- no busy time of an event and no other new block.
pub record HasNoConflicts (zones : TimeZones) (input : CreateScheduleInput) (plan : SchedulePlan)
    : Type 0 where
  pub start : Start
  pub started : start_schedule zones input ≡ ok start
  pub placed : List TimeBlock
  pub same : Permᴰ (filter is_locked_block input.existing_blocks ++ placed) plan.blocks
  pub planned : All (IsPlanned input.tasks start.context) placed
  pub apart : Pairwise Apart placed
  pub clear_of_locked :
      All (λ b. All (Apart b) (filter is_locked_block input.existing_blocks)) placed
  pub clear_of_events : All (λ b. All (ClearOf b) input.calendar_events) placed

busy_block-span : (c : TimeBlock) (s : BusyBlock) → time_block_to_busy_block c ≡ ok s → s ≡ span c
unfolding time_block_to_busy_block
busy_block-span c s e = ground arith

traverse-reads :
    (blocks : List TimeBlock) {busy : List BusyBlock}
    → traverse time_block_to_busy_block blocks ≡ ok busy
    → All (λ c. time_block_to_busy_block c ≡ ok (span c)) blocks
traverse-reads [] e = tt
traverse-reads (c ∷ blocks) e =
    let (s, read, e₁) = >>=-eq-ok (time_block_to_busy_block c) _ e in
    let (rest, later, e₂) =
      >>=-eq-ok (traverse time_block_to_busy_block blocks) (λ r. ok (s ∷ r)) e₁ in
    (read ∙ ap ok (busy_block-span c s read), traverse-reads blocks later)

events-ClearOf :
    (b : TimeBlock) (events : List CalendarEvent) {busy : List BusyBlock}
    → events_to_busy_blocks events ≡ ok busy
    → All (Disjoint (span b)) busy
    → All (ClearOf b) events
unfolding events_to_busy_blocks
events-ClearOf b [] e h = tt
events-ClearOf b (event ∷ events) e h =
    let (blocks, first, e₁) = >>=-eq-ok (event_to_busy_block event) _ e in
    let (rest, later, e₂) =
      >>=-eq-ok (events_to_busy_blocks events) (λ rest. ok (blocks ++ rest)) e₁ in
    let h' : All (Disjoint (span b)) (blocks ++ rest) =
      subst (All (Disjoint (span b))) (sym (ok-injective e₂)) h in
    (
      λ busy e'.
          subst (All (Disjoint (span b))) (ok-injective (sym first ∙ e'))
            (All-append_left (Disjoint (span b)) blocks rest h'),
      events-ClearOf b events later (All-append_right (Disjoint (span b)) blocks rest h'),
    )

-- What the start of a plan has read.
record Started (input : CreateScheduleInput) (start : Start) : Type 0 where
  locked : start.locked ≡ locked_blocks input
  events : List BusyBlock
  kept : List BusyBlock
  events_read : events_to_busy_blocks input.calendar_events ≡ ok events
  kept_read : traverse time_block_to_busy_block (locked_blocks input) ≡ ok kept
  fixed : start.context.fixed_busy ≡ sort_by compare_busy_blocks (events ++ kept)

start_schedule-Started :
    (zones : TimeZones) (input : CreateScheduleInput) (start : Start)
    → start_schedule zones input ≡ ok start
    → Started input start
unfolding start_schedule
start_schedule-Started zones input start e =
    let (range_start, read₁, e₁) = >>=-eq-ok (parse_iso input.range_start "rangeStart") _ e in
    let (range_end, read₂, e₂) = >>=-eq-ok (parse_iso input.range_end "rangeEnd") _ e₁ in
    let (windows, built, e₃) =
      >>=-eq-ok (build_working_windows zones input.working_hours range_start range_end) _ e₂ in
    let (events, events_read, e₄) = >>=-eq-ok (events_to_busy_blocks input.calendar_events) _ e₃ in
    let (kept, kept_read, e₅) =
      >>=-eq-ok (traverse time_block_to_busy_block (locked_blocks input)) _ e₄ in
    record {
      locked = ap (λ (s : Start). s.locked) (sym (ok-injective e₅));
      events = events;
      kept = kept;
      events_read = events_read;
      kept_read = kept_read;
      fixed = ap (λ (s : Start). s.context.fixed_busy) (sym (ok-injective e₅));
    }

-- The locked blocks are among the fixed busy ones.
ClearOf-locked_blocks :
    (input : CreateScheduleInput) (start : Start) (b : TimeBlock)
    → Started input start
    → All (Disjoint (span b)) start.context.fixed_busy
    → All (Apart b) (locked_blocks input) × All (ClearOf b) input.calendar_events
ClearOf-locked_blocks input start b h free =
    let unsorted =
      All-of_sort_by (Disjoint (span b)) compare_busy_blocks (h.events ++ h.kept)
        (subst (All (Disjoint (span b))) h.fixed free) in
    (
      All-imp
          (λ c.
            ((s : BusyBlock) → time_block_to_busy_block c ≡ ok s → Disjoint (span b) s)
            × (time_block_to_busy_block c ≡ ok (span c)))
          (Apart b) (locked_blocks input) (λ c k. k.0 (span c) k.1)
          (All-both (λ c. (s : BusyBlock) → time_block_to_busy_block c ≡ ok s → Disjoint (span b) s)
            (λ c. time_block_to_busy_block c ≡ ok (span c)) (locked_blocks input)
            (traverse-All time_block_to_busy_block (Disjoint (span b)) (locked_blocks input)
              h.kept_read (All-append_right (Disjoint (span b)) h.events h.kept unsorted))
            (traverse-reads (locked_blocks input) h.kept_read)),
      events-ClearOf b input.calendar_events h.events_read
          (All-append_left (Disjoint (span b)) h.events h.kept unsorted),
    )

pub finish-perm :
    (input : CreateScheduleInput) (ctx : PlanContext) (p : Progress) (plan : SchedulePlan)
    → finish input ctx p ≡ ok plan
    → Permᴰ p.blocks plan.blocks
unfolding finish
finish-perm input ctx p plan e =
    let (warnings, warned, e₁) = >>=-eq-ok (final_warnings input ctx p) _ e in
    let (blocks, sorted, e₂) = >>=-eq-ok (sort_by_throwing compare_block_starts p.blocks) _ e₁ in
    subst (Permᴰ p.blocks) (ap (λ (q : SchedulePlan). q.blocks) (ok-injective e₂))
      (sort_by_throwing-perm compare_block_starts p.blocks sorted)

-- The stages of a call that returns.
pub record Stages (zones : TimeZones) (input : CreateScheduleInput) (plan : SchedulePlan)
    : Type 0 where
  pub start : Start
  pub started : start_schedule zones input ≡ ok start
  pub ordered : List SchedulingTask
  pub order_made : order_tasks_for_scheduling input.tasks ≡ ok (some ordered)
  pub progress : Progress
  pub planned : plan_tasks start.context ordered (first_progress start.locked) ≡ ok progress
  pub finished : finish input start.context progress ≡ ok plan

pub create_schedule-Stages :
    (zones : TimeZones) (input : CreateScheduleInput) (plan : SchedulePlan)
    → create_schedule zones input ≡ ok plan
    → Stages zones input plan
unfolding create_schedule
create_schedule-Stages zones input plan e =
    let (start, started, e₁) = >>=-eq-ok (start_schedule zones input) _ e in
    let (order, ordered, e₂) = >>=-eq-ok (order_tasks_for_scheduling input.tasks) _ e₁ in
    go start started order ordered e₂
  where
    go :
        (start : Start)
        → start_schedule zones input ≡ ok start
        → (order : Option (List SchedulingTask)) → order_tasks_for_scheduling input.tasks ≡ ok order
        → (do
          ordered ← or_diverges order
          progress ← plan_tasks start.context ordered (first_progress start.locked)
          finish input start.context progress)
          ≡ ok plan
        → Stages zones input plan
    go start started none made e = cc
    go start started (some ordered) made e =
        let (progress, planned, e₁) =
          >>=-eq-ok (plan_tasks start.context ordered (first_progress start.locked)) _ e in
        record {
          start = start;
          started = started;
          ordered = ordered;
          order_made = made;
          progress = progress;
          planned = planned;
          finished = e₁;
        }

pub Any-same : (tasks : List SchedulingTask) → All (λ task. Any (λ t. t ≡ task) tasks) tasks
Any-same [] = tt
Any-same (t ∷ tasks) = (
  inl refl,
  All-imp (λ task. Any (λ u. u ≡ task) tasks) (λ task. Any (λ u. u ≡ task) (t ∷ tasks)) tasks
      (λ u k. inr k) (Any-same tasks),
)

-- A plan that `createSchedule` returns holds the locked blocks of the input as they were, and new
-- blocks of valid tasks of the input: these lie in working windows, in the range and within their
-- task's own dates, and no two of them overlap, nor does one overlap a locked block or the time
-- that an event, its buffers and travel included, keeps busy.
pub create_schedule-HasNoConflicts :
    (zones : TimeZones) (input : CreateScheduleInput) (plan : SchedulePlan)
    → create_schedule zones input ≡ ok plan
    → HasNoConflicts zones input plan
create_schedule-HasNoConflicts zones input plan e =
    let stages = create_schedule-Stages zones input plan e in
    let start = stages.start in
    let order = order_tasks-IsOrdering input.tasks stages.ordered stages.order_made in
    let read = start_schedule-Started zones input start stages.started in
    let done =
      plan_tasks-IsConsistent input.tasks start.context start.locked stages.ordered
        (first_progress start.locked) stages.progress
        (order.taken (λ task. Any (λ t. t ≡ task) input.tasks) (Any-same input.tasks))
        order.distinct
        (record { placed = []; split = sym (append-nil _); planned = tt; apart = tt; others = tt })
        stages.planned in
    record {
      start = start;
      started = stages.started;
      placed = done.placed;
      same =
          subst (λ blocks. Permᴰ blocks plan.blocks)
            (done.split ∙ ap (λ locked. locked ++ done.placed) read.locked)
            (finish-perm input start.context stages.progress plan stages.finished);
      planned = done.planned;
      apart = done.apart;
      clear_of_locked =
          All-imp (IsPlanned input.tasks start.context) (λ b. All (Apart b) (locked_blocks input))
            done.placed (λ b k. (ClearOf-locked_blocks input start b read k.free).0) done.planned;
      clear_of_events =
          All-imp (IsPlanned input.tasks start.context) (λ b. All (ClearOf b) input.calendar_events)
            done.placed (λ b k. (ClearOf-locked_blocks input start b read k.free).1) done.planned;
    }
