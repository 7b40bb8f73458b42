-- ===== src/Scheduler/Create/Accounts.antt =====
-- src/scheduler.ts: the plan of `createSchedule` and what it says of each task of the input.
use scheduleos.Base.{
  ◌≡◌, subst, ap, List, ok, >>=-eq-ok, ok-injective, All, Any, All-imp, All-both, Any-and-All,
  Permᴰ, sort_by_throwing,
}
use scheduleos.Domain.{SchedulingTask, SchedulePlan, TimeBlock, UnscheduledTask}
use scheduleos.Scheduler.Windows.{TimeZones}
use scheduleos.Scheduler.Order.Distinct.{order_tasks-IsOrdering}
use scheduleos.Scheduler.Plan.{Progress, PlanContext}
use scheduleos.Scheduler.Plan.Accounts.{
  Accounted, AccountedIn, set_aside, placed, plan_tasks_accounts,
}
use scheduleos.Scheduler.Create.{
  CreateScheduleInput, create_schedule, final_warnings, compare_block_starts, finish,
  first_progress,
}
use scheduleos.Scheduler.Create.Conflicts.{Any-same, finish-perm, create_schedule-Stages}

finish-unscheduled :
    (input : CreateScheduleInput) (ctx : PlanContext) (p : Progress) (plan : SchedulePlan)
    → finish input ctx p ≡ ok plan
    → p.unscheduled_tasks ≡ plan.unscheduled_tasks
unfolding finish
finish-unscheduled input ctx p plan e =
    let (warnings, warned, e₁) = >>=-eq-ok (final_warnings input ctx p) _ e in
    let (blocks, sorted, e₂) = >>=-eq-ok (sort_by_throwing compare_block_starts p.blocks) _ e₁ in
    ap (λ (q : SchedulePlan). q.unscheduled_tasks) (ok-injective e₂)

Accounted-perm :
    (task : SchedulingTask) {blocks blocks' : List TimeBlock} {set set' : List UnscheduledTask}
    → Permᴰ blocks blocks'
    → set ≡ set'
    → Accounted task blocks set
    → Accounted task blocks' set'
Accounted-perm task perm same (set_aside h) =
    set_aside (subst (Any (λ (u : UnscheduledTask). u.task_id ≡ task.id)) same h)
Accounted-perm task perm same (placed mine total own others same_blocks) =
    placed mine total own others (Permᴰ.trans same_blocks perm)

-- What the plan says of a task of the input: some task of that id, itself of the input, is listed as
-- unscheduled or has blocks of its own for its whole remaining time.
pub record IsAccounted (input : CreateScheduleInput) (plan : SchedulePlan) (task : SchedulingTask)
    : Type 1 where
  pub chosen : SchedulingTask
  pub same_id : chosen.id ≡ task.id
  pub listed : Any (λ (t : SchedulingTask). t ≡ chosen) input.tasks
  pub accounted : Accounted chosen plan.blocks plan.unscheduled_tasks

-- In a plan that `createSchedule` returns no task is lost: for each task of the input, a task of the
-- input with its id (the task itself, where ids differ) is listed as unscheduled, or the blocks of the
-- plan are, in some order, some of its own, which take together exactly its remaining time, and others.
pub create_schedule_accounts :
    (zones : TimeZones) (input : CreateScheduleInput) (plan : SchedulePlan)
    → create_schedule zones input ≡ ok plan
    → All (IsAccounted input plan) input.tasks
create_schedule_accounts zones input plan e =
    let stages = create_schedule-Stages zones input plan e in
    let order = order_tasks-IsOrdering input.tasks stages.ordered stages.order_made in
    let progress = stages.progress in
    let (grows, accounted) =
      plan_tasks_accounts stages.start.context stages.ordered (first_progress stages.start.locked)
        progress stages.planned in
    let known =
      All-both (AccountedIn progress) (λ task. Any (λ (t : SchedulingTask). t ≡ task) input.tasks)
        stages.ordered accounted
        (order.taken (λ task. Any (λ t. t ≡ task) input.tasks) (Any-same input.tasks)) in
    let perm = finish-perm input stages.start.context progress plan stages.finished in
    let same = finish-unscheduled input stages.start.context progress plan stages.finished in
    All-imp (λ (t : SchedulingTask). Any (λ (u : SchedulingTask). u.id ≡ t.id) stages.ordered)
      (IsAccounted input plan) input.tasks
      (λ t there.
        let (u, same_id, (mine, listed)) =
          Any-and-All (λ (u : SchedulingTask). u.id ≡ t.id) _ stages.ordered there known in
        record {
          chosen = u;
          same_id = same_id;
          listed = listed;
          accounted = Accounted-perm u perm same mine;
        })
      order.complete
