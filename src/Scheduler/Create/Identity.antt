-- ===== src/Scheduler/Create/Identity.antt =====
-- src/scheduler.ts: what the plan of `createSchedule` takes over from its input.
use scheduleos.Base.{◌≡◌, sym, ap, ok, >>=-eq-ok, ok-injective, sort_by_throwing}
use scheduleos.Domain.{SchedulePlan}
use scheduleos.Scheduler.Windows.{TimeZones}
use scheduleos.Scheduler.Create.{
  CreateScheduleInput, final_warnings, compare_block_starts, finish, create_schedule,
}
use scheduleos.Scheduler.Plan.{Progress, PlanContext}
use scheduleos.Scheduler.Create.Conflicts.{create_schedule-Stages}

finish-same :
    (input : CreateScheduleInput) (ctx : PlanContext) (p : Progress) (plan : SchedulePlan)
    → finish input ctx p ≡ ok plan
    → (plan.id ≡ input.plan_id) × (plan.scope ≡ input.scope)
unfolding finish
finish-same input ctx p plan h =
    let (warnings, e₁, h₁) = >>=-eq-ok (final_warnings input ctx p) _ h in
    let (blocks, e₂, h₂) = >>=-eq-ok (sort_by_throwing compare_block_starts p.blocks) _ h₁ in
    let same = ok-injective h₂ in
    (sym (ap (λ (x : SchedulePlan). x.id) same), sym (ap (λ (x : SchedulePlan). x.scope) same))

-- The plan has the id and the scope that were asked for.
pub create_schedule-same :
    (zones : TimeZones) (input : CreateScheduleInput) (plan : SchedulePlan)
    → create_schedule zones input ≡ ok plan
    → (plan.id ≡ input.plan_id) × (plan.scope ≡ input.scope)
create_schedule-same zones input plan h =
    let stages = create_schedule-Stages zones input plan h in
    finish-same input stages.start.context stages.progress plan stages.finished
