-- ===== src/Scheduler/Plan/Accounts.antt =====
-- src/scheduler.ts: the loop of `createSchedule` and what becomes of each task.
use scheduleos.Base.{
  ◌*◌, ◌<◌, ◌≡◌, refl, subst, inl, inr, List, [], ◌∷◌, ◌++◌, none, ok, >>=-eq-ok, ok-injective,
  arith, traverse, All, Any, All-imp, Any-append_left, Any-append_right, Option-cases, Permᴰ,
}
use mathlib.Core.List.Permᴰ
use mathlib.Core.List.{append_assoc}
use scheduleos.Domain.{SchedulingTask, TimeBlock, UnscheduledTask, Reason}
use scheduleos.Scheduler.Dates.{minute_ms}
use scheduleos.Scheduler.Slots.{BusyBlock}
use scheduleos.Scheduler.Place.{time_block_to_busy_block, schedule_task}
use scheduleos.Scheduler.Place.Blocks.{total_ms}
use scheduleos.Scheduler.Place.Ends.{Scheduled, schedule_task-Scheduled}
use scheduleos.Scheduler.Capacity.{classify_deadline_failure}
use scheduleos.Scheduler.Plan.{
  Progress, PlanContext, get_invalid_reason, other_blocks, reject, accept, give_up, plan_valid_task,
  plan_task, plan_tasks,
}

-- The task is listed as unscheduled, or the blocks are, in some order, some of its own, which take
-- together exactly its remaining time, and others.
pub data Accounted (task : SchedulingTask) (blocks : List TimeBlock)
    (unscheduled : List UnscheduledTask) : Type 1 where
  set_aside :
      Any (λ (u : UnscheduledTask). u.task_id ≡ task.id) unscheduled
      → Accounted task blocks unscheduled
  placed :
      (mine : List TimeBlock)
      → total_ms mine ≡ task.remaining_duration_minutes * minute_ms
      → All (λ (b : TimeBlock). b.task_id ≡ task.id) mine
      → (others : List TimeBlock) → Permᴰ (mine ++ others) blocks
      → Accounted task blocks unscheduled

-- The later lists hold what the earlier ones hold.
pub record Grows (p p' : Progress) : Type 1 where
  pub added : List TimeBlock
  pub blocks : Permᴰ (p.blocks ++ added) p'.blocks
  pub unscheduled :
      (P : UnscheduledTask → Type 0) → Any P p.unscheduled_tasks → Any P p'.unscheduled_tasks

abbrev pub AccountedIn : Progress → SchedulingTask → Type 1
AccountedIn p task = Accounted task p.blocks p.unscheduled_tasks

Accounted-Grows :
    (p p' : Progress) (task : SchedulingTask)
    → Grows p p'
    → AccountedIn p task
    → AccountedIn p' task
Accounted-Grows p p' task g (set_aside h) = set_aside (g.unscheduled _ h)
Accounted-Grows p p' task g (placed mine total own others same) =
    placed mine total own (others ++ g.added) (
      Permᴰ.trans
        (subst (λ bs. Permᴰ bs (p.blocks ++ g.added)) (append_assoc mine others g.added)
          (Permᴰ.append_right g.added same))
        g.blocks)

module _ (ctx : PlanContext) (task : SchedulingTask) where
  abbrev Step : Progress → Progress → Type 1
  Step p p' = Grows p p' × AccountedIn p' task

  reject-Step : (reason : Reason) (p : Progress) → Step p (reject ctx task reason p)
  unfolding reject
  reject-Step reason p = (
    record {
      added = [];
      blocks = Permᴰ.append-nil p.blocks;
      unscheduled = λ P h. Any-append_left P p.unscheduled_tasks _ h;
    },
    set_aside (Any-append_right _ p.unscheduled_tasks _ (inl refl)),
  )

  give_up-Step : (p p' : Progress) → give_up ctx task p ≡ ok p' → Step p p'
  unfolding give_up
  give_up-Step p p' e =
      let (busy, read, e₁) = >>=-eq-ok (traverse time_block_to_busy_block p.blocks) _ e in
      let (reason, classified, e₂) =
        >>=-eq-ok (classify_deadline_failure task ctx.working_windows (ctx.fixed_busy ++ busy)) _
          e₁ in
      subst (Step p) (ok-injective e₂) (
        record {
          added = [];
          blocks = Permᴰ.append-nil p.blocks;
          unscheduled = λ P h. Any-append_left P p.unscheduled_tasks _ h;
        },
        set_aside (Any-append_right _ p.unscheduled_tasks _ (inl refl)),
      )

  accept-Step :
      (p : Progress) (busy : List BusyBlock) (blocks : List TimeBlock)
      → Scheduled task ctx.scope ctx.working_windows
          (ctx.fixed_busy ++ busy)
          ctx.range_start
          ctx.range_end
          blocks
      → Step p (accept ctx task blocks p)
  unfolding accept
  accept-Step p busy blocks found = (
    record { added = blocks; blocks = Permᴰ.refl (p.blocks ++ blocks); unscheduled = λ P h. h },
    placed blocks found.placement.total (All-imp _ _ blocks (λ b k. k.task_id) found.placement.each)
        p.blocks (Permᴰ.append_comm blocks p.blocks),
  )

  valid-positive : get_invalid_reason task ctx.scope ≡ none → 0 < task.remaining_duration_minutes
  unfolding get_invalid_reason
  valid-positive e = ground arith

  plan_valid_task-Step :
      (p p' : Progress)
      → get_invalid_reason task ctx.scope ≡ none
      → plan_valid_task ctx task p ≡ ok p'
      → Step p p'
  unfolding plan_valid_task
  plan_valid_task-Step p p' valid e =
      let (busy, read, e₁) =
        >>=-eq-ok (traverse time_block_to_busy_block (other_blocks ctx task p)) _ e in
      let call =
        schedule_task task ctx.scope ctx.working_windows (ctx.fixed_busy ++ busy) ctx.range_start
          ctx.range_end in
      let (found, called, e₂) = >>=-eq-ok call _ e₁ in
      elim (Option-cases found) [
        | inl f ↦ give_up-Step p p' (rw f at e₂)
        | inr (blocks, f) ↦ subst (Step p) (ok-injective (rw f at e₂)) (
            accept-Step p busy blocks (
              schedule_task-Scheduled task ctx.scope ctx.working_windows (ctx.fixed_busy ++ busy)
                ctx.range_start ctx.range_end blocks (valid-positive valid) (rw f at called)))
      ]

  plan_task-Step : (p p' : Progress) → plan_task ctx task p ≡ ok p' → Step p p'
  unfolding plan_task
  plan_task-Step p p' e = elim (Option-cases (get_invalid_reason task ctx.scope)) [
    | inl valid ↦ plan_valid_task-Step p p' valid (rw (valid, plan_task) at e)
    | inr (reason, invalid) ↦
        subst (Step p) (ok-injective (rw (invalid, plan_task) at e)) (reject-Step reason p)
  ]

-- The loop accounts for each of its tasks, and what was there before stays.
pub plan_tasks_accounts :
    (ctx : PlanContext) (tasks : List SchedulingTask) (p p' : Progress)
    → plan_tasks ctx tasks p ≡ ok p'
    → Grows p p' × All (AccountedIn p') tasks
unfolding plan_tasks
plan_tasks_accounts ctx [] p p' e =
    subst (λ q. Grows p q × All (AccountedIn q) []) (ok-injective e)
      (record { added = []; blocks = Permᴰ.append-nil p.blocks; unscheduled = λ P h. h }, tt)
plan_tasks_accounts ctx (task ∷ tasks) p p' e =
    let (q, first, e₁) = >>=-eq-ok (plan_task ctx task p) _ e in
    let (grows, accounted) = plan_task-Step ctx task p q first in
    let (later, rest) = plan_tasks_accounts ctx tasks q p' e₁ in
    (
      record {
        added = grows.added ++ later.added;
        blocks =
            Permᴰ.trans
              (subst (λ bs. Permᴰ bs (q.blocks ++ later.added))
                (append_assoc p.blocks grows.added later.added)
                (Permᴰ.append_right later.added grows.blocks))
              later.blocks;
        unscheduled = λ P h. later.unscheduled P (grows.unscheduled P h);
      },
      (Accounted-Grows q p' task later accounted, rest),
    )
