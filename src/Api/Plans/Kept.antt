-- ===== src/Api/Plans/Kept.antt =====
-- src/api.ts: what planning again keeps of the plan before.
use scheduleos.Base.{
  ◌≢◌, ◌⊎◌, ◌≡◌, true, false, List, [], ◌∷◌, ◌++◌, some, String, All, Pairwise, Permᴰ, map, filter,
  find, str_eq,
}
use scheduleos.Domain.{SchedulePlan, TimeBlock, BlockStatus}
use scheduleos.Repositories.{ApiStore}
use scheduleos.Scheduler.Plan.Step.{Apart}
use scheduleos.Api.Plans.{is_preserved, lock_if_completed}

-- Which blocks of a plan are kept, in their order: those that were completed, locked now, and those
-- that were locked or whose status says so, as they were; and no others.
pub data Keeps : List TimeBlock → List TimeBlock → Type 0 where
  no_blocks : Keeps [] []
  completed :
      {blocks kept : List TimeBlock} (b : TimeBlock)
      → b.status ≡ BlockStatus.completed
      → Keeps blocks kept
      → Keeps (b ∷ blocks) (record b { locked = true } ∷ kept)
  as_it_was :
      {blocks kept : List TimeBlock} (b : TimeBlock)
      → (b.locked ≡ true) ⊎ (b.status ≡ BlockStatus.locked)
      → b.status ≢ BlockStatus.completed
      → Keeps blocks kept
      → Keeps (b ∷ blocks) (b ∷ kept)
  left_out :
      {blocks kept : List TimeBlock} (b : TimeBlock)
      → b.locked ≡ false
      → b.status ≢ BlockStatus.locked
      → b.status ≢ BlockStatus.completed
      → Keeps blocks kept
      → Keeps (b ∷ blocks) kept

-- The blocks that the code keeps.
abbrev kept_of : List TimeBlock → List TimeBlock
kept_of blocks = map lock_if_completed (filter is_preserved blocks)

-- The plan that is made again, and the plan before.
pub record Replanned (plan_id : String) (store store' : ApiStore) (plan : SchedulePlan)
    : Type 0 where
  pub previous : SchedulePlan
  pub found : find (λ (p : SchedulePlan). str_eq p.id plan_id) store.plans ≡ some previous
  pub id : plan.id ≡ previous.id
  pub scope : plan.scope ≡ previous.scope
  pub kept : List TimeBlock
  pub keeps : Keeps previous.blocks kept
  pub placed : List TimeBlock
  pub same : Permᴰ (kept ++ placed) plan.blocks
  pub others : All (λ b. All (λ k. k.task_id ≢ b.task_id) kept) placed
  pub apart : Pairwise Apart placed
  pub clear : All (λ b. All (Apart b) kept) placed
  pub stored : find (λ (p : SchedulePlan). str_eq p.id plan_id) store'.plans ≡ some plan
