-- ===== src/Repositories/Plans.antt =====
-- src/repositories.ts: the repositories of plans and of their time blocks.
pub mod Blocks
use scheduleos.Base.{
  Bool, true, false, ◌&&◌, ◌||◌, not, List, [], ◌∷◌, ◌++◌, Option, none, some, Result, ok, err,
  ◌>>=◌, if◌then◌else◌, filter, find, map, traverse, String, str_eq, leb,
}
use scheduleos.Domain.{Instant, Timestamp, iso, Scope, SchedulePlan, TimeBlock, BlockStatus}
use scheduleos.Repositories.{
  ApiStore, RepositoryActor, RepositoryError, validation_error, not_found, Outcome, matches_scope,
  assert_can_access,
}
use scheduleos.Repositories.Tables.{put, or_not_found}

unfoldable pub replace_plan : SchedulePlan → ApiStore → ApiStore
replace_plan plan state = record state {
  plans = put (λ existing. str_eq existing.id plan.id) plan state.plans;
}

unfoldable pub upsert_plan : RepositoryActor → SchedulePlan → ApiStore → Outcome SchedulePlan
unfolding assert_can_access replace_plan
upsert_plan actor plan state = do
  allowed ← assert_can_access actor plan.scope
  ok (plan, replace_plan plan state)

unfoldable pub find_plan : String → ApiStore → Result RepositoryError SchedulePlan
find_plan plan_id state =
    or_not_found "Schedule plan not found." (find (λ plan. str_eq plan.id plan_id) state.plans)

unfoldable pub get_plan : RepositoryActor → String → ApiStore → Result RepositoryError SchedulePlan
unfolding assert_can_access find_plan
get_plan actor plan_id state = do
  plan ← find_plan plan_id state
  allowed ← assert_can_access actor plan.scope
  ok plan

unfoldable pub list_plans :
    RepositoryActor → Scope → ApiStore → Result RepositoryError (List SchedulePlan)
unfolding assert_can_access
list_plans actor scope state = do
  allowed ← assert_can_access actor scope
  ok (filter (λ plan. matches_scope plan.scope scope) state.plans)

-- The first plan with such a block gives it.
unfoldable pub block_in : String → List SchedulePlan → Option TimeBlock
block_in block_id [] = none
block_in block_id (plan ∷ plans) =
    let later = block_in block_id plans in
    elim (find (λ (block : TimeBlock). str_eq block.id block_id) plan.blocks) [
      | some block ↦ some block
      | none ↦ later
    ]

unfoldable pub get_block : RepositoryActor → String → ApiStore → Result RepositoryError TimeBlock
unfolding assert_can_access block_in
get_block actor block_id state = do
  block ← or_not_found "Time block not found." (block_in block_id state.plans)
  allowed ← assert_can_access actor block.scope
  ok block

pub data BlockAction : Type 0 where
  lock unlock complete missed : BlockAction

unfoldable pub apply_block_action : BlockAction → TimeBlock → TimeBlock
apply_block_action lock block = record block { locked = true; status = BlockStatus.locked }
apply_block_action unlock block = record block { locked = false; status = BlockStatus.accepted }
apply_block_action complete block = record block { status = BlockStatus.completed }
apply_block_action missed block = record block { status = BlockStatus.missed }

pub record TimePatch : Type 0 where
  pub start : Option Timestamp
  pub end : Option Timestamp

abbrev pub or_kept {ℓ} : {A : Type ℓ} → Option A → A → A
or_kept none kept = kept
or_kept (some new) kept = new

-- `["LOCKED", "COMPLETED", "MISSED"].includes(status)`
abbrev pub is_settled : BlockStatus → Bool
is_settled BlockStatus.locked = true
is_settled BlockStatus.completed = true
is_settled BlockStatus.missed = true
is_settled _ = false

unfoldable pub finite_time : Timestamp → Result RepositoryError Instant
finite_time (iso t) = ok t
finite_time Timestamp.malformed =
    err (validation_error "Time block start and end must be valid ISO dates.")

unfoldable pub apply_block_time_patch : TimePatch → TimeBlock → Result RepositoryError TimeBlock
unfolding finite_time
apply_block_time_patch patch block =
    let start = or_kept patch.start block.start in
    let end = or_kept patch.end block.end in
    let moved = (do
      start_time ← finite_time start
      end_time ← finite_time end
      if leb end_time start_time
          then err (validation_error "Time block start must be before end.")
          else ok (record block { start = start; end = end })) in
    if block.locked || is_settled block.status
    then err (validation_error "Time block cannot be moved in its current state.")
    else moved

abbrev last_block : List TimeBlock → Option TimeBlock
last_block [] = none
last_block (block ∷ blocks) = elim (last_block blocks) [
  | some later ↦ some later
  | none ↦ some block
]

module _ (actor : RepositoryActor) (block_id : String)
    (change : TimeBlock → Result RepositoryError TimeBlock) where
  -- The function that the blocks of each plan are mapped by.
  unfoldable pub change_block : TimeBlock → Result RepositoryError TimeBlock
  unfolding assert_can_access
  change_block block =
      let changed = (do allowed ← assert_can_access actor block.scope; change block) in
      if not (str_eq block.id block_id) then ok block else changed

  unfoldable pub change_plan : SchedulePlan → Result RepositoryError SchedulePlan
  unfolding change_block
  change_plan plan = do
    blocks ← traverse change_block plan.blocks
    ok (record plan { blocks = blocks })

  -- `updatedBlock` is the last block that is updated.
  unfoldable pub last_updated : List SchedulePlan → Option TimeBlock
  last_updated [] = none
  last_updated (plan ∷ plans) =
      let here =
        last_block (filter (λ (block : TimeBlock). str_eq block.id block_id) plan.blocks) in
      elim (last_updated plans) [ some block ↦ some block | none ↦ here ]

  unfoldable pub update_block : ApiStore → Outcome TimeBlock
  unfolding change_plan last_updated
  update_block state = do
    plans ← traverse change_plan state.plans
    block ← or_not_found "Time block not found." (last_updated plans)
    ok (block, record state { plans = plans })

unfoldable pub update_time : RepositoryActor → String → TimePatch → ApiStore → Outcome TimeBlock
unfolding update_block apply_block_time_patch
update_time actor block_id patch = update_block actor block_id (apply_block_time_patch patch)

unfoldable pub update_status : RepositoryActor → String → BlockAction → ApiStore → Outcome TimeBlock
unfolding update_block apply_block_action
update_status actor block_id action =
    update_block actor block_id (λ block. ok (apply_block_action action block))
