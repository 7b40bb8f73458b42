-- ===== src/Scheduler/Order.antt =====
-- src/scheduler.ts: `orderTasksForScheduling` visits the dependencies of a task before the task.
mod Rule
pub mod Distinct
pub mod Total
use scheduleos.Base.{
  ◌+◌, ℕ, zero, suc, Bool, true, false, not, List, [], ◌∷◌, ◌++◌, Option, none, some, Result, ok,
  err, ◌>>=◌, if◌then◌else◌, String, str_eq, any, filter, length, compare, Ordering,
  sort_by_throwing,
}
use scheduleos.Domain.{Instant, Timestamp, Priority, urgent, high, medium, low, SchedulingTask}
use scheduleos.Scheduler.Dates.{Error, parse_iso}

priority_weight : Priority → ℕ
priority_weight urgent = 0
priority_weight high = 1
priority_weight medium = 2
priority_weight low = 3

-- `Number.MAX_SAFE_INTEGER` milliseconds after the epoch: past every date.
abbrev no_deadline : ℕ
no_deadline = 8640000000000000 + 9007199254740991

deadline_key : SchedulingTask → Result Error ℕ
deadline_key task = elim task.deadline [
  | none ↦ ok no_deadline
  | some t ↦ parse_iso t "task.deadline"
]

-- The next comparison decides where one is even.
tie : Ordering → Result Error Ordering → Result Error Ordering
tie Ordering.eq next = next
tie o next = ok o

compare_creation : SchedulingTask → SchedulingTask → Result Error Ordering
compare_creation a b = do
  created_a ← parse_iso a.created_at "task.createdAt"
  created_b ← parse_iso b.created_at "task.createdAt"
  ok (compare created_a created_b)

compare_deadlines : SchedulingTask → SchedulingTask → Result Error Ordering
unfolding deadline_key tie compare_creation
compare_deadlines a b = do
  deadline_a ← deadline_key a
  deadline_b ← deadline_key b
  tie (compare deadline_a deadline_b) (compare_creation a b)

-- The sign of the number that the comparator returns, or what it throws.
pub compare_tasks : SchedulingTask → SchedulingTask → Result Error Ordering
unfolding priority_weight compare_deadlines
compare_tasks a b =
    tie (compare (priority_weight a.priority) (priority_weight b.priority)) (compare_deadlines a b)

abbrev pub has : List String → String → Bool
has ids id = any (str_eq id) ids

-- `tasksById.get(id)`: of two tasks with one id the later is kept.
pub task_by_id : List SchedulingTask → String → Option SchedulingTask
task_by_id [] id = none
task_by_id (task ∷ tasks) id = elim (task_by_id tasks id) [
  | some later ↦ some later
  | none ↦ if str_eq task.id id then some task else none
]

-- What `visit` changes.
pub record Visits : Type 0 where
  pub ordered : List SchedulingTask
  pub visited : List String
  pub visiting : List String

abbrev pub fresh : Visits
fresh = record { ordered = []; visited = []; visiting = [] }

abbrev pub enter : SchedulingTask → Visits → Visits
enter task s = record s { visiting = task.id ∷ s.visiting }

abbrev pub leave : SchedulingTask → Visits → Visits
leave task s = record {
  ordered = s.ordered ++ task ∷ [];
  visited = task.id ∷ s.visited;
  visiting = filter (λ id. not (str_eq id task.id)) s.visiting;
}

-- `for (const x of xs) visit(x)`, where a visit that runs out of fuel stops the loop.
pub each {ℓ} : {A : Type ℓ} → (A → Visits → Option Visits) → List A → Visits → Option Visits
each visit [] s = some s
each visit (x ∷ xs) s = elim (visit x s) [ none ↦ none | some s' ↦ each visit xs s' ]

-- A dependency that is no task of the input is passed over.
pub visit_if_there :
    (SchedulingTask → Visits → Option Visits) → Option SchedulingTask → Visits → Option Visits
visit_if_there visit none s = some s
visit_if_there visit (some task) s = visit task s

module _ (tasks : List SchedulingTask) where
  pub visit : ℕ → SchedulingTask → Visits → Option Visits
  unfolding each visit_if_there task_by_id
  visit zero task s = none
  visit (suc fuel) task s =
      let inside =
        each (λ id. visit_if_there (visit fuel) (task_by_id tasks id)) task.dependencies
          (enter task s) in
      if has s.visited task.id
      then some s
      else if has s.visiting task.id
      then some s
      else elim inside [ none ↦ none | some s' ↦ some (leave task s') ]

  -- The nesting of visits is no deeper than the tasks are many: each is of another task.
  pub visit_each : List SchedulingTask → Option Visits
  unfolding visit
  visit_each base_order = each (visit (suc (length tasks))) base_order fresh

  -- `none` is a visit that ran out of fuel.
  unfoldable pub order_tasks_for_scheduling : Result Error (Option (List SchedulingTask))
  unfolding visit_each compare_tasks sort_by_throwing
  order_tasks_for_scheduling = do
    base_order ← sort_by_throwing compare_tasks tasks
    ok (elim (visit_each base_order) [ none ↦ none | some s ↦ some s.ordered ])
