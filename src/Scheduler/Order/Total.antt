-- ===== src/Scheduler/Order/Total.antt =====
-- src/scheduler.ts: when `orderTasksForScheduling` returns.
use scheduleos.Base.{
  ◌≡◌, ◌⊎◌, ◌≤◌, ◌<◌, refl, inl, inr, ℕ, zero, suc, false, List, [], ◌∷◌, Option, none, some, All,
  Any, arith, Bool-cases, Option-cases, subst, sym, ◌∙◌, String, eq_iff, if◌then◌else◌, Result, ok,
  length, sort_by_throwing-perm, sort_by_throwing_total, All-perm, All-imp, compare, Ordering,
}
use scheduleos.Domain.{Instant, iso, SchedulingTask}
use scheduleos.Scheduler.Dates.{Error}
use scheduleos.Scheduler.Order.{
  Visits, fresh, enter, leave, has, task_by_id, each, visit_if_there, visit, visit_each,
  deadline_key, no_deadline, priority_weight, tie, compare_creation, compare_deadlines,
  compare_tasks, order_tasks_for_scheduling,
}
use scheduleos.Scheduler.Order.Rule.{task_by_id-All}
use scheduleos.Scheduler.Order.Distinct.{visit-Effect}

-- How many tasks are not being visited.
waiting_count : List SchedulingTask → List String → ℕ
waiting_count [] visiting = 0
waiting_count (t ∷ tasks) visiting =
    if has visiting t.id then waiting_count tasks visiting else suc (waiting_count tasks visiting)

waiting_count-le-length :
    (tasks : List SchedulingTask) (visiting : List String)
    → waiting_count tasks visiting ≤ length tasks
unfolding waiting_count
waiting_count-le-length [] visiting = omega arith
waiting_count-le-length (t ∷ tasks) visiting =
    ground (arith, waiting_count-le-length tasks visiting)

waiting_count-le :
    (tasks : List SchedulingTask) (visiting : List String) (id : String)
    → waiting_count tasks (id ∷ visiting) ≤ waiting_count tasks visiting
unfolding waiting_count
waiting_count-le [] visiting id = omega arith
waiting_count-le (t ∷ tasks) visiting id = ground (arith, waiting_count-le tasks visiting id)

-- To enter a task of the list leaves fewer.
waiting_count-lt :
    (tasks : List SchedulingTask) (visiting : List String) (id : String)
    → Any (λ (t : SchedulingTask). t.id ≡ id) tasks
    → has visiting id ≡ false
    → waiting_count tasks (id ∷ visiting) < waiting_count tasks visiting
unfolding waiting_count
waiting_count-lt [] visiting id a h = absurd a
waiting_count-lt (t ∷ tasks) visiting id (inl e) h =
    let same : has visiting t.id ≡ false = subst (λ i. has visiting i ≡ false) (sym e) h in
    ground (arith, waiting_count-le tasks visiting id, eq_iff t.id id)
waiting_count-lt (t ∷ tasks) visiting id (inr a) h =
    ground (arith, waiting_count-lt tasks visiting id a h)

module _ (tasks : List SchedulingTask) where
  abbrev IsKnown : SchedulingTask → Type 0
  IsKnown t = Any (λ (u : SchedulingTask). u.id ≡ t.id) tasks

  module _ (known : All IsKnown tasks) where
    -- A loop over visits that all return, and leave `visiting` as it was, returns.
    each_total {ℓ} :
        {A : Type ℓ} (f : A → Visits → Option Visits) (visiting : List String)
        → ((x : A) (s : Visits)
            → s.visiting ≡ visiting
            → (t : Visits) × (f x s ≡ some t) × (t.visiting ≡ visiting))
        → (xs : List A) (s : Visits) → s.visiting ≡ visiting
        → (t : Visits) × (each f xs s ≡ some t)
    unfolding each
    each_total f visiting h [] s e = (s, refl)
    each_total f visiting h (x ∷ xs) s e =
        let (t, went, e₁) = h x s e in
        let (u, ends) = each_total f visiting h xs t e₁ in (u, rw (went, each) ends)

    visit_total :
        (fuel : ℕ) (task : SchedulingTask) (s : Visits)
        → IsKnown task
        → waiting_count tasks s.visiting < fuel
        → (t : Visits) × (visit tasks fuel task s ≡ some t)
    unfolding visit
    visit_total zero task s k h = absurd (omega arith)
    visit_total (suc fuel) task s k h = elim (Bool-cases (has s.visited task.id)) [
      | inl old ↦ (s, ground arith)
      | inr new ↦ elim (Bool-cases (has s.visiting task.id)) [
        | inl cyclic ↦ (s, ground arith)
        | inr entered ↦
            let fewer = waiting_count-lt tasks s.visiting task.id k entered in
            let (t, ends) =
              each_total step (task.id ∷ s.visiting)
                (nested (visit_total fuel) (omega (arith, fewer))) task.dependencies (enter task s)
                refl in
            (leave task t, ground arith)
      ]
    ]
      where
        step : String → Visits → Option Visits
        step id = visit_if_there (visit tasks fuel) (task_by_id tasks id)

        nested :
            ((task : SchedulingTask) (s : Visits)
              → IsKnown task
              → waiting_count tasks s.visiting < fuel
              → (t : Visits) × (visit tasks fuel task s ≡ some t))
            → waiting_count tasks (task.id ∷ s.visiting) < fuel
            → (id : String) (u : Visits) → u.visiting ≡ task.id ∷ s.visiting
            → (t : Visits) × (step id u ≡ some t) × (t.visiting ≡ task.id ∷ s.visiting)
        nested ih below id u e = elim (Option-cases (task_by_id tasks id)) [
          | inl missing ↦ (u, rw (missing, visit_if_there), e)
          | inr (dependency, found) ↦
              let k' = task_by_id-All IsKnown tasks id known found in
              let (t, went) = ih dependency u k' (rw e below) in
              (
                t,
                rw (found, visit_if_there) went,
                (visit-Effect IsKnown tasks known fuel dependency u t k' went).restored ∙ e,
              )
        ]

All-IsKnown : (tasks : List SchedulingTask) → All (IsKnown tasks) tasks
All-IsKnown [] = tt
All-IsKnown (t ∷ tasks) = (
  inl refl,
  All-imp (IsKnown tasks) (IsKnown (t ∷ tasks)) tasks (λ u k. inr k) (All-IsKnown tasks),
)

module _ (tasks : List SchedulingTask) where
  visit_each_loop :
      (fuel : ℕ) (base : List SchedulingTask) (s : Visits)
      → All (IsKnown tasks) base
      → s.visiting ≡ []
      → length tasks < fuel
      → (t : Visits) × (each (visit tasks fuel) base s ≡ some t)
  unfolding each
  visit_each_loop fuel [] s k top h = (s, refl)
  visit_each_loop fuel (x ∷ base) s k top h =
      let known = All-IsKnown tasks in
      let fits = waiting_count-le-length tasks s.visiting in
      let (t, went) = visit_total tasks known fuel x s k.0 (omega (arith, fits)) in
      let effect = visit-Effect (IsKnown tasks) tasks known fuel x s t k.0 went in
      let (u, ends) = visit_each_loop fuel base t k.1 (effect.restored ∙ top) h in
      (u, rw (went, each) ends)

-- The dates that the comparator reads are well-formed.
pub record IsDated (t : SchedulingTask) : Type 0 where
  pub created : Instant
  pub created_read : t.created_at ≡ iso created
  pub due : (t.deadline ≡ none) ⊎ ((d : Instant) × (t.deadline ≡ some (iso d)))

deadline_key_total : (t : SchedulingTask) → IsDated t → (k : ℕ) × (deadline_key t ≡ ok k)
unfolding deadline_key
deadline_key_total t h = elim h.due [ inl e ↦ (no_deadline, rw e) | inr (d, e) ↦ (d, rw e) ]

tie_total :
    (o : Ordering) (next : Result Error Ordering)
    → ((p : Ordering) × (next ≡ ok p))
    → (p : Ordering) × (tie o next ≡ ok p)
unfolding tie
tie_total Ordering.eq next h = h
tie_total Ordering.lt next h = (Ordering.lt, refl)
tie_total Ordering.gt next h = (Ordering.gt, refl)

module _ (a b : SchedulingTask) (h : IsDated a) (k : IsDated b) where
  compare_creation_total : (o : Ordering) × (compare_creation a b ≡ ok o)
  unfolding compare_creation
  compare_creation_total = (compare h.created k.created, rw (h.created_read, k.created_read))

  compare_deadlines_total : (o : Ordering) × (compare_deadlines a b ≡ ok o)
  compare_deadlines_total =
      let (key_a, read_a) = deadline_key_total a h in
      let (key_b, read_b) = deadline_key_total b k in
      let (o, e) = tie_total (compare key_a key_b) (compare_creation a b) compare_creation_total in
      (o, unfold compare_deadlines in rw (read_a, read_b) e)

  compare_tasks_total : (o : Ordering) × (compare_tasks a b ≡ ok o)
  compare_tasks_total =
      let weights = compare (priority_weight a.priority) (priority_weight b.priority) in
      let (o, e) = tie_total weights (compare_deadlines a b) compare_deadlines_total in
      (o, unfold compare_tasks in e)

-- Over tasks with well-formed dates `orderTasksForScheduling` returns an order, cycles of
-- dependencies or not: no visit runs out of fuel.
pub order_tasks_total :
    (tasks : List SchedulingTask)
    → All IsDated tasks
    → (ordered : List SchedulingTask) × (order_tasks_for_scheduling tasks ≡ ok (some ordered))
unfolding order_tasks_for_scheduling visit_each
order_tasks_total tasks dated =
    let (base, sorted) =
      sort_by_throwing_total compare_tasks IsDated compare_tasks_total tasks dated in
    let known =
      All-perm (IsKnown tasks) (sort_by_throwing-perm compare_tasks tasks sorted)
        (All-IsKnown tasks) in
    let (s, went) =
      visit_each_loop tasks (suc (length tasks)) base fresh known refl (omega arith) in
    (s.ordered, rw (sorted, went))
