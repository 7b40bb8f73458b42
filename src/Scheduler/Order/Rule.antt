-- ===== src/Scheduler/Order/Rule.antt =====
-- src/scheduler.ts: induction on `visit` in `orderTasksForScheduling`.
use scheduleos.Base.{
  ◌≡◌, inl, inr, ℕ, zero, suc, false, List, [], ◌∷◌, Option, some, All, arith, Bool-cases,
  Option-cases, subst, String, str_eq,
}
use mathlib.Core.Option.{some-injective}
use scheduleos.Domain.{SchedulingTask}
use scheduleos.Scheduler.Order.{Visits, enter, leave, has, task_by_id, each, visit_if_there, visit}

-- A relation between the states before and after a visit of tasks that are `K`.
pub record VisitRule (K : SchedulingTask → Type 0) (R : Visits → Visits → Type 0) : Type 0 where
  pub stay : (s : Visits) → R s s
  pub chain : (s t u : Visits) → R s t → R t u → R s u
  pub around :
      (task : SchedulingTask) (s t : Visits)
      → K task
      → has s.visited task.id ≡ false
      → has s.visiting task.id ≡ false
      → R (enter task s) t
      → R s (leave task t)

pub task_by_id-All :
    (K : SchedulingTask → Type 0) (tasks : List SchedulingTask) (id : String)
    {task : SchedulingTask}
    → All K tasks
    → task_by_id tasks id ≡ some task
    → K task
unfolding task_by_id
task_by_id-All K [] id h e = cc
task_by_id-All K (t ∷ ts) id {task} h e = elim (Option-cases (task_by_id ts id)) [
  | inr (later, found) ↦
      subst K (some-injective _ _ (rw (found, task_by_id) at e)) (task_by_id-All K ts id h.1 found)
  | inl missing ↦ elim (Bool-cases (str_eq t.id id)) [
    | inl same ↦ subst K (ground arith) h.0
    | inr other ↦ absurd (ground arith)
  ]
]

module _ {K : SchedulingTask → Type 0} {R : Visits → Visits → Type 0} (rule : VisitRule K R) where
  pub each_ind {ℓ} :
      {A : Type ℓ} (f : A → Visits → Option Visits) (P : A → Type 0)
      → ((x : A) (s t : Visits) → P x → f x s ≡ some t → R s t)
      → (xs : List A) (s t : Visits) → All P xs
      → each f xs s ≡ some t
      → R s t
  unfolding each
  each_ind f P h [] s t k e = subst (R s) (some-injective _ _ e) (rule.stay s)
  each_ind f P h (x ∷ xs) s t k e = elim (Option-cases (f x s)) [
    | inl stop ↦ absurd (ground arith)
    | inr (u, went) ↦
        rule.chain s u t (h x s u k.0 went) (each_ind f P h xs u t k.1 (rw (went, each) at e))
  ]

  All-Unit : (ids : List String) → All (λ _. Unit {0}) ids
  All-Unit [] = tt
  All-Unit (id ∷ ids) = (tt, All-Unit ids)

  pub visit_ind :
      (tasks : List SchedulingTask) (fuel : ℕ) (task : SchedulingTask) (s t : Visits)
      → All K tasks
      → K task
      → visit tasks fuel task s ≡ some t
      → R s t
  unfolding visit visit_if_there
  visit_ind tasks zero task s t known k e = cc
  visit_ind tasks (suc fuel) task s t known k e = elim (Bool-cases (has s.visited task.id)) [
    | inl old ↦ subst (R s) (ground arith) (rule.stay s)
    | inr new ↦ elim (Bool-cases (has s.visiting task.id)) [
      | inl cyclic ↦ subst (R s) (ground arith) (rule.stay s)
      | inr entered ↦ elim (Option-cases inside) [
        | inl stop ↦ absurd (ground arith)
        | inr (u, went) ↦ subst (R s) (ground arith) (
            rule.around task s u k new entered (
              each_ind step (λ _. Unit {0}) (nested (visit_ind tasks fuel)) task.dependencies
                (enter task s) u (All-Unit task.dependencies) went))
      ]
    ]
  ]
    where
      step : String → Visits → Option Visits
      step id = visit_if_there (visit tasks fuel) (task_by_id tasks id)

      inside : Option Visits
      inside = each step task.dependencies (enter task s)

      nested :
          ((task : SchedulingTask) (s t : Visits)
            → All K tasks
            → K task
            → visit tasks fuel task s ≡ some t
            → R s t)
          → (id : String) (s t : Visits) → Unit {0}
          → step id s ≡ some t
          → R s t
      nested ih id s t _ e = elim (Option-cases (task_by_id tasks id)) [
        | inl missing ↦
            subst (R s) (some-injective _ _ (rw (missing, visit_if_there) at e)) (rule.stay s)
        | inr (dependency, found) ↦
            ih dependency s t known (task_by_id-All K tasks id known found)
              (rw (found, visit_if_there) at e)
      ]
