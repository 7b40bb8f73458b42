-- ===== src/Repositories/Tasks/Lookup.antt =====
-- src/repositories.ts: what the repository of tasks returns behind a change of it.
use scheduleos.Base.{
  subst, All, List, [], ◌∷◌, ◌≡◌, refl, sym, ◌∙◌, ap, Bool, true, false, ◌&&◌, not, ◌==◌, ok, err,
  >>=-eq-ok, ok-injective, filter, length, String, eq_iff, arith, Bool-cases, inl, inr,
}
use scheduleos.Domain.{Scope, SchedulingTask}
use scheduleos.Repositories.{
  ApiStore, RepositoryActor, user, RepositoryError, not_found, Outcome, matches_scope,
  assert_can_access,
}
use scheduleos.Repositories.Access.{assert_can_access-eq, matches_scope_refl, matches_scope-eq}
use scheduleos.Repositories.Tables.{put, find-put, find-put_other, find-filter-none}
use scheduleos.Repositories.Tasks.{is_task, upsert_task, get_task, list_tasks, delete_task}

pub is_task_refl : (t : SchedulingTask) → is_task t.scope t.id t ≡ true
is_task_refl t = rw (matches_scope_refl t.scope, (eq_iff t.id t.id).1 refl) refl

pub both-true : (a b : Bool) → (a && b) ≡ true → (a ≡ true) × (b ≡ true)
both-true true true h = (refl, refl)
both-true false b h = cc
both-true true false h = cc

-- Two tasks of one scope and one id: what is asked for by these is not the task put.
pub apart :
    (task : SchedulingTask) (scope : Scope) (id : String)
    → is_task scope id task ≡ false
    → (x : SchedulingTask) → is_task scope id x ≡ true
    → is_task task.scope task.id x ≡ false
apart task scope id other x e = elim (Bool-cases (is_task task.scope task.id x)) [
  | inr k ↦ k
  | inl k ↦
      let (s₁, i₁) = both-true (matches_scope x.scope scope) _ e in
      let (s₂, i₂) = both-true (matches_scope x.scope task.scope) _ k in
      let scopes : task.scope ≡ scope =
        sym (matches_scope-eq x.scope task.scope s₂) ∙ matches_scope-eq x.scope scope s₁ in
      let ids : task.id ≡ id = sym ((eq_iff x.id task.id).0 i₂) ∙ (eq_iff x.id id).0 i₁ in
      let is_it : is_task scope id task ≡ true = rw (sym scopes, sym ids) (is_task_refl task) in
      absurd (ground (arith, is_it, other))
]

-- A stored task is returned to the actor that stored it, under its scope and id.
pub get_task-upsert_task :
    (actor : RepositoryActor) (task stored : SchedulingTask) (state state' : ApiStore)
    → upsert_task actor task state ≡ ok (stored, state')
    → get_task actor task.scope task.id state' ≡ ok task
unfolding upsert_task get_task
get_task-upsert_task actor task stored state state' h =
    let (allowed, access, h') = >>=-eq-ok (assert_can_access actor task.scope) _ h in
    let tasks_eq : put (is_task task.scope task.id) task state.tasks ≡ state'.tasks =
      ap (λ (r : SchedulingTask × ApiStore). (r.1).tasks) (ok-injective h') in
    let found =
      find-put (is_task task.scope task.id) (is_task task.scope task.id) task state.tasks
        (is_task_refl task) (λ x e. e) in
    rw (access, sym tasks_eq, found) refl

-- Storing a task changes what no other scope and no other id of its scope is asked for.
pub get_task-upsert_task_other :
    (actor reader : RepositoryActor) (task stored : SchedulingTask) (scope : Scope) (id : String)
    (state state' : ApiStore)
    → upsert_task actor task state ≡ ok (stored, state')
    → is_task scope id task ≡ false
    → get_task reader scope id state' ≡ get_task reader scope id state
unfolding upsert_task get_task
get_task-upsert_task_other actor reader task stored scope id state state' h other =
    let (allowed, access, h') = >>=-eq-ok (assert_can_access actor task.scope) _ h in
    let tasks_eq : put (is_task task.scope task.id) task state.tasks ≡ state'.tasks =
      ap (λ (r : SchedulingTask × ApiStore). (r.1).tasks) (ok-injective h') in
    rw
      (
        sym tasks_eq,
        find-put_other (is_task scope id) (is_task task.scope task.id) task state.tasks other
            (apart task scope id other),
      )
      refl

refused :
    {e : RepositoryError} (r : Unit {0} × ApiStore)
    → ¬ (◌≡◌ {A = Outcome (Unit {0})} (err e) (ok r))
refused r h = cc

-- A deleted task is not found, whoever asks that may.
pub get_task-delete_task :
    (actor : RepositoryActor) (scope : Scope) (id : String) (state state' : ApiStore)
    {done : Unit {0}}
    → delete_task actor scope id state ≡ ok (done, state')
    → get_task actor scope id state' ≡ err (not_found "Task not found.")
unfolding delete_task get_task
get_task-delete_task actor scope id state state' {done} h =
    let (allowed, access, h') = >>=-eq-ok (assert_can_access actor scope) _ h in
    let left = filter (λ task. not (is_task scope id task)) state.tasks in
    elim (Bool-cases (length left == length state.tasks)) [
      | inl e ↦ absurd (refused _ (rw e at h'))
      | inr e ↦
          let h'' : ◌≡◌ {A = Outcome (Unit {0})} (ok (tt, record state { tasks = left }))
              (ok (done, state')) =
            rw e at h' in
          let tasks_eq : left ≡ state'.tasks =
            ap (λ (r : Unit {0} × ApiStore). (r.1).tasks) (ok-injective h'') in
          let gone =
            find-filter-none (is_task scope id) (λ task. not (is_task scope id task)) state.tasks
              (λ x k. rw k refl) in
          rw (access, sym tasks_eq, gone) refl
    ]

in_scope :
    (scope : Scope) (tasks : List SchedulingTask)
    → All
        (λ (t : SchedulingTask). scope ≡ t.scope)
        (filter (λ (t : SchedulingTask). matches_scope t.scope scope) tasks)
in_scope scope [] = tt
in_scope scope (t ∷ tasks) = elim (Bool-cases (matches_scope t.scope scope)) [
  | inl e ↦ rw e (sym (matches_scope-eq t.scope scope e), in_scope scope tasks)
  | inr e ↦ rw e (in_scope scope tasks)
]

-- Every task in a list that a user gets, whatever scope it asks for, is of the user's own scope.
pub list_tasks_own :
    (actor scope : Scope) (state : ApiStore) (tasks : List SchedulingTask)
    → list_tasks (user actor) scope state ≡ ok tasks
    → All (λ (t : SchedulingTask). actor ≡ t.scope) tasks
unfolding list_tasks
list_tasks_own actor scope state tasks h =
    let (allowed, access, h') = >>=-eq-ok (assert_can_access (user actor) scope) _ h in
    subst (All (λ (t : SchedulingTask). actor ≡ t.scope)) (ok-injective h')
      (rw (assert_can_access-eq actor scope access) (in_scope scope state.tasks))
