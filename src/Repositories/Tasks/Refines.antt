-- ===== src/Repositories/Tasks/Refines.antt =====
-- src/repositories.ts: the repository of tasks against a map from scopes and ids to tasks.
use scheduleos.Base.{
  ◌≡◌, refl, sym, ◌∙◌, ap, subst, ◌≤◌, ℕ, suc, Bool, true, false, ◌&&◌, not, ◌==◌, List, [], ◌∷◌,
  Option, none, some, ok, err, if◌then◌else◌, filter, find, length, String, str_eq, eq_iff, arith,
  Bool-cases, inl, inr,
}
use scheduleos.Domain.{Scope, SchedulingTask}
use scheduleos.Repositories.{ApiStore, system, Outcome, matches_scope}
use scheduleos.Repositories.Access.{matches_scope_refl, matches_scope-eq}
use scheduleos.Repositories.Tables.{
  or_not_found, find-put, find-put_other, find-filter-none, find-filter_kept,
}
use scheduleos.Repositories.Tasks.{is_task, upsert_task, get_task, delete_task}
use scheduleos.Repositories.Tasks.Lookup.{both-true, apart}

-- A change that the system makes.
pub data TaskCommand : Type 0 where
  upsert : SchedulingTask → TaskCommand
  remove : Scope → String → TaskCommand

-- The store that a change leaves; a refused one leaves it as it was.
abbrev pub left_by {ℓ} : {A : Type ℓ} → ApiStore → Outcome A → ApiStore
left_by store (ok done) = done.1
left_by store (err thrown) = store

unfoldable pub apply_command : TaskCommand → ApiStore → ApiStore
apply_command (upsert task) store = left_by store (upsert_task system task store)
apply_command (remove scope id) store = left_by store (delete_task system scope id store)

unfoldable pub apply_all : List TaskCommand → ApiStore → ApiStore
apply_all [] store = store
apply_all (command ∷ commands) store = apply_all commands (apply_command command store)

-- What the repository stands for: a task, or none, under every scope and id.
abbrev pub TaskMap : Type 0
TaskMap = Scope → String → Option SchedulingTask

abbrev pub is_key : Scope → String → Scope → String → Bool
is_key scope id scope' id' = matches_scope scope scope' && str_eq id id'

unfoldable pub map_command : TaskCommand → TaskMap → TaskMap
map_command (upsert task) tasks scope id =
    if is_key task.scope task.id scope id then some task else tasks scope id
map_command (remove scope id) tasks scope' id' =
    if is_key scope id scope' id' then none else tasks scope' id'

unfoldable pub map_all : List TaskCommand → TaskMap → TaskMap
map_all [] tasks = tasks
map_all (command ∷ commands) tasks = map_all commands (map_command command tasks)

abbrev pub map_of : ApiStore → TaskMap
map_of store scope id = find (is_task scope id) store.tasks

module _ {A : Type 0} (q : A → Bool) where
  filter-length : (xs : List A) → length (filter q xs) ≤ length xs
  filter-length [] = omega arith
  filter-length (x ∷ xs) =
      let rest = filter-length xs in
      elim (Bool-cases (q x)) [
        | inl e ↦ rw e (omega (arith, rest))
        | inr e ↦ rw e (omega (arith, rest))
      ]

  -- A filter that drops nothing leaves the list.
  filter-same : (xs : List A) → length (filter q xs) ≡ length xs → filter q xs ≡ xs
  filter-same [] h = refl
  filter-same (x ∷ xs) h = elim (Bool-cases (q x)) [
    | inl e ↦
        let h' : suc (length (filter q xs)) ≡ suc (length xs) = rw e at h in
        rw e (ap (λ ys. x ∷ ys) (filter-same xs (omega (arith, h'))))
    | inr e ↦
        let h' : length (filter q xs) ≡ suc (length xs) = rw e at h in
        absurd (omega (arith, h', filter-length xs))
  ]

same_length : (a b : ℕ) → (a == b) ≡ true → a ≡ b
same_length a b h = ground arith

key-eq :
    (scope scope' : Scope) (id id' : String)
    → is_key scope id scope' id' ≡ true
    → (scope ≡ scope') × (id ≡ id')
key-eq scope scope' id id' h =
    let (s, i) = both-true (matches_scope scope scope') (str_eq id id') h in
    (matches_scope-eq scope scope' s, (eq_iff id id').0 i)

upsert-map :
    (task : SchedulingTask) (store : ApiStore) (scope : Scope) (id : String)
    → map_of (apply_command (upsert task) store) scope id
      ≡ map_command (upsert task) (map_of store) scope id
unfolding apply_command map_command upsert_task
upsert-map task store scope id = elim (Bool-cases (is_key task.scope task.id scope id)) [
  | inl e ↦
      let (s, i) = key-eq task.scope scope task.id id e in
      rw e (
        find-put (is_task scope id) (is_task task.scope task.id) task store.tasks e (λ x k.
          subst (λ (y : Scope × String). is_task y.0 y.1 x ≡ true) (pair (sym s) (sym i)) k))
  | inr e ↦ rw e (
      find-put_other (is_task scope id) (is_task task.scope task.id) task store.tasks e
        (apart task scope id e))
]
  where
    pair : {a b : Scope} {i j : String} → a ≡ b → i ≡ j → ◌≡◌ {A = Scope × String} (a, i) (b, j)
    pair e k = cc

-- Taking out the tasks of a scope and id, in the list.
removed-map :
    (scope scope' : Scope) (id id' : String) (tasks : List SchedulingTask)
    → find (is_task scope' id') (filter (λ task. not (is_task scope id task)) tasks)
      ≡ (if is_key scope id scope' id' then none else find (is_task scope' id') tasks)
removed-map scope scope' id id' tasks = elim (Bool-cases (is_key scope id scope' id')) [
  | inl e ↦
      let (s, i) = key-eq scope scope' id id' e in
      rw e (
        find-filter-none (is_task scope' id') (λ task. not (is_task scope id task)) tasks
          (λ x k.
            rw (subst (λ (y : Scope × String). is_task y.0 y.1 x ≡ true) (pair (sym s) (sym i)) k)
              refl))
  | inr e ↦ rw e (
      find-filter_kept (is_task scope' id') (λ task. not (is_task scope id task)) tasks
        (λ x k. elim (Bool-cases (is_task scope id x)) [
          | inr m ↦ rw m refl
          | inl m ↦
              let (s₁, i₁) = both-true (matches_scope x.scope scope) (str_eq x.id id) m in
              let (s₂, i₂) = both-true (matches_scope x.scope scope') (str_eq x.id id') k in
              let scopes =
                sym (matches_scope-eq x.scope scope s₁) ∙ matches_scope-eq x.scope scope' s₂ in
              let ids = sym ((eq_iff x.id id).0 i₁) ∙ (eq_iff x.id id').0 i₂ in
              absurd (
                differ
                  (subst (λ (y : Scope × String). is_key scope id y.0 y.1 ≡ true) (pair scopes ids)
                    (key_refl scope id))
                  e)
        ]))
]
  where
    pair : {a b : Scope} {i j : String} → a ≡ b → i ≡ j → ◌≡◌ {A = Scope × String} (a, i) (b, j)
    pair e k = cc

    key_refl : (s : Scope) (i : String) → is_key s i s i ≡ true
    key_refl s i = rw (matches_scope_refl s, (eq_iff i i).1 refl) refl

    differ : {b : Bool} → b ≡ true → b ≡ false → ⊥
    differ e k = cc

remove-map :
    (scope : Scope) (id : String) (store : ApiStore) (scope' : Scope) (id' : String)
    → map_of (apply_command (remove scope id) store) scope' id'
      ≡ map_command (remove scope id) (map_of store) scope' id'
unfolding apply_command map_command delete_task
remove-map scope id store scope' id' =
    let kept = λ (task : SchedulingTask). not (is_task scope id task) in
    let removed = removed-map scope scope' id id' store.tasks in
    elim (Bool-cases (length (filter kept store.tasks) == length store.tasks)) [
      | inr e ↦ rw e removed
      | inl e ↦
          let same = filter-same kept store.tasks (same_length _ _ e) in
          rw e (ap (find (is_task scope' id')) (sym same) ∙ removed)
    ]

map_command-same :
    (command : TaskCommand) (tasks tasks' : TaskMap)
    → ((s : Scope) (i : String) → tasks s i ≡ tasks' s i)
    → (s : Scope) (i : String) → map_command command tasks s i ≡ map_command command tasks' s i
unfolding map_command
map_command-same (upsert task) tasks tasks' h s i =
    elim (Bool-cases (is_key task.scope task.id s i)) [ inl e ↦ rw e refl | inr e ↦ rw e (h s i) ]
map_command-same (remove scope id) tasks tasks' h s i = elim (Bool-cases (is_key scope id s i)) [
  | inl e ↦ rw e refl
  | inr e ↦ rw e (h s i)
]

map_all-same :
    (commands : List TaskCommand) (tasks tasks' : TaskMap)
    → ((s : Scope) (i : String) → tasks s i ≡ tasks' s i)
    → (s : Scope) (i : String) → map_all commands tasks s i ≡ map_all commands tasks' s i
unfolding map_all
map_all-same [] tasks tasks' h = h
map_all-same (command ∷ commands) tasks tasks' h =
    map_all-same commands (map_command command tasks) (map_command command tasks')
      (map_command-same command tasks tasks' h)

map_of-command :
    (command : TaskCommand) (store : ApiStore) (s : Scope) (i : String)
    → map_of (apply_command command store) s i ≡ map_command command (map_of store) s i
map_of-command (upsert task) store s i = upsert-map task store s i
map_of-command (remove scope id) store s i = remove-map scope id store s i

map_of-all :
    (commands : List TaskCommand) (store : ApiStore) (s : Scope) (i : String)
    → map_of (apply_all commands store) s i ≡ map_all commands (map_of store) s i
unfolding apply_all map_all
map_of-all [] store s i = refl
map_of-all (command ∷ commands) store s i =
    map_of-all commands (apply_command command store) s i
    ∙ map_all-same commands (map_of (apply_command command store))
        (map_command command (map_of store)) (map_of-command command store) s i

-- After any sequence of changes that the system makes, the repository answers as a map from scopes
-- and ids to tasks does, in which an upsert sets one entry and a deletion empties one, and which
-- starts as what the repository held.
pub get_task-apply_all :
    (commands : List TaskCommand) (store : ApiStore) (scope : Scope) (id : String)
    → get_task system scope id (apply_all commands store)
      ≡ or_not_found "Task not found." (map_all commands (map_of store) scope id)
unfolding get_task
get_task-apply_all commands store scope id =
    ap (or_not_found "Task not found.") (map_of-all commands store scope id)
