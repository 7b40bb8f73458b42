-- ===== src/Scheduler/Order/Distinct.antt =====
-- src/scheduler.ts: which tasks `orderTasksForScheduling` returns.
use scheduleos.Base.{
  ◌≡◌, ◌≢◌, refl, inl, inr, ℕ, zero, suc, true, false, not, List, [], ◌∷◌, ◌++◌, Option, some, All,
  Any, Pairwise, arith, Bool-cases, Option-cases, subst, sym, ◌∙◌, String, str_eq, eq_iff, filter,
  ok, >>=-eq-ok, length, All-append, All-imp, Any-append_left, Any-append_right, sort_by_throwing,
  sort_by_throwing-perm, All-perm, Permᴰ,
}
use mathlib.Core.List.Permᴰ
use scheduleos.Domain.{SchedulingTask}
use scheduleos.Scheduler.Order.{
  Visits, fresh, enter, leave, has, task_by_id, each, visit_if_there, visit, visit_each,
  compare_tasks, order_tasks_for_scheduling,
}
use scheduleos.Scheduler.Order.Rule.{VisitRule, each_ind, visit_ind}

has-filter_ne :
    (ids : List String) (id removed : String)
    → str_eq id removed ≡ false
    → has (filter (λ i. not (str_eq i removed)) ids) id ≡ has ids id
has-filter_ne [] id removed h = refl
has-filter_ne (i ∷ ids) id removed h =
    ground (arith, has-filter_ne ids id removed h, eq_iff i removed, eq_iff id i, eq_iff id removed)

filter-same :
    (ids : List String) (removed : String)
    → has ids removed ≡ false
    → filter (λ i. not (str_eq i removed)) ids ≡ ids
filter-same [] removed h = refl
filter-same (i ∷ ids) removed h =
    ground (arith, filter-same ids removed, eq_iff i removed, eq_iff removed i)

-- An id that is being visited and was not visited before.
abbrev pub Pending : String → Visits → Type 0
Pending id s = (has s.visiting id ≡ true) × (has s.visited id ≡ false)

abbrev pub KeepsPending : Visits → Visits → Type 0
KeepsPending s t = (id : String) → Pending id s → Pending id t

-- The ids of the ordered tasks differ, and have been visited.
abbrev pub IsDistinct : Visits → Type 0
IsDistinct s =
    Pairwise (λ (a b : SchedulingTask). a.id ≢ b.id) s.ordered
    × All (λ (t : SchedulingTask). has s.visited t.id ≡ true) s.ordered

-- Each visited id is that of an ordered task.
abbrev pub IsCovered : Visits → Type 0
IsCovered s = All (λ id. Any (λ (t : SchedulingTask). t.id ≡ id) s.ordered) s.visited

pub record Effect (K : SchedulingTask → Type 0) (s t : Visits) : Type 0 where
  pending : KeepsPending s t
  distinct : IsDistinct s → IsDistinct t
  covered : IsCovered s → IsCovered t
  taken : All K s.ordered → All K t.ordered
  pub restored : t.visiting ≡ s.visiting
  kept : (id : String) → has s.visited id ≡ true → has t.visited id ≡ true

Pairwise-snoc {ℓ} :
    {A : Type ℓ} (R : A → A → Type 0) (xs : List A) (y : A)
    → Pairwise R xs
    → All (λ x. R x y) xs
    → Pairwise R (xs ++ y ∷ [])
Pairwise-snoc R [] y h k = (tt, tt)
Pairwise-snoc R (x ∷ xs) y h k =
    (All-append (R x) xs (y ∷ []) h.0 (k.0, tt), Pairwise-snoc R xs y h.1 k.1)

module _ (K : SchedulingTask → Type 0) (task : SchedulingTask) (s t : Visits)
    (new : has s.visited task.id ≡ false) (entered : has s.visiting task.id ≡ false)
    (inside : Effect K (enter task s) t) where
  own-Pending : Pending task.id t
  own-Pending = inside.pending task.id (ground (arith, eq_iff task.id task.id), new)

  leave-pending : KeepsPending s (leave task t)
  leave-pending id h =
      let other : str_eq id task.id ≡ false = ground (arith, eq_iff id task.id, h.0) in
      let k = inside.pending id (ground (arith, h.0), h.1) in
      (rw (has-filter_ne t.visiting id task.id other) k.0, rw other k.1)

  leave-IsDistinct : IsDistinct s → IsDistinct (leave task t)
  leave-IsDistinct h =
      let k = inside.distinct h in
      let visited =
        All-imp (λ (u : SchedulingTask). has t.visited u.id ≡ true)
          (λ (u : SchedulingTask). has (task.id ∷ t.visited) u.id ≡ true) t.ordered
          (λ u e. ground (arith, e)) k.1 in
      (
        Pairwise-snoc (λ (a b : SchedulingTask). a.id ≢ b.id) t.ordered task k.0
            (All-imp (λ (u : SchedulingTask). has t.visited u.id ≡ true)
              (λ (u : SchedulingTask). u.id ≢ task.id) t.ordered
              (λ u e same. apart u e same own-Pending.1) k.1),
        All-append (λ (u : SchedulingTask). has (task.id ∷ t.visited) u.id ≡ true) t.ordered
            (task ∷ []) visited (ground (arith, eq_iff task.id task.id), tt),
      )
    where
      apart :
          (u : SchedulingTask)
          → has t.visited u.id ≡ true
          → u.id ≡ task.id
          → has t.visited task.id ≡ false
          → ⊥
      apart u e same f =
          let e' : has t.visited task.id ≡ true = subst (λ id. has t.visited id ≡ true) same e in cc

  leave-IsCovered : IsCovered s → IsCovered (leave task t)
  leave-IsCovered h = (
    Any-append_right (λ (u : SchedulingTask). u.id ≡ task.id) t.ordered (task ∷ []) (inl refl),
    All-imp (λ id. Any (λ (u : SchedulingTask). u.id ≡ id) t.ordered)
        (λ id. Any (λ (u : SchedulingTask). u.id ≡ id) (t.ordered ++ task ∷ [])) t.visited
        (λ id a. Any-append_left (λ (u : SchedulingTask). u.id ≡ id) t.ordered (task ∷ []) a)
        (inside.covered h),
  )

  leave-restored : (leave task t).visiting ≡ s.visiting
  leave-restored =
      rw inside.restored
        (ground (arith, filter-same s.visiting task.id entered, eq_iff task.id task.id))

  leave-Effect : K task → Effect K s (leave task t)
  leave-Effect k = record {
    pending = leave-pending;
    distinct = leave-IsDistinct;
    covered = leave-IsCovered;
    taken = λ h. All-append K t.ordered (task ∷ []) (inside.taken h) (k, tt);
    restored = leave-restored;
    kept = λ id h. ground (arith, inside.kept id h);
  }

Effect-rule : (K : SchedulingTask → Type 0) → VisitRule K (Effect K)
Effect-rule K = record {
  stay = λ s. record {
    pending = λ id h. h;
    distinct = λ h. h;
    covered = λ h. h;
    taken = λ h. h;
    restored = refl;
    kept = λ id h. h;
  };
  chain = λ s t u a b. record {
    pending = λ id h. b.pending id (a.pending id h);
    distinct = λ h. b.distinct (a.distinct h);
    covered = λ h. b.covered (a.covered h);
    taken = λ h. b.taken (a.taken h);
    restored = b.restored ∙ a.restored;
    kept = λ id h. b.kept id (a.kept id h);
  };
  around = λ task s t k new entered inside. leave-Effect K task s t new entered inside k;
}

-- A visit at the top level ends with its task visited.
visit-visited :
    (tasks : List SchedulingTask) (fuel : ℕ) (task : SchedulingTask) (s t : Visits)
    → s.visiting ≡ []
    → visit tasks fuel task s ≡ some t
    → has t.visited task.id ≡ true
unfolding visit
visit-visited tasks zero task s t top e = cc
visit-visited tasks (suc fuel) task s t top e = elim (Bool-cases (has s.visited task.id)) [
  | inl old ↦ ground arith
  | inr new ↦ elim (Option-cases inside) [
    | inl stop ↦ absurd (ground arith)
    | inr (u, went) ↦ ground (arith, eq_iff task.id task.id)
  ]
]
  where
    inside : Option Visits
    inside =
        each (λ id. visit_if_there (visit tasks fuel) (task_by_id tasks id)) task.dependencies
          (enter task s)

module _ (K : SchedulingTask → Type 0) (tasks : List SchedulingTask) (known : All K tasks)
    (fuel : ℕ) where
  pub visit-Effect :
      (task : SchedulingTask) (s t : Visits)
      → K task
      → visit tasks fuel task s ≡ some t
      → Effect K s t
  visit-Effect task s t k e = visit_ind (Effect-rule K) tasks fuel task s t known k e

  each-Effect :
      (base : List SchedulingTask) (s t : Visits)
      → All K base
      → each (visit tasks fuel) base s ≡ some t
      → Effect K s t
  each-Effect base s t k e =
      each_ind (Effect-rule K) (visit tasks fuel) K (λ x s t k e. visit-Effect x s t k e) base s t k
        e

  each-visited :
      (base : List SchedulingTask) (s t : Visits)
      → s.visiting ≡ []
      → All K base
      → each (visit tasks fuel) base s ≡ some t
      → All (λ (x : SchedulingTask). has t.visited x.id ≡ true) base
  unfolding each
  each-visited [] s t top k e = tt
  each-visited (x ∷ base) s t top k e = elim (Option-cases (visit tasks fuel x s)) [
    | inl stop ↦ absurd (ground arith)
    | inr (u, went) ↦
        let e' = rw (went, each) at e in
        (
          (each-Effect base u t k.1 e').kept x.id (visit-visited tasks fuel x s u top went),
          each-visited base u t ((visit-Effect x s u k.0 went).restored ∙ top) k.1 e',
        )
  ]

-- What the order holds: of each id one task, all of them tasks of the input.
pub record IsOrdering (tasks ordered : List SchedulingTask) : Type 1 where
  pub distinct : Pairwise (λ (a b : SchedulingTask). a.id ≢ b.id) ordered
  pub complete :
      All (λ (t : SchedulingTask). Any (λ (u : SchedulingTask). u.id ≡ t.id) ordered) tasks
  pub taken : (K : SchedulingTask → Type 0) → All K tasks → All K ordered

has-Any :
    (P : String → Type 0) (ids : List String) (id : String) → All P ids → has ids id ≡ true → P id
has-Any P [] id h e = cc
has-Any P (i ∷ ids) id h e = elim (Bool-cases (str_eq id i)) [
  | inl same ↦ subst P (sym ((eq_iff id i).0 same)) h.0
  | inr other ↦ has-Any P ids id h.1 (ground arith)
]

All-known : {A : Type 0} (xs : List A) → All (λ _. Unit {0}) xs
All-known [] = tt
All-known (x ∷ xs) = (tt, All-known xs)

visit_each-IsOrdering :
    (tasks base : List SchedulingTask) (s : Visits)
    → Permᴰ tasks base
    → visit_each tasks base ≡ some s
    → IsOrdering tasks s.ordered
unfolding visit_each
visit_each-IsOrdering tasks base s perm e =
    let fuel = suc (length tasks) in
    let effect =
      each-Effect (λ _. Unit) tasks (All-known tasks) fuel base fresh s (All-known base) e in
    record {
      distinct = (effect.distinct (tt, tt)).0;
      complete =
          All-perm (λ (t : SchedulingTask). Any (λ (u : SchedulingTask). u.id ≡ t.id) s.ordered)
            (Permᴰ.symm perm)
            (All-imp (λ (x : SchedulingTask). has s.visited x.id ≡ true)
              (λ (t : SchedulingTask). Any (λ (u : SchedulingTask). u.id ≡ t.id) s.ordered) base
              (λ x h.
                has-Any (λ id. Any (λ (u : SchedulingTask). u.id ≡ id) s.ordered) s.visited x.id
                  (effect.covered tt) h)
              (each-visited (λ _. Unit) tasks (All-known tasks) fuel base fresh s refl
                (All-known base) e));
      taken = λ K known.
          (each-Effect K tasks known fuel base fresh s (All-perm K perm known) e).taken tt;
    }

-- The order that `orderTasksForScheduling` returns has one task for each id of the input, and
-- holds no task but the input's.
pub order_tasks-IsOrdering :
    (tasks ordered : List SchedulingTask)
    → order_tasks_for_scheduling tasks ≡ ok (some ordered)
    → IsOrdering tasks ordered
unfolding order_tasks_for_scheduling
order_tasks-IsOrdering tasks ordered e =
    let (base, sorted, e₁) = >>=-eq-ok (sort_by_throwing compare_tasks tasks) _ e in
    elim (Option-cases (visit_each tasks base)) [
      | inl stop ↦ absurd (ground arith)
      | inr (s, went) ↦ subst (IsOrdering tasks) (ground arith) (
          visit_each-IsOrdering tasks base s (sort_by_throwing-perm compare_tasks tasks sorted)
            went)
    ]
