-- ===== src/Api/Writeback/Written.antt =====
-- src/api.ts: the events that a writeback stores, and those it must not overlap.
use scheduleos.Base.{
  filter, >>=-eq-ok, ◌≡◌, refl, sym, ◌∙◌, ap, subst, Bool, true, false, not, List, [], ◌∷◌, Option,
  ok, ok-injective, String, All,
}
use scheduleos.Domain.{Scope, CalendarEvent, SchedulePlan, PlanStatus}
use scheduleos.Repositories.{ApiStore, RepositoryActor, matches_scope, assert_can_access}
use scheduleos.Repositories.Access.{matches_scope-eq}
use scheduleos.Repositories.Plans.{get_plan}
use scheduleos.Repositories.Tasks.{list_tasks, list_for_schedule}
use scheduleos.Api.{Response}
use scheduleos.Api.Handlers.{continue-ok, check, query, throw_if, check-ok, query-ok, throw_if-ok}
use scheduleos.Api.Access.{AuthPrincipal, repository_actor, assert_authorized}
use scheduleos.Api.Overlap.{CalendarWritebackConflict, calendar_writeback_conflicts}
use scheduleos.Api.Overlap.Clear.{Disjoint}
use scheduleos.Api.Writeback.Stored.{last_with, event_at, upsert_calendar_events-event_at}
use scheduleos.Api.Writeback.Events.{
  Becomes, accepted_blocks-Becomes, Blocks, no_conflicts-Disjoint,
}
use scheduleos.Api.Writeback.{
  CalendarWritebackRequest, UpsertCounts, accepted_plan_blocks_to_calendar_events, existing_events,
  is_accepted_plan, is_nonempty, planned_writeback, upsert_calendar_events, write_back,
}

-- What a writeback that returns has read, made and stored.
pub record Written (principal : Option AuthPrincipal) (request : CalendarWritebackRequest)
    (plan_id : String) (store store' : ApiStore) (written : List CalendarEvent) : Type 0 where
  pub plan : SchedulePlan
  pub read : get_plan (repository_actor principal) plan_id store ≡ ok plan
  pub scope : plan.scope ≡ request.scope
  pub accepted : plan.status ≡ PlanStatus.accepted
  pub writable : request.read_only ≡ false
  pub made : Becomes request plan.blocks written
  pub clear :
      All
        (λ event. Blocks request written event → All (λ w. Disjoint w event) written)
        store.calendar_events
  pub stored :
      (id : String)
      → event_at request.scope id store' ≡ last_with id written (event_at request.scope id store)

-- The events that are listed are those of the scope.
list_for_schedule-eq :
    (actor : RepositoryActor) (scope : Scope) (store : ApiStore) (events : List CalendarEvent)
    → list_for_schedule actor scope store ≡ ok events
    → filter (λ (event : CalendarEvent). matches_scope event.scope scope) store.calendar_events
      ≡ events
unfolding list_for_schedule
list_for_schedule-eq actor scope store events h =
    let (allowed, access, h₁) = >>=-eq-ok (assert_can_access actor scope) _ h in ok-injective h₁

is_accepted_plan-eq : (s : PlanStatus) → not (is_accepted_plan s) ≡ false → s ≡ PlanStatus.accepted
is_accepted_plan-eq PlanStatus.accepted h = refl
is_accepted_plan-eq PlanStatus.proposed h = cc
is_accepted_plan-eq PlanStatus.rejected h = cc
is_accepted_plan-eq PlanStatus.failed h = cc

not-false : (b : Bool) → not b ≡ false → b ≡ true
not-false true h = refl
not-false false h = cc

is_nonempty-false : {A : Type 0} (xs : List A) → is_nonempty xs ≡ false → xs ≡ []
is_nonempty-false [] h = refl
is_nonempty-false (x ∷ xs) h = cc

-- What the events and conflicts of a plan come from.
record Planned (actor : RepositoryActor) (request : CalendarWritebackRequest) (plan_id : String)
    (store middle : ApiStore) (candidates : List CalendarEvent)
    (conflicts : List CalendarWritebackConflict) : Type 0 where
  plan : SchedulePlan
  read : get_plan actor plan_id store ≡ ok plan
  scope : plan.scope ≡ request.scope
  accepted : plan.status ≡ PlanStatus.accepted
  events : List CalendarEvent
  listed : list_for_schedule actor request.scope store ≡ ok events
  made : Becomes request plan.blocks candidates
  found :
      calendar_writeback_conflicts candidates (existing_events request candidates events)
      ≡ ok conflicts
  same : middle ≡ store

planned_writeback-Planned :
    (sanitize_id : String → String) (actor : RepositoryActor) (request : CalendarWritebackRequest)
    (plan_id message : String) (store middle : ApiStore) (candidates : List CalendarEvent)
    (conflicts : List CalendarWritebackConflict)
    → planned_writeback sanitize_id actor request plan_id message store
      ≡ (ok (candidates, conflicts), middle)
    → Planned actor request plan_id store middle candidates conflicts
unfolding planned_writeback
planned_writeback-Planned sanitize_id actor request plan_id message store middle candidates
      conflicts h =
    let (plan, s₁, r₁, h₁) = continue-ok (query (get_plan actor plan_id) store) _ h in
    let (read, e₁) = query-ok (get_plan actor plan_id) store s₁ r₁ in
    let (t₂, s₂, r₂, h₂) =
      continue-ok (throw_if (not (matches_scope plan.scope request.scope)) _ s₁) _ h₁ in
    let (within, e₂) = throw_if-ok _ _ s₁ s₂ r₂ in
    let (t₃, s₃, r₃, h₃) = continue-ok (throw_if (not (is_accepted_plan plan.status)) _ s₂) _ h₂ in
    let (status, e₃) = throw_if-ok _ _ s₂ s₃ r₃ in
    let (tasks, s₄, r₄, h₄) = continue-ok (query (list_tasks actor request.scope) s₃) _ h₃ in
    let (_, e₄) = query-ok (list_tasks actor request.scope) s₃ s₄ r₄ in
    let (events, s₅, r₅, h₅) =
      continue-ok (query (list_for_schedule actor request.scope) s₄) _ h₄ in
    let (listed, e₅) = query-ok (list_for_schedule actor request.scope) s₄ s₅ r₅ in
    let made = accepted_plan_blocks_to_calendar_events sanitize_id plan tasks request in
    let (found, s₆, r₆, h₆) =
      continue-ok
        (check (calendar_writeback_conflicts made (existing_events request made events)) s₅) _ h₅ in
    let (conflicts_are, e₆) = check-ok _ s₅ s₆ r₆ in
    let at_store : s₄ ≡ store = e₄ ∙ e₃ ∙ e₂ ∙ e₁ in
    let value : (made, found) ≡ (candidates, conflicts) =
      ok-injective
        (ap (λ (x : Response (List CalendarEvent × List CalendarWritebackConflict)). x.0) h₆) in
    subst
      (λ (v : List CalendarEvent × List CalendarWritebackConflict).
        Planned actor request plan_id store middle v.0 v.1)
      value
      (record {
        plan = plan;
        read = read;
        scope = matches_scope-eq plan.scope request.scope (not-false _ within);
        accepted = is_accepted_plan-eq plan.status status;
        events = events;
        listed =
            subst (λ (x : ApiStore). list_for_schedule actor request.scope x ≡ ok events) at_store
              listed;
        made = accepted_blocks-Becomes sanitize_id plan tasks request;
        found = conflicts_are;
        same =
            sym
              (ap (λ (x : Response (List CalendarEvent × List CalendarWritebackConflict)). x.1) h₆)
            ∙ e₆
            ∙ e₅
            ∙ at_store;
      })

-- A writeback that returns has read a plan that its principal may read, of the requested scope and
-- accepted, for a calendar that is not read-only. Its events are one for each block of the plan that is
-- accepted or locked, at the block's time in that calendar. None of them has an instant in common with
-- an event that the store held of that scope and calendar, neither cancelled nor free, with an id that
-- none of them has. In the store that it leaves an id of the scope leads to the last of its events with
-- that id, and otherwise to what it led to before.
pub write_back-Written :
    (sanitize_id : String → String) (principal : Option AuthPrincipal)
    (request : CalendarWritebackRequest) (plan_id : String) (store store' : ApiStore)
    (written : List CalendarEvent) (counts : UpsertCounts)
    → write_back sanitize_id principal request plan_id store ≡ (ok (written, counts), store')
    → Written principal request plan_id store store' written
unfolding write_back
write_back-Written sanitize_id principal request plan_id store store' written counts h =
    let actor = repository_actor principal in
    let (u₁, s₁, r₁, h₁) =
      continue-ok (check (assert_authorized principal request.scope) store) _ h in
    let (_, e₁) = check-ok (assert_authorized principal request.scope) store s₁ r₁ in
    let (u₂, s₂, r₂, h₂) = continue-ok (throw_if request.read_only _ s₁) _ h₁ in
    let (writable, e₂) = throw_if-ok request.read_only _ s₁ s₂ r₂ in
    let (planned, s₃, r₃, h₃) =
      continue-ok (planned_writeback sanitize_id actor request plan_id _ s₂) _ h₂ in
    let (u₄, s₄, r₄, h₄) = continue-ok (throw_if (is_nonempty planned.1) _ s₃) _ h₃ in
    let (empty, e₄) = throw_if-ok (is_nonempty planned.1) _ s₃ s₄ r₄ in
    let (upserted, s₅, r₅, h₅) =
      continue-ok (upsert_calendar_events actor request.scope planned.0 (0, 0) s₄) _ h₄ in
    let value : planned.0 ≡ written =
      ap (λ (x : List CalendarEvent × UpsertCounts). x.0)
        (ok-injective (ap (λ (x : Response (List CalendarEvent × UpsertCounts)). x.0) h₅)) in
    let p =
      planned_writeback-Planned sanitize_id actor request plan_id _ s₂ s₃ planned.0 planned.1 r₃ in
    let at_store : s₂ ≡ store = e₂ ∙ e₁ in
    let events_of_scope = list_for_schedule-eq actor request.scope s₂ p.events p.listed in
    let last : s₅ ≡ store' = ap (λ (x : Response (List CalendarEvent × UpsertCounts)). x.1) h₅ in
    let before : s₄ ≡ store = e₄ ∙ p.same ∙ at_store in
    subst (Written principal request plan_id store store') value (record {
      plan = p.plan;
      read = subst (λ (x : ApiStore). get_plan actor plan_id x ≡ ok p.plan) at_store p.read;
      scope = p.scope;
      accepted = p.accepted;
      writable = writable;
      made = p.made;
      clear =
          subst
            (λ (x : ApiStore).
              All (λ event. Blocks request planned.0 event → All (λ w. Disjoint w event) planned.0)
                x.calendar_events)
            at_store
            (no_conflicts-Disjoint request planned.0 s₂.calendar_events (
              subst
                (λ es.
                  calendar_writeback_conflicts planned.0 (existing_events request planned.0 es)
                  ≡ ok [])
                (sym events_of_scope) (p.found ∙ ap ok (is_nonempty-false planned.1 empty))));
      stored = λ id.
          ap (event_at request.scope id) (sym last)
          ∙ upsert_calendar_events-event_at actor request.scope planned.0 (0, 0) upserted s₄ s₅ id
              r₅
          ∙ ap (λ x. last_with id planned.0 (event_at request.scope id x)) before;
    })
