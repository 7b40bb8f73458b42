-- ===== src/Api/Writeback/Stored.antt =====
-- src/api.ts: what the store holds once the events of a writeback are upserted.
use scheduleos.Base.{
  ◌≡◌, refl, sym, ◌∙◌, ap, subst, inl, inr, Bool, true, false, ◌&&◌, List, [], ◌∷◌, Option, some,
  Result, ok, err, ok-injective, >>=-eq-ok, if◌then◌else◌, find, String, str_eq, eq_iff, Bool-cases,
}
use scheduleos.Domain.{Scope, CalendarEvent}
use scheduleos.Repositories.{
  ApiStore, RepositoryActor, RepositoryError, matches_scope, assert_can_access,
}
use scheduleos.Repositories.Access.{matches_scope_refl, matches_scope-eq}
use scheduleos.Repositories.Tables.{put, find-put, find-put_other}
use scheduleos.Repositories.Tasks.{
  is_event, get_calendar_event, assert_calendar_event_scope, upsert_calendar_event,
}
use scheduleos.Api.{Response}
use scheduleos.Api.Handlers.{continue-ok, check, perform, check-ok, perform-ok}
use scheduleos.Api.Writeback.{UpsertCounts, counted_get, upsert_calendar_events}

-- The last of some events with an id, or what there was before.
abbrev pub last_with : String → List CalendarEvent → Option CalendarEvent → Option CalendarEvent
last_with id [] before = before
last_with id (event ∷ events) before =
    last_with id events (if str_eq event.id id then some event else before)

-- What is found under an id of a scope.
abbrev pub event_at : Scope → String → ApiStore → Option CalendarEvent
event_at scope id store = find (is_event scope id) store.calendar_events

in_scope :
    (event : CalendarEvent) (scope : Scope) {done : Unit {0}}
    → assert_calendar_event_scope event scope ≡ ok done
    → event.scope ≡ scope
unfolding assert_calendar_event_scope
in_scope event scope h = elim (Bool-cases (matches_scope event.scope scope)) [
  | inl e ↦ matches_scope-eq event.scope scope e
  | inr e ↦ absurd (refused (rw e at h))
]
  where
    refused :
        {e : RepositoryError} {u : Unit {0}}
        → ¬ (◌≡◌ {A = Result RepositoryError (Unit {0})} (err e) (ok u))
    refused k = cc

-- Whether an event is that of a scope and an id, where it is of a scope.
is_event-id :
    (scope : Scope) (id : String) (event : CalendarEvent)
    → event.scope ≡ scope
    → is_event scope id event ≡ str_eq event.id id
is_event-id scope id event e = rw (e, matches_scope_refl scope) refl

right-false : (a b : Bool) → b ≡ false → (a && b) ≡ false
right-false true b h = h
right-false false b h = refl

right-true : (a b : Bool) → (a && b) ≡ true → b ≡ true
right-true true b h = h
right-true false b h = cc

differ : {b : Bool} → b ≡ true → b ≡ false → ⊥
differ h k = cc

put-event_at :
    (event : CalendarEvent) (id : String) (events : List CalendarEvent)
    → find (is_event event.scope id) (put (is_event event.scope event.id) event events)
      ≡ (if str_eq event.id id then some event else find (is_event event.scope id) events)
put-event_at event id events = elim (Bool-cases (str_eq event.id id)) [
  | inl e ↦
      let same = (eq_iff event.id id).0 e in
      rw e (
        find-put (is_event event.scope id) (is_event event.scope event.id) event events
          (is_event-id event.scope id event refl ∙ e)
          (λ x k. subst (λ i. is_event event.scope i x ≡ true) (sym same) k))
  | inr e ↦ rw e (
      find-put_other (is_event event.scope id) (is_event event.scope event.id) event events
        (is_event-id event.scope id event refl ∙ e) (other e))
]
  where
    other :
        str_eq event.id id ≡ false
        → (x : CalendarEvent) → is_event event.scope id x ≡ true
        → is_event event.scope event.id x ≡ false
    other e x k = elim (Bool-cases (str_eq x.id event.id)) [
      | inr l ↦ right-false (matches_scope x.scope event.scope) (str_eq x.id event.id) l
      | inl l ↦
          let is_id = (eq_iff x.id id).0 (right-true (matches_scope x.scope event.scope) _ k) in
          let same : event.id ≡ id = sym ((eq_iff x.id event.id).0 l) ∙ is_id in
          absurd (differ ((eq_iff event.id id).1 same) e)
    ]

upsert-event_at :
    (actor : RepositoryActor) (scope : Scope) (event saved : CalendarEvent)
    (store store' : ApiStore) (id : String)
    → upsert_calendar_event actor event scope store ≡ ok (saved, store')
    → event_at scope id store'
      ≡ (if str_eq event.id id then some event else event_at scope id store)
unfolding upsert_calendar_event
upsert-event_at actor scope event saved store store' id h =
    let (allowed, access, h₁) = >>=-eq-ok (assert_can_access actor scope) _ h in
    let (matching, same, h₂) = >>=-eq-ok (assert_calendar_event_scope event scope) _ h₁ in
    let left = ap (λ (x : CalendarEvent × ApiStore). (x.1).calendar_events) (ok-injective h₂) in
    subst
      (λ s.
        find (is_event s id) store'.calendar_events
        ≡ (if str_eq event.id id then some event else find (is_event s id) store.calendar_events))
      (in_scope event scope same)
      (ap (find (is_event event.scope id)) (sym left) ∙ put-event_at event id store.calendar_events)

-- Where the loop over the events returns, an id leads to the last event with it, and otherwise to what
-- it led to before.
pub upsert_calendar_events-event_at :
    (actor : RepositoryActor) (scope : Scope) (events : List CalendarEvent)
    (counts counted : UpsertCounts) (store store' : ApiStore) (id : String)
    → upsert_calendar_events actor scope events counts store ≡ (ok counted, store')
    → event_at scope id store' ≡ last_with id events (event_at scope id store)
unfolding upsert_calendar_events
upsert_calendar_events-event_at actor scope [] counts counted store store' id h =
    ap (event_at scope id) (sym (ap (λ (x : Response UpsertCounts). x.1) h))
upsert_calendar_events-event_at actor scope (event ∷ events) counts counted store store' id h =
    let (counts', s₁, r₁, h₁) =
      continue-ok (check (counted_get (get_calendar_event actor scope event.id store) counts) store)
        _ h in
    let (_, e₁) = check-ok _ store s₁ r₁ in
    let (saved, s₂, r₂, h₂) =
      continue-ok (perform (upsert_calendar_event actor event scope) s₁) _ h₁ in
    let upserted = perform-ok (upsert_calendar_event actor event scope) s₁ s₂ r₂ in
    upsert_calendar_events-event_at actor scope events counts' counted s₂ store' id h₂
    ∙ ap (last_with id events) (
        upsert-event_at actor scope event saved s₁ s₂ id upserted
        ∙ ap (λ s. if str_eq event.id id then some event else event_at scope id s) e₁)
