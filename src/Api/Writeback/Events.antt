-- ===== src/Api/Writeback/Events.antt =====
-- src/api.ts: the events that the blocks of a plan become, and the events that they must not overlap.
use scheduleos.Base.{
  ◌≡◌, ◌≢◌, refl, ◌⊎◌, inl, inr, Bool, true, false, ◌&&◌, not, List, [], ◌∷◌, ok, filter, map, any,
  All, All-imp, String, str_eq, eq_iff, Bool-cases,
}
use scheduleos.Domain.{
  SchedulingTask, CalendarEvent, CalendarStatus, BusyStatus, SchedulePlan, TimeBlock, BlockStatus,
}
use scheduleos.Scheduler.Create.{is_cancelled, is_free}
use scheduleos.Repositories.{matches_scope}
use scheduleos.Repositories.Access.{matches_scope_refl}
use scheduleos.Api.Overlap.{is_blocking_calendar_event, calendar_writeback_conflicts}
use scheduleos.Api.Overlap.Clear.{Clear, Disjoint, Clear-Disjoint, no_conflicts-Clear}
use scheduleos.Api.Writeback.{
  CalendarWritebackRequest, is_written, block_event, accepted_plan_blocks_to_calendar_events,
  existing_events,
}

-- An event of a calendar for a block, which takes the block's time.
pub record IsEventOf (request : CalendarWritebackRequest) (block : TimeBlock)
    (event : CalendarEvent) : Type 0 where
  pub scope : event.scope ≡ request.scope
  pub calendar : event.calendar_id ≡ request.calendar_id
  pub start : event.start ≡ block.start
  pub end : event.end ≡ block.end
  pub confirmed : event.status ≡ CalendarStatus.confirmed
  pub busy : event.busy_status ≡ BusyStatus.busy
  pub locked : event.locked ≡ block.locked

-- One event for each block that is accepted or locked, in their order, and no others.
pub data Becomes (request : CalendarWritebackRequest)
    : List TimeBlock → List CalendarEvent → Type 0 where
  no_blocks : Becomes request [] []
  becomes :
      {blocks : List TimeBlock} {events : List CalendarEvent} (block : TimeBlock)
      (event : CalendarEvent)
      → (block.status ≡ BlockStatus.accepted) ⊎ (block.status ≡ BlockStatus.locked)
      → IsEventOf request block event
      → Becomes request blocks events
      → Becomes request (block ∷ blocks) (event ∷ events)
  left_out :
      {blocks : List TimeBlock} {events : List CalendarEvent} (block : TimeBlock)
      → block.status ≢ BlockStatus.accepted
      → block.status ≢ BlockStatus.locked
      → Becomes request blocks events
      → Becomes request (block ∷ blocks) events

is_written-true :
    (s : BlockStatus) → is_written s ≡ true → (s ≡ BlockStatus.accepted) ⊎ (s ≡ BlockStatus.locked)
is_written-true BlockStatus.accepted h = inl refl
is_written-true BlockStatus.locked h = inr refl
is_written-true BlockStatus.proposed h = cc
is_written-true BlockStatus.completed h = cc
is_written-true BlockStatus.missed h = cc

is_written-false :
    (s : BlockStatus) → is_written s ≡ false → (s ≢ BlockStatus.accepted) × (s ≢ BlockStatus.locked)
is_written-false BlockStatus.accepted h = cc
is_written-false BlockStatus.locked h = cc
is_written-false BlockStatus.proposed h = (λ e. cc, λ e. cc)
is_written-false BlockStatus.completed h = (λ e. cc, λ e. cc)
is_written-false BlockStatus.missed h = (λ e. cc, λ e. cc)

module _ (sanitize_id : String → String) (plan : SchedulePlan) (tasks : List SchedulingTask)
    (request : CalendarWritebackRequest) where
  block_event-IsEventOf :
      (block : TimeBlock)
      → IsEventOf request block (block_event sanitize_id plan tasks request block)
  unfolding block_event
  block_event-IsEventOf block = record {
    scope = refl;
    calendar = refl;
    start = refl;
    end = refl;
    confirmed = refl;
    busy = refl;
    locked = refl;
  }

  events-Becomes :
      (blocks : List TimeBlock)
      → Becomes request blocks (
          map
            (block_event sanitize_id plan tasks request)
            (filter (λ (block : TimeBlock). is_written block.status) blocks))
  events-Becomes [] = no_blocks
  events-Becomes (block ∷ blocks) =
      let rest = events-Becomes blocks in
      elim (Bool-cases (is_written block.status)) [
        | inl e ↦
            rw e
              (becomes block _ (is_written-true block.status e) (block_event-IsEventOf block) rest)
        | inr e ↦ let no = is_written-false block.status e in rw e (left_out block no.0 no.1 rest)
      ]

  pub accepted_blocks-Becomes :
      Becomes request plan.blocks
        (accepted_plan_blocks_to_calendar_events sanitize_id plan tasks request)
  unfolding accepted_plan_blocks_to_calendar_events
  accepted_blocks-Becomes = events-Becomes plan.blocks

-- An event that a writeback must not overlap: it is of the scope and the calendar, is neither
-- cancelled nor free, and is none that the writeback replaces.
pub record Blocks (request : CalendarWritebackRequest) (written : List CalendarEvent)
    (event : CalendarEvent) : Type 0 where
  pub scope : event.scope ≡ request.scope
  pub calendar : event.calendar_id ≡ request.calendar_id
  pub not_cancelled : event.status ≢ CalendarStatus.cancelled
  pub not_free : event.busy_status ≢ BusyStatus.free
  pub stays : All (λ (w : CalendarEvent). w.id ≢ event.id) written

all-of_filter :
    (P : CalendarEvent → Type 0) (q : CalendarEvent → Bool) (xs : List CalendarEvent)
    → All P (filter q xs)
    → All (λ x. q x ≡ true → P x) xs
all-of_filter P q [] h = tt
all-of_filter P q (x ∷ xs) h = elim (Bool-cases (q x)) [
  | inl e ↦ let h' : P x × All P (filter q xs) = rw e at h in (λ k. h'.0, all-of_filter P q xs h'.1)
  | inr e ↦ (λ k. absurd (differ k e), all-of_filter P q xs (rw e at h))
]
  where
    differ : {b : Bool} → b ≡ true → b ≡ false → ⊥
    differ h k = cc

-- All of one list against all of another, the other way round.
swap-all :
    (P : CalendarEvent → CalendarEvent → Type 0) (xs ys : List CalendarEvent)
    → All (λ x. All (P x) ys) xs
    → All (λ y. All (λ x. P x y) xs) ys
swap-all P xs [] h = tt
swap-all P xs (y ∷ ys) h = (
  All-imp (λ x. All (P x) (y ∷ ys)) (λ x. P x y) xs (λ x k. k.0) h,
  swap-all P xs ys (All-imp (λ x. All (P x) (y ∷ ys)) (λ x. All (P x) ys) xs (λ x k. k.1) h),
)

none_of :
    (id : String) (written : List CalendarEvent)
    → All (λ (w : CalendarEvent). w.id ≢ id) written
    → any (λ (w : CalendarEvent). str_eq w.id id) written ≡ false
none_of id [] h = refl
none_of id (w ∷ written) h = elim (Bool-cases (str_eq w.id id)) [
  | inl e ↦ absurd (h.0 ((eq_iff w.id id).0 e))
  | inr e ↦ rw e (none_of id written h.1)
]

not_cancelled-false : (s : CalendarStatus) → s ≢ CalendarStatus.cancelled → is_cancelled s ≡ false
not_cancelled-false CalendarStatus.cancelled h = absurd (h refl)
not_cancelled-false CalendarStatus.confirmed h = refl
not_cancelled-false CalendarStatus.tentative h = refl

not_free-false : (s : BusyStatus) → s ≢ BusyStatus.free → is_free s ≡ false
not_free-false BusyStatus.free h = absurd (h refl)
not_free-false BusyStatus.busy h = refl
not_free-false BusyStatus.out_of_office h = refl
not_free-false BusyStatus.tentative_busy h = refl
not_free-false BusyStatus.unknown h = refl

-- Where no conflicts are found, no event that blocks has an instant in common with one that is written.
pub no_conflicts-Disjoint :
    (request : CalendarWritebackRequest) (written all : List CalendarEvent)
    → calendar_writeback_conflicts written (
        existing_events request written
          (filter (λ (event : CalendarEvent). matches_scope event.scope request.scope) all))
      ≡ ok []
    → All
        (λ (event : CalendarEvent).
          Blocks request written event → All (λ w. Disjoint w event) written)
        all
unfolding existing_events is_blocking_calendar_event
no_conflicts-Disjoint request written all h =
    let inner = λ (event : CalendarEvent).
      str_eq event.calendar_id request.calendar_id
      && (not (any (λ (candidate : CalendarEvent). str_eq candidate.id event.id) written)
          && is_blocking_calendar_event event) in
    let outer = λ (event : CalendarEvent). matches_scope event.scope request.scope in
    let P = λ (event : CalendarEvent). All (λ w. Clear w event) written in
    let found =
      swap-all Clear written (filter inner (filter outer all))
        (no_conflicts-Clear written (filter inner (filter outer all)) h) in
    let unfiltered =
      all-of_filter (λ event. inner event ≡ true → P event) outer all
        (all-of_filter P inner (filter outer all) found) in
    All-imp (λ event. outer event ≡ true → inner event ≡ true → P event) _ all
      (λ event k b.
        All-imp _ _ written (λ w clear. Clear-Disjoint w event clear)
          (k (rw (b.scope, matches_scope_refl request.scope) refl) (
            rw
              (
                (eq_iff event.calendar_id request.calendar_id).1 b.calendar,
                none_of event.id written b.stays,
                not_cancelled-false event.status b.not_cancelled,
                not_free-false event.busy_status b.not_free,
              )
              refl)))
      unfiltered
