-- ===== src/Api/Overlap.antt =====
-- src/api.ts: conflicts between the events of a plan and those of a calendar. The ids that a conflict
-- reads back from the external id of an event are left out, with that id.
pub mod Clear
use scheduleos.Base.{
  Bool, true, false, ◌&&◌, not, List, [], ◌∷◌, ◌++◌, Option, none, some, Result, ok, err, ◌>>=◌,
  ltb, leb, if◌then◌else◌, String,
}
use scheduleos.Domain.{Instant, Timestamp, iso, CalendarEvent, PrivacyLevel}
use scheduleos.Scheduler.Create.{is_cancelled, is_free}
use scheduleos.Api.{ApiError, validation_failed}

pub record CalendarWritebackConflict : Type 0 where
  pub proposed_event_id : String
  pub conflict_event_id : String
  pub conflict_title : String
  pub overlap_start : Instant
  pub overlap_end : Instant

unfoldable pub is_blocking_calendar_event : CalendarEvent → Bool
is_blocking_calendar_event event =
    not (is_cancelled event.status) && not (is_free event.busy_status)

unfoldable pub calendar_event_preview_title : CalendarEvent → String
calendar_event_preview_title event = elim event.privacy_level [
  | PrivacyLevel.public ↦ event.title
  | _ ↦ "Busy"
]

abbrev pub later : Instant → Instant → Instant
later a b = if ltb a b then b else a

abbrev pub earlier : Instant → Instant → Instant
earlier a b = if ltb b a then b else a

abbrev pub unreadable_event : ApiError
unreadable_event = validation_failed "Calendar event dates must be valid ISO timestamps."

-- The overlap of two times, each from a start to an end.
unfoldable pub overlap_of : Instant → Instant → Instant → Instant → Option (Instant × Instant)
overlap_of start end start' end' =
    let from = later start start' in
    let until = earlier end end' in if leb until from then none else some (from, until)

-- A date that cannot be read makes a bound that is not finite.
abbrev pub finite_date : Timestamp → Result ApiError Instant
finite_date (iso t) = ok t
finite_date Timestamp.malformed = err unreadable_event

unfoldable pub event_overlap :
    CalendarEvent → CalendarEvent → Result ApiError (Option (Instant × Instant))
event_overlap first second = do
  start ← finite_date first.start
  start' ← finite_date second.start
  end ← finite_date first.end
  end' ← finite_date second.end
  ok (overlap_of start end start' end')

abbrev pub conflict_of :
    CalendarEvent → CalendarEvent → Instant × Instant → CalendarWritebackConflict
conflict_of candidate existing overlap = record {
  proposed_event_id = candidate.id;
  conflict_event_id = existing.id;
  conflict_title = calendar_event_preview_title existing;
  overlap_start = overlap.0;
  overlap_end = overlap.1;
}

-- The conflict of two events, if there is one, before the others.
abbrev pub with_conflict :
    CalendarEvent
    → CalendarEvent
    → Option (Instant × Instant)
    → List CalendarWritebackConflict
    → List CalendarWritebackConflict
with_conflict candidate existing none conflicts = conflicts
with_conflict candidate existing (some overlap) conflicts =
    conflict_of candidate existing overlap ∷ conflicts

-- The inner loop, over the events that are there.
unfoldable pub conflicts_with :
    CalendarEvent → List CalendarEvent → Result ApiError (List CalendarWritebackConflict)
conflicts_with candidate [] = ok []
conflicts_with candidate (existing ∷ rest) = do
  overlap ← event_overlap candidate existing
  conflicts ← conflicts_with candidate rest
  ok (with_conflict candidate existing overlap conflicts)

unfoldable pub calendar_writeback_conflicts :
    List CalendarEvent → List CalendarEvent → Result ApiError (List CalendarWritebackConflict)
calendar_writeback_conflicts [] existing = ok []
calendar_writeback_conflicts (candidate ∷ candidates) existing = do
  first ← conflicts_with candidate existing
  rest ← calendar_writeback_conflicts candidates existing
  ok (first ++ rest)
