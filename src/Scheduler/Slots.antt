-- ===== src/Scheduler/Slots.antt =====
-- src/scheduler.ts: `findSlot` and the candidate slots that it builds in the gaps of a window.
pub mod Sound
pub mod Sorted
pub mod Best
use scheduleos.Base.{
  ◌+◌, ◌*◌, ◌==◌, ℕ, ◌≤◌, Bool, true, false, not, ◌&&◌, ◌||◌, List, [], ◌∷◌, ◌++◌, Option, none,
  some, ltb, leb, if◌then◌else◌, filter, any, flat_map, sort_by, compare, Ordering, ◌⊎◌,
}
use scheduleos.Domain.{Instant, Daypart}
use scheduleos.Scheduler.Dates.{minute_ms, max_date, min_date, daypart_start, daypart_end}

pub record BusyBlock : Type 0 where
  pub start : Instant
  pub end : Instant

-- The two blocks share no instant.
abbrev pub Disjoint : BusyBlock → BusyBlock → Type 0
Disjoint a b = (a.end ≤ b.start) ⊎ (b.end ≤ a.start)

abbrev pub compare_busy_blocks : BusyBlock → BusyBlock → Ordering
compare_busy_blocks a b = compare a.start b.start

-- The key of the source's set is the text of both ends: two slots share it if both ends agree.
abbrev same_key : BusyBlock → BusyBlock → Bool
same_key a b = a.start == b.start && a.end == b.end

dedupe_from : List BusyBlock → List BusyBlock → List BusyBlock
dedupe_from seen [] = []
dedupe_from seen (slot ∷ slots) =
    let skipped = dedupe_from seen slots in
    let kept = slot ∷ dedupe_from (slot ∷ seen) slots in
    if any (same_key slot) seen then skipped else kept

dedupe_slots : List BusyBlock → List BusyBlock
unfolding dedupe_from
dedupe_slots = dedupe_from []

abbrev slot_at : Instant → ℕ → BusyBlock
slot_at start duration_ms = record { start = start; end = start + duration_ms }

preferred_slots : Instant → Instant → ℕ → List Daypart → List BusyBlock
unfolding daypart_start
preferred_slots gap_start gap_end duration_ms [] = []
preferred_slots gap_start gap_end duration_ms (daypart ∷ dayparts) =
    let preferred_start = max_date gap_start (daypart_start gap_start daypart) in
    let rest = preferred_slots gap_start gap_end duration_ms dayparts in
    if leb (preferred_start + duration_ms) gap_end
    then slot_at preferred_start duration_ms ∷ rest
    else rest

build_candidate_slots : Instant → Instant → ℕ → List Daypart → List BusyBlock
unfolding dedupe_slots preferred_slots
build_candidate_slots gap_start gap_end duration_ms dayparts =
    filter (λ slot. leb slot.end gap_end)
      (dedupe_slots
        (slot_at gap_start duration_ms ∷ preferred_slots gap_start gap_end duration_ms dayparts))

unfoldable pub matches_preferred_daypart : List Daypart → BusyBlock → Bool
unfolding daypart_start daypart_end
matches_preferred_daypart dayparts slot =
    any
      (λ daypart.
        leb (daypart_start slot.start daypart) slot.start
        && leb slot.end (daypart_end slot.start daypart))
      dayparts

-- The sign of the number that the comparator returns.
compare_candidate_slots : List Daypart → BusyBlock → BusyBlock → Ordering
compare_candidate_slots dayparts a b =
    let a_preferred = matches_preferred_daypart dayparts a in
    let b_preferred = matches_preferred_daypart dayparts b in
    if a_preferred && not b_preferred
    then Ordering.lt
    else if not a_preferred && b_preferred
    then Ordering.gt
    else compare a.start b.start

-- The candidates of a gap that is long enough.
gap_slots : ℕ → List Daypart → Instant → Instant → List BusyBlock
gap_slots duration_ms dayparts cursor gap_end =
    if leb (cursor + duration_ms) gap_end
    then build_candidate_slots cursor gap_end duration_ms dayparts
    else []

module _ (window_end : Instant) (duration_ms : ℕ) (dayparts : List Daypart) where
  -- The inner loop over the busy blocks, and what follows it in the body of the outer loop.
  sweep : Instant → List BusyBlock → List BusyBlock
  unfolding gap_slots
  sweep cursor [] = gap_slots duration_ms dayparts cursor window_end
  sweep cursor (busy ∷ rest) =
      let skipped = sweep cursor rest in
      let cursor' = if ltb cursor busy.end then busy.end else cursor in
      let onward = sweep cursor' rest in
      if leb busy.end cursor || leb window_end busy.start
      then skipped
      else gap_slots duration_ms dayparts cursor busy.start
        ++ (if leb window_end cursor'
            then gap_slots duration_ms dayparts cursor' window_end
            else onward)

window_slots : List BusyBlock → ℕ → Instant → Instant → List Daypart → BusyBlock → List BusyBlock
unfolding sweep
window_slots busy_blocks duration_ms earliest latest dayparts window =
    let cursor = max_date window.start earliest in
    let window_end = min_date window.end latest in
    if leb window_end cursor then [] else sweep window_end duration_ms dayparts cursor busy_blocks

abbrev first : List BusyBlock → Option BusyBlock
first [] = none
first (slot ∷ _) = some slot

unfoldable pub find_slot :
    List BusyBlock → List BusyBlock → ℕ → Instant → Instant → List Daypart → Option BusyBlock
unfolding window_slots compare_candidate_slots build_candidate_slots matches_preferred_daypart
    sort_by
find_slot working_windows busy_blocks duration_minutes earliest latest dayparts = first (
    sort_by (compare_candidate_slots dayparts) (
      flat_map (window_slots busy_blocks (duration_minutes * minute_ms) earliest latest dayparts)
        working_windows))
