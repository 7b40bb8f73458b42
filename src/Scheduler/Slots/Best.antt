-- ===== src/Scheduler/Slots/Best.antt =====
-- src/scheduler.ts: which slots `findSlot` finds.
use scheduleos.Base.{
  ◌≤◌, ◌<◌, ◌+◌, ◌*◌, ℕ, ◌≡◌, ◌⊎◌, inl, inr, List, [], ◌∷◌, none, some, arith, if◌then◌else◌, All,
  Any, Bool-cases, leb, ltb, leb→le, lt→leb, Any-flat_map, Any-and-All, All-of_sort_by, Pairwise,
  Decides, sort_by-Pairwise, subst, ◌≢◌, flat_map, Any-append_left, Any-append_right, true, false,
  ◌||◌,
}
use mathlib.Core.Option.{some-injective}
use scheduleos.Domain.{Instant, Daypart}
use scheduleos.Scheduler.Dates.{minute_ms, max_date, min_date}
use scheduleos.Scheduler.Slots.{
  BusyBlock, Disjoint, slot_at, dedupe_from, dedupe_slots, build_candidate_slots, gap_slots, sweep,
  window_slots, find_slot, compare_candidate_slots, matches_preferred_daypart, first,
}

abbrev NotLater : Instant → BusyBlock → Type 0
NotLater t s = s.start ≤ t

module _ (d : ℕ) (dayparts : List Daypart) (t : Instant) where
  -- The gap's own start is a candidate, and no filter takes it out.
  gap_slots-reaches :
      (cursor gap_end : Instant)
      → cursor + d ≤ gap_end
      → cursor ≤ t
      → Any (NotLater t) (gap_slots d dayparts cursor gap_end)
  unfolding gap_slots build_candidate_slots dedupe_slots dedupe_from
  gap_slots-reaches cursor gap_end fits early = ground arith

  module _ (window_end : Instant) (fits : t + d ≤ window_end) where
    -- Past a block that ends by `t` the cursor is still not beyond `t`.
    onward_reaches :
        (cursor' : Instant) (bs : List BusyBlock)
        → cursor' ≤ t
        → Any (NotLater t) (sweep window_end d dayparts cursor' bs)
        → Any (NotLater t) (
            if leb window_end cursor'
            then gap_slots d dayparts cursor' window_end
            else sweep window_end d dayparts cursor' bs)
    onward_reaches cursor' bs early h = elim (Bool-cases (leb window_end cursor')) [
      | inl stop ↦
          rw stop (gap_slots-reaches cursor' window_end (omega (arith, leb→le _ _ stop)) early)
      | inr more ↦ rw more h
    ]

    sweep-reaches :
        (cursor : Instant) (bs : List BusyBlock)
        → cursor ≤ t
        → All (Disjoint (slot_at t d)) bs
        → Any (NotLater t) (sweep window_end d dayparts cursor bs)
    unfolding sweep
    sweep-reaches cursor [] early free = gap_slots-reaches cursor window_end (omega arith) early
    sweep-reaches cursor (b ∷ bs) early free =
        elim (Bool-cases (leb b.end cursor || leb window_end b.start)) [
          | inl out ↦ rw out (sweep-reaches cursor bs early free.1)
          | inr meets ↦ rw meets (elim free.0 [
            | inl h ↦
                Any-append_left (NotLater t) _ _
                  (gap_slots-reaches cursor b.start (omega arith) early)
            | inr h ↦ Any-append_right (NotLater t) (gap_slots d dayparts cursor b.start) _ (
                onward_reaches (if ltb cursor b.end then b.end else cursor) bs (ground arith) (
                  sweep-reaches (if ltb cursor b.end then b.end else cursor) bs (ground arith)
                    free.1))
          ])
        ]

-- The slot of length `d` at `t` fits the window and the times, and meets no busy block.
pub record Feasible (busy : List BusyBlock) (d : ℕ) (earliest latest t : Instant) (w : BusyBlock)
    : Type 0 where
  pub opens : w.start ≤ t
  pub after : earliest ≤ t
  pub closes : t + d ≤ w.end
  pub before : t + d ≤ latest
  pub free : All (Disjoint (slot_at t d)) busy

module _ (busy : List BusyBlock) (d : ℕ) (earliest latest t : Instant) (dayparts : List Daypart)
    (positive : 0 < d) where
  window_slots-reaches :
      (w : BusyBlock)
      → Feasible busy d earliest latest t w
      → Any (NotLater t) (window_slots busy d earliest latest dayparts w)
  unfolding window_slots
  window_slots-reaches w f =
      let cursor : Instant = max_date w.start earliest in
      let window_end : Instant = min_date w.end latest in
      let early : cursor ≤ t = ground (arith, f.opens, f.after) in
      let fits : t + d ≤ window_end = ground (arith, f.closes, f.before) in
      rw (lt→leb window_end cursor (omega arith))
        (sweep-reaches d dayparts t window_end fits cursor busy early f.free)

-- The order of candidates: preferred ones first, then by start.
Better : List Daypart → BusyBlock → BusyBlock → Type 0
Better dayparts a b =
    (matches_preferred_daypart dayparts a ≡ true) × (matches_preferred_daypart dayparts b ≡ false)
    ⊎ (matches_preferred_daypart dayparts a ≡ matches_preferred_daypart dayparts b)
      × (a.start ≤ b.start)

compare_candidate_slots-Decides :
    (dayparts : List Daypart) → Decides (compare_candidate_slots dayparts) (Better dayparts)
unfolding Better compare_candidate_slots
compare_candidate_slots-Decides dayparts = record {
  trans = λ a b c h k. ground arith;
  before = λ a b h. ground arith;
  behind = λ a b h. ground arith;
}

Better-refl : (dayparts : List Daypart) (a : BusyBlock) → Better dayparts a a
unfolding Better
Better-refl dayparts a = ground arith

first-Better :
    (dayparts : List Daypart) (slots : List BusyBlock) (s : BusyBlock)
    → Pairwise (Better dayparts) slots
    → first slots ≡ some s
    → All (Better dayparts s) slots
first-Better dayparts [] s h e = tt
first-Better dayparts (x ∷ slots) s h e =
    subst (λ y. All (Better dayparts y) (x ∷ slots)) (some-injective _ _ e)
      (Better-refl dayparts x, h.0)

first-none : (slots : List BusyBlock) → first slots ≡ none → All (λ _. ⊥) slots
first-none [] e = tt
first-none (x ∷ slots) e = cc

module _ (windows busy : List BusyBlock) (minutes : ℕ) (earliest latest t : Instant)
    (dayparts : List Daypart) where
  abbrev Fits : Type 0
  Fits = Any (Feasible busy (minutes * minute_ms) earliest latest t) windows

  abbrev candidates : List BusyBlock
  candidates = flat_map (window_slots busy (minutes * minute_ms) earliest latest dayparts) windows

  candidates-reach : 0 < minutes → Fits → Any (NotLater t) candidates
  candidates-reach positive =
      Any-flat_map (NotLater t) (Feasible busy (minutes * minute_ms) earliest latest t)
        (window_slots busy (minutes * minute_ms) earliest latest dayparts) windows
        (window_slots-reaches busy (minutes * minute_ms) earliest latest t dayparts (omega arith))

  -- Where a slot of the asked length fits at some instant `t`, `findSlot` returns a slot.
  pub find_slot_complete :
      0 < minutes → Fits → find_slot windows busy minutes earliest latest dayparts ≢ none
  unfolding find_slot
  find_slot_complete positive fits e =
      let nothing =
        All-of_sort_by (λ _. ⊥) (compare_candidate_slots dayparts) candidates (first-none _ e) in
      let (x, early, none_left) =
        Any-and-All (NotLater t) (λ _. ⊥) candidates (candidates-reach positive fits) nothing in
      none_left

  -- A returned slot that lies in no preferred daypart is the earliest: no slot fits before it.
  pub find_slot-earliest :
      (s : BusyBlock)
      → 0 < minutes
      → Fits
      → find_slot windows busy minutes earliest latest dayparts ≡ some s
      → matches_preferred_daypart dayparts s ≡ false
      → s.start ≤ t
  unfolding find_slot Better
  find_slot-earliest s positive fits e plain =
      let best = All-of_sort_by (Better dayparts s) (compare_candidate_slots dayparts) candidates (
        first-Better dayparts _ s
          (sort_by-Pairwise (compare_candidate_slots-Decides dayparts) candidates) e) in
      let (x, early, better) =
        Any-and-All (NotLater t) (Better dayparts s) candidates (candidates-reach positive fits)
          best in
      ground arith
