-- ===== src/Scheduler/Slots/Sound.antt =====
-- src/scheduler.ts: what a slot of `findSlot` satisfies.
use scheduleos.Base.{
  ◌≤◌, ◌<◌, ◌+◌, ◌*◌, ℕ, ◌≡◌, ◌⊎◌, inl, inr, List, [], ◌∷◌, some, arith, if◌then◌else◌, All, Any,
  All-append, All-imp, leb→le, All-filter, All-sort_by, Bool-cases, leb, ltb, subst, flat_map,
  sort_by, true, ◌||◌,
}
use mathlib.Core.Option.{some-injective}
use scheduleos.Domain.{Instant, Daypart}
use scheduleos.Scheduler.Dates.{
  minute_ms, max_date, min_date, max_date-le_left, max_date-le_right, min_date-le_left,
  min_date-le_right,
}
use scheduleos.Scheduler.Slots.Sorted.{IsSorted}
use scheduleos.Scheduler.Slots.{
  BusyBlock, Disjoint, dedupe_from, dedupe_slots, preferred_slots, build_candidate_slots, slot_at,
  gap_slots, sweep, window_slots, find_slot, compare_candidate_slots, first,
}

All-dedupe_from :
    (P : BusyBlock → Type 0) (seen slots : List BusyBlock)
    → All P slots
    → All P (dedupe_from seen slots)
unfolding dedupe_from
All-dedupe_from P seen [] h = tt
All-dedupe_from P seen (s ∷ slots) h =
    ground (arith, All-dedupe_from P seen slots h.1, All-dedupe_from P (s ∷ seen) slots h.1)

-- The slot lies between two instants and has a length.
pub record Within (lo hi : Instant) (duration_ms : ℕ) (s : BusyBlock) : Type 0 where
  pub from : lo ≤ s.start
  pub to : s.end ≤ hi
  pub long : s.end ≡ s.start + duration_ms

module _ (lo hi : Instant) (d : ℕ) (dayparts : List Daypart) where
  -- What holds of each candidate before the last filter.
  abbrev Starts : BusyBlock → Type 0
  Starts s = (lo ≤ s.start) × (s.end ≡ s.start + d)

  preferred_slots-from : (ps : List Daypart) → All Starts (preferred_slots lo hi d ps)
  unfolding preferred_slots
  preferred_slots-from [] = tt
  preferred_slots-from (p ∷ ps) = ground (arith, preferred_slots-from ps)

  build-Within : All (Within lo hi d) (build_candidate_slots lo hi d dayparts)
  unfolding build_candidate_slots
  build-Within =
      All-imp (λ s. Starts s × (leb s.end hi ≡ true)) (Within lo hi d) _
        (λ s h. record { from = h.0.0; to = leb→le _ _ h.1; long = h.0.1 })
        (All-filter Starts (λ s. leb s.end hi)
          (dedupe_slots (slot_at lo d ∷ preferred_slots lo hi d dayparts)) all_start)
    where
      all_start : All Starts (dedupe_slots (slot_at lo d ∷ preferred_slots lo hi d dayparts))
      all_start =
          unfold dedupe_slots in
          All-dedupe_from Starts [] (slot_at lo d ∷ preferred_slots lo hi d dayparts)
            ((omega arith, omega arith), preferred_slots-from dayparts)

  gap_slots-Within : All (Within lo hi d) (gap_slots d dayparts lo hi)
  unfolding gap_slots
  gap_slots-Within = ground (arith, build-Within)

module _ (window_end : Instant) (d : ℕ) (dayparts : List Daypart) (positive : 0 < d) where
  -- A slot of the window from `cursor` on, free of the blocks.
  record IsFree (cursor : Instant) (bs : List BusyBlock) (s : BusyBlock) : Type 0 where
    within : Within cursor window_end d s
    free : All (Disjoint s) bs

  Disjoint-later :
      (s b : BusyBlock) (bs : List BusyBlock)
      → s.end ≤ b.start
      → All (λ c. b.start ≤ c.start) bs
      → All (Disjoint s) bs
  Disjoint-later s b bs h =
      All-imp (λ c. b.start ≤ c.start) (Disjoint s) bs (λ c k. inl (omega arith))

  gap-IsFree :
      (cursor : Instant) (b : BusyBlock) (bs : List BusyBlock)
      → b.start < window_end
      → All (λ c. b.start ≤ c.start) bs
      → All (IsFree cursor (b ∷ bs)) (gap_slots d dayparts cursor b.start)
  gap-IsFree cursor b bs h later =
      All-imp (Within cursor b.start d) (IsFree cursor (b ∷ bs)) _
        (λ s w. record {
          within = record { from = w.from; to = omega (arith, w.to); long = w.long };
          free = (inl w.to, Disjoint-later s b bs w.to later);
        })
        (gap_slots-Within cursor b.start d dayparts)

  -- What is free of the blocks behind `b`, from `b` or the end of `b` on, is free of `b`.
  IsFree-cons :
      (cursor cursor' : Instant) (b : BusyBlock) (bs slots : List BusyBlock)
      → cursor ≤ cursor'
      → (b.end ≤ cursor') ⊎ (window_end ≤ b.start)
      → All (IsFree cursor' bs) slots
      → All (IsFree cursor (b ∷ bs)) slots
  IsFree-cons cursor cursor' b bs slots later apart =
      All-imp (IsFree cursor' bs) (IsFree cursor (b ∷ bs)) slots (λ s f.
        let w = f.within in
        record {
          within = record { from = omega (arith, w.from); to = w.to; long = w.long };
          free = (
            elim apart [ inl h ↦ inr (omega (arith, w.from)) | inr h ↦ inl (omega (arith, w.to)) ],
            f.free,
          );
        })

  gap_slots-empty :
      (cursor : Instant) → window_end ≤ cursor → gap_slots d dayparts cursor window_end ≡ []
  unfolding gap_slots
  gap_slots-empty cursor h = ground arith

  sweep-IsFree :
      (cursor : Instant) (bs : List BusyBlock)
      → IsSorted bs
      → All (IsFree cursor bs) (sweep window_end d dayparts cursor bs)
  unfolding sweep
  sweep-IsFree cursor [] sorted =
      All-imp (Within cursor window_end d) (IsFree cursor []) _
        (λ s h. record { within = h; free = tt }) (gap_slots-Within cursor window_end d dayparts)
  sweep-IsFree cursor (b ∷ bs) sorted =
      let cursor' : Instant = if ltb cursor b.end then b.end else cursor in
      let onward =
        IsFree-cons cursor cursor' b bs _ (ground arith) (inl (ground arith))
          (sweep-IsFree cursor' bs sorted.1) in
      elim (Bool-cases (leb b.end cursor || leb window_end b.start)) [
        | inl out ↦ rw out (
            IsFree-cons cursor cursor b bs _ (omega arith) (ground arith)
              (sweep-IsFree cursor bs sorted.1))
        | inr meets ↦ rw meets (
            All-append (IsFree cursor (b ∷ bs)) _ _ (gap-IsFree cursor b bs (ground arith) sorted.0)
              (elim (Bool-cases (leb window_end cursor')) [
                | inl stop ↦ rw (stop, gap_slots-empty cursor' (leb→le _ _ stop)) tt
                | inr more ↦ rw more onward
              ]))
      ]

-- A slot of one working window, at the times that the caller asks for, free of the busy blocks.
pub record IsPlaced (earliest latest : Instant) (d : ℕ) (windows busy : List BusyBlock)
    (s : BusyBlock) : Type 0 where
  pub after : earliest ≤ s.start
  pub before : s.end ≤ latest
  pub long : s.end ≡ s.start + d
  pub inside : Any (λ w. (w.start ≤ s.start) × (s.end ≤ w.end)) windows
  pub free : All (Disjoint s) busy

module _ (busy : List BusyBlock) (sorted : IsSorted busy) (d : ℕ) (earliest latest : Instant)
    (dayparts : List Daypart) (positive : 0 < d) where
  window_slots-IsPlaced :
      (w : BusyBlock)
      → All
          (IsPlaced earliest latest d (w ∷ []) busy)
          (window_slots busy d earliest latest dayparts w)
  unfolding window_slots
  window_slots-IsPlaced w =
      let cursor : Instant = max_date w.start earliest in
      let window_end : Instant = min_date w.end latest in
      elim (Bool-cases (leb window_end cursor)) [
        | inl out ↦ rw out tt
        | inr room ↦ rw room (
            All-imp (IsFree window_end d dayparts positive cursor busy)
              (IsPlaced earliest latest d (w ∷ []) busy) _
              (λ s f.
                let h = f.within in
                record {
                  after = omega (arith, h.from, max_date-le_right w.start earliest);
                  before = omega (arith, h.to, min_date-le_right w.end latest);
                  long = h.long;
                  inside = inl (
                    omega (arith, h.from, max_date-le_left w.start earliest),
                    omega (arith, h.to, min_date-le_left w.end latest),
                  );
                  free = f.free;
                })
              (sweep-IsFree window_end d dayparts positive cursor busy sorted))
      ]

  windows-IsPlaced :
      (windows : List BusyBlock)
      → All
          (IsPlaced earliest latest d windows busy)
          (flat_map (window_slots busy d earliest latest dayparts) windows)
  windows-IsPlaced [] = tt
  windows-IsPlaced (w ∷ ws) =
      All-append (IsPlaced earliest latest d (w ∷ ws) busy) _ _
        (All-imp (IsPlaced earliest latest d (w ∷ []) busy) _ _
          (λ s p. record {
            after = p.after;
            before = p.before;
            long = p.long;
            free = p.free;
            inside = elim p.inside [ inl here ↦ inl here | inr none_left ↦ absurd none_left ];
          })
          (window_slots-IsPlaced w))
        (All-imp (IsPlaced earliest latest d ws busy) _ _
          (λ s p. record {
            after = p.after;
            before = p.before;
            long = p.long;
            free = p.free;
            inside = inr p.inside;
          })
          (windows-IsPlaced ws))

first-holds :
    (P : BusyBlock → Type 0) (slots : List BusyBlock) (s : BusyBlock)
    → All P slots
    → first slots ≡ some s
    → P s
first-holds P [] s h e = cc
first-holds P (t ∷ slots) s h e = subst P (some-injective _ _ e) h.0

-- Over busy blocks that are sorted by start, a slot that `findSlot` returns has the length asked
-- for, lies between `earliest` and `latest` and inside one working window, and overlaps no busy
-- block.
pub find_slot-IsPlaced :
    (windows busy : List BusyBlock) (minutes : ℕ) (earliest latest : Instant)
    (dayparts : List Daypart) (s : BusyBlock)
    → IsSorted busy
    → 0 < minutes
    → find_slot windows busy minutes earliest latest dayparts ≡ some s
    → IsPlaced earliest latest (minutes * minute_ms) windows busy s
unfolding find_slot
find_slot-IsPlaced windows busy minutes earliest latest dayparts s sorted positive e =
    let d : ℕ = minutes * minute_ms in
    first-holds (IsPlaced earliest latest d windows busy)
      (sort_by (compare_candidate_slots dayparts)
        (flat_map (window_slots busy d earliest latest dayparts) windows))
      s
      (All-sort_by (IsPlaced earliest latest d windows busy) (compare_candidate_slots dayparts) _
        (windows-IsPlaced busy sorted d earliest latest dayparts (omega arith) windows))
      e
