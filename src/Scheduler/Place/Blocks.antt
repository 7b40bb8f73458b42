-- ===== src/Scheduler/Place/Blocks.antt =====
-- src/scheduler.ts: what the blocks of one `scheduleTask` call occupy.
use scheduleos.Base.{
  ◌+◌, ◌-◌, ◌*◌, ◌≤◌, ◌<◌, ℕ, zero, suc, ◌≡◌, refl, sym, ◌⊎◌, inl, inr, false, List, [], ◌∷◌, ◌++◌,
  Option, none, some, Result, ok, err, arith, sort_by, All, Any, Pairwise, All-imp, All-append_left,
  All-append_right, All-of_sort_by, Option-cases, subst,
}
use scheduleos.Domain.{Instant, iso, Timestamp, TimeBlock, BlockStatus}
use scheduleos.Scheduler.Dates.{Error, minute_ms}
use scheduleos.Scheduler.Slots.{BusyBlock, Disjoint, compare_busy_blocks, find_slot}
use scheduleos.Scheduler.Slots.Sorted.{IsSorted, sort_busy_blocks-IsSorted}
use scheduleos.Scheduler.Slots.Sound.{IsPlaced, find_slot-IsPlaced}
use scheduleos.Scheduler.Place.{
  BlockLimits, requested_duration, PlaceInput, split_loop, prepend, to_time_block,
  time_block_to_busy_block,
}

-- Each round of the loop asks for more than nothing.
abbrev pub CanProgress : BlockLimits → Type 0
CanProgress l = (0 < l.minimum) ⊎ (0 < l.maximum) × (0 < l.preferred)

pub requested_duration-le : (l : BlockLimits) (r : ℕ) → requested_duration l r ≤ r
unfolding requested_duration
requested_duration-le l r = ground arith

pub requested_duration-positive :
    (l : BlockLimits) (r : ℕ) → CanProgress l → 0 < r → 0 < requested_duration l r
unfolding requested_duration
requested_duration-positive l r c h = ground arith

abbrev instant : Timestamp → Instant
instant (iso t) = t
instant Timestamp.malformed = 0

-- The time that a block occupies.
abbrev pub span : TimeBlock → BusyBlock
span b = record { start = instant b.start; end = instant b.end }

unfoldable pub total_ms : List TimeBlock → ℕ
total_ms [] = 0
total_ms (b ∷ bs) = ((span b).end - (span b).start) + total_ms bs

-- A block of this call: it reads back as its span, lies between the call's times and in a working
-- window, meets no busy block, and is a new proposal for the call's task and scope.
pub record IsBlockOf (p : PlaceInput) (busy : List BusyBlock) (b : TimeBlock) : Type 0 where
  pub reads : time_block_to_busy_block b ≡ ok (span b)
  pub after : p.earliest ≤ (span b).start
  pub before : (span b).end ≤ p.latest
  pub inside : Any (λ w. (w.start ≤ (span b).start) × (span b).end ≤ w.end) p.working_windows
  pub free : All (Disjoint (span b)) busy
  pub task_id : b.task_id ≡ p.task.id
  pub scope : b.scope ≡ p.input
  pub status : b.status ≡ BlockStatus.proposed
  pub unlocked : b.locked ≡ false

pub record Placement (p : PlaceInput) (busy : List BusyBlock) (minutes : ℕ)
    (blocks : List TimeBlock) : Type 0 where
  pub each : All (IsBlockOf p busy) blocks
  pub apart : Pairwise (λ a b. Disjoint (span a) (span b)) blocks
  pub total : total_ms blocks ≡ minutes * minute_ms

prepend-eq-some :
    (block : TimeBlock) (r : Result Error (Option (List TimeBlock))) (blocks : List TimeBlock)
    → prepend block r ≡ ok (some blocks)
    → (rest : List TimeBlock) × (r ≡ ok (some rest)) × (blocks ≡ block ∷ rest)
prepend-eq-some block (ok (some rest)) blocks h = (rest, refl, cc)
prepend-eq-some block (ok none) blocks h = cc
prepend-eq-some block (err e) blocks h = cc

ok_some-injective :
    {a b : List TimeBlock}
    → ◌≡◌ {A = Result Error (Option (List TimeBlock))} (ok (some a)) (ok (some b))
    → a ≡ b
ok_some-injective h = cc

Disjoint-sym : (a b : BusyBlock) → Disjoint a b → Disjoint b a
Disjoint-sym a b (inl h) = inr h
Disjoint-sym a b (inr h) = inl h

module _ (p : PlaceInput) (l : BlockLimits) where
  abbrev pub slot_for : List BusyBlock → ℕ → Option BusyBlock
  slot_for busy minutes =
      find_slot p.working_windows busy minutes p.earliest p.latest p.task.preferred_dayparts

  -- One round of the loop that went on to the end.
  pub record Round (fuel r : ℕ) (busy : List BusyBlock) (sequence : ℕ) (blocks : List TimeBlock)
      : Type 0 where
    pub slot : BusyBlock
    pub found : slot_for busy (requested_duration l (suc r)) ≡ some slot
    pub rest : List TimeBlock
    pub went_on :
        split_loop p l fuel
          (suc r - requested_duration l (suc r))
          (sort_by compare_busy_blocks (busy ++ slot ∷ []))
          (sequence + 1)
        ≡ ok (some rest)
    pub split : blocks ≡ to_time_block p.task p.input slot.start slot.end sequence ∷ rest

  pub split_loop-Round :
      (fuel r : ℕ) (busy : List BusyBlock) (sequence : ℕ) (blocks : List TimeBlock)
      → split_loop p l (suc fuel) (suc r) busy sequence ≡ ok (some blocks)
      → Round fuel r busy sequence blocks
  unfolding split_loop
  split_loop-Round fuel r busy sequence blocks h =
      elim (Option-cases (slot_for busy (requested_duration l (suc r)))) [
        | inl e ↦ absurd (ground arith)
        | inr (slot, e) ↦
            let (rest, went_on, split) =
              prepend-eq-some (to_time_block p.task p.input slot.start slot.end sequence) _ blocks
                (rw (e, split_loop) at h) in
            record { slot = slot; found = e; rest = rest; went_on = went_on; split = split }
      ]

  pub IsPlaced-IsBlockOf :
      (busy : List BusyBlock) (d sequence : ℕ) (slot : BusyBlock)
      → IsPlaced p.earliest p.latest d p.working_windows busy slot
      → IsBlockOf p busy (to_time_block p.task p.input slot.start slot.end sequence)
  unfolding to_time_block time_block_to_busy_block
  IsPlaced-IsBlockOf busy d sequence slot h = record {
    reads = refl;
    after = h.after;
    before = h.before;
    inside = h.inside;
    free = h.free;
    task_id = refl;
    scope = refl;
    status = refl;
    unlocked = refl;
  }

  IsBlockOf-weaken :
      (busy : List BusyBlock) (slot : BusyBlock) (b : TimeBlock)
      → IsBlockOf p (sort_by compare_busy_blocks (busy ++ slot ∷ [])) b
      → IsBlockOf p busy b × Disjoint (span b) slot
  IsBlockOf-weaken busy slot b h =
      let free =
        All-of_sort_by (Disjoint (span b)) compare_busy_blocks (busy ++ slot ∷ []) h.free in
      (
        record {
          reads = h.reads;
          after = h.after;
          before = h.before;
          inside = h.inside;
          free = All-append_left (Disjoint (span b)) busy (slot ∷ []) free;
          task_id = h.task_id;
          scope = h.scope;
          status = h.status;
          unlocked = h.unlocked;
        },
        (All-append_right (Disjoint (span b)) busy (slot ∷ []) free).0,
      )

  total_ms-cons :
      (slot : BusyBlock) (sequence requested r : ℕ) (rest : List TimeBlock)
      → slot.end ≡ slot.start + requested * minute_ms
      → requested ≤ suc r
      → total_ms rest ≡ (suc r - requested) * minute_ms
      → total_ms (to_time_block p.task p.input slot.start slot.end sequence ∷ rest)
        ≡ suc r * minute_ms
  unfolding total_ms to_time_block
  total_ms-cons slot sequence requested r rest long le total = omega arith

  -- With progress, the blocks that the loop returns are a placement of the whole remaining time.
  pub split_loop-Placement :
      (progress : CanProgress l) (fuel remaining : ℕ) (busy : List BusyBlock) (sequence : ℕ)
      (blocks : List TimeBlock)
      → IsSorted busy
      → split_loop p l fuel remaining busy sequence ≡ ok (some blocks)
      → Placement p busy remaining blocks
  unfolding split_loop to_time_block
  split_loop-Placement progress fuel zero busy sequence blocks sorted h =
      subst (Placement p busy 0) (ok_some-injective h)
        (record { each = tt; apart = tt; total = unfold total_ms in refl })
  split_loop-Placement progress zero (suc r) busy sequence blocks sorted h = absurd (ground arith)
  split_loop-Placement progress (suc fuel) (suc r) busy sequence blocks sorted h =
      let round = split_loop-Round fuel r busy sequence blocks h in
      let requested = requested_duration l (suc r) in
      let placed =
        find_slot-IsPlaced p.working_windows busy requested p.earliest p.latest
          p.task.preferred_dayparts round.slot sorted
          (requested_duration-positive l (suc r) progress (omega arith)) round.found in
      let later =
        split_loop-Placement progress fuel (suc r - requested)
          (sort_by compare_busy_blocks (busy ++ round.slot ∷ [])) (sequence + 1) round.rest
          (sort_busy_blocks-IsSorted (busy ++ round.slot ∷ [])) round.went_on in
      subst (Placement p busy (suc r)) (sym round.split) (record {
        each = (
          IsPlaced-IsBlockOf busy _ sequence round.slot placed,
          All-imp (IsBlockOf p (sort_by compare_busy_blocks (busy ++ round.slot ∷ [])))
              (IsBlockOf p busy) round.rest (λ b k. (IsBlockOf-weaken busy round.slot b k).0)
              later.each,
        );
        apart = (
          All-imp (IsBlockOf p (sort_by compare_busy_blocks (busy ++ round.slot ∷ [])))
              (λ b. Disjoint round.slot (span b)) round.rest
              (λ b k. Disjoint-sym (span b) round.slot (IsBlockOf-weaken busy round.slot b k).1)
              later.each,
          later.apart,
        );
        total =
            total_ms-cons round.slot sequence requested r round.rest placed.long
              (requested_duration-le l (suc r)) later.total;
      })
