-- ===== src/Scheduler/Capacity/Free.antt =====
-- src/scheduler.ts: `calculateAvailableMinutes` against a count of instants one by one.
use scheduleos.Base.{
  ◌+◌, ◌-◌, ◌≤◌, ◌<◌, ◌≡◌, refl, ◌⊎◌, ℕ, zero, suc, Bool, true, false, ◌||◌, List, [], ◌∷◌, inl,
  inr, arith, leb, ltb, if◌then◌else◌, sort_by, All, All-sort_by, any, Bool-cases, ltb→lt, is_gt,
  insert_by,
}
use native.Mathlib.Nat.{le_refl}
use native.Mathlib.Decide.{dec_le}
use scheduleos.Domain.{Instant}
use scheduleos.Scheduler.Slots.{BusyBlock, compare_busy_blocks}
use scheduleos.Scheduler.Slots.Sorted.{covers, IsSorted, sort_busy_blocks-IsSorted}
use scheduleos.Scheduler.Capacity.{sweep_free, calculate_available_ms}

-- The instants below a bound that lie in no busy block.
free_below : List BusyBlock → ℕ → ℕ
free_below busy zero = 0
free_below busy (suc t) = (if any (covers t) busy then 0 else 1) + free_below busy t

-- The instants of a window that lie in no busy block.
pub free_instants : List BusyBlock → BusyBlock → ℕ
unfolding free_below
free_instants busy window = free_below busy window.end - free_below busy window.start

-- The instants of the windows that lie in no busy block: the independent count.
pub free_time : List BusyBlock → List BusyBlock → ℕ
unfolding free_instants
free_time busy [] = 0
free_time busy (window ∷ windows) = free_instants busy window + free_time busy windows

-- A bound below `suc hi` is `suc hi`, or a bound below `hi`.
last-or-below : (lo hi : ℕ) → lo ≤ suc hi → (lo ≡ suc hi) ⊎ (lo ≤ hi)
last-or-below lo hi h = elim (dec_le lo hi) [ yes k ↦ inr k | no k ↦ inl (omega arith) ]

-- Between two bounds with no busy instant the count grows by the distance.
free_below-all :
    (busy : List BusyBlock) (lo hi : ℕ)
    → lo ≤ hi
    → ((t : ℕ) → lo ≤ t → t < hi → any (covers t) busy ≡ false)
    → free_below busy hi ≡ free_below busy lo + (hi - lo)
unfolding free_below
free_below-all busy zero zero h f = refl
free_below-all busy (suc lo) zero h f = absurd (omega arith)
free_below-all busy lo (suc hi) h f = elim (last-or-below lo hi h) [
  | inl e ↦ rw e (omega arith)
  | inr k ↦
      let ih = free_below-all busy lo hi k (λ t a b. f t a (omega arith)) in
      rw (f hi k (le_refl _)) (omega (arith, ih))
]

-- A busy block that has no instant between two bounds changes nothing between them.
free_below-skip :
    (b : BusyBlock) (busy : List BusyBlock) (lo hi : ℕ)
    → lo ≤ hi
    → ((t : ℕ) → lo ≤ t → t < hi → covers t b ≡ false)
    → free_below (b ∷ busy) hi + free_below busy lo ≡ free_below busy hi + free_below (b ∷ busy) lo
unfolding free_below
free_below-skip b busy zero zero h f = refl
free_below-skip b busy (suc lo) zero h f = absurd (omega arith)
free_below-skip b busy lo (suc hi) h f = elim (last-or-below lo hi h) [
  | inl e ↦ rw e (omega arith)
  | inr k ↦
      let ih = free_below-skip b busy lo hi k (λ t a b. f t a (omega arith)) in
      rw (f hi k (le_refl _)) (omega (arith, ih))
]

-- Between two bounds inside a busy block the count does not grow.
free_below-busy :
    (b : BusyBlock) (busy : List BusyBlock) (lo hi : ℕ)
    → lo ≤ hi
    → ((t : ℕ) → lo ≤ t → t < hi → covers t b ≡ true)
    → free_below (b ∷ busy) hi ≡ free_below (b ∷ busy) lo
unfolding free_below
free_below-busy b busy zero zero h f = refl
free_below-busy b busy (suc lo) zero h f = absurd (omega arith)
free_below-busy b busy lo (suc hi) h f = elim (last-or-below lo hi h) [
  | inl e ↦ rw e refl
  | inr k ↦
      let ih = free_below-busy b busy lo hi k (λ t a b. f t a (omega arith)) in
      rw (f hi k (le_refl _)) (omega (arith, ih))
]

covers-before : (t : Instant) (b : BusyBlock) → t < b.start → covers t b ≡ false
covers-before t b h = ground arith

covers-after : (t : Instant) (b : BusyBlock) → b.end ≤ t → covers t b ≡ false
covers-after t b h = ground arith

covers-inside : (t : Instant) (b : BusyBlock) → b.start ≤ t → t < b.end → covers t b ≡ true
covers-inside t b h k = ground arith

-- Blocks that start behind an instant do not cover it.
none_covers :
    (t : Instant) (b : BusyBlock) (busy : List BusyBlock)
    → t < b.start
    → All (λ c. b.start ≤ c.start) busy
    → any (covers t) (b ∷ busy) ≡ false
none_covers t b [] h k = rw (covers-before t b h)
none_covers t b (c ∷ busy) h k =
    ground (arith, none_covers t b busy h k.1, covers-before t b h, covers-before t c)

-- Past the end of the window the sweep counts nothing.
sweep_free-past :
    (window_end cursor : Instant) (busy : List BusyBlock)
    → window_end ≤ cursor
    → sweep_free window_end cursor busy ≡ 0
unfolding sweep_free
sweep_free-past window_end cursor [] h = ground arith
sweep_free-past window_end cursor (b ∷ busy) h =
    let skip = sweep_free-past window_end cursor busy h in
    let step = λ (k : window_end ≤ b.end). sweep_free-past window_end b.end busy k in
    ground (arith, skip, step)

-- Up to where the next block starts, nothing is busy.
gap_before :
    (b : BusyBlock) (busy : List BusyBlock) (cursor : Instant)
    → All (λ c. b.start ≤ c.start) busy
    → free_below (b ∷ busy) (if ltb cursor b.start then b.start else cursor)
      ≡ free_below (b ∷ busy) cursor + (if ltb cursor b.start then b.start - cursor else 0)
gap_before b busy cursor later = elim (Bool-cases (ltb cursor b.start)) [
  | inl e ↦
      rw
        (
          e,
          free_below-all (b ∷ busy) cursor b.start (omega (arith, ltb→lt _ _ e))
              (λ t h k. none_covers t b busy k later),
        )
        refl
  | inr e ↦ rw e (omega arith)
]

-- From there to a bound in the block, nothing is free.
inside_block :
    (b : BusyBlock) (busy : List BusyBlock) (cursor hi : Instant)
    → (if ltb cursor b.start then b.start else cursor) ≤ hi
    → hi ≤ b.end
    → free_below (b ∷ busy) hi
      ≡ free_below (b ∷ busy) (if ltb cursor b.start then b.start else cursor)
inside_block b busy cursor hi h k =
    free_below-busy b busy _ hi h (λ t u v. covers-inside t b (ground (arith, u)) (omega arith))

-- A block that the sweep does not skip, from the cursor to the end of the window.
count_block :
    (window_end cursor : Instant) (b : BusyBlock) (busy : List BusyBlock)
    → cursor < b.end
    → b.start < window_end
    → cursor ≤ window_end
    → b.start ≤ b.end
    → All (λ c. b.start ≤ c.start) busy
    → (b.end ≤ window_end
        → sweep_free window_end b.end busy + free_below busy b.end ≡ free_below busy window_end)
    → (if ltb cursor b.start then b.start - cursor else 0)
        + sweep_free window_end b.end busy
        + free_below (b ∷ busy) cursor
      ≡ free_below (b ∷ busy) window_end
count_block window_end cursor b busy h k l o later ih = elim (dec_le b.end window_end) [
  | yes i ↦ omega (
    arith,
    gap_before b busy cursor later,
    ih i,
    inside_block b busy cursor b.end (ground arith) (le_refl _),
    free_below-skip b busy b.end window_end i (λ t x y. covers-after t b x),
  )
  | no i ↦ omega (
    arith,
    gap_before b busy cursor later,
    inside_block b busy cursor window_end (ground arith) (omega arith),
    sweep_free-past window_end b.end busy (omega arith),
  )
]

if_max : (a b : ℕ) → a < b → (if ltb a b then b else a) ≡ b
if_max a b h = ground arith

-- The sweep from a cursor counts what is free from there to the end of the window.
sweep_free-count :
    (window_end cursor : Instant) (busy : List BusyBlock)
    → cursor ≤ window_end
    → All (λ b. b.start ≤ b.end) busy
    → IsSorted busy
    → sweep_free window_end cursor busy + free_below busy cursor ≡ free_below busy window_end
unfolding sweep_free
sweep_free-count window_end cursor [] h ordered sorted =
    ground (arith, free_below-all [] cursor window_end h (λ t a b. refl))
sweep_free-count window_end cursor (b ∷ busy) h ordered sorted =
    elim (Bool-cases (leb b.end cursor || leb window_end b.start)) [
      | inl e ↦ rw e (
          omega (
            arith,
            sweep_free-count window_end cursor busy h ordered.1 sorted.1,
            free_below-skip b busy cursor window_end h (λ t u v. ground (arith, e)),
          ))
      | inr e ↦
          rw (e, if_max cursor b.end (ground arith))
            (count_block window_end cursor b busy (ground arith) (ground arith) h ordered.0 sorted.0
              (λ k. sweep_free-count window_end b.end busy k ordered.1 sorted.1))
    ]

any-insert_by :
    (p : BusyBlock → Bool) (x : BusyBlock) (ys : List BusyBlock)
    → any p (insert_by compare_busy_blocks x ys) ≡ (p x || any p ys)
unfolding insert_by
any-insert_by p x [] = refl
any-insert_by p x (y ∷ ys) = elim (Bool-cases (is_gt (compare_busy_blocks x y))) [
  | inl e ↦ rw e (ground (arith, any-insert_by p x ys))
  | inr e ↦ rw e refl
]

any-sort_by :
    (p : BusyBlock → Bool) (xs : List BusyBlock) → any p (sort_by compare_busy_blocks xs) ≡ any p xs
unfolding sort_by
any-sort_by p [] = refl
any-sort_by p (x ∷ xs) = rw (any-insert_by p x (sort_by compare_busy_blocks xs), any-sort_by p xs)

free_below-sort_by :
    (busy : List BusyBlock) (n : ℕ)
    → free_below (sort_by compare_busy_blocks busy) n ≡ free_below busy n
unfolding free_below
free_below-sort_by busy zero = refl
free_below-sort_by busy (suc n) = rw (any-sort_by (covers n) busy, free_below-sort_by busy n)

-- For windows and busy blocks that end no earlier than they start, whatever their order and their
-- overlaps, the milliseconds that `calculate_available_ms` adds up are the instants of the windows
-- that no busy block covers, window by window.
pub calculate_available_ms-free_time :
    (windows busy : List BusyBlock)
    → All (λ w. w.start ≤ w.end) windows
    → All (λ b. b.start ≤ b.end) busy
    → calculate_available_ms windows busy ≡ free_time busy windows
unfolding calculate_available_ms free_time
calculate_available_ms-free_time [] busy h k = refl
calculate_available_ms-free_time (w ∷ windows) busy h k = omega (
  arith,
  calculate_available_ms-free_time windows busy h.1 k,
  sweep_free-count w.end w.start (sort_by compare_busy_blocks busy) h.0
      (All-sort_by _ compare_busy_blocks busy k) (sort_busy_blocks-IsSorted busy),
  free_below-sort_by busy w.start,
  free_below-sort_by busy w.end,
)
