-- ===== src/Scheduler/Slots/Sorted.antt =====
-- Busy blocks of src/scheduler.ts in the order of `compareBusyBlocks`, and the instants they cover.
use scheduleos.Base.{
  Bool, ◌&&◌, leb, ltb, ◌≤◌, List, arith, Pairwise, Decides, sort_by, sort_by-Pairwise,
}
use scheduleos.Domain.{Instant}
use scheduleos.Scheduler.Slots.{BusyBlock, compare_busy_blocks}

-- The instant lies in the block.
abbrev pub covers : Instant → BusyBlock → Bool
covers t b = leb b.start t && ltb t b.end

abbrev pub StartsBefore : BusyBlock → BusyBlock → Type 0
StartsBefore a b = a.start ≤ b.start

-- Sorted by start: each block starts no later than those behind it.
abbrev pub IsSorted : List BusyBlock → Type 0
IsSorted = Pairwise StartsBefore

compare_busy_blocks-Decides : Decides compare_busy_blocks StartsBefore
compare_busy_blocks-Decides = record {
  trans = λ a b c h k. omega arith;
  before = λ a b h. ground arith;
  behind = λ a b h. ground arith;
}

pub sort_busy_blocks-IsSorted :
    (blocks : List BusyBlock) → IsSorted (sort_by compare_busy_blocks blocks)
sort_busy_blocks-IsSorted = sort_by-Pairwise compare_busy_blocks-Decides
