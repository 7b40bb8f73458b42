-- ===== src/Repositories/Plans/Blocks.antt =====
-- src/repositories.ts: what `applyBlockTimePatch` allows.
use scheduleos.Base.{
  ◌≡◌, refl, ap, subst, ◌<◌, false, ◌||◌, Result, ok, err, >>=-eq-ok, ok-injective, arith,
  Bool-cases, inl, inr, leb,
}
use scheduleos.Domain.{Instant, Timestamp, iso, TimeBlock}
use scheduleos.Repositories.{RepositoryError}
use scheduleos.Repositories.Plans.{
  TimePatch, is_settled, finite_time, or_kept, apply_block_time_patch,
}

-- A block that is moved: what may not change, and where it lies.
pub record Moved (block moved : TimeBlock) : Type 0 where
  pub unlocked : block.locked ≡ false
  pub unsettled : is_settled block.status ≡ false
  pub start : Instant
  pub end : Instant
  pub starts : moved.start ≡ iso start
  pub ends : moved.end ≡ iso end
  pub ordered : start < end
  pub same : record moved { start = block.start; end = block.end } ≡ block

finite_time-eq : (t : Timestamp) (n : Instant) → finite_time t ≡ ok n → t ≡ iso n
unfolding finite_time
finite_time-eq (iso t) n h = ap iso (ok-injective h)
finite_time-eq Timestamp.malformed n h = cc

refused :
    {e : RepositoryError} {b : TimeBlock}
    → ¬ (◌≡◌ {A = Result RepositoryError TimeBlock} (err e) (ok b))
refused h = cc

-- A block that the patch moves was neither locked nor locked, completed or missed by its status; it
-- lies between two readable times, the first before the second; and nothing but its times changes.
pub apply_block_time_patch-Moved :
    (patch : TimePatch) (block moved : TimeBlock)
    → apply_block_time_patch patch block ≡ ok moved
    → Moved block moved
unfolding apply_block_time_patch
apply_block_time_patch-Moved patch block moved h =
    elim (Bool-cases (block.locked || is_settled block.status)) [
      | inl e ↦ absurd (refused (rw e at h))
      | inr e ↦
          let (s, s_ok, h₁) =
            >>=-eq-ok (finite_time (or_kept patch.start block.start)) _ (rw e at h) in
          let (t, t_ok, h₂) = >>=-eq-ok (finite_time (or_kept patch.end block.end)) _ h₁ in
          elim (Bool-cases (leb t s)) [
            | inl k ↦ absurd (refused (rw k at h₂))
            | inr k ↦ subst (Moved block) (ok-injective (rw k at h₂)) (record {
              unlocked = ground (arith, e);
              unsettled = ground (arith, e);
              start = s;
              end = t;
              starts = finite_time-eq _ _ s_ok;
              ends = finite_time-eq _ _ t_ok;
              ordered = ground (arith, k);
              same = refl;
            })
          ]
    ]
