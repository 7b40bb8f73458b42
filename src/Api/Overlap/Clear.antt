-- ===== src/Api/Overlap/Clear.antt =====
-- src/api.ts: the overlap of two events, and events that do not overlap.
use scheduleos.Base.{
  subst, ◌≡◌, refl, ◌∙◌, ap, inl, inr, ◌↔◌, ◌≤◌, ◌<◌, true, List, [], ◌∷◌, ◌++◌, Option, none, some,
  ok, >>=-eq-ok, ok-injective, leb, arith, All, Bool-cases,
}
use scheduleos.Domain.{Instant, Timestamp, iso, CalendarEvent}
use scheduleos.Api.Overlap.{
  finite_date, CalendarWritebackConflict, later, earlier, overlap_of, event_overlap, with_conflict,
  conflicts_with, calendar_writeback_conflicts,
}

-- The instant lies in the time from a start to an end.
abbrev pub Within : Instant → Instant → Instant → Type 0
Within start end t = (start ≤ t) × (t < end)

abbrev pub WithinOverlap : Option (Instant × Instant) → Instant → Type 0
WithinOverlap none t = ⊥
WithinOverlap (some (from, until)) t = Within from until t

later_le : (a b t : Instant) → later a b ≤ t → (a ≤ t) × (b ≤ t)
later_le a b t h = (ground (arith, h), ground (arith, h))

le_later : (a b t : Instant) → a ≤ t → b ≤ t → later a b ≤ t
le_later a b t h k = ground (arith, h, k)

lt_earlier : (a b t : Instant) → t < earlier a b → (t < a) × (t < b)
lt_earlier a b t h = (ground (arith, h), ground (arith, h))

earlier_lt : (a b t : Instant) → t < a → t < b → t < earlier a b
earlier_lt a b t h k = ground (arith, h, k)

-- An instant lies in the overlap that is calculated exactly when it lies in both times.
pub overlap_of-Within :
    (start end start' end' t : Instant)
    → WithinOverlap (overlap_of start end start' end') t
      ↔ (Within start end t × Within start' end' t)
unfolding overlap_of
overlap_of-Within start end start' end' t =
    elim (Bool-cases (leb (earlier end end') (later start start'))) [
      | inl e ↦ rw e (
        λ h. absurd h,
        λ h.
            apart (later start start') (earlier end end') e
              (le_later start start' t (h.0).0 (h.1).0) (earlier_lt end end' t (h.0).1 (h.1).1),
      )
      | inr e ↦ rw e (
        λ h.
            let (a, b) = later_le start start' t h.0 in
            let (c, d) = lt_earlier end end' t h.1 in ((a, c), (b, d)),
        λ h. (le_later start start' t (h.0).0 (h.1).0, earlier_lt end end' t (h.0).1 (h.1).1),
      )
    ]
  where
    apart : (from until : Instant) → leb until from ≡ true → from ≤ t → t < until → ⊥
    apart from until e h k = ground (arith, e, h, k)

-- Two events that can be read and do not overlap.
pub Clear : CalendarEvent → CalendarEvent → Type 0
Clear candidate existing = event_overlap candidate existing ≡ ok none

-- Two events whose times can be read, and that have no instant in common.
pub record Disjoint (first second : CalendarEvent) : Type 0 where
  pub start : Instant
  pub end : Instant
  pub start' : Instant
  pub end' : Instant
  pub starts : first.start ≡ iso start
  pub ends : first.end ≡ iso end
  pub starts' : second.start ≡ iso start'
  pub ends' : second.end ≡ iso end'
  pub apart : (t : Instant) → Within start end t → ¬ Within start' end' t

finite_date-eq : (t : Timestamp) (n : Instant) → finite_date t ≡ ok n → t ≡ iso n
finite_date-eq (iso t) n h = ap iso (ok-injective h)
finite_date-eq Timestamp.malformed n h = cc

pub Clear-Disjoint : (first second : CalendarEvent) → Clear first second → Disjoint first second
unfolding Clear event_overlap
Clear-Disjoint first second h =
    let (start, e₁, h₁) = >>=-eq-ok (finite_date first.start) _ h in
    let (start', e₂, h₂) = >>=-eq-ok (finite_date second.start) _ h₁ in
    let (end, e₃, h₃) = >>=-eq-ok (finite_date first.end) _ h₂ in
    let (end', e₄, h₄) = >>=-eq-ok (finite_date second.end) _ h₃ in
    record {
      start = start;
      end = end;
      start' = start';
      end' = end';
      starts = finite_date-eq first.start start e₁;
      ends = finite_date-eq first.end end e₃;
      starts' = finite_date-eq second.start start' e₂;
      ends' = finite_date-eq second.end end' e₄;
      apart = λ t k l.
          subst (λ o. WithinOverlap o t) (ok-injective h₄)
            ((overlap_of-Within start end start' end' t).1 (k, l));
    }

conflicts_with-none :
    (candidate : CalendarEvent) (existing : List CalendarEvent)
    → conflicts_with candidate existing ≡ ok []
    → All (Clear candidate) existing
unfolding conflicts_with Clear
conflicts_with-none candidate [] h = tt
conflicts_with-none candidate (event ∷ rest) h =
    let (overlap, found, h₁) = >>=-eq-ok (event_overlap candidate event) _ h in
    let (conflicts, others, h₂) =
      >>=-eq-ok (conflicts_with candidate rest) (λ c. ok (with_conflict candidate event overlap c))
        h₁ in
    let (none_here, none_there) = nothing overlap conflicts (ok-injective h₂) in
    (found ∙ ap ok none_here, conflicts_with-none candidate rest (others ∙ ap ok none_there))
  where
    nothing :
        (o : Option (Instant × Instant)) (c : List CalendarWritebackConflict)
        → with_conflict candidate event o c ≡ []
        → (o ≡ none) × (c ≡ [])
    nothing none c e = (refl, e)
    nothing (some overlap) c e = cc

append-nothing : {A : Type 0} (xs ys : List A) → xs ++ ys ≡ [] → (xs ≡ []) × (ys ≡ [])
append-nothing [] ys e = (refl, e)
append-nothing (x ∷ xs) ys e = cc

-- Where no conflicts are found, no event that is planned overlaps one that is there.
pub no_conflicts-Clear :
    (candidates existing : List CalendarEvent)
    → calendar_writeback_conflicts candidates existing ≡ ok []
    → All (λ candidate. All (Clear candidate) existing) candidates
unfolding calendar_writeback_conflicts
no_conflicts-Clear [] existing h = tt
no_conflicts-Clear (candidate ∷ candidates) existing h =
    let (first, found, h₁) = >>=-eq-ok (conflicts_with candidate existing) _ h in
    let (rest, others, h₂) =
      >>=-eq-ok (calendar_writeback_conflicts candidates existing) (λ r. ok (first ++ r)) h₁ in
    let (none_here, none_there) = append-nothing first rest (ok-injective h₂) in
    (
      conflicts_with-none candidate existing (found ∙ ap ok none_here),
      no_conflicts-Clear candidates existing (others ∙ ap ok none_there),
    )
