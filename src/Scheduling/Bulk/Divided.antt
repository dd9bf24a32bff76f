-- ===== src/Scheduling/Bulk/Divided.antt =====
-- What becomes of the candidates of a bulk creation.
use guitar_online.Base.{
  ℕ, ◌+◌, ◌/◌, ◌≡◌, ◌≤◌, ◌⊎◌, inl, inr, true, false, Bool, List, [], ◌∷◌, arith, contains, tally,
  reverse_onto,
}
use guitar_online.Store.Enums.{SlotStatusEnum}
use guitar_online.Store.Rows.{AvailabilitySlot, day}
use guitar_online.Store.Settings.{Settings}
use guitar_online.Scheduling.Disjoint.{IsUnfit}
use guitar_online.Scheduling.Bulk.{
  BulkCreate, overlaps_excluded_time_ranges, Candidate, Skipped, creation,
}

-- What a bulk creation makes of a candidate outside the excluded dates and times: an OPEN slot of the
-- teacher, from the candidate's start to its end.
abbrev pub IsOffer : BulkCreate → Candidate → AvailabilitySlot → Type 0
IsOffer bulk c s =
    (contains (c.start_at_utc / day) bulk.exclude_dates ≡ false)
    × (overlaps_excluded_time_ranges c bulk.exclude_time_ranges ≡ false)
    × (s.teacher_id ≡ bulk.teacher_id)
    × (s.start_at ≡ c.start_at_utc)
    × (s.end_at ≡ c.end_at_utc)
    × (s.status ≡ SlotStatusEnum.open_slot)

-- Why a candidate is left out: its date, its time, or what `create_slot` has against it at a reading of the clock,
-- with these slots.
abbrev pub IsExcluded : Settings → (ℕ → ℕ) → BulkCreate → List AvailabilitySlot → Candidate → Type 0
IsExcluded cfg clock bulk slots c =
    (contains (c.start_at_utc / day) bulk.exclude_dates ≡ true)
    ⊎ (overlaps_excluded_time_ranges c bulk.exclude_time_ranges ≡ true)
    ⊎ ((n : ℕ) × IsUnfit cfg (clock n) (creation c bulk.teacher_id) slots)

-- Each candidate, in order, is the next one of the slots or the next one of those skipped.
pub data Divided (cfg : Settings) (clock : ℕ → ℕ) (bulk : BulkCreate)
    (slots : List AvailabilitySlot)
    : List Candidate → List AvailabilitySlot → List Skipped → Type 0 where
  none_left : Divided cfg clock bulk slots [] [] []
  offered :
      {c : Candidate} {s : AvailabilitySlot} {cs : List Candidate} {ss : List AvailabilitySlot}
      {ks : List Skipped}
      → IsOffer bulk c s
      → Divided cfg clock bulk slots cs ss ks
      → Divided cfg clock bulk slots (c ∷ cs) (s ∷ ss) ks
  left_out :
      {c : Candidate} {k : Skipped} {cs : List Candidate} {ss : List AvailabilitySlot}
      {ks : List Skipped}
      → k.candidate ≡ c
      → IsExcluded cfg clock bulk slots c
      → Divided cfg clock bulk slots cs ss ks
      → Divided cfg clock bulk slots (c ∷ cs) ss (k ∷ ks)

-- Slots that are added, and other readings of the clock, leave a candidate excluded.
tally-reverse_onto :
    (p : AvailabilitySlot → Bool) (xs ys : List AvailabilitySlot)
    → tally p ys ≤ tally p (reverse_onto xs ys)
unfolding tally reverse_onto
tally-reverse_onto p [] ys = omega arith
tally-reverse_onto p (x ∷ xs) ys = ground (arith, tally-reverse_onto p xs (x ∷ ys))

module _ (cfg : Settings) (bulk : BulkCreate) where
  pub IsExcluded-reverse_onto :
      (clock : ℕ → ℕ) (c : Candidate) (added slots : List AvailabilitySlot)
      → IsExcluded cfg clock bulk slots c
      → IsExcluded cfg clock bulk (reverse_onto added slots) c
  IsExcluded-reverse_onto clock c added slots (inl dated) = inl dated
  IsExcluded-reverse_onto clock c added slots (inr (inl timed)) = inr (inl timed)
  IsExcluded-reverse_onto clock c added slots (inr (inr (n, inl h))) = inr (inr (n, inl h))
  IsExcluded-reverse_onto clock c added slots (inr (inr (n, inr (inl h)))) =
      inr (inr (n, inr (inl h)))
  IsExcluded-reverse_onto clock c added slots (inr (inr (n, inr (inr (inl h))))) =
      inr (inr (n, inr (inr (inl h))))
  IsExcluded-reverse_onto clock c added slots (inr (inr (n, inr (inr (inr h))))) =
      inr (inr (n, inr (inr (inr (omega (arith, h, tally-reverse_onto _ added slots))))))

  IsExcluded-later :
      (clock : ℕ → ℕ) (slots : List AvailabilitySlot) (c : Candidate)
      → IsExcluded cfg (λ n. clock (1 + n)) bulk slots c
      → IsExcluded cfg clock bulk slots c
  IsExcluded-later clock slots c (inl dated) = inl dated
  IsExcluded-later clock slots c (inr (inl timed)) = inr (inl timed)
  IsExcluded-later clock slots c (inr (inr (n, h))) = inr (inr (1 + n, h))

  pub Divided-later :
      (clock : ℕ → ℕ) (slots : List AvailabilitySlot) (cs : List Candidate)
      (ss : List AvailabilitySlot) (ks : List Skipped)
      → Divided cfg (λ n. clock (1 + n)) bulk slots cs ss ks
      → Divided cfg clock bulk slots cs ss ks
  Divided-later clock slots _ _ _ none_left = none_left
  Divided-later clock slots _ _ _ (offered offer rest) =
      offered offer (Divided-later clock slots _ _ _ rest)
  Divided-later clock slots _ _ _ (left_out same reason rest) =
      left_out same (IsExcluded-later clock slots _ reason) (Divided-later clock slots _ _ _ rest)
