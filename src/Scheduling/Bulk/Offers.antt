-- ===== src/Scheduling/Bulk/Offers.antt =====
-- What a bulk creation adds to the slots.
use guitar_online.Base.{
  ℕ, ◌+◌, ◌/◌, contains, ◌≤◌, ◌≡◌, refl, ap, sym, ◌∙◌, inl, inr, ◌⊎◌, true, false, not, Bool,
  ltb→ge, List, [], ◌∷◌, arith, subst, length, reverse_onto,
}
use guitar_online.Store.Enums.{is_admin}
use guitar_online.Store.Rows.{User, AvailabilitySlot, day}
use guitar_online.Store.Settings.{Settings}
use guitar_online.Store.Session.{Db, Env, after, IsBusiness, Result, ok, err, pure, ◌>>=◌}
use guitar_online.Store.Ends.{
  Ends, Ends-except_business, Ends-pure, Ends-if, Ends-bind, Ends-raise_if, Ends-modify,
}
use guitar_online.Scheduling.Disjoint.{IsDisjoint, create_slot-Tried}
use guitar_online.Scheduling.Service.{create_slot}
use guitar_online.Scheduling.Bulk.Divided.{
  IsOffer, IsExcluded, Divided, none_left, offered, left_out, IsExcluded-reverse_onto,
  Divided-later,
}
use guitar_online.Scheduling.Bulk.{
  BulkCreate, overlaps_excluded_time_ranges, Candidate, Skipped, Outcome, creation, skip, collect,
  try_candidate, try_candidates, bulk_create_slots, all_candidates,
}

abbrev pub IsTried :
    Settings
    → (ℕ → ℕ)
    → BulkCreate
    → Candidate
    → Db
    → Result (Skipped ⊎ AvailabilitySlot)
    → Db
    → Type 0
IsTried cfg clock bulk c d (ok (inl k)) d' =
    (d' ≡ d) × (k.candidate ≡ c) × IsExcluded cfg clock bulk d.slots c
IsTried cfg clock bulk c d (ok (inr s)) d' =
    (d'.slots ≡ s ∷ d.slots) × IsDisjoint d'.slots × IsOffer bulk c s
IsTried cfg clock bulk c d (err e) d' = ⊥

-- What the handler of the loop sees: an exception that has changed nothing.
abbrev IsCaught :
    Settings
    → (ℕ → ℕ)
    → BulkCreate
    → Candidate
    → Db
    → Result (Skipped ⊎ AvailabilitySlot)
    → Db
    → Type 0
IsCaught cfg clock bulk c d (ok t) d' = IsTried cfg clock bulk c d (ok t) d'
IsCaught cfg clock bulk c d (err e) d' =
    (d' ≡ d) × IsBusiness e × IsExcluded cfg clock bulk d.slots c

module _ (cfg : Settings) (env : Env) (bulk : BulkCreate) (actor : User)
    (admin : is_admin actor.role ≡ true) where
  creation-IsCaught :
      (c : Candidate) (d : Db)
      → IsDisjoint d.slots
      → contains (c.start_at_utc / day) bulk.exclude_dates ≡ false
      → overlaps_excluded_time_ranges c bulk.exclude_time_ranges ≡ false
      → Ends
          (IsCaught cfg env.clock bulk c d)
          (create_slot cfg env (creation c bulk.teacher_id) actor >>= λ slot. pure (inr slot))
          d
  creation-IsCaught c d h dated timed =
      Ends-bind _ _ _ (create_slot-Tried cfg env (creation c bulk.teacher_id) actor d h)
        (λ e d' t. (t.0, (t.1 admin).0, inr (inr (0, (t.1 admin).1))))
        λ s d' t. Ends-pure _ (
          t.1,
          t.2,
          (
            dated,
            timed,
            ap (λ s. s.teacher_id) t.0,
            ap (λ s. s.start_at) t.0,
            ap (λ s. s.end_at) t.0,
            ap (λ s. s.status) t.0,
          ),
        )

  try_candidate-IsTried :
      (c : Candidate) (d : Db)
      → IsDisjoint d.slots
      → Ends (IsTried cfg env.clock bulk c d) (try_candidate cfg env bulk actor c) d
  unfolding try_candidate
  try_candidate-IsTried c d h =
      Ends-if (contains (c.start_at_utc / day) bulk.exclude_dates) (skip c _) _
        (λ off. Ends-pure (inl _) (refl, refl, inl off))
        λ dated.
          Ends-if (overlaps_excluded_time_ranges c bulk.exclude_time_ranges) (skip c _) _
            (λ off. Ends-pure (inl _) (refl, refl, inr (inl off)))
            λ timed.
              Ends-except_business _ (skip c) (IsCaught cfg env.clock bulk c d)
                (creation-IsCaught c d h dated timed) (λ a d' t. t) (λ e d' t. t.1)
                (λ message d' t. Ends-pure (inl _) (t.0, refl, t.2))

-- What the loop over the candidates leaves behind.
abbrev IsCollected :
    Settings → (ℕ → ℕ) → BulkCreate → List Candidate → Db → Result Outcome → Db → Type 0
IsCollected cfg clock bulk cs d (ok outcome) d' =
    (d'.slots ≡ reverse_onto outcome.created_slots d.slots)
    × IsDisjoint d'.slots
    × Divided cfg clock bulk d'.slots cs outcome.created_slots outcome.skipped
IsCollected cfg clock bulk cs d (err e) d' = ⊥

module _ (cfg : Settings) (clock : ℕ → ℕ) (bulk : BulkCreate) (c : Candidate) where
  collect-IsCollected :
      (cs : List Candidate) (d d₁ d₂ : Db) (t : Skipped ⊎ AvailabilitySlot) (o : Outcome)
      → IsTried cfg clock bulk c d (ok t) d₁
      → IsCollected cfg (λ n. clock (1 + n)) bulk cs d₁ (ok o) d₂
      → IsCollected cfg clock bulk (c ∷ cs) d (ok (collect t o)) d₂
  unfolding reverse_onto
  collect-IsCollected cs d d₁ d₂ (inl k) o t h =
      let added = h.0 ∙ ap (λ d. reverse_onto o.created_slots d.slots) t.0 in
      let reason =
        subst (λ slots. IsExcluded cfg clock bulk slots c) (sym added)
          (IsExcluded-reverse_onto cfg bulk clock c o.created_slots d.slots t.2) in
      (added, h.1, left_out t.1 reason (Divided-later cfg bulk clock _ _ _ _ h.2))
  collect-IsCollected cs d d₁ d₂ (inr s) o t h = (
    h.0 ∙ ap (reverse_onto o.created_slots) t.0,
    h.1,
    offered t.2 (Divided-later cfg bulk clock _ _ _ _ h.2),
  )

  Tried-IsDisjoint :
      (d d₁ : Db) (t : Skipped ⊎ AvailabilitySlot)
      → IsDisjoint d.slots
      → IsTried cfg clock bulk c d (ok t) d₁
      → IsDisjoint d₁.slots
  Tried-IsDisjoint d d₁ (inl k) h t = subst (λ d. IsDisjoint d.slots) (sym t.0) h
  Tried-IsDisjoint d d₁ (inr s) h t = t.1

module _ (cfg : Settings) (bulk : BulkCreate) (actor : User) where
  module _ (admin : is_admin actor.role ≡ true) where
    try_candidates-IsCollected :
        (env : Env) (cs : List Candidate) (d : Db)
        → IsDisjoint d.slots
        → Ends (IsCollected cfg env.clock bulk cs d) (try_candidates cfg env bulk actor cs) d
    unfolding try_candidates reverse_onto
    try_candidates-IsCollected env [] d h = Ends-pure _ (refl, h, none_left)
    try_candidates-IsCollected env (c ∷ cs) d h =
        Ends-bind _ _ _ (try_candidate-IsTried cfg env bulk actor admin c d h) (λ e d₁ t. absurd t)
          λ tried d₁ t.
            Ends-bind _ _ _
              (try_candidates-IsCollected (after 1 1 env) cs d₁
                (Tried-IsDisjoint cfg env.clock bulk c d d₁ tried h t))
              (λ e d₂ o. absurd o)
              λ outcome d₂ o.
                Ends-pure _ (collect-IsCollected cfg env.clock bulk c cs d d₁ d₂ tried outcome t o)

  -- What a bulk creation leaves behind.
  abbrev pub BulkCreated : (ℕ → ℕ) → Db → Result Outcome → Db → Type 0
  BulkCreated clock d (ok outcome) d' =
      (d'.slots ≡ reverse_onto outcome.created_slots d.slots)
      × IsDisjoint d'.slots
      × Divided cfg clock bulk d'.slots (all_candidates bulk) outcome.created_slots outcome.skipped
      × (length (all_candidates bulk) ≤ cfg.slot_bulk_create_max_slots)
  BulkCreated clock d (err e) d' = d' ≡ d

  not-true : (b : Bool) → not b ≡ false → b ≡ true
  not-true b h = ground arith

  -- If no two slots of a teacher overlap, a bulk creation either raises and changes nothing, or
  -- adds the slots that it returns, and still no two slots of a teacher overlap. Each candidate,
  -- in order, either is skipped or gives the next of these slots: an OPEN slot of the teacher
  -- with the candidate's start and end, which are not on an excluded date nor in an excluded
  -- range. One that is skipped is on such a date or in such a range, or takes no time, does not
  -- begin behind a reading of the clock, is too short, or overlaps one of the slots that the
  -- teacher then has. There are no more candidates than the limit.
  pub bulk_create_slots-BulkCreated :
      (env : Env) (d : Db)
      → IsDisjoint d.slots
      → Ends (BulkCreated env.clock d) (bulk_create_slots cfg env bulk actor) d
  unfolding bulk_create_slots
  bulk_create_slots-BulkCreated env d h =
      Ends-raise_if _ _ _ (λ _. refl)
        λ admin.
          Ends-raise_if _ _ _ (λ _. refl)
            λ _.
              Ends-raise_if _ _ _ (λ _. refl)
                λ _.
                  Ends-raise_if _ _ _ (λ _. refl)
                    λ _.
                      Ends-raise_if _ _ _ (λ _. refl)
                        λ few.
                          Ends-bind _ _ _
                            (try_candidates-IsCollected (not-true _ admin) env (all_candidates bulk)
                              d h)
                            (λ e d₁ o. absurd o)
                            λ outcome d₁ o.
                              Ends-modify _ _ (Ends-pure _ (o.0, o.1, o.2, ltb→ge _ _ few))
