-- ===== src/Scheduling/Weekly/Generated.antt =====
-- The slots that a schedule generates.
use guitar_online.Base.{
  ◌⊎◌, inl, inr, Bool-cases, All-map, All-select, ==→eq, ◌==◌, ℕ, zero, suc, ◌+◌, ◌≤◌, ◌<◌, ◌≡◌,
  refl, true, false, List, [], ◌∷◌, ◌++◌, arith, All, All-append, length, length-append, ltb→ge,
  ltb, leb, ap, sym, select,
}
use mathlib.Core.List.{append_assoc, Mem, mem-cons_self, mem-cons_of_mem}
use guitar_online.Scheduling.Weekly.Zone.{Zone}
use guitar_online.Store.Enums.{SlotStatusEnum}
use guitar_online.Store.Rows.{AvailabilitySlot, Window, weekday, minute}
use guitar_online.Store.Settings.{Settings}
use guitar_online.Store.Session.{Db, Env, Result, ok, err}
use guitar_online.Store.Ends.{
  Ends, Ends-pure, Ends-if, Ends-bind, Ends-gets, Ends-modify, Ends-assoc, Ends-pure_bind,
  Ends-mono,
}
use guitar_online.Scheduling.Repository.{new_slot, overlaps, earliest, find_overlapping_slot}
use guitar_online.Scheduling.Service.{is_some}
use guitar_online.Scheduling.Disjoint.{clash, IsDisjoint, free-clash}
use guitar_online.Scheduling.Weekly.{on_weekday}
use guitar_online.Scheduling.Weekly.Materialize.{
  Progress, Plan, min_duration, offer_start, counted, generated, offer, materialize_window,
  materialize_day, materialize_days, materialize_open_slots_from_weekly_schedule, start_progress,
  auto_slot_horizon_days,
}

-- The time that a window of the schedule takes on one of the days from today on, in the teacher's
-- zone; if it has begun, the time from within the next minute on.
abbrev pub IsWindowTime : Zone → ℕ → List Window → AvailabilitySlot → Type 0
IsWindowTime zone now schedule s =
    (w : Window) × (date : ℕ) × Mem w schedule
    × (weekday date ≡ w.weekday)
    × (zone.local_date now ≤ date)
    × (date < zone.local_date now + auto_slot_horizon_days)
    × ((s.start_at ≡ zone.to_utc date w.start_local_time)
        ⊎ ((zone.to_utc date w.start_local_time ≤ now) × (s.start_at ≤ now + minute)))
    × (s.end_at ≡ zone.to_utc date w.end_local_time)

-- A slot that is offered at a time: OPEN, the teacher's, of the future, long enough, and in a window.
abbrev pub IsOpening : Settings → Zone → ℕ → ℕ → List Window → AvailabilitySlot → Type 0
IsOpening cfg zone teacher_id now schedule s =
    (s.teacher_id ≡ teacher_id)
    × (s.status ≡ SlotStatusEnum.open_slot)
    × (now < s.start_at)
    × (s.start_at + min_duration cfg ≤ s.end_at)
    × IsWindowTime zone now schedule s

All-Mem : {A : Type 0} (xs : List A) → All (λ x. Mem x xs) xs
All-Mem [] = tt
All-Mem (x ∷ xs) = (mem-cons_self, All-map _ _ xs (λ y m. mem-cons_of_mem x m) (All-Mem xs))

module _ (cfg : Settings) (plan : Plan) (schedule : List Window) where
  abbrev Opening : AvailabilitySlot → Type 0
  Opening = IsOpening cfg plan.zone plan.teacher_id plan.now_utc schedule

  -- A day on which slots are generated, and its windows.
  abbrev IsNear : ℕ → Type 0
  IsNear date =
      (plan.zone.local_date plan.now_utc ≤ date)
      × (date < plan.zone.local_date plan.now_utc + auto_slot_horizon_days)

  abbrev IsPlanned : ℕ → Window → Type 0
  IsPlanned date w = (weekday date == w.weekday ≡ true) × Mem w schedule

  -- So many openings have been added, and nothing else has changed.
  abbrev pub IsGrown : ℕ → Db → Db → Type 0
  IsGrown n d d' =
      (added : List AvailabilitySlot) × (d' ≡ record d { slots = added ++ d.slots })
      × (length added ≡ n)
      × All Opening added
      × IsDisjoint d'.slots

  IsGrown-none : (d : Db) → IsDisjoint d.slots → IsGrown 0 d d
  IsGrown-none d h = ([], refl, refl, tt, h)

  IsGrown-one :
      (s : AvailabilitySlot) (d : Db)
      → Opening s
      → All (λ t. clash s t ≡ false) d.slots
      → IsDisjoint d.slots
      → IsGrown 1 d (record d { slots = s ∷ d.slots })
  IsGrown-one s d opening free h = (s ∷ [], refl, refl, (opening, tt), (free, h))

  IsGrown-trans : (m n : ℕ) (d d₁ d₂ : Db) → IsGrown m d d₁ → IsGrown n d₁ d₂ → IsGrown (n + m) d d₂
  IsGrown-trans m n d d₁ d₂ (xs, e, l, a, h) (ys, e', l', a', h') = (
    ys ++ xs,
    rw (e', e) (ap (λ s. record d { slots = s }) (sym (append_assoc ys xs d.slots))),
    omega (arith, length-append ys xs, l, l'),
    All-append Opening ys xs a' a,
    h',
  )

  -- The counters keep to the limit.
  abbrev IsCounted : Progress → Type 0
  IsCounted p =
      (p.generated_slots_count ≤ p.processed_candidates)
      × (p.generated_slots_count ≤ cfg.slot_bulk_create_max_slots)

  abbrev IsProgress : Progress → Db → Result Progress → Db → Type 0
  IsProgress p d (ok q) d' =
      (n : ℕ) × (q.generated_slots_count ≡ n + p.generated_slots_count)
      × IsGrown n d d'
      × IsCounted q
  IsProgress p d (err e) d' = ⊥

  IsProgress-trans :
      (p q : Progress) (d d₁ d₂ : Db) (r : Result Progress)
      → IsProgress p d (ok q) d₁
      → IsProgress q d₁ r d₂
      → IsProgress p d r d₂
  IsProgress-trans p q d d₁ d₂ (ok s) (m, e, g, _) (n, e', g', c) =
      (n + m, omega (arith, e, e'), IsGrown-trans m n d d₁ d₂ g g', c)
  IsProgress-trans p q d d₁ d₂ (err e) _ h = h

  IsProgress-none :
      (p q : Progress) (d : Db)
      → q.generated_slots_count ≡ p.generated_slots_count
      → IsCounted q
      → IsDisjoint d.slots
      → IsProgress p d (ok q) d
  IsProgress-none p q d same c h = (0, omega (arith, same), IsGrown-none d h, c)

  offer_start_near :
      (start : ℕ)
      → (offer_start plan.now_utc start ≡ start)
        ⊎ ((start ≤ plan.now_utc) × (offer_start plan.now_utc start ≤ plan.now_utc + minute))
  offer_start_near start = elim (Bool-cases (leb start plan.now_utc)) [
    | inl begun ↦ inr (ground (arith, begun), rw (begun, offer_start) (omega arith))
    | inr ahead ↦ inl (rw (ahead, offer_start) refl)
  ]

  offer_later : (start : ℕ) → plan.now_utc < offer_start plan.now_utc start
  offer_later start = ground arith

  offer-IsProgress :
      (env : Env) (p : Progress) (start end : ℕ) (d : Db)
      → plan.now_utc < start
      → start + min_duration cfg ≤ end
      → IsWindowTime plan.zone plan.now_utc schedule (
          new_slot
            (env.uuid4 (counted p).processed_candidates)
            plan.teacher_id
            plan.created_by_admin_id
            start
            end)
      → p.processed_candidates < cfg.slot_bulk_create_max_slots
      → IsCounted p
      → IsDisjoint d.slots
      → Ends (IsProgress p d) (offer env plan (counted p) start end) d
  unfolding offer find_overlapping_slot
  offer-IsProgress env p start end d later long timed few c h =
      let s =
        new_slot (env.uuid4 (counted p).processed_candidates) plan.teacher_id
          plan.created_by_admin_id start end in
      Ends-gets _ _ (
        Ends-if (is_some (earliest (select (overlaps plan.teacher_id start end) d.slots))) _ _
          (λ _.
            Ends-pure (counted p)
              (IsProgress-none p (counted p) d refl (omega (arith, c.0), c.1) h))
          λ free. Ends-assoc _ _ _ _ (
            Ends-modify _ _ (
              Ends-pure_bind _ _ (
                Ends-pure (generated (counted p)) (
                  1,
                  omega arith,
                  IsGrown-one s d (refl, refl, later, long, timed)
                      (free-clash plan.teacher_id start end d.slots free) h,
                  (omega (arith, c.0), omega (arith, c.0)),
                )))))

  materialize_window-IsProgress :
      (env : Env) (date : ℕ) (w : Window) (p : Progress) (d : Db)
      → IsNear date
      → IsPlanned date w
      → IsCounted p
      → IsDisjoint d.slots
      → Ends (IsProgress p d) (materialize_window cfg env plan date w p) d
  unfolding materialize_window
  materialize_window-IsProgress env date w p d near planned c h =
      let start = plan.zone.to_utc date w.start_local_time in
      let end = plan.zone.to_utc date w.end_local_time in
      let k : IsCounted (counted p) = (omega (arith, c.0), c.1) in
      Ends-if (ltb cfg.slot_bulk_create_max_slots (suc p.processed_candidates)) _ _
        (λ _.
          Ends-pure (record (counted p) { returned = true })
            (IsProgress-none p (record (counted p) { returned = true }) d refl k h))
        λ few.
          Ends-if (leb end plan.now_utc) _ _
            (λ _. Ends-pure (counted p) (IsProgress-none p (counted p) d refl k h))
            λ _.
              Ends-if (ltb end (offer_start plan.now_utc start + min_duration cfg)) _ _
                (λ _. Ends-pure (counted p) (IsProgress-none p (counted p) d refl k h))
                λ long.
                  offer-IsProgress env p (offer_start plan.now_utc start) end d (offer_later start)
                    (ltb→ge _ _ long)
                    (
                      w,
                      date,
                      planned.1,
                      ==→eq _ _ planned.0,
                      near.0,
                      near.1,
                      offer_start_near start,
                      refl,
                    )
                    (ltb→ge _ _ few) c h

  materialize_day-IsProgress :
      (env : Env) (date : ℕ) (windows : List Window) (p : Progress) (d : Db)
      → IsNear date
      → All (IsPlanned date) windows
      → IsCounted p
      → IsDisjoint d.slots
      → Ends (IsProgress p d) (materialize_day cfg env plan date windows p) d
  unfolding materialize_day
  materialize_day-IsProgress env date [] p d near planned c h =
      Ends-pure p (IsProgress-none p p d refl c h)
  materialize_day-IsProgress env date (w ∷ windows) p d near planned c h =
      Ends-bind _ _ _ (materialize_window-IsProgress env date w p d near planned.0 c h)
        (λ e d₁ i. absurd i)
        λ q d₁ i.
          Ends-if q.returned _ _ (λ _. Ends-pure q i)
            λ _.
              Ends-mono _ _ _ (λ r d₂. IsProgress-trans p q d d₁ d₂ r i)
                (materialize_day-IsProgress env date windows q d₁ near planned.1 i.3 i.2.4)

  materialize_days-IsProgress :
      (env : Env) (days date : ℕ) (p : Progress) (d : Db)
      → plan.zone.local_date plan.now_utc ≤ date
      → date + days ≤ plan.zone.local_date plan.now_utc + auto_slot_horizon_days
      → IsCounted p
      → IsDisjoint d.slots
      → Ends (IsProgress p d) (materialize_days cfg env plan schedule days date p) d
  unfolding materialize_days
  materialize_days-IsProgress env zero date p d low high c h =
      Ends-pure p (IsProgress-none p p d refl c h)
  materialize_days-IsProgress env (suc days) date p d low high c h =
      let today = select (on_weekday (weekday date)) schedule in
      let planned =
        All-select (λ w. Mem w schedule) (on_weekday (weekday date)) schedule (All-Mem schedule) in
      Ends-bind _ _ _
        (materialize_day-IsProgress env date today p d (low, omega (arith, high)) planned c h)
        (λ e d₁ i. absurd i)
        λ q d₁ i.
          Ends-if q.returned _ _ (λ _. Ends-pure q i)
            λ _.
              Ends-mono _ _ _ (λ r d₂. IsProgress-trans p q d d₁ d₂ r i)
                (materialize_days-IsProgress env days (suc date) q d₁ (omega (arith, low))
                  (omega (arith, high)) i.3 i.2.4)

  abbrev pub IsMaterialized : Db → Result ℕ → Db → Type 0
  IsMaterialized d (ok n) d' = IsGrown n d d' × (n ≤ cfg.slot_bulk_create_max_slots)
  IsMaterialized d (err e) d' = ⊥

  -- If no two slots of a teacher overlap, a schedule's slots are generated without an exception:
  -- as many slots are added as the call returns, no more than the limit. Each is OPEN, the teacher's, begins in
  -- the future, has the minimal length and takes the time of a window on one of the next days, nothing else changes, and still no two slots of a teacher overlap.
  pub materialize-IsMaterialized :
      (env : Env) (d : Db)
      → IsDisjoint d.slots
      → Ends
          (IsMaterialized d)
          (materialize_open_slots_from_weekly_schedule cfg env plan schedule)
          d
  unfolding materialize_open_slots_from_weekly_schedule
  materialize-IsMaterialized env d h =
      Ends-bind _ _ _
        (materialize_days-IsProgress env auto_slot_horizon_days (plan.zone.local_date plan.now_utc)
          start_progress d (omega arith) (omega arith) (omega arith, omega arith) h)
        (λ e d₁ i. absurd i)
        λ p d₁ i.
          let same : p.generated_slots_count ≡ i.0 = omega (arith, i.1) in
          Ends-pure _ (rw same i.2, i.3.1)
