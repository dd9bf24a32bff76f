-- ===== src/Scheduling/Weekly/Replaced.antt =====
-- What the replacement of a schedule leaves behind.
use mathlib.Core.List.{Perm}
use mathlib.Core.List.Perm
use guitar_online.Base.{
  map, ℕ, ◌≤◌, ◌≡◌, refl, inl, inr, false, Bool, not, some, List, [], ◌∷◌, ◌++◌, arith, All,
  All-map, All-select, length, ltb, Bool-cases, ap, ◌∙◌, select,
}
use guitar_online.Base.Sort.{sort}
use guitar_online.Store.Rows.{User, AvailabilitySlot, Window, TeacherWeeklyScheduleWindow}
use guitar_online.Store.Settings.{Settings}
use guitar_online.Store.Events.{Action}
use guitar_online.Scheduling.Weekly.Materialize.{Plan, materialize_open_slots_from_weekly_schedule}
use guitar_online.Store.Text.{Str}
use guitar_online.Store.Session.{
  Db, Env, after, Result, ok, err, ◌>>=◌, ◌>>◌, pure, create_audit_log,
}
use guitar_online.Store.Ends.{
  Ends, Ends-pure, Ends-bind, Ends-gets, Ends-modify, Ends-raise_if, Ends-check, Ends-assoc,
  Ends-pure_bind,
}
use guitar_online.Scheduling.Disjoint.{clash, IsDisjoint}
use guitar_online.Scheduling.Weekly.{normalized}
use guitar_online.Scheduling.Weekly.Apart.{normalize_weekly_schedule_windows-IsSchedule}
use guitar_online.Scheduling.Weekly.Zone.{Zone, ZoneInfo}
use guitar_online.Scheduling.Weekly.Repository.{
  window_of, row_le, new_windows, list_teacher_weekly_schedule_windows,
  replace_teacher_weekly_schedule_windows, is_future_open, is_referred, delete_future_open_slots,
}
use guitar_online.Scheduling.Weekly.Resolved.{resolve-Known}
use guitar_online.Scheduling.Weekly.Rows.{
  other_windows, with_windows, rows-perm, list_back, others_kept,
}
use guitar_online.Scheduling.Weekly.Generated.{IsOpening, materialize-IsMaterialized}
use guitar_online.Scheduling.Weekly.Replace.{
  resolve_teacher_timezone, replace_teacher_weekly_schedule,
}

All-selected :
    {A : Type 0} (P : A → Type 0) (p : A → Bool) (xs : List A) → All P xs → All P (select p xs)
All-selected P p xs h = All-map _ P _ (λ x q. q.1) (All-select P p xs h)

IsDisjoint-select :
    (p : AvailabilitySlot → Bool) (xs : List AvailabilitySlot)
    → IsDisjoint xs
    → IsDisjoint (select p xs)
IsDisjoint-select p [] h = tt
IsDisjoint-select p (x ∷ xs) h =
    let rest = IsDisjoint-select p xs h.1 in
    elim (Bool-cases (p x)) [
      | inl hit ↦ rw hit (All-selected (λ t. clash x t ≡ false) p xs h.0, rest)
      | inr miss ↦ rw miss rest
    ]

-- A window of the schedule is one of those given.
openings_back :
    (cfg : Settings) (zone : Zone) (teacher_id now : ℕ) (ws windows : List Window)
    (added : List AvailabilitySlot)
    → Perm ws windows
    → All (IsOpening cfg zone teacher_id now ws) added
    → All (IsOpening cfg zone teacher_id now windows) added
openings_back cfg zone teacher_id now ws windows added same = All-map _ _ added λ s o. (
  o.0,
  o.1,
  o.2,
  o.3,
  let (w, date, member, weekday, low, high, start, end) = o.4 in
      (w, date, Perm.subset same w member, weekday, low, high, start, end),
)

-- The slots that a new schedule takes away, and those of them that have bookings.
abbrev pub replaced_slots : ℕ → ℕ → Db → List AvailabilitySlot
replaced_slots teacher_id now d = select (is_future_open teacher_id now) d.slots

abbrev pub referred_slots : ℕ → ℕ → Db → List AvailabilitySlot
referred_slots teacher_id now d = select (is_referred d.bookings) (replaced_slots teacher_id now d)

abbrev pub kept_slots : ℕ → ℕ → Db → List AvailabilitySlot
kept_slots teacher_id now d = select (λ s. not (is_future_open teacher_id now s)) d.slots

-- What `replace_teacher_weekly_schedule` leaves behind.
abbrev pub IsReplaced :
    Settings
    → Str
    → ZoneInfo
    → ℕ
    → List Window
    → ℕ
    → Db
    → Result (List TeacherWeeklyScheduleWindow)
    → Db
    → Type 0
IsReplaced cfg text zone_info teacher_id windows now d (ok rows) d' =
    (referred_slots teacher_id now d ≡ [])
    × IsDisjoint d'.slots
    × ((zone : Zone) × (added : List AvailabilitySlot) × ((resolve_teacher_timezone text zone_info
            teacher_id d).0
          ≡ ok zone)
        × (d'.slots ≡ added ++ kept_slots teacher_id now d)
        × All (IsOpening cfg zone teacher_id now (map normalized windows)) added
        × (length added ≤ cfg.slot_bulk_create_max_slots))
    × (list_teacher_weekly_schedule_windows teacher_id d' ≡ (ok rows, d'))
    × Perm (map window_of rows) (map normalized windows)
    × (other_windows teacher_id d'.windows ≡ other_windows teacher_id d.windows)
IsReplaced cfg text zone_info teacher_id windows now d (err e) d' = d'.slots ≡ d.slots

length-zero : {A : Type 0} (xs : List A) → ltb 0 (length xs) ≡ false → xs ≡ []
length-zero [] h = refl
length-zero (x ∷ xs) h = absurd (ground (arith, h))

module _ (teacher_id now : ℕ) where
  abbrev IsDeleted : Db → Result ℕ → Db → Type 0
  IsDeleted d (ok n) d' =
      (d' ≡ record d { slots = kept_slots teacher_id now d })
      × (referred_slots teacher_id now d ≡ [])
  IsDeleted d (err e) d' = d' ≡ d

  delete-IsDeleted : (d : Db) → Ends (IsDeleted d) (delete_future_open_slots teacher_id now) d
  unfolding delete_future_open_slots
  delete-IsDeleted d = Ends-gets _ _ (
      Ends-gets _ _ (
        Ends-raise_if _ _ _ (λ _. refl)
          λ free. Ends-modify _ _ (Ends-pure _ (refl, length-zero _ free))))

module _ (cfg : Settings) (text : Str) (zone_info : ZoneInfo) (env : Env) (teacher_id : ℕ)
    (windows : List Window) (actor : User) where
  abbrev plan_of : Zone → Plan
  plan_of zone = record {
    teacher_id = teacher_id;
    created_by_admin_id = actor.id;
    zone = zone;
    now_utc = env.clock 0;
  }

  -- The steps behind the deletion.
  generate-IsReplaced :
      (ws : List Window) (zone : Zone) (log : ℕ → Action) (d d₁ : Db)
      → IsDisjoint d.slots
      → Perm ws (map normalized windows)
      → (resolve_teacher_timezone text zone_info teacher_id d).0 ≡ ok zone
      → (let created = new_windows env teacher_id ws [] in
          let kept = kept_slots teacher_id (env.clock 0) d in
          d₁ ≡ record (with_windows teacher_id created d) { slots = kept }
          → referred_slots teacher_id (env.clock 0) d ≡ []
          → Ends
              (IsReplaced cfg text zone_info teacher_id windows (env.clock 0) d)
              (materialize_open_slots_from_weekly_schedule cfg
                  (after 0 (length ws) env)
                  (plan_of zone)
                  ws
                >>= λ n. (create_audit_log (some actor.id) (log n) >> pure (sort row_le created)))
              d₁)
  generate-IsReplaced ws zone log d d₁ h same known cleared free =
      let kept : d₁.slots ≡ kept_slots teacher_id (env.clock 0) d = ap (λ d. d.slots) cleared in
      Ends-bind _ _ _
        (materialize-IsMaterialized cfg (plan_of zone) ws (after 0 (length ws) env) d₁
          (rw kept (IsDisjoint-select _ d.slots h)))
        (λ e d₂ k. absurd k)
        λ g d₂ k. Ends-modify _ _ (
          Ends-pure _ (
            free,
            k.0.4,
            (
              zone,
              k.0.0,
              known,
              ap (λ d. d.slots) k.0.1 ∙ ap (λ s. k.0.0 ++ s) kept,
              openings_back cfg zone teacher_id (env.clock 0) ws (map normalized windows) k.0.0 same
                  k.0.3,
              omega (arith, k.0.2, k.1),
            ),
            list_back env teacher_id ws d _
                (ap (λ d. d.windows) k.0.1 ∙ ap (λ d. d.windows) cleared),
            Perm.trans (rows-perm env teacher_id ws) same,
            others_kept env teacher_id ws d.windows _
                (ap (λ d. d.windows) k.0.1 ∙ ap (λ d. d.windows) cleared),
          ))

  -- If no two slots of a teacher overlap, the replacement of a schedule raises and leaves the
  -- slots as they were, or it returns rows that a query for the teacher's schedule gives back:
  -- those of the given windows, cut down to whole minutes; and the windows of the other teachers
  -- are kept. Then none of the teacher's OPEN slots from now on had a booking; they are gone,
  -- and all other slots are kept. The slots that are new, no more than the limit, are OPEN, the
  -- teacher's, begin in the future and have the minimal length; each takes the time of one of
  -- the given windows, or what is left of it, on one of the days from today on that the horizon
  -- has, in the teacher's time zone. Still no two slots of a teacher overlap.
  pub replace_teacher_weekly_schedule-IsReplaced :
      (d : Db)
      → IsDisjoint d.slots
      → Ends
          (IsReplaced cfg text zone_info teacher_id windows (env.clock 0) d)
          (replace_teacher_weekly_schedule cfg text zone_info env teacher_id windows actor)
          d
  unfolding replace_teacher_weekly_schedule list_teacher_weekly_schedule_windows
      replace_teacher_weekly_schedule_windows
  replace_teacher_weekly_schedule-IsReplaced d h =
      let now = env.clock 0 in
      Ends-raise_if _ _ _ (λ _. refl)
        λ _.
          Ends-check _ _ _ (resolve-Known text zone_info teacher_id d) (λ _. refl)
            λ zone known.
              Ends-check _ _ _ (normalize_weekly_schedule_windows-IsSchedule windows d) (λ _. refl)
                λ ws same. Ends-gets _ _ (
                  Ends-assoc _ _ _ _ (
                    Ends-modify _ _ (
                      Ends-pure_bind _ _ (
                        Ends-bind _ _ _ (delete-IsDeleted teacher_id now _)
                          (λ e d₁ i. ap (λ d. d.slots) i)
                          λ n d₁ i. generate-IsReplaced ws zone _ d d₁ h same.0 known i.0 i.1))))
