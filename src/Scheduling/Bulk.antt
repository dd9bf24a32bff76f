-- ===== src/Scheduling/Bulk.antt =====
-- `SchedulingService.bulk_create_slots` (app/modules/scheduling/service.py)
pub mod Tiles
pub mod Divided
pub mod Offers
use guitar_online.Base.{
  ℕ, zero, suc, ◌+◌, ◌-◌, ◌*◌, ◌/◌, Bool, true, false, not, ◌&&◌, some, List, [], ◌∷◌, ◌++◌, String,
  ◌⊎◌, inl, inr, leb, ltb, length, contains, if◌then◌else◌,
}
use guitar_online.Store.Enums.{is_admin}
use guitar_online.Store.Rows.{User, AvailabilitySlot, minute, day, weekday}
use guitar_online.Store.Events.{admin_slot_bulk_create}
use guitar_online.Store.Settings.{Settings}
use guitar_online.Store.Session.{
  Env, after, Exec, business, unauthorized, pure, raise_if, except_business, create_audit_log,
  ◌>>=◌, ◌>>◌,
}
use guitar_online.Scheduling.Service.{SlotCreate, create_slot}

-- The keyword arguments.
pub record BulkCreate : Type 0 where
  pub teacher_id : ℕ
  pub date_from_utc : ℕ
  pub date_to_utc : ℕ
  pub weekdays : List ℕ
  pub start_time_utc : ℕ
  pub end_time_utc : ℕ
  pub slot_duration_minutes : ℕ
  pub exclude_dates : List ℕ
  pub exclude_time_ranges : List (ℕ × ℕ)

pub record Candidate : Type 0 where
  pub start_at_utc : ℕ
  pub end_at_utc : ℕ

-- The loop `while cursor + duration <= day_end`, on fuel.
unfoldable pub day_candidates : ℕ → ℕ → ℕ → ℕ → List Candidate
day_candidates zero duration day_end cursor = []
day_candidates (suc fuel) duration day_end cursor =
    let rest = day_candidates fuel duration day_end (cursor + duration) in
    if leb (cursor + duration) day_end
    then record { start_at_utc = cursor; end_at_utc = cursor + duration } ∷ rest
    else []

-- One day's slots; each round of the loop takes at least a microsecond.
abbrev pub candidates_of : BulkCreate → ℕ → List Candidate
candidates_of bulk date =
    let from = date * day + bulk.start_time_utc in
    let to = date * day + bulk.end_time_utc in
    day_candidates (suc (to - from)) (bulk.slot_duration_minutes * minute) to from

-- The loop over `range(day_count)`.
unfoldable pub candidates : BulkCreate → ℕ → ℕ → List Candidate
candidates bulk zero date = []
candidates bulk (suc days) date =
    let rest = candidates bulk days (date + 1) in
    if contains (weekday date) bulk.weekdays then candidates_of bulk date ++ rest else rest

abbrev pub all_candidates : BulkCreate → List Candidate
all_candidates bulk = candidates bulk (bulk.date_to_utc - bulk.date_from_utc + 1) bulk.date_from_utc

unfoldable pub overlaps_excluded_time_ranges : Candidate → List (ℕ × ℕ) → Bool
overlaps_excluded_time_ranges c [] = false
overlaps_excluded_time_ranges c ((range_start, range_end) ∷ ranges) =
    let midnight = c.start_at_utc / day * day in
    if ltb c.start_at_utc (midnight + range_end) && ltb (midnight + range_start) c.end_at_utc
    then true
    else overlaps_excluded_time_ranges c ranges

pub record Skipped : Type 0 where
  pub candidate : Candidate
  pub reason : String

abbrev pub skip : Candidate → String → Exec (Skipped ⊎ AvailabilitySlot)
skip c reason = pure (inl (record { candidate = c; reason = reason }))

abbrev pub creation : Candidate → ℕ → SlotCreate
creation c teacher_id = record {
  teacher_id = teacher_id;
  start_at = c.start_at_utc;
  end_at = c.end_at_utc;
}

-- The body of the loop over the candidates.
unfoldable pub try_candidate :
    Settings → Env → BulkCreate → User → Candidate → Exec (Skipped ⊎ AvailabilitySlot)
try_candidate cfg env bulk actor c =
    if contains (c.start_at_utc / day) bulk.exclude_dates
    then skip c "excluded_date"
    else if overlaps_excluded_time_ranges c bulk.exclude_time_ranges
    then skip c "excluded_time_range"
    else except_business
        (create_slot cfg env (creation c bulk.teacher_id) actor >>= λ slot. pure (inr slot))
        (skip c)

-- The two lists that the loop fills.
pub record Outcome : Type 0 where
  pub created_slots : List AvailabilitySlot
  pub skipped : List Skipped

abbrev pub collect : Skipped ⊎ AvailabilitySlot → Outcome → Outcome
collect (inl s) rest = record rest { skipped = s ∷ rest.skipped }
collect (inr s) rest = record rest { created_slots = s ∷ rest.created_slots }

-- Candidate n has reading and draw n for its own.
unfoldable pub try_candidates : Settings → Env → BulkCreate → User → List Candidate → Exec Outcome
try_candidates cfg env bulk actor [] = pure (record { created_slots = []; skipped = [] })
try_candidates cfg env bulk actor (c ∷ rest) = do
  tried ← try_candidate cfg env bulk actor c
  outcome ← try_candidates cfg (after 1 1 env) bulk actor rest
  pure (collect tried outcome)

unfoldable pub bulk_create_slots : Settings → Env → BulkCreate → User → Exec Outcome
bulk_create_slots cfg env bulk actor = do
  raise_if (not (is_admin actor.role)) (unauthorized "Only admin can create slots")
  raise_if (ltb bulk.date_to_utc bulk.date_from_utc)
      (business "date_from_utc must be less than or equal to date_to_utc")
  raise_if (leb bulk.end_time_utc bulk.start_time_utc)
      (business "end_time_utc must be after start_time_utc")
  raise_if (ltb bulk.slot_duration_minutes cfg.slot_min_duration_minutes)
      (business "slot_duration_minutes must be at least {settings.slot_min_duration_minutes}")
  raise_if (ltb cfg.slot_bulk_create_max_slots (length (all_candidates bulk)))
      (business "Bulk create candidates exceed limit ({settings.slot_bulk_create_max_slots})")
  outcome ← try_candidates cfg env bulk actor (all_candidates bulk)
  create_audit_log (some actor.id) (
      admin_slot_bulk_create bulk.teacher_id (length outcome.created_slots)
        (length outcome.skipped))
  pure outcome
