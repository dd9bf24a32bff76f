-- ===== src/Scheduling/Weekly/Materialize.antt =====
-- The slots of a weekly schedule (app/modules/scheduling/service.py,
-- `_materialize_open_slots_from_weekly_schedule`).
use guitar_online.Base.{
  ℕ, zero, suc, ◌+◌, ◌*◌, ◌/◌, Bool, true, false, List, [], ◌∷◌, ltb, leb, select, if◌then◌else◌,
}
use guitar_online.Store.Rows.{Window, minute, weekday}
use guitar_online.Store.Settings.{Settings}
use guitar_online.Store.Session.{Env, Exec, pure, ◌>>=◌, ◌>>◌}
use guitar_online.Scheduling.Repository.{find_overlapping_slot, create_slot}
use guitar_online.Scheduling.Service.{is_some}
use guitar_online.Scheduling.Weekly.{on_weekday}
use guitar_online.Scheduling.Weekly.Zone.{Zone}

-- The counters of the loops; `returned` after the return at the limit.
pub record Progress : Type 0 where
  pub generated_slots_count : ℕ
  pub processed_candidates : ℕ
  pub returned : Bool

-- The arguments that stay the same.
pub record Plan : Type 0 where
  pub teacher_id : ℕ
  pub created_by_admin_id : ℕ
  pub zone : Zone
  pub now_utc : ℕ

abbrev pub next_minute : ℕ → ℕ
next_minute now = (now + minute) / minute * minute

abbrev pub min_duration : Settings → ℕ
min_duration cfg = cfg.slot_min_duration_minutes * minute

-- A window that has begun is offered from the next minute on.
abbrev pub offer_start : ℕ → ℕ → ℕ
offer_start now start = if leb start now then next_minute now else start

abbrev pub counted : Progress → Progress
counted p = record p { processed_candidates = suc p.processed_candidates }

abbrev pub generated : Progress → Progress
generated p = record p { generated_slots_count = suc p.generated_slots_count }

-- What is left of a window, unless a slot is in the way.
unfoldable pub offer : Env → Plan → Progress → ℕ → ℕ → Exec Progress
offer env plan p start end = do
  overlapping_slot ← find_overlapping_slot plan.teacher_id start end
  if is_some overlapping_slot then pure p else (do
    create_slot (env.uuid4 p.processed_candidates) plan.teacher_id plan.created_by_admin_id start
        end
    pure (generated p))

-- The body of the inner loop.
unfoldable pub materialize_window : Settings → Env → Plan → ℕ → Window → Progress → Exec Progress
materialize_window cfg env plan local_date w p =
    let start = plan.zone.to_utc local_date w.start_local_time in
    let end = plan.zone.to_utc local_date w.end_local_time in
    if ltb cfg.slot_bulk_create_max_slots (suc p.processed_candidates)
    then pure (record (counted p) { returned = true })
    else if leb end plan.now_utc
    then pure (counted p)
    else if ltb end (offer_start plan.now_utc start + min_duration cfg)
    then pure (counted p)
    else offer env plan (counted p) (offer_start plan.now_utc start) end

-- The windows of a day.
unfoldable pub materialize_day : Settings → Env → Plan → ℕ → List Window → Progress → Exec Progress
materialize_day cfg env plan local_date [] p = pure p
materialize_day cfg env plan local_date (w ∷ windows) p = do
  q ← materialize_window cfg env plan local_date w p
  if q.returned then pure q else materialize_day cfg env plan local_date windows q

-- The loop over so many days.
unfoldable pub materialize_days :
    Settings → Env → Plan → List Window → ℕ → ℕ → Progress → Exec Progress
materialize_days cfg env plan windows zero local_date p = pure p
materialize_days cfg env plan windows (suc days) local_date p = do
  q ← materialize_day cfg env plan local_date (select (on_weekday (weekday local_date)) windows) p
  if q.returned then pure q else materialize_days cfg env plan windows days (suc local_date) q

abbrev pub auto_slot_horizon_days : ℕ
auto_slot_horizon_days = 21

abbrev pub start_progress : Progress
start_progress = record { generated_slots_count = 0; processed_candidates = 0; returned = false }

unfoldable pub materialize_open_slots_from_weekly_schedule :
    Settings → Env → Plan → List Window → Exec ℕ
materialize_open_slots_from_weekly_schedule cfg env plan windows = do
  p ←
      materialize_days cfg env plan windows auto_slot_horizon_days
        (plan.zone.local_date plan.now_utc) start_progress
  pure p.generated_slots_count
