-- ===== src/Scheduling/Weekly.antt =====
-- A teacher's weekly schedule: the normalisation of its windows
-- (app/modules/scheduling/service.py, `_normalize_weekly_schedule_windows`).
pub mod Rows
pub mod Apart
pub mod Zone
pub mod Repository
pub mod Materialize
pub mod Replace
pub mod Generated
pub mod Resolved
pub mod Replaced
pub mod Refused
pub mod Coming
use guitar_online.Base.{
  ℕ, ◌*◌, ◌/◌, Bool, true, false, not, ◌&&◌, ◌||◌, List, [], ◌∷◌, map, length, select, ltb, leb,
  ◌==◌, if◌then◌else◌,
}
use guitar_online.Base.Sort.{sort}
use guitar_online.Store.Rows.{Window, minute}
use guitar_online.Store.Session.{Exec, business, pure, raise, raise_if, ◌>>=◌, ◌>>◌}

-- `value.replace(second=0, microsecond=0)`
abbrev pub to_minute : ℕ → ℕ
to_minute time = time / minute * minute

abbrev pub normalized : Window → Window
normalized w = record w {
  start_local_time = to_minute w.start_local_time;
  end_local_time = to_minute w.end_local_time;
}

-- The loop that checks the windows one by one.
unfoldable pub normalize_all : List Window → Exec (List Window)
normalize_all [] = pure []
normalize_all (w ∷ windows) = do
  raise_if (ltb 6 w.weekday) (business "weekday must be in range 0..6")
  raise_if (leb (normalized w).end_local_time (normalized w).start_local_time)
      (business "Schedule window end_local_time must be after start_local_time")
  rest ← normalize_all windows
  pure (normalized w ∷ rest)

-- The order of the tuples (weekday, start, end).
abbrev pub window_le : Window → Window → Bool
window_le v w =
    ltb v.weekday w.weekday
    || ((v.weekday == w.weekday)
        && (ltb v.start_local_time w.start_local_time
            || ((v.start_local_time == w.start_local_time)
                && leb v.end_local_time w.end_local_time)))

abbrev pub on_weekday : ℕ → Window → Bool
on_weekday n w = n == w.weekday

-- A window of one weekday begins before the one in front of it ends.
unfoldable pub has_overlap : List Window → Bool
has_overlap [] = false
has_overlap (v ∷ []) = false
has_overlap (v ∷ w ∷ windows) =
    let rest = has_overlap (w ∷ windows) in
    if ltb w.start_local_time v.end_local_time then true else rest

-- The loop over the keys of `by_weekday`, the weekdays of the windows. A key that comes again is
-- looked at again.
unfoldable pub any_overlap : List Window → List ℕ → Bool
any_overlap windows [] = false
any_overlap windows (n ∷ weekdays) =
    let rest = any_overlap windows weekdays in
    if has_overlap (select (on_weekday n) windows) then true else rest

unfoldable pub normalize_weekly_schedule_windows : List Window → Exec (List Window)
normalize_weekly_schedule_windows windows = do
  raise_if (ltb 84 (length windows)) (business "Schedule contains too many windows")
  normalized ← normalize_all windows
  let sorted = sort window_le normalized
  raise_if (any_overlap sorted (map (λ w. w.weekday) sorted))
      (business "Schedule windows overlap within the same weekday")
  pure sorted
