-- ===== src/Scheduling/Weekly/Coming.antt =====
-- The reference date of a window.
use guitar_online.Base.{ℕ, ◌+◌, ◌≤◌, ◌<◌, ◌≡◌, arith}
use guitar_online.Store.Rows.{weekday}
use guitar_online.Scheduling.Weekly.Replace.{next_local_date_for_weekday}

-- For a weekday from 0 to 6 the reference date falls on it, today at the soonest and at most six
-- days later.
pub next_local_date_for_weekday_lem :
    (n today : ℕ)
    → n ≤ 6
    → (weekday (next_local_date_for_weekday n today) ≡ n)
      × (today ≤ next_local_date_for_weekday n today)
      × (next_local_date_for_weekday n today < today + 7)
unfolding next_local_date_for_weekday
next_local_date_for_weekday_lem n today h = (omega arith, omega arith, omega arith)
