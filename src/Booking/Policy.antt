-- ===== src/Booking/Policy.antt =====
-- app/modules/booking/policy.py
use guitar_online.Base.{ℕ, ◌+◌, ◌*◌, Bool, ltb}
use guitar_online.Store.Rows.{hour}

-- `slot_start - now > timedelta(hours=refund_window_hours)`, with no negative difference.
unfoldable pub can_refund_by_policy : ℕ → ℕ → ℕ → Bool
can_refund_by_policy now_utc slot_start_utc refund_window_hours =
    ltb (now_utc + refund_window_hours * hour) slot_start_utc
