-- ===== src/Scheduling/Weekly/Zone.antt =====
-- Time zones (app/modules/scheduling/service.py, `_load_timezone`). The zone database is a parameter.
use text.Mathlib.Text.{◌==◌ as same_text}
use guitar_online.Base.{ℕ, ◌+◌, ◌-◌, ◌*◌, ◌/◌, not, ◌||◌, Option, none, some, String, if◌then◌else◌}
use guitar_online.Store.Rows.{day, hour}
use guitar_online.Store.Session.{Exec, business, pure, raise}
use guitar_online.Store.Text.{Str, is_nonempty}

-- `value.astimezone(zone).date()`, and `datetime.combine(date, time, tzinfo=zone).astimezone(UTC)`.
pub record Zone : Type 0 where
  pub local_date : ℕ → ℕ
  pub to_utc : ℕ → ℕ → ℕ

-- `timezone(timedelta(hours=n))`
abbrev pub fixed_zone : ℕ → Zone
fixed_zone n = record {
  local_date = λ t. (t + n * hour) / day;
  to_utc = λ date time. date * day + time - n * hour;
}

-- `ZoneInfo`, where `none` is ZoneInfoNotFoundError.
abbrev pub ZoneInfo : Type 0
ZoneInfo = String → Option Zone

abbrev pub known_zone : String → Option Zone → Exec Zone
known_zone name (some zone) = pure zone
known_zone name none =
    if same_text name "Europe/Moscow"
    then pure (fixed_zone 3)
    else raise (business "Teacher timezone is invalid")

unfoldable pub load_timezone : Str → ZoneInfo → String → Exec Zone
load_timezone text zone_info timezone_name =
    let normalized = text.strip timezone_name in
    let upper = text.upper normalized in
    if not (is_nonempty normalized)
    then raise (business "Teacher timezone is invalid")
    else if same_text upper "UTC" || (same_text upper "ETC/UTC" || same_text upper "GMT")
    then pure (fixed_zone 0)
    else known_zone normalized (zone_info normalized)
