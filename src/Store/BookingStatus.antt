-- ===== src/Store/BookingStatus.antt =====
-- Tests on `BookingStatusEnum` (app/core/enums.py), as the services write them.
use mathlib.Core.Bool.{Bool, true, false}
use guitar_online.Store.Enums.{BookingStatusEnum}

abbrev pub is_hold : BookingStatusEnum → Bool
is_hold BookingStatusEnum.hold = true
is_hold _ = false

abbrev pub is_confirmed : BookingStatusEnum → Bool
is_confirmed BookingStatusEnum.confirmed = true
is_confirmed _ = false

abbrev pub is_canceled : BookingStatusEnum → Bool
is_canceled BookingStatusEnum.canceled = true
is_canceled _ = false

abbrev pub is_expired : BookingStatusEnum → Bool
is_expired BookingStatusEnum.expired = true
is_expired _ = false

-- `status in (HOLD, CONFIRMED)`
abbrev pub is_active : BookingStatusEnum → Bool
is_active BookingStatusEnum.hold = true
is_active BookingStatusEnum.confirmed = true
is_active _ = false
