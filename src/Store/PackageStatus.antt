-- ===== src/Store/PackageStatus.antt =====
-- Tests on `PackageStatusEnum` (app/core/enums.py), as the services write them.
use mathlib.Core.Bool.{Bool, true, false}
use guitar_online.Store.Enums.{PackageStatusEnum}

abbrev pub is_active : PackageStatusEnum → Bool
is_active PackageStatusEnum.active = true
is_active _ = false

abbrev pub is_expired : PackageStatusEnum → Bool
is_expired PackageStatusEnum.expired = true
is_expired _ = false

abbrev pub is_canceled : PackageStatusEnum → Bool
is_canceled PackageStatusEnum.canceled = true
is_canceled _ = false
