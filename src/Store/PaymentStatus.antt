-- ===== src/Store/PaymentStatus.antt =====
-- Tests on `PaymentStatusEnum` (app/core/enums.py), as the billing service writes them.
use mathlib.Core.Bool.{Bool, true, false}
use guitar_online.Store.Enums.{PaymentStatusEnum}

abbrev pub is_pending : PaymentStatusEnum → Bool
is_pending PaymentStatusEnum.pending = true
is_pending _ = false

abbrev pub is_succeeded : PaymentStatusEnum → Bool
is_succeeded PaymentStatusEnum.succeeded = true
is_succeeded _ = false

abbrev pub is_failed : PaymentStatusEnum → Bool
is_failed PaymentStatusEnum.failed = true
is_failed _ = false

abbrev pub is_refunded : PaymentStatusEnum → Bool
is_refunded PaymentStatusEnum.refunded = true
is_refunded _ = false

-- `a == b`
abbrev pub same : PaymentStatusEnum → PaymentStatusEnum → Bool
same PaymentStatusEnum.pending b = is_pending b
same PaymentStatusEnum.succeeded b = is_succeeded b
same PaymentStatusEnum.failed b = is_failed b
same PaymentStatusEnum.refunded b = is_refunded b
