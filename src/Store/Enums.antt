-- ===== src/Store/Enums.antt =====
-- app/core/enums.py, and the tests `status == …` that the services make.
use mathlib.Core.Bool.{Bool, true, false}

pub data RoleEnum : Type 0 where
  student teacher admin : RoleEnum

pub data SlotStatusEnum : Type 0 where
  open_slot hold booked canceled blocked : SlotStatusEnum

pub data BookingStatusEnum : Type 0 where
  hold confirmed canceled expired : BookingStatusEnum

pub data PackageStatusEnum : Type 0 where
  active expired depleted canceled : PackageStatusEnum

pub data PaymentStatusEnum : Type 0 where
  pending succeeded failed refunded : PaymentStatusEnum

pub data LessonStatusEnum : Type 0 where
  scheduled completed canceled no_show : LessonStatusEnum

pub data OutboxStatusEnum : Type 0 where
  pending processed failed : OutboxStatusEnum

pub data NotificationStatusEnum : Type 0 where
  pending sent failed : NotificationStatusEnum

pub data TeacherStatusEnum : Type 0 where
  active disabled : TeacherStatusEnum

abbrev pub is_admin : RoleEnum → Bool
is_admin RoleEnum.admin = true
is_admin _ = false

abbrev pub is_student : RoleEnum → Bool
is_student RoleEnum.student = true
is_student _ = false

abbrev pub is_teacher : RoleEnum → Bool
is_teacher RoleEnum.teacher = true
is_teacher _ = false

abbrev pub is_open : SlotStatusEnum → Bool
is_open SlotStatusEnum.open_slot = true
is_open _ = false

abbrev pub is_blocked : SlotStatusEnum → Bool
is_blocked SlotStatusEnum.blocked = true
is_blocked _ = false
