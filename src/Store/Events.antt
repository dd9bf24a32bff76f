-- ===== src/Store/Events.antt =====
-- What the services hand to `create_outbox_event` and `create_audit_log`: one constructor for each
-- event type and each action, with the entries of its payload.
use guitar_online.Base.{ℕ, Bool, Option, List, String}
use guitar_online.Store.Rows.{Window, TeacherWeeklyScheduleWindow}
use guitar_online.Store.Enums.{
  OutboxStatusEnum, PaymentStatusEnum, PackageStatusEnum, RoleEnum, SlotStatusEnum,
  TeacherStatusEnum,
}

pub data Event : Type 0 where
  -- booking, slot, student, start, end
  booking_hold_created : ℕ → ℕ → ℕ → ℕ → ℕ → Event
  -- booking, student, slot
  booking_confirmed : ℕ → ℕ → ℕ → Event
  -- booking, student, slot, refund_returned
  booking_canceled : ℕ → ℕ → ℕ → Bool → Event
  -- booking, slot
  booking_hold_expired : ℕ → ℕ → Event
  -- new booking, old booking, student, reason
  booking_rescheduled : ℕ → ℕ → ℕ → String → Event
  -- lesson, booking, student, teacher
  lesson_created : ℕ → ℕ → ℕ → ℕ → Event
  -- lesson, booking, student, teacher, reason
  lesson_canceled : ℕ → ℕ → ℕ → ℕ → Option String → Event
  -- package, student, lessons_total, price_amount, price_currency, plan
  package_created : ℕ → ℕ → ℕ → Option ℕ → Option String → Option String → Event
  -- package, student, trigger
  package_expired : ℕ → ℕ → String → Event
  -- package, student, from, to
  package_canceled : ℕ → ℕ → PackageStatusEnum → PackageStatusEnum → Event
  -- payment, package, status, provider
  payment_created : ℕ → ℕ → PaymentStatusEnum → String → Event
  -- payment, from, to
  payment_status_updated : ℕ → PaymentStatusEnum → PaymentStatusEnum → Event

pub record OutboxEvent : Type 0 where
  pub id : ℕ
  pub event : Event
  pub status : OutboxStatusEnum
  pub occurred_at : ℕ
  pub updated_at : ℕ
  pub processed_at : Option ℕ
  pub retries : ℕ
  pub error_message : Option String

abbrev pub outbox_key : OutboxEvent → ℕ
outbox_key e = e.id

pub data Action : Type 0 where
  -- booking, old slot, reason, refund_returned
  admin_booking_cancel : ℕ → ℕ → Option String → Bool → Action
  -- old booking, new booking, old slot, new slot, reason
  admin_booking_reschedule : ℕ → ℕ → ℕ → ℕ → String → Action
  -- slot, teacher, start, end
  admin_slot_create : ℕ → ℕ → ℕ → ℕ → Action
  -- teacher, created_count, skipped_count
  admin_slot_bulk_create : ℕ → ℕ → ℕ → Action
  -- package, student, lessons_total, expires_at
  billing_package_create : ℕ → ℕ → ℕ → ℕ → Action
  -- package, student, lessons_total, price_amount, price_currency, expires_at
  admin_package_create : ℕ → ℕ → ℕ → Option ℕ → Option String → ℕ → Action
  -- plan, package, student, lessons_total, price_amount, price_currency, expires_at
  billing_package_purchase : String → ℕ → ℕ → ℕ → Option ℕ → Option String → ℕ → Action
  -- package, student, from, to, lessons_left, lessons_reserved
  admin_package_cancel : ℕ → ℕ → PackageStatusEnum → PackageStatusEnum → ℕ → ℕ → Action
  -- package, student, expired_at, trigger
  billing_package_expire : ℕ → ℕ → ℕ → String → Action
  -- payment, package, amount, currency, external_reference, provider, provider_payment_id
  billing_payment_create : ℕ → ℕ → ℕ → String → Option String → String → Option String → Action
  -- the action's name, payment, from, to, paid_at, the entry of `payload_extra`
  payment_status :
      String → ℕ → PaymentStatusEnum → PaymentStatusEnum → Option ℕ → Option String → Action
  -- teacher, windows before and after, removed_open_slots_count, generated_open_slots_count
  admin_teacher_schedule_replace :
      ℕ → List TeacherWeeklyScheduleWindow → List Window → ℕ → ℕ → Action
  -- user, from_role, to_role, teacher_profile_created, teacher_profile_from_status, _to_status
  admin_user_role_change :
      ℕ → RoleEnum → RoleEnum → Bool → Option TeacherStatusEnum → Option TeacherStatusEnum → Action
  -- user, role, from_is_active, to_is_active, teacher_profile_from_status, _to_status
  admin_user_active :
      ℕ → RoleEnum → Bool → Bool → Option TeacherStatusEnum → Option TeacherStatusEnum → Action
  -- teacher, from_status, from_user_is_active
  admin_teacher_disable : ℕ → TeacherStatusEnum → Bool → Action
  -- slot, teacher, start, end, status
  admin_slot_delete : ℕ → ℕ → ℕ → ℕ → SlotStatusEnum → Action
  -- slot, teacher, from_status, reason, blocked_at
  admin_slot_block : ℕ → ℕ → SlotStatusEnum → String → ℕ → Action
  -- lesson, changed_count
  lesson_report_update : ℕ → ℕ → Action

pub record AuditLog : Type 0 where
  pub actor_id : Option ℕ
  pub action : Action
