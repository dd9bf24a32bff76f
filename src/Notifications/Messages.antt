-- ===== src/Notifications/Messages.antt =====
-- `_build_messages` (app/modules/notifications/outbox_worker.py): the messages of an event. A title
-- and a body stand as a `Content`, which has the values that the source formats into them.
use guitar_online.Base.{ℕ, Option, none, some, List, [], ◌∷◌, ◌==◌, if◌then◌else◌}
use guitar_online.Store.Enums.{PaymentStatusEnum}
use guitar_online.Store.Events.{
  Event, booking_hold_created, booking_confirmed, booking_canceled, booking_hold_expired,
  booking_rescheduled, lesson_created, lesson_canceled, package_created, package_expired,
  package_canceled, payment_created, payment_status_updated,
}

pub data Content : Type 0 where
  -- the templates BOOKING_CONFIRMED and BOOKING_CANCELED
  confirmed_booking canceled_booking : ℕ → Content
  -- without a template
  scheduled_lesson canceled_lesson new_package over_package : ℕ → Content
  changed_payment : ℕ → PaymentStatusEnum → Content

-- NotificationMessage; the channel is always "email".
pub record NotificationMessage : Type 0 where
  pub user_id : ℕ
  pub content : Content

-- `template_key or "none"`, as a number: 0 stands for "none".
abbrev pub template_code : Content → ℕ
template_code (confirmed_booking id) = 1
template_code (canceled_booking id) = 2
template_code _ = 0

-- `_unique_recipients` of two recipients that are present.
abbrev pub unique_recipients : ℕ → ℕ → List ℕ
unique_recipients a b = if b == a then a ∷ [] else a ∷ b ∷ []

abbrev to_each : Content → List ℕ → List NotificationMessage
to_each content [] = []
to_each content (u ∷ rest) = record { user_id = u; content = content } ∷ to_each content rest

-- The first argument is `get_payment_student_id`; `none` is the worker's ValueError.
unfoldable pub build_messages : (ℕ → Option ℕ) → Event → Option (List NotificationMessage)
build_messages student_of (booking_confirmed booking student slot) =
    some (to_each (confirmed_booking booking) (student ∷ []))
build_messages student_of (booking_canceled booking student slot refund_returned) =
    some (to_each (canceled_booking booking) (student ∷ []))
build_messages student_of (booking_rescheduled new_booking old_booking student reason) = some (
    record { user_id = student; content = canceled_booking old_booking }
    ∷ record { user_id = student; content = confirmed_booking new_booking }
    ∷ [])
build_messages student_of (booking_hold_created booking slot student start end) = some []
build_messages student_of (booking_hold_expired booking slot) = some []
build_messages student_of (lesson_created lesson booking student teacher) =
    some (to_each (scheduled_lesson lesson) (unique_recipients student teacher))
build_messages student_of (lesson_canceled lesson booking student teacher reason) =
    some (to_each (canceled_lesson lesson) (unique_recipients student teacher))
build_messages student_of (package_created pkg student total price currency plan) =
    some (to_each (new_package pkg) (student ∷ []))
build_messages student_of (package_expired pkg student trigger) =
    some (to_each (over_package pkg) (student ∷ []))
build_messages student_of (package_canceled pkg student from to) = some []
build_messages student_of (payment_created payment pkg status provider) = some []
build_messages student_of (payment_status_updated payment from to) = elim (student_of payment) [
  | none ↦ none
  | some student ↦ some (to_each (changed_payment payment to) (student ∷ []))
]
