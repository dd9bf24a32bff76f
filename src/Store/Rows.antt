-- ===== src/Store/Rows.antt =====
-- The ORM models: scheduling, booking, billing and lessons. Primary keys are numbers, compared
-- only. A datetime is the number of microseconds since 0001-01-01T00:00 in UTC, a date the number of
-- days since then, which was a Monday, and a time of day the number of microseconds since midnight.
use guitar_online.Base.{ℕ, ◌%◌, Bool, Option, List, String}
use guitar_online.Store.Enums.{
  RoleEnum, SlotStatusEnum, BookingStatusEnum, PackageStatusEnum, PaymentStatusEnum,
  LessonStatusEnum, TeacherStatusEnum,
}

-- `timedelta(minutes=1)` and `timedelta(hours=1)`
abbrev pub minute : ℕ
minute = 60_000_000

abbrev pub hour : ℕ
hour = 3_600_000_000

abbrev pub day : ℕ
day = 86_400_000_000

-- `date.weekday()`, where 0 is Monday.
abbrev pub weekday : ℕ → ℕ
weekday date = date % 7

-- A role's name is unique, so `role` is the name of the role that `role_id` refers to.
pub record User : Type 0 where
  pub id : ℕ
  pub email : String
  pub full_name : String
  pub age : Option ℕ
  pub password_hash : String
  pub timezone : String
  pub is_active : Bool
  pub role : RoleEnum

-- `token_id` is the text of a key that `uuid4` drew, so it is a number here.
pub record RefreshToken : Type 0 where
  pub user_id : ℕ
  pub token_id : ℕ
  pub expires_at : ℕ
  pub revoked_at : Option ℕ

pub record TeacherProfile : Type 0 where
  pub id : ℕ
  pub user_id : ℕ
  pub display_name : String
  pub bio : String
  pub experience_years : ℕ
  pub status : TeacherStatusEnum

-- A window as the services pass it on: the tuple (weekday, start_local_time, end_local_time).
pub record Window : Type 0 where
  pub weekday : ℕ
  pub start_local_time : ℕ
  pub end_local_time : ℕ

pub record TeacherWeeklyScheduleWindow : Type 0 where
  pub id : ℕ
  pub teacher_id : ℕ
  pub weekday : ℕ
  pub start_local_time : ℕ
  pub end_local_time : ℕ

pub record AvailabilitySlot : Type 0 where
  pub id : ℕ
  pub teacher_id : ℕ
  pub created_by_admin_id : ℕ
  pub start_at : ℕ
  pub end_at : ℕ
  pub status : SlotStatusEnum
  pub block_reason : Option String
  pub blocked_at : Option ℕ
  pub blocked_by_admin_id : Option ℕ

pub record Booking : Type 0 where
  pub id : ℕ
  pub slot_id : ℕ
  pub student_id : ℕ
  pub teacher_id : ℕ
  pub package_id : Option ℕ
  pub status : BookingStatusEnum
  pub hold_expires_at : Option ℕ
  pub confirmed_at : Option ℕ
  pub canceled_at : Option ℕ
  pub cancellation_reason : Option String
  pub refund_returned : Bool
  pub rescheduled_from_booking_id : Option ℕ

-- `price_amount` is in hundredths, the scale of its column.
pub record LessonPackage : Type 0 where
  pub id : ℕ
  pub student_id : ℕ
  pub lessons_total : ℕ
  pub lessons_left : ℕ
  pub lessons_reserved : ℕ
  pub price_amount : Option ℕ
  pub price_currency : Option String
  pub expires_at : ℕ
  pub status : PackageStatusEnum

pub record Payment : Type 0 where
  pub id : ℕ
  pub package_id : ℕ
  pub amount : ℕ
  pub currency : String
  pub provider_name : String
  pub provider_payment_id : Option String
  pub status : PaymentStatusEnum
  pub external_reference : Option String
  pub paid_at : Option ℕ

pub record Lesson : Type 0 where
  pub id : ℕ
  pub booking_id : ℕ
  pub student_id : ℕ
  pub teacher_id : ℕ
  pub scheduled_start_at : ℕ
  pub scheduled_end_at : ℕ
  pub status : LessonStatusEnum
  pub consumed_at : Option ℕ
  pub topic : Option String
  pub notes : Option String
  pub homework : Option String
  pub links : Option (List String)
  pub meeting_url : Option String
  pub recording_url : Option String

-- The primary keys, as the tables take them.
abbrev pub slot_key : AvailabilitySlot → ℕ
slot_key s = s.id

abbrev pub booking_key : Booking → ℕ
booking_key b = b.id

abbrev pub package_key : LessonPackage → ℕ
package_key p = p.id

abbrev pub payment_key : Payment → ℕ
payment_key p = p.id

abbrev pub lesson_key : Lesson → ℕ
lesson_key l = l.id

abbrev pub user_key : User → ℕ
user_key u = u.id

-- Of the refresh tokens, the unique `token_id`.
abbrev pub token_key : RefreshToken → ℕ
token_key t = t.token_id

-- Of the teacher profiles, the unique `user_id`.
abbrev pub profile_key : TeacherProfile → ℕ
profile_key p = p.user_id
