-- ===== src/Tests/Rows.antt =====
-- The rows of the tests: one slot, one package, a booking on hold and a confirmed one.
use guitar_online.Base.{true, ℕ, ◌+◌, ◌*◌, none, some, List, [], ◌∷◌}
use guitar_online.Store.Enums.{
  RoleEnum, BookingStatusEnum, PackageStatusEnum, PaymentStatusEnum, LessonStatusEnum,
}
use guitar_online.Store.Rows.{User, AvailabilitySlot, Booking, LessonPackage, Payment, Lesson, hour}
use guitar_online.Store.Session.{Db, Env}
use guitar_online.Scheduling.Repository.{new_slot}
use guitar_online.Booking.Repository.{new_hold}

abbrev pub noon : ℕ
noon = 1000 * hour

-- The clock stands at noon; keys are drawn from 100 on.
abbrev pub env : Env
env = record { clock = λ n. noon; uuid4 = λ n. 100 + n }

abbrev pub student : User
student = record {
  id = 1;
  email = "student@example.com";
  full_name = "Student";
  age = none;
  password_hash = "secret";
  timezone = "UTC";
  is_active = true;
  role = RoleEnum.student;
}

abbrev pub admin : User
admin = record student { id = 2; email = "admin@example.com"; role = RoleEnum.admin }

abbrev pub slot : AvailabilitySlot
slot = new_slot 10 3 2 (noon + 48 * hour) (noon + 50 * hour)

abbrev pub pkg : LessonPackage
pkg = record {
  id = 20;
  student_id = 1;
  lessons_total = 4;
  lessons_left = 4;
  lessons_reserved = 0;
  price_amount = none;
  price_currency = none;
  expires_at = noon + 100 * hour;
  status = PackageStatusEnum.active;
}

abbrev pub hold : Booking
hold = new_hold 30 10 1 3 20 (noon + hour)

-- A hold that runs out at noon.
abbrev pub stale : Booking
stale = record hold { hold_expires_at = some noon }

abbrev pub booked : Booking
booked = record hold {
  status = BookingStatusEnum.confirmed;
  hold_expires_at = none;
  confirmed_at = some noon;
}

abbrev pub payment : Payment
payment = record {
  id = 40;
  package_id = 20;
  amount = 4900;
  currency = "USD";
  provider_name = "manual_paid";
  provider_payment_id = some "p-1";
  status = PaymentStatusEnum.pending;
  external_reference = some "ref-1";
  paid_at = none;
}

abbrev pub lesson : Lesson
lesson = record {
  id = 50;
  booking_id = 30;
  student_id = 1;
  teacher_id = 3;
  scheduled_start_at = noon + 48 * hour;
  scheduled_end_at = noon + 50 * hour;
  status = LessonStatusEnum.scheduled;
  consumed_at = none;
  topic = none;
  notes = none;
  homework = none;
  links = none;
  meeting_url = none;
  recording_url = none;
}

-- The database with these bookings and packages.
abbrev pub db : List Booking → List LessonPackage → Db
db bookings packages = record {
  slots = slot ∷ [];
  bookings = bookings;
  packages = packages;
  payments = payment ∷ [];
  lessons = lesson ∷ [];
  outbox = [];
  audit_logs = [];
  roles = RoleEnum.student ∷ RoleEnum.teacher ∷ RoleEnum.admin ∷ [];
  users = student ∷ admin ∷ [];
  refresh_tokens = [];
  teacher_profiles = [];
  windows = [];
}

abbrev pub on_hold : Db
on_hold = db (hold ∷ []) (pkg ∷ [])

abbrev pub run_out : Db
run_out = db (stale ∷ []) (pkg ∷ [])

abbrev pub confirmed : Db
confirmed = db (booked ∷ []) (record pkg { lessons_reserved = 1 } ∷ [])
