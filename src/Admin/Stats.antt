-- ===== src/Admin/Stats.antt =====
-- `AdminService.get_slot_stats` (app/modules/admin/service.py) and its query
-- (app/modules/admin/repository.py, `list_slot_status_snapshots`).
use guitar_online.Base.{
  ℕ, Bool, true, false, not, ◌&&◌, ◌||◌, Option, none, some, List, [], ◌∷◌, ◌++◌, map, length, leb,
  ltb, ◌==◌, select, tally, if◌then◌else◌,
}
use guitar_online.Store.Enums.{SlotStatusEnum, BookingStatusEnum, LessonStatusEnum, is_admin}
use guitar_online.Store.Rows.{User, AvailabilitySlot, Booking, Lesson}
use guitar_online.Store.Session.{
  Db, Exec, business, unauthorized, pure, gets, raise_if, ◌>>=◌, ◌>>◌,
}

pub record Snapshot : Type 0 where
  pub slot_id : ℕ
  pub slot_status : SlotStatusEnum
  pub booking_status : Option BookingStatusEnum
  pub lesson_status : Option LessonStatusEnum

-- ACTIVE_BOOKING_STATUSES
abbrev pub is_active_booking : BookingStatusEnum → Bool
is_active_booking BookingStatusEnum.hold = true
is_active_booking BookingStatusEnum.confirmed = true
is_active_booking _ = false

abbrev pub joins_slot : ℕ → Booking → Bool
joins_slot id b = (b.slot_id == id) && is_active_booking b.status

abbrev pub joins_booking : ℕ → Lesson → Bool
joins_booking id l = l.booking_id == id

abbrev pub snapshot : AvailabilitySlot → Option Booking → Option Lesson → Snapshot
snapshot s b l = record {
  slot_id = s.id;
  slot_status = s.status;
  booking_status = elim b [ none ↦ none | some b ↦ some b.status ];
  lesson_status = elim l [ none ↦ none | some l ↦ some l.status ];
}

-- The outer join of a booking with its lessons.
abbrev pub lesson_rows : AvailabilitySlot → Booking → List Lesson → List Snapshot
lesson_rows s b [] = snapshot s (some b) none ∷ []
lesson_rows s b (l ∷ ls) = map (λ l. snapshot s (some b) (some l)) (l ∷ ls)

unfoldable pub booking_rows : List Lesson → AvailabilitySlot → List Booking → List Snapshot
booking_rows lessons s [] = []
booking_rows lessons s (b ∷ bs) =
    lesson_rows s b (select (joins_booking b.id) lessons) ++ booking_rows lessons s bs

-- The outer join of a slot with its active bookings.
abbrev pub joined : List Lesson → AvailabilitySlot → List Booking → List Snapshot
joined lessons s [] = snapshot s none none ∷ []
joined lessons s (b ∷ bs) = booking_rows lessons s (b ∷ bs)

abbrev pub slot_rows : Db → AvailabilitySlot → List Snapshot
slot_rows d s = joined d.lessons s (select (joins_slot s.id) d.bookings)

unfoldable pub all_rows : Db → List AvailabilitySlot → List Snapshot
all_rows d [] = []
all_rows d (s ∷ slots) = slot_rows d s ++ all_rows d slots

abbrev pub from_ok : Option ℕ → ℕ → Bool
from_ok none start = true
from_ok (some from_utc) start = leb from_utc start

abbrev pub to_ok : Option ℕ → ℕ → Bool
to_ok none start = true
to_ok (some to_utc) start = leb start to_utc

abbrev pub in_range : Option ℕ → Option ℕ → AvailabilitySlot → Bool
in_range from_utc to_utc s = from_ok from_utc s.start_at && to_ok to_utc s.start_at

abbrev pub list_slot_status_snapshots : Option ℕ → Option ℕ → Exec (List Snapshot)
list_slot_status_snapshots from_utc to_utc =
    gets λ d. all_rows d (select (in_range from_utc to_utc) d.slots)

-- The buckets; `open_bucket` is "open".
pub data Bucket : Type 0 where
  open_bucket held confirmed canceled completed : Bucket

abbrev pub priority : Bucket → ℕ
priority open_bucket = 1
priority held = 2
priority confirmed = 3
priority canceled = 4
priority completed = 5

abbrev pub is_done : Option LessonStatusEnum → Bool
is_done (some LessonStatusEnum.completed) = true
is_done (some LessonStatusEnum.no_show) = true
is_done _ = false

abbrev pub is_canceled : Option LessonStatusEnum → Bool
is_canceled (some LessonStatusEnum.canceled) = true
is_canceled _ = false

abbrev pub is_withdrawn : SlotStatusEnum → Bool
is_withdrawn SlotStatusEnum.canceled = true
is_withdrawn SlotStatusEnum.blocked = true
is_withdrawn _ = false

abbrev pub is_booked : SlotStatusEnum → Bool
is_booked SlotStatusEnum.booked = true
is_booked _ = false

abbrev pub is_on_hold : SlotStatusEnum → Bool
is_on_hold SlotStatusEnum.hold = true
is_on_hold _ = false

abbrev pub is_confirmed_booking : Option BookingStatusEnum → Bool
is_confirmed_booking (some BookingStatusEnum.confirmed) = true
is_confirmed_booking _ = false

abbrev pub is_held_booking : Option BookingStatusEnum → Bool
is_held_booking (some BookingStatusEnum.hold) = true
is_held_booking _ = false

unfoldable pub resolve_slot_stats_bucket : Snapshot → Bucket
resolve_slot_stats_bucket row =
    if is_done row.lesson_status
    then completed
    else if is_canceled row.lesson_status
    then canceled
    else if is_withdrawn row.slot_status
    then canceled
    else if is_booked row.slot_status || is_confirmed_booking row.booking_status
    then confirmed
    else if is_on_hold row.slot_status || is_held_booking row.booking_status
    then held
    else open_bucket

-- SlotBookingAggregateStatusEnum
pub data SlotBookingAggregateStatusEnum : Type 0 where
  open_status held_status confirmed_status : SlotBookingAggregateStatusEnum

unfoldable pub aggregate_slot_booking_status :
    SlotStatusEnum → Option BookingStatusEnum → SlotBookingAggregateStatusEnum
aggregate_slot_booking_status slot_status booking_status =
    if is_booked slot_status || is_confirmed_booking booking_status
    then confirmed_status
    else if is_on_hold slot_status || is_held_booking booking_status
    then held_status
    else open_status

-- `final_bucket_by_slot`, in the order of insertion.
abbrev pub Final : Type 0
Final = List (ℕ × Bucket)

abbrev pub higher : Bucket → Bucket → Bucket
higher bucket current_bucket =
    if ltb (priority current_bucket) (priority bucket) then bucket else current_bucket

-- The body of the loop over the rows.
unfoldable pub record_bucket : ℕ → Bucket → Final → Final
record_bucket slot_id bucket [] = (slot_id, bucket) ∷ []
record_bucket slot_id bucket ((k, current_bucket) ∷ rest) =
    let later = record_bucket slot_id bucket rest in
    if k == slot_id then (k, higher bucket current_bucket) ∷ rest else (k, current_bucket) ∷ later

unfoldable pub final_buckets : List Snapshot → Final → Final
final_buckets [] final = final
final_buckets (row ∷ rows) final =
    final_buckets rows (record_bucket row.slot_id (resolve_slot_stats_bucket row) final)

abbrev pub in_bucket : Bucket → ℕ × Bucket → Bool
in_bucket b (k, c) = priority c == priority b

pub record AdminSlotStatsRead : Type 0 where
  pub total_slots : ℕ
  pub open_slots : ℕ
  pub held_slots : ℕ
  pub confirmed_slots : ℕ
  pub canceled_slots : ℕ
  pub completed_slots : ℕ

abbrev pub stats_of : Final → AdminSlotStatsRead
stats_of final = record {
  total_slots = length final;
  open_slots = tally (in_bucket open_bucket) final;
  held_slots = tally (in_bucket held) final;
  confirmed_slots = tally (in_bucket confirmed) final;
  canceled_slots = tally (in_bucket canceled) final;
  completed_slots = tally (in_bucket completed) final;
}

abbrev pub is_reversed : Option ℕ → Option ℕ → Bool
is_reversed (some from_utc) (some to_utc) = ltb to_utc from_utc
is_reversed _ _ = false

unfoldable pub get_slot_stats : User → Option ℕ → Option ℕ → Exec AdminSlotStatsRead
get_slot_stats actor from_utc to_utc = do
  raise_if (not (is_admin actor.role)) (unauthorized "Only admin can view slot stats")
  raise_if (is_reversed from_utc to_utc) (business "from_utc must be less than or equal to to_utc")
  rows ← list_slot_status_snapshots from_utc to_utc
  pure (stats_of (final_buckets rows []))
