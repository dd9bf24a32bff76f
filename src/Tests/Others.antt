-- ===== src/Tests/Others.antt =====
-- Lessons, slots, notifications and the rate limit at concrete values.
use guitar_online.Base.{
  tally, some, ◌+◌, ◌*◌, ◌≡◌, refl, true, none, [], ◌∷◌, first_match, arith, List,
}
use guitar_online.Base.Table.{find, save}
use guitar_online.Store.Enums.{OutboxStatusEnum}
use guitar_online.Store.Rows.{slot_key, hour}
use guitar_online.Store.Events.{OutboxEvent, booking_confirmed}
use guitar_online.Store.Settings.{default_settings}
use guitar_online.Store.Session.{ok, ◌>>=◌}
use guitar_online.Store.Ends.{Ends}
use guitar_online.Billing.Repository.{save_package, consume_reserved_package_lesson}
use guitar_online.Lessons.Service.{charged_package, completed_at, complete_lesson}
use guitar_online.Lessons.Once.{Completed, complete_lesson-Completed, complete_lesson_twice}
use guitar_online.Scheduling.Repository.{split_open_slot_for_booking}
use guitar_online.Scheduling.Split.{covers, split_open_slot_for_booking-covers}
use guitar_online.Scheduling.Service.{SlotCreate, create_slot}
use guitar_online.Scheduling.Disjoint.{Created, create_slot-Created}
use guitar_online.Notifications.Messages.{
  build_messages, NotificationMessage, confirmed_booking, canceled_booking,
}
use guitar_online.Notifications.Mailbox.{Mailbox, DeliveryClient, delivered, refused, set_status}
use guitar_online.Notifications.Worker.{process_event, deliver, deliver_all}
use guitar_online.Notifications.Outcome.{Ended, process_event-Ended}
use guitar_online.Notifications.Once.{deliver_all_twice}
use guitar_online.Notifications.Backoff.{Retry}
use guitar_online.RateLimit.Limit.{IsLimited, IsMonotone, serve, empty_log, serve-IsLimited}
use guitar_online.Tests.Rows.{slot, env, noon, admin, lesson, confirmed}

complete_lesson-Completed_example :
    Ends (Completed 50 admin confirmed) (complete_lesson env 50 admin) confirmed
complete_lesson-Completed_example = complete_lesson-Completed env 50 admin confirmed

complete_lesson_runs : (complete_lesson env 50 admin confirmed).0 ≡ ok (completed_at noon lesson)
unfolding complete_lesson charged_package consume_reserved_package_lesson save_package ◌>>=◌ find
    save
complete_lesson_runs = refl

complete_lesson_twice_example :
    Ends
      (λ r e.
        (r ≡ ok (completed_at noon lesson)) × (e ≡ (complete_lesson env 50 admin confirmed).1))
      (complete_lesson env 50 admin)
      (complete_lesson env 50 admin confirmed).1
complete_lesson_twice_example =
    complete_lesson_twice env env 50 admin (completed_at noon lesson) confirmed complete_lesson_runs

abbrev morning : SlotCreate
morning = record { teacher_id = 3; start_at = noon + 2 * hour; end_at = noon + 3 * hour }

create_slot-Created_example :
    Ends
      (Created default_settings (env.clock 0) confirmed)
      (create_slot default_settings env morning admin)
      confirmed
create_slot-Created_example =
    create_slot-Created default_settings env morning admin confirmed (tt, tt)

abbrev two_messages : List NotificationMessage
two_messages =
    record { user_id = 1; content = canceled_booking 30 }
    ∷ record { user_id = 1; content = confirmed_booking 31 }
    ∷ []

abbrev working : DeliveryClient
working n m = delivered

abbrev failing : DeliveryClient
failing n m = refused

abbrev empty : Mailbox
empty = record { notifications = []; sends = [] }

both_delivered : (deliver_all working (λ n. noon) 60 0 0 two_messages empty).done ≡ true
unfolding deliver_all deliver set_status first_match
both_delivered = refl

deliver_all_twice_example :
    deliver_all failing
      (λ n. noon)
      60
      0
      0
      two_messages
      (deliver_all working (λ n. noon) 60 0 0 two_messages empty).box
    ≡ record {
      done = true;
      count = 0;
      box = (deliver_all working (λ n. noon) 60 0 0 two_messages empty).box;
    }
deliver_all_twice_example =
    deliver_all_twice working failing (λ n. noon) (λ n. noon) 60 two_messages empty both_delivered

abbrev retry : Retry
retry = record { max_retries = 5; base_backoff_seconds = 30; max_backoff_seconds = 300 }

abbrev failure : OutboxEvent
failure = record {
  id = 60;
  event = booking_confirmed 30 1 10;
  status = OutboxStatusEnum.failed;
  occurred_at = 0;
  updated_at = 0;
  processed_at = none;
  retries = 2;
  error_message = none;
}

times-IsMonotone : IsMonotone 0 (5 ∷ 6 ∷ 7 ∷ 20 ∷ [])
unfolding IsMonotone
times-IsMonotone = (omega arith, (omega arith, (omega arith, (omega arith, tt))))

serve-IsLimited_example : IsLimited 2 10 (serve 2 10 (5 ∷ 6 ∷ 7 ∷ 20 ∷ []) empty_log).admitted
serve-IsLimited_example = serve-IsLimited 2 10 (5 ∷ 6 ∷ 7 ∷ 20 ∷ []) times-IsMonotone

abbrev confirmation : List NotificationMessage
confirmation = record { user_id = 1; content = confirmed_booking 30 } ∷ []

failure-messages : build_messages (λ n. none) failure.event ≡ some confirmation
unfolding build_messages
failure-messages = refl

process_event-Ended_example :
    Ended working
      (λ n. none)
      (λ n. noon)
      failure
      empty
      confirmation
      (process_event working (λ n. none) (λ n. noon) failure empty)
process_event-Ended_example =
    process_event-Ended working (λ n. none) (λ n. noon) failure empty confirmation failure-messages

slot_is_found : find slot_key 10 confirmed.slots ≡ some slot
unfolding find
slot_is_found = refl

split_open_slot_for_booking-covers_example :
    tally
      (covers 3 noon)
      (split_open_slot_for_booking 100 101 slot
        (noon + 49 * hour)
        (noon + 50 * hour)
        confirmed).1.slots
    ≡ tally (covers 3 noon) confirmed.slots
split_open_slot_for_booking-covers_example =
    split_open_slot_for_booking-covers 100 101 slot (noon + 49 * hour) (noon + 50 * hour) confirmed
      (omega arith) (omega arith) slot_is_found (omega arith) (omega arith) (omega arith) 3 noon
