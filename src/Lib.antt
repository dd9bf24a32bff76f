-- ===== src/Lib.antt =====
-- A model of the backend of a guitar school (app/) and theorems on it: students hold, confirm,
-- cancel and move bookings of a teacher's slots and pay for them with lesson packages.
--
-- The parts and how they interact. A request runs one service method in a database session
-- (app/core/database.py, get_db_session), which commits if the method returns and rolls back if it
-- raises. A method reads and writes rows through repositories, and puts events into an outbox, which
-- a worker turns into notifications. The booking service (app/modules/booking/service.py) writes the
-- slots (app/modules/scheduling), the packages (app/modules/billing) and the lessons
-- (app/modules/lessons).
--
-- How it is modelled:
-- - Store: the statuses (app/core/enums.py), the rows (models.py of each module), the events and the
--   log, and `Exec`, a state and exception monad over the tables `Db`. `request` is get_db_session.
--   A table is a list of rows, newest first; `find` is a query by primary key, `save` the flush of a
--   changed row. `Env` has the readings of the clock and the keys that uuid4 draws. Store/Ends has
--   the rules by which a fact is proved along a method's `do` block.
-- - Base: tests on numbers, lists, tables, and loops of saves.
-- - Scheduling: Repository (queries, split_open_slot_for_booking, set_slot_status), Service
--   (create_slot); Writes has the rules for proofs, Disjoint and Split are on the overlap of slots.
--   Bulk is bulk_create_slots: its candidates (Tiles) and what it adds (Divided, Offers). Weekly is the
--   weekly schedule of a teacher (normalize_weekly_schedule_windows): Zone, Repository, Materialize
--   (the slots of the next three weeks) and Replace (replace_teacher_weekly_schedule); Apart,
--   Generated, Rows, Resolved, Replaced, Refused and Coming have the proofs.
-- - Identity (app/modules/identity, app/core/security.py): Security, Repository, Service; Rotation,
--   Logout and Roundtrip are on the tokens.
-- - Admin (app/modules/admin): Repository and Users (roles and activation), Slots (deletion and
--   blocking), Stats (get_slot_stats), Overview (the KPI and operations overviews); Synced, Served,
--   Lockout, Buckets, Totals and Backlog have the proofs.
-- - Billing: Repository (the balance of a package under the table's CHECK constraints), Packages
--   (create, purchase, cancel, expire, use), Payments (status machine, providers, creation,
--   webhooks).
-- - Lessons: Repository, Service (create_lesson, complete_lesson, mark_no_show), Moderation
--   (app/modules/lessons/moderation.py), Report (update_lesson, report_lesson); Once and Moderated
--   have the proofs.
-- - Booking: Policy, Repository, Service/Hold, Confirm, Cancel, Reschedule and Expire with a function
--   for each method of BookingService, in the order of the source's guards and writes; Machine, an
--   abstract step relation, with a child for each method that shows that it takes such steps;
--   Exclusive and Ledger, the invariants of the machine; Effects and Refund, what a confirmation and
--   a cancellation write; Confirmation, all outcomes of confirm_booking; Requests, calls one after
--   another.
-- - Notifications: the messages of an event, the delivery loop, the backoff and the batches of
--   app/modules/notifications/outbox_worker.py; Reminders is reminder_worker.py.
-- - RateLimit: the in-memory window of app/core/rate_limit.py; Client and Keys are
--   app/modules/identity/rate_limit.py.
-- - Tests: concrete rows and the theorems at them.
--
-- Numbers: keys are natural numbers that are only compared; a datetime is a number of microseconds
-- in UTC, so that ensure_utc does nothing; money is in hundredths. Loops are structural recursion
-- over lists or counts; only that over a day's candidates is on fuel, a round for each microsecond of
-- the day, and Bulk/Tiles shows that it is enough. Requests run one at a time, which is what the
-- row locks are for. Texts of errors stand as the source writes them, f-strings with their braces.
--
-- Parameters: Python's str methods (`Str`) and its ipaddress, the delivery client, providers other
-- than the manual one, the text of a key, the zone database, PyJWT and passlib (`Crypto`, whose
-- documented behaviour is `IsCrypto`), SQL's LIKE, the engine of Python's re, str.format, and the
-- names that build_default_full_name and _default_teacher_display_name derive from an email.
--
-- Not modelled: HTTP routers, schemas and error responses; paged listings, of teachers, audit logs
-- and the back office among them, and the sales overview; a schedule's payload in Moscow time; a
-- commit of the outbox worker that fails; the Redis rate limiter; migrations, scripts and web pages.
pub mod Base
pub mod Store
pub mod Scheduling
pub mod Billing
pub mod Lessons
pub mod Identity
pub mod Admin
pub mod Booking
pub mod Notifications
pub mod RateLimit
pub mod Tests
