-- ===== src/Store/Session.antt =====
-- One request's database session (app/core/database.py) and the exceptions that end it
-- (app/shared/exceptions.py). A service method is an `Exec`: it returns or raises, and the rows that
-- it wrote stay written in the session until `request` commits or rolls back. Requests run one at a
-- time, which is what the row locks (`with_for_update`) are for.
use guitar_online.Base.{ℕ, Bool, true, false, Option, none, some, List, ◌∷◌, String, ◌+◌}
use guitar_online.Store.Enums.{OutboxStatusEnum, RoleEnum}
use guitar_online.Store.Rows.{
  AvailabilitySlot, Booking, LessonPackage, Payment, Lesson, User, RefreshToken, TeacherProfile,
  TeacherWeeklyScheduleWindow,
}
use guitar_online.Store.Events.{Event, OutboxEvent, Action, AuditLog}

-- Each table newest row first. Of a role there is only its name.
pub record Db : Type 0 where
  pub slots : List AvailabilitySlot
  pub bookings : List Booking
  pub packages : List LessonPackage
  pub payments : List Payment
  pub lessons : List Lesson
  pub outbox : List OutboxEvent
  pub audit_logs : List AuditLog
  pub roles : List RoleEnum
  pub users : List User
  pub refresh_tokens : List RefreshToken
  pub teacher_profiles : List TeacherProfile
  pub windows : List TeacherWeeklyScheduleWindow

-- What the outside answers during one call: the readings of `utc_now` in the order of the calls,
-- and the primary keys that `uuid4` draws, one for each place that creates a row.
pub record Env : Type 0 where
  pub clock : ℕ → ℕ
  pub uuid4 : ℕ → ℕ

-- The environment of a method that is called after so many readings and draws.
abbrev pub after : ℕ → ℕ → Env → Env
after readings draws env = record {
  clock = λ n. env.clock (readings + n);
  uuid4 = λ n. env.uuid4 (draws + n);
}

-- The text of an f-string stands as the source has it, with its braces.
-- `integrity` is the database's refusal of a row that breaks a constraint.
pub data Error : Type 0 where
  business not_found unauthorized conflict : String → Error
  integrity : Error
  -- HTTPException: status_code, detail
  http_exception : ℕ → String → Error

-- The exceptions of `except BusinessRuleException`.
abbrev pub IsBusiness : Error → Type 0
IsBusiness (business message) = Unit
IsBusiness _ = ⊥

pub data Result (A : Type 0) : Type 0 where
  ok : A → Result A
  err : Error → Result A

abbrev pub Exec : Type 0 → Type 0
Exec A = Db → Result A × Db

module _ {A : Type 0} where
  pub pure : A → Exec A
  pure a d = (ok a, d)

  pub raise : Error → Exec A
  raise e d = (err e, d)

  pub gets : (Db → A) → Exec A
  gets f d = (ok (f d), d)

  -- `if x is None: raise …`
  pub or_raise : Option A → Error → Exec A
  or_raise none e d = (err e, d)
  or_raise (some a) e d = (ok a, d)

-- `if c: raise …`
pub raise_if : Bool → Error → Exec (Unit {0})
raise_if true e d = (err e, d)
raise_if false e d = (ok tt, d)

pub modify : (Db → Db) → Exec (Unit {0})
modify f d = (ok tt, f d)

-- A branch on a query that may find nothing.
pub if_found : {A B : Type 0} → Option A → Exec B → (A → Exec B) → Exec B
if_found none m f = m
if_found (some a) m f = f a

abbrev pub continue : {A B : Type 0} → Result A → (A → Exec B) → Exec B
continue (ok a) f d = f a d
continue (err e) f d = (err e, d)

infixl 5 ◌>>=◌ ◌>>◌
-- To open this opens the actions above too.
unfoldable pub ◌>>=◌ : {A B : Type 0} → Exec A → (A → Exec B) → Exec B
unfolding pure raise gets or_raise raise_if modify if_found
◌>>=◌ m f d = let (r, d') = m d in continue r f d'

abbrev pub ◌>>◌ : {A B : Type 0} → Exec A → Exec B → Exec B
m >> k = m >>= λ _. k

-- `get_db_session`: commit on return, roll back on an exception.
abbrev pub close : {A : Type 0} → Result A → Db → Db → Result A × Db
close (ok a) d d' = (ok a, d')
close (err e) d d' = (err e, d)

-- A method in a session of its own.
unfoldable pub request : {A : Type 0} → Exec A → Exec A
request m d = let (r, d') = m d in close r d d'

-- `try: m except BusinessRuleException as exc: handler(exc.message)`. What `m` wrote stays written.
abbrev pub handle : {A : Type 0} → Result A → (String → Exec A) → Exec A
handle (ok a) handler d = (ok a, d)
handle (err (business message)) handler d = handler message d
handle (err e) handler d = (err e, d)

unfoldable pub except_business : {A : Type 0} → Exec A → (String → Exec A) → Exec A
except_business m handler d = let (r, d') = m d in handle r handler d'

-- AuditRepository.create_audit_log
abbrev pub create_audit_log : Option ℕ → Action → Exec (Unit {0})
create_audit_log actor_id action =
    modify
      λ d. record d { audit_logs = record { actor_id = actor_id; action = action } ∷ d.audit_logs }

-- AuditRepository.create_outbox_event; `id` and `now` are the defaults of its columns.
abbrev pub create_outbox_event : ℕ → ℕ → Event → Exec (Unit {0})
create_outbox_event id now event = modify λ d. record d {
  outbox =
      record {
        id = id;
        event = event;
        status = OutboxStatusEnum.pending;
        occurred_at = now;
        updated_at = now;
        processed_at = none;
        retries = 0;
        error_message = none;
      }
      ∷ d.outbox;
}
